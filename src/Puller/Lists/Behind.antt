-- ===== src/Puller/Lists/Behind.antt =====
-- A loop over the lines of a list comes back, and leaves the article as it ends.
use nksrv.Base.{
  ℕ, zero, suc, ◌<◌, ◌≡◌, refl, sym, ap, ◌∙◌, true, List, [], ◌∷◌, Option, none, some, Bytes, arith,
}
use mathlib.Core.Path.{subst}
use nksrv.BufReader.Stream.{Item, byte, error}
use nksrv.DotReader.{Dot, is_eof}
use nksrv.DotReader.Scan.{
  DotErr, article_end, cut_off, broken_off, Verdict, ScanEnd, answered, stopped, scan,
}
use nksrv.DotReader.Scan.Ending.{ending, size, KeepsEnding, KeepsEnding-scan}
use nksrv.Puller.Lines.{Try, ok, err}
use nksrv.Puller.Lists.{Fault, LoopEnd, lines_loop, after_scan, after_line}

-- A call comes back with something that satisfies a predicate.
pub data Returns {A : Type 0} (P : A → Type 0) : Option A → Type 0 where
  returns : (a : A) → P a → Returns P (some a)

-- The reader is behind an article that ends properly, or in front of the same end.
abbrev pub LeavesEnding : {X : Type 0} → DotErr × List Item → LoopEnd X → Type 0
LeavesEnding t r = t.0 ≡ article_end → ending r.dot r.rest ≡ t

-- At the end of the list the reader is behind the article.
abbrev pub IsBehind : Option Fault → DotErr × List Item → List Item → Type 0
IsBehind none t is = (article_end, is) ≡ t
IsBehind (some e) t is = Unit

-- How a loop leaves the article that stands in front.
abbrev pub Leaves : {X : Type 0} → DotErr × List Item → LoopEnd X → Type 0
Leaves t r = LeavesEnding t r × IsBehind r.how t r.rest

pub ending-eof :
    (d : Dot) (is : List Item) → is_eof d.state ≡ true → ending d is ≡ (article_end, is)
unfolding ending
ending-eof d [] h = rw (ending, h) refl
ending-eof d (error e ∷ is) h = rw (ending, h) refl
ending-eof d (byte c ∷ is) h = rw (ending, h) refl

module _ {S X : Type 0} (f : S → ℕ → Verdict S (Try Bytes)) (s0 : S)
    (on : Bytes → X → Option Fault × X) (P : X → Type 0)
    (keeps : (line : Bytes) (x : X) → P x → P (on line x).1) where
  abbrev Fine : DotErr × List Item → LoopEnd X → Type 0
  Fine t r = Leaves t r × P r.out

  after_line-Returns :
      (t : DotErr × List Item) (l : Option Fault × X) (d : Dot) (is : List Item)
      (again : X → Option (LoopEnd X))
      → ending d is ≡ t
      → P l.1
      → ((x : X) → P x → Returns (Fine t) (again x))
      → Returns (Fine t) (after_line f s0 on l d is again)
  after_line-Returns t (none, x) d is again e p h = h x p
  after_line-Returns t (some k, x) d is again e p h = returns _ (((λ q. e), tt), p)

  after_scan-Returns :
      (t : DotErr × List Item) (n : ℕ) (how : ScanEnd S (Try Bytes)) (d : Dot) (is : List Item)
      (x : X) (again : X → Option (LoopEnd X))
      → KeepsEnding t n (record { how = how; dot = d; rest = is })
      → P x
      → ((x : X) → ending d is ≡ t → size d is < n → P x → Returns (Fine t) (again x))
      → Returns (Fine t) (after_scan f s0 on how d is x again)
  after_scan-Returns t n (answered (ok line)) d is x again k p h =
      after_line-Returns t (on line x) d is again k.0 (keeps line x p) λ x' p'. h x' k.0 k.1 p'
  after_scan-Returns t n (answered (err e)) d is x again k p h = returns _ (((λ q. k.0), tt), p)
  after_scan-Returns t n (stopped s article_end) d is x again k p h =
      returns _ (((λ q. ending-eof d is (k.1.0 q) ∙ k.0), k.0), p)
  after_scan-Returns t n (stopped s cut_off) d is x again k p h = returns _ (
    (
      (λ q. ending-eof d is (k.1.0 q) ∙ ap (λ e. (e, is)) (sym q ∙ sym (ap (λ u. u.0) k.0)) ∙ k.0),
      tt,
    ),
    p,
  )
  after_scan-Returns t n (stopped s (broken_off e)) d is x again k p h = returns _ (
    (
      (λ q. ending-eof d is (k.1.0 q) ∙ ap (λ e. (e, is)) (sym q ∙ sym (ap (λ u. u.0) k.0)) ∙ k.0),
      tt,
    ),
    p,
  )

  -- More fuel than there is to read is enough, and what each line keeps the loop keeps.
  pub lines_loop-Returns :
      (n : ℕ) (d : Dot) (is : List Item) (x : X)
      → size d is < n
      → P x
      → Returns (Fine (ending d is)) (lines_loop f s0 on n d is x)
  unfolding lines_loop
  lines_loop-Returns zero d is x l p = absurd (omega arith)
  lines_loop-Returns (suc n) d is x l p =
      let r = scan f s0 d is in
      after_scan-Returns (ending d is) (size d is) r.how r.dot r.rest x
        (lines_loop f s0 on n r.dot r.rest) (KeepsEnding-scan f s0 d is) p
        λ x' e m p'.
          subst (λ t. Returns (Fine t) (lines_loop f s0 on n r.dot r.rest x')) e
            (lines_loop-Returns n r.dot r.rest x' (omega arith) p')
