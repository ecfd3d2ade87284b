-- ===== src/DotReader/Scan/Ending.antt =====
-- Loops over the bytes of an article do not lose its end.
use nksrv.Base.{
  ℕ, suc, ◌+◌, ◌*◌, ◌≤◌, ◌<◌, ◌≡◌, refl, ap, ◌∙◌, Bool, true, false, List, [], ◌∷◌, Option, none,
  some, if◌then◌else◌, length, arith, Bool-cases, inl, inr,
}
use nksrv.BufReader.{ReadErr, at_end, failed}
use nksrv.BufReader.Stream.{Item, byte, error}
use nksrv.DotReader.{
  DotState, begin_line, dot, non_begin, dot_cr, cr, eof, Dot, is_eof, process, process_in,
}
use nksrv.DotReader.Scan.{
  DotErr, article_end, cut_off, dot_err, Verdict, more, answer, ScanEnd, answered, stopped, Scan,
  out_of, scan, discard,
}

-- How the article ends that a reader is in, and what stands behind it.
unfoldable pub ending : Dot → List Item → DotErr × List Item
ending d [] = (if is_eof d.state then article_end else cut_off, [])
ending d (error e ∷ is) = if is_eof d.state then (article_end, error e ∷ is) else (dot_err e, is)
ending d (byte c ∷ is) =
    let st = process d c in
    let once = ending st.next is in
    let twice = ending (process st.next c).next is in
    if is_eof d.state then (article_end, byte c ∷ is) else if st.back then twice else once

-- A byte can be put back.
abbrev waits_cr : DotState → ℕ
waits_cr cr = 1
waits_cr dot_cr = 1
waits_cr _ = 0

-- What is left to read: a byte that is put back counts twice.
abbrev pub size : Dot → List Item → ℕ
size d is = 2 * length is + waits_cr d.state

-- A loop with an answer has read something, and leaves the article as it ends. One without has
-- come to its end, and the reader stays there when it is the proper one.
abbrev pub KeepsEnding : {S A : Type 0} → DotErr × List Item → ℕ → Scan S A → Type 0
KeepsEnding t n r = elim r.how [
  | answered a ↦ (ending r.dot r.rest ≡ t) × (size r.dot r.rest < n)
  | stopped s e ↦
      ((e, r.rest) ≡ t)
      × ((t.0 ≡ article_end → is_eof r.dot.state ≡ true) × (size r.dot r.rest ≤ n))
]

dot_err-cut : (e : ReadErr) → dot_err e ≡ article_end → ⊥
dot_err-cut at_end h = ground arith
dot_err-cut (failed n) h = ground arith

-- A byte that is put back is not put back again, and is not behind the end.
put_back :
    (s : DotState) (b : Bool) (c : ℕ)
    → (process_in s b c).back ≡ true
    → (is_eof (process_in s b c).next.state ≡ false)
      × ((process (process_in s b c).next c).back ≡ false)
unfolding process
put_back begin_line b c h = ground arith
put_back dot b c h = ground arith
put_back non_begin b c h = ground arith
put_back dot_cr b c h = ground arith
put_back cr b c h = ground arith
put_back eof b c h = ground arith

put_back-process :
    (d : Dot) (c : ℕ)
    → (process d c).back ≡ true
    → (is_eof (process d c).next.state ≡ false) × ((process (process d c).next c).back ≡ false)
unfolding process
put_back-process d c h = put_back d.state d.badnl c h

ending-byte :
    (d : Dot) (c : ℕ) (is : List Item)
    → is_eof d.state ≡ false
    → (process d c).back ≡ false
    → ending d (byte c ∷ is) ≡ ending (process d c).next is
unfolding ending
ending-byte d c is e b = rw (ending, e, b) refl

waits_cr-put_back :
    (s : DotState) (b : Bool) (c : ℕ)
    → (process_in s b c).back ≡ true
    → (waits_cr s ≡ 1) × (waits_cr (process_in s b c).next.state ≡ 0)
waits_cr-put_back begin_line b c h = ground arith
waits_cr-put_back dot b c h = ground arith
waits_cr-put_back non_begin b c h = ground arith
waits_cr-put_back dot_cr b c h = ground arith
waits_cr-put_back cr b c h = ground arith
waits_cr-put_back eof b c h = ground arith

waits_cr-le : (s : DotState) → waits_cr s ≤ 1
waits_cr-le begin_line = omega arith
waits_cr-le dot = omega arith
waits_cr-le non_begin = omega arith
waits_cr-le dot_cr = omega arith
waits_cr-le cr = omega arith
waits_cr-le eof = omega arith

size-put_back :
    (d : Dot) (c : ℕ) (is : List Item)
    → (process d c).back ≡ true
    → size (process d c).next (byte c ∷ is) < size d (byte c ∷ is)
unfolding process
size-put_back d c is h = let w = waits_cr-put_back d.state d.badnl c h in omega (arith, w.0, w.1)

size-byte : (d d' : Dot) (c : ℕ) (is : List Item) → size d' is < size d (byte c ∷ is)
size-byte d d' c is = omega (arith, waits_cr-le d'.state)

module _ {S A : Type 0} (f : S → ℕ → Verdict S A) (t : DotErr × List Item) (n : ℕ) where
  -- A byte is handed out, and then the loop goes on, or the article is left as it ends.
  KeepsEnding-out_of :
      (s : S) (o : Option ℕ) (d : Dot) (is : List Item) (again : S → Scan S A)
      → ending d is ≡ t
      → size d is < n
      → ((s' : S) → KeepsEnding t n (again s'))
      → KeepsEnding t n (out_of f s o d is again)
  KeepsEnding-out_of s none d is again e l h = h s
  KeepsEnding-out_of s (some b) d is again e l h = go (f s b)
    where
      go :
          (v : Verdict S A)
          → KeepsEnding t n (elim v [
            | more s' ↦ again s'
            | answer a ↦ record { how = answered a; dot = d; rest = is }
          ])
      go (more s') = h s'
      go (answer a) = (e, l)

scan-keeps :
    {S A : Type 0} (f : S → ℕ → Verdict S A) (n : ℕ) (s : S) (d : Dot) (is : List Item)
    → size d is ≤ n
    → KeepsEnding (ending d is) n (scan f s d is)
unfolding scan ending
scan-keeps f n s d [] l = elim (Bool-cases (is_eof d.state)) [
  | inl e ↦ rw (scan, e) (refl, ((λ h. e), l))
  | inr e ↦ rw (scan, e) (refl, ((λ h. absurd (ground arith)), l))
]
scan-keeps f n s d (error x ∷ is) l = elim (Bool-cases (is_eof d.state)) [
  | inl e ↦ rw (scan, e) (refl, ((λ h. e), l))
  | inr e ↦ rw (scan, e) (refl, ((λ h. absurd (dot_err-cut x h)), omega arith))
]
scan-keeps f n s d (byte c ∷ is) l = elim (Bool-cases (is_eof d.state)) [
  | inl e ↦ rw (scan, e) (refl, ((λ h. e), l))
  | inr e ↦ elim (Bool-cases (process d c).back) [
    | inr b ↦
        let less = size-byte d (process d c).next c is in
        rw (scan, e, b)
          (KeepsEnding-out_of f _ n s (process d c).out (process d c).next is _ refl (omega arith)
            λ s'. scan-keeps f n s' (process d c).next is (omega arith))
    | inl b ↦
        let p = put_back-process d c b in
        let less = size-put_back d c is b in
        let less2 = size-byte d (process (process d c).next c).next c is in
        rw (scan, e, b)
          (KeepsEnding-out_of f _ n s (process d c).out (process d c).next (byte c ∷ is) _
            (ending-byte (process d c).next c is p.0 p.1) (omega arith)
            λ s'.
              KeepsEnding-out_of f _ n s' (process (process d c).next c).out
                (process (process d c).next c).next is _ refl (omega arith)
                λ s''. scan-keeps f n s'' (process (process d c).next c).next is (omega arith))
  ]
]

-- A loop over `ReadByte` that has an answer has read something, and the rest of the article ends as the whole did.
-- A loop without an answer has read the article to its end and nothing behind it.
pub KeepsEnding-scan :
    {S A : Type 0} (f : S → ℕ → Verdict S A) (s : S) (d : Dot) (is : List Item)
    → KeepsEnding (ending d is) (size d is) (scan f s d is)
KeepsEnding-scan f s d is = scan-keeps f (size d is) s d is (omega arith)

-- Behind `Discard` stands what is behind an article that ends properly.
pub discard-rest :
    (d : Dot) (is rest : List Item) → ending d is ≡ (article_end, rest) → (discard d is).rest ≡ rest
unfolding discard
discard-rest d is rest h =
    let r = scan (λ n b. more (suc n)) 0 d is in
    go r.how r.dot r.rest (KeepsEnding-scan (λ n b. more (suc n)) 0 d is)
  where
    go :
        (how : ScanEnd ℕ ⊥) (d' : Dot) (is' : List Item)
        → KeepsEnding (ending d is) (size d is) (record { how = how; dot = d'; rest = is' })
        → is' ≡ rest
    go (answered a) d' is' k = absurd a
    go (stopped s e) d' is' k = ap (λ t. t.1) (k.0 ∙ h)
