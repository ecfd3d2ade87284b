-- ===== src/TestSrv/Rounds.antt =====
-- NEXT and LAST of src/nksrv/lib/nntp/testsrv/testsrv.go undo each other.
use nksrv.Base.{
  ℕ, ◌<◌, ◌≤◌, ◌≡◌, refl, sym, ap, ◌∙◌, true, false, List, [], ◌∷◌, ◌++◌, reverse, Option, none,
  some, All, All-append, ◌⊎◌, inl, inr, Bool-cases, ltb, ltb→lt, ◌==◌, arith, append_assoc,
  append-nil,
}
use mathlib.Core.Path.{subst}
use mathlib.Core.List.{reverse-append}
use mathlib.Core.Option.{some-injective}
use nksrv.TestSrv.Data.{Group, GroupState, Res}
use nksrv.TestSrv.Groups.{
  first_above, first_below, select_move, select_next_article, select_prev_article,
}
use nksrv.TestSrv.Invariant.Moves.{Has, IsListed}

abbrev pub IsAscending : List ℕ → Type 0
IsAscending [] = Unit
IsAscending (n ∷ ns) = All (λ m. n < m) ns × IsAscending ns

abbrev pub In : ℕ → List ℕ → Type 0
In x [] = ⊥
In x (n ∷ ns) = (n ≡ x) ⊎ In x ns

All-reverse : (P : ℕ → Type 0) (ns : List ℕ) → All P ns → All P (reverse ns)
All-reverse P [] h = tt
All-reverse P (n ∷ ns) (h, hs) =
    rw (reverse-append (n ∷ []) ns)
      (All-append P (reverse ns) (n ∷ []) (All-reverse P ns hs) (h, tt))

first_below-skip :
    (y : ℕ) (xs ys : List ℕ) → All (λ n. y ≤ n) xs → first_below y (xs ++ ys) ≡ first_below y ys
first_below-skip y [] ys h = refl
first_below-skip y (n ∷ xs) ys (h, hs) =
    let e : ltb n y ≡ false = ground arith in rw e (first_below-skip y xs ys hs)

All-weaken : (m : ℕ) (ns : List ℕ) → All (λ n. m < n) ns → All (λ n. m ≤ n) ns
All-weaken m [] h = tt
All-weaken m (n ∷ ns) (h, hs) = (omega arith, All-weaken m ns hs)

In-above : (m x : ℕ) (ns : List ℕ) → All (λ n. m < n) ns → In x ns → m < x
In-above m x [] h i = absurd i
In-above m x (n ∷ ns) (h, hs) (inl e) = rw e at h
In-above m x (n ∷ ns) (h, hs) (inr i) = In-above m x ns hs i

-- The numbers behind the current one are not below the next.
first_above-next :
    (x y : ℕ) (ns : List ℕ)
    → All (λ n. x < n) ns
    → IsAscending ns
    → first_above x ns ≡ some y
    → (x < y) × All (λ n. y ≤ n) ns
first_above-next x y [] h a e = absurd (ground arith)
first_above-next x y (n ∷ ns) (h, hs) (a, asc) e =
    let l : ltb x n ≡ true = ground arith in
    let s : n ≡ y = some-injective n y (rw l at e) in
    subst (λ z. (x < z) × All (λ m. z ≤ m) (n ∷ ns)) s (h, (omega arith, All-weaken n ns a))

first_below-above :
    (x y : ℕ) (ns t : List ℕ)
    → IsAscending ns
    → In x ns
    → first_above x ns ≡ some y
    → first_below y (reverse ns ++ t) ≡ some x
first_below-above x y [] t a i e = absurd i
first_below-above x y (n ∷ ns) t (a, asc) (inl i) e =
    let l : ltb x n ≡ false = ground arith in
    let h = first_above-next x y ns (rw i at a) asc (rw l at e) in
    let b : ltb n y ≡ true = ground (arith, h.0) in
    rw
      (
        reverse-append (n ∷ []) ns,
        append_assoc (reverse ns) (n ∷ []) t,
        first_below-skip y (reverse ns) (n ∷ t) (All-reverse _ ns h.1),
        b,
      )
      (ap some i)
first_below-above x y (n ∷ ns) t (a, asc) (inr i) e =
    let p = In-above n x ns a i in
    let l : ltb x n ≡ false = ground arith in
    rw (reverse-append (n ∷ []) ns, append_assoc (reverse ns) (n ∷ []) t)
      (first_below-above x y ns (n ∷ t) asc i (rw l at e))

All-In : (P : ℕ → Type 0) (x : ℕ) (ns : List ℕ) → All P ns → In x ns → P x
All-In P x [] h i = absurd i
All-In P x (n ∷ ns) (h, hs) (inl e) = subst P e h
All-In P x (n ∷ ns) (h, hs) (inr i) = All-In P x ns hs i

All-first_above :
    (P : ℕ → Type 0) (x y : ℕ) (ns : List ℕ) → All P ns → first_above x ns ≡ some y → (x < y) × P y
All-first_above P x y [] h e = absurd (ground arith)
All-first_above P x y (n ∷ ns) (h, hs) e = elim (Bool-cases (ltb x n)) [
  | inl l ↦ subst (λ z. (x < z) × P z) (some-injective n y (rw l at e)) (ltb→lt x n l, h)
  | inr l ↦ All-first_above P x y ns hs (rw l at e)
]

-- The group state that a method leaves.
abbrev pub state_of : Option Res → Option GroupState
state_of none = none
state_of (some r) = r.gs

module _ (s : GroupState) (g : Group) (selected : s.g ≡ some g) where
  state_of-next :
      (y : ℕ)
      → (s.number == 0) ≡ false
      → first_above s.number g.articles_sort ≡ some y
      → Has g y
      → state_of (select_next_article (some s)) ≡ some (record s { number = y })
  unfolding select_next_article
  state_of-next y n e (a, h) = rw (select_move, n, selected, e, h) refl

  state_of-prev :
      (x y : ℕ)
      → (y == 0) ≡ false
      → first_below y (reverse g.articles_sort) ≡ some x
      → Has g x
      → state_of (select_prev_article (some (record s { number = y })))
        ≡ some (record s { number = x })
  unfolding select_prev_article
  state_of-prev x y n e (a, h) = rw (select_move, n, selected, e, h) refl

  -- Where a group's numbers are in ascending order and each has its article, NEXT from an article that is not the
  -- last one moves to the next number, and LAST from there moves back to the state that NEXT started in.
  pub select_prev-next :
      (y : ℕ)
      → IsListed g
      → IsAscending g.articles_sort
      → In s.number g.articles_sort
      → (s.number == 0) ≡ false
      → first_above s.number g.articles_sort ≡ some y
      → (state_of (select_next_article (some s)) ≡ some (record s { number = y }))
        × (state_of (select_prev_article (some (record s { number = y }))) ≡ some s)
  select_prev-next y l a i n e =
      let p = All-first_above (Has g) s.number y g.articles_sort l e in
      (
        state_of-next y n e p.1,
        state_of-prev s.number y (ground (arith, p.0))
            (ap (first_below y) (sym (append-nil (reverse g.articles_sort)))
              ∙ first_below-above s.number y g.articles_sort [] a i e)
            (All-In (Has g) s.number g.articles_sort l i),
      )
