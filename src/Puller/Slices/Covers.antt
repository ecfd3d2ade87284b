-- ===== src/Puller/Slices/Covers.antt =====
-- What the slices of a group cover.
use mathlib.Core.Path.{subst}
use mathlib.Core.Option.{some-injective}
use nksrv.Base.{
  ℕ, ◌^◌, ◌≤◌, ◌<◌, ◌≡◌, refl, ap, Bool, true, false, ◌&&◌, ◌||◌, List, [], ◌∷◌, Option, none, some,
  leb, arith, Bool-cases, inl, inr, ◌⊎◌,
}
use nksrv.Puller.Response.{ClientState}
use nksrv.Puller.Slices.{is_negative, Slice, stop, Eaten, eat_group}
use nksrv.Puller.Lists.Behind.{Returns, returns}
use nksrv.Puller.Slices.Chain.{
  IsChain, next_begin, IsReached, IsSliced, complete, failing, eat_group-IsSliced,
}

-- What a slice asked for, or went on to.
abbrev pub covers : ℕ → Slice → Bool
covers n s = leb s.r_begin n && (is_negative s.r_end || leb n (stop s))

abbrev pub covered : ℕ → List Slice → Bool
covered n [] = false
covered n (s ∷ cs) = covers n s || covered n cs

-- What a slice that starts in front of a number and does not stop in front of it covers.
covers-between :
    (n : ℕ) (s : Slice)
    → s.r_begin ≤ n
    → (is_negative s.r_end ≡ true) ⊎ (n ≤ stop s)
    → covers n s ≡ true
covers-between n s h (inl e) = ground (arith, h, e)
covers-between n s h (inr e) =
    let t : leb n (stop s) ≡ true = ground (arith, e) in ground (arith, h, t)

or-left : (a b : Bool) → a ≡ true → (a || b) ≡ true
or-left a b h = ground arith

or-right : (a b : Bool) → b ≡ true → (a || b) ≡ true
or-right a b h = ground arith

IsChain-parts :
    (old_id : ℕ) (s : Slice) (cs : List Slice)
    → IsChain old_id (s ∷ cs)
    → (s.r_begin ≡ next_begin old_id cs) × IsChain old_id cs
IsChain-parts old_id s [] c = (c, tt)
IsChain-parts old_id s (p ∷ cs) c = c

-- One more slice covers what the chain before it covers and what it goes on to itself.
covered-slice :
    (n b : ℕ) (s : Slice) (cs : List Slice)
    → s.r_begin ≡ b
    → (n < b → covered n cs ≡ true)
    → (is_negative s.r_end ≡ true) ⊎ (n ≤ stop s)
    → covered n (s ∷ cs) ≡ true
covered-slice n b s cs e before h = elim (Bool-cases (leb s.r_begin n)) [
  | inl x ↦ or-left (covers n s) (covered n cs) (covers-between n s (ground (arith, x)) h)
  | inr x ↦ or-right (covers n s) (covered n cs) (before (ground (arith, x, e)))
]

-- A chain covers what is in front of its next slice.
covered-before :
    (old_id n : ℕ) (cs : List Slice)
    → IsChain old_id cs
    → old_id < n
    → n < next_begin old_id cs
    → covered n cs ≡ true
covered-before old_id n [] c l h = absurd (omega arith)
covered-before old_id n (s ∷ cs) c l h =
    let p = IsChain-parts old_id s cs c in
    covered-slice n (next_begin old_id cs) s cs p.0 (covered-before old_id n cs p.1 l)
      (inr (omega arith))

covered-behind :
    (old_id n : ℕ) (s : Slice) (cs : List Slice)
    → IsChain old_id (s ∷ cs)
    → old_id < n
    → (is_negative s.r_end ≡ true) ⊎ (n ≤ stop s)
    → covered n (s ∷ cs) ≡ true
covered-behind old_id n s cs c l h =
    let p = IsChain-parts old_id s cs c in
    covered-slice n (next_begin old_id cs) s cs p.0 (covered-before old_id n cs p.1 l) h

-- Where `eatGroup` comes back without an error, each number behind `old_id` up to `new_id` is in one of its slices, or
-- behind the end of one that answered a higher number.
pub eat_group-covers :
    (slice : List Slice → ℕ → ℕ → ℕ → ℕ × Option Bool) (s : ClientState) (old_id new_id n : ℕ)
    (cs : List Slice)
    → old_id < new_id
    → new_id < 2 ^ 63
    → eat_group slice s old_id new_id ≡ some (none, cs)
    → old_id < n
    → n ≤ new_id
    → covered n cs ≡ true
eat_group-covers slice s old_id new_id n cs h1 h2 e l m =
    go (subst (Returns (IsSliced old_id new_id)) e (eat_group-IsSliced slice s old_id new_id h1 h2))
  where
    reach : (cs' : List Slice) → IsChain old_id cs' → IsReached new_id cs' → covered n cs' ≡ true
    reach [] c r = absurd r
    reach (s ∷ cs') c (inl e') = covered-behind old_id n s cs' c l (inl e')
    reach (s ∷ cs') c (inr e') = covered-behind old_id n s cs' c l (inr (omega arith))

    sliced : (t : Eaten) → IsSliced old_id new_id t → t ≡ (none, cs) → covered n cs ≡ true
    sliced _ (complete cs' c r) e' =
        subst (λ x. covered n x ≡ true) (ap (λ t. t.1) e') (reach cs' c r)
    sliced _ (failing cs' fatal c) e' = absurd (ground (arith, ap (λ t. t.0) e'))

    opened :
        (o : Option Eaten)
        → Returns (IsSliced old_id new_id) o
        → o ≡ some (none, cs)
        → covered n cs ≡ true
    opened _ (returns t i) e' = sliced t i (some-injective t (none, cs) e')

    go : Returns (IsSliced old_id new_id) (some (none, cs)) → covered n cs ≡ true
    go i = opened (some (none, cs)) i refl
