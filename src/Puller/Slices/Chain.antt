-- ===== src/Puller/Slices/Chain.antt =====
-- The slices of a group stand one behind the other and reach its last number.
use nksrv.Base.{
  ℕ, zero, suc, ◌+◌, ◌-◌, ◌^◌, ◌%◌, ◌≤◌, ◌<◌, ◌≡◌, refl, Bool, true, false, List, [], ◌∷◌, Option,
  none, some, ltb, ltb→lt, arith, Bool-cases, inl, inr, ◌⊎◌,
}
use nksrv.Puller.Response.{ClientState}
use nksrv.Puller.Slices.{
  use_slice_size, is_negative, Slice, end_of, stop, Eaten, next_slice, after_slice, slice_at,
  slices_loop, eat_group,
}
use nksrv.Puller.Lists.Behind.{Returns, returns}

-- Each slice starts behind the one before it, the first one behind the numbers that are there.
abbrev pub IsChain : ℕ → List Slice → Type 0
IsChain old_id [] = Unit
IsChain old_id (s ∷ []) = s.r_begin ≡ old_id + 1
IsChain old_id (s ∷ p ∷ cs) = (s.r_begin ≡ stop p + 1) × IsChain old_id (p ∷ cs)

-- The start of the next slice.
abbrev pub next_begin : ℕ → List Slice → ℕ
next_begin old_id [] = old_id + 1
next_begin old_id (s ∷ cs) = stop s + 1

-- The last slice has an open end, or ends behind the last number.
abbrev pub IsReached : ℕ → List Slice → Type 0
IsReached new_id [] = ⊥
IsReached new_id (s ∷ cs) = (is_negative s.r_end ≡ true) ⊎ (new_id ≤ stop s)

-- How `eatGroup` ends.
pub data IsSliced (old_id new_id : ℕ) : Eaten → Type 0 where
  complete :
      (cs : List Slice)
      → IsChain old_id cs
      → IsReached new_id cs
      → IsSliced old_id new_id (none, cs)
  failing :
      (cs : List Slice) (fatal : Bool) → IsChain old_id cs → IsSliced old_id new_id (some fatal, cs)

stop-ge : (s : Slice) → s.r_end < 2 ^ 63 → (s.r_end ≤ stop s) × (stop s < 2 ^ 63)
stop-ge s h = ground arith

IsChain-next :
    (old_id : ℕ) (s : Slice) (cs : List Slice)
    → s.r_begin ≡ next_begin old_id cs
    → IsChain old_id cs
    → IsChain old_id (s ∷ cs)
IsChain-next old_id s [] e c = e
IsChain-next old_id s (p ∷ cs) e c = (e, c)

-- A closed slice is not empty and ends in front of the last number.
end_of-cases :
    (size new_id r_begin : ℕ)
    → 1 ≤ size
    → size ≤ 2048
    → r_begin ≤ new_id
    → new_id < 2 ^ 63
    → (is_negative (end_of size new_id r_begin) ≡ true)
      ⊎ ((r_begin ≤ end_of size new_id r_begin) × (end_of size new_id r_begin < new_id))
end_of-cases size new_id r_begin h1 h2 h3 h4 =
    elim (Bool-cases (ltb ((r_begin + size - 1) % 2 ^ 64) new_id)) [
      | inl e ↦
          let m : (r_begin + size - 1) % 2 ^ 64 ≡ r_begin + size - 1 = omega arith in
          rw e (inr (omega (arith, m), ltb→lt _ _ e))
      | inr e ↦ rw e (inl refl)
    ]

module _ (slice : List Slice → ℕ → ℕ → ℕ → ℕ × Option Bool) (size new_id old_id : ℕ) (h1 : 1 ≤ size)
    (h2 : size ≤ 2048) (h3 : new_id < 2 ^ 63) where
  next_slice-IsSliced :
      (s : Slice) (cs : List Slice) (again : ℕ → Option Eaten)
      → (is_negative s.r_end ≡ true) ⊎ ((s.r_begin ≤ s.r_end) × (s.r_end < new_id))
      → IsChain old_id (s ∷ cs)
      → ((b : ℕ)
          → b ≡ stop s + 1
          → s.r_begin < b
          → b ≤ new_id
          → Returns (IsSliced old_id new_id) (again b))
      → Returns (IsSliced old_id new_id) (next_slice slice size new_id s cs again)
  next_slice-IsSliced s cs again (inl e) c h =
      rw (next_slice, e) (returns _ (complete (s ∷ cs) c (inl e)))
  next_slice-IsSliced s cs again (inr p) c h =
      let g = stop-ge s (omega (arith, p.1)) in
      let m : (stop s + 1) % 2 ^ 64 ≡ stop s + 1 = omega (arith, g.1) in
      let f : is_negative s.r_end ≡ false = ground (arith, p.1) in
      elim (Bool-cases (ltb new_id ((stop s + 1) % 2 ^ 64))) [
        | inl e ↦
            let l = ltb→lt _ _ e in
            rw (next_slice, f, e) (returns _ (complete (s ∷ cs) c (inr (omega (arith, l, m)))))
        | inr e ↦
            rw (next_slice, f, e)
              (h ((stop s + 1) % 2 ^ 64) m (omega (arith, m, g.0, p.0)) (ground (arith, e)))
      ]

  after_slice-IsSliced :
      (o : Option Bool) (s : Slice) (cs : List Slice) (again : ℕ → Option Eaten)
      → (is_negative s.r_end ≡ true) ⊎ ((s.r_begin ≤ s.r_end) × (s.r_end < new_id))
      → IsChain old_id (s ∷ cs)
      → ((b : ℕ)
          → b ≡ stop s + 1
          → s.r_begin < b
          → b ≤ new_id
          → Returns (IsSliced old_id new_id) (again b))
      → Returns (IsSliced old_id new_id) (after_slice slice size new_id o s cs again)
  after_slice-IsSliced (some fatal) s cs again x c h = returns _ (failing (s ∷ cs) fatal c)
  after_slice-IsSliced none s cs again x c h = next_slice-IsSliced s cs again x c h

  slices_loop-IsSliced :
      (n : ℕ) (cs : List Slice) (r_begin maxid : ℕ)
      → r_begin ≡ next_begin old_id cs
      → IsChain old_id cs
      → r_begin ≤ new_id
      → new_id < r_begin + n
      → Returns (IsSliced old_id new_id) (slices_loop slice size new_id n cs r_begin maxid)
  unfolding slices_loop
  slices_loop-IsSliced zero cs r_begin maxid e c l f = absurd (omega arith)
  slices_loop-IsSliced (suc n) cs r_begin maxid e c l f =
      let s = slice_at slice size new_id cs r_begin maxid in
      let c' = IsChain-next old_id s cs e c in
      after_slice-IsSliced (slice cs r_begin (end_of size new_id r_begin) maxid).1 s cs _
        (end_of-cases size new_id r_begin h1 h2 l h3) c'
        λ b eb lb le. slices_loop-IsSliced n (s ∷ cs) b s.new_maxid eb c' le (omega arith)

use_slice_size-bounds : (s : ClientState) → (1 ≤ use_slice_size s) × (use_slice_size s ≤ 2048)
use_slice_size-bounds s = elim (Bool-cases s.allow_large_over) [
  | inl e ↦ rw e (omega arith, omega arith)
  | inr e ↦ rw e (omega arith, omega arith)
]

-- Whatever the slices answer, `eatGroup` comes back. The slices that it asked for stand one behind the other from
-- the number behind `old_id` on, each behind what the one before it asked for or went on to, and
-- without an error the last one has an open end or goes on to `new_id`.
pub eat_group-IsSliced :
    (slice : List Slice → ℕ → ℕ → ℕ → ℕ × Option Bool) (s : ClientState) (old_id new_id : ℕ)
    → old_id < new_id
    → new_id < 2 ^ 63
    → Returns (IsSliced old_id new_id) (eat_group slice s old_id new_id)
unfolding eat_group
eat_group-IsSliced slice s old_id new_id l h =
    let m : (old_id + 1) % 2 ^ 64 ≡ old_id + 1 = omega arith in
    let b = use_slice_size-bounds s in
    slices_loop-IsSliced slice (use_slice_size s) new_id old_id b.0 b.1 h (suc (new_id - old_id)) []
      ((old_id + 1) % 2 ^ 64) old_id m tt (omega arith) (omega arith)
