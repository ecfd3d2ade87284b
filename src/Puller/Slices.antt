-- ===== src/Puller/Slices.antt =====
-- `eatGroup` of src/nksrv/lib/nntp/client_puller.go: the numbers of a group are asked for in slices. An `int64` is
-- its 64 bits; what a call of `eatGroupSlice` answers is chosen by the calls before it, which are kept, the last one
-- first.
pub mod Chain
pub mod Covers
use nksrv.Base.{
  ℕ, zero, suc, ◌+◌, ◌-◌, ◌^◌, ◌%◌, Bool, true, false, List, [], ◌∷◌, Option, none, some, ltb, leb,
  if◌then◌else◌,
}
use nksrv.Base.Int.{lt_int, to_int64}
use nksrv.Puller.Response.{ClientState}

abbrev pub small_slice_size : ℕ
small_slice_size = 800

abbrev pub large_slice_size : ℕ
large_slice_size = 2048

abbrev pub use_slice_size : ClientState → ℕ
use_slice_size s = if s.allow_large_over then large_slice_size else small_slice_size

-- -1.
abbrev pub open_end : ℕ
open_end = 2 ^ 64 - 1

abbrev pub is_negative : ℕ → Bool
is_negative n = leb (2 ^ 63) n

-- The arguments `r_begin` and `r_end` of a call, and the `new_maxid` that it returns.
pub record Slice : Type 0 where
  pub r_begin : ℕ
  pub r_end : ℕ
  pub new_maxid : ℕ

-- `r_end` of the slice that starts at a number.
abbrev pub end_of : ℕ → ℕ → ℕ → ℕ
end_of size new_id r_begin =
    let e = (r_begin + size - 1) % 2 ^ 64 in if ltb e new_id then e else open_end

-- Where a slice ends that gave more than was asked for.
abbrev pub stop : Slice → ℕ
stop s = if lt_int (to_int64 s.r_end) (to_int64 s.new_maxid) then s.new_maxid else s.r_end

-- An error, with whether it is fatal, and the calls.
abbrev pub Eaten : Type 0
Eaten = Option Bool × List Slice

module _ (eat_group_slice : List Slice → ℕ → ℕ → ℕ → ℕ × Option Bool) (size new_id : ℕ) where
  -- Behind a call without an error.
  abbrev pub next_slice : Slice → List Slice → (ℕ → Option Eaten) → Option Eaten
  next_slice s cs again =
      let r_begin = (stop s + 1) % 2 ^ 64 in
      elim (is_negative s.r_end) [
        | true ↦ some (none, s ∷ cs)
        | false ↦ elim (ltb new_id r_begin) [ true ↦ some (none, s ∷ cs) | false ↦ again r_begin ]
      ]

  abbrev pub after_slice : Option Bool → Slice → List Slice → (ℕ → Option Eaten) → Option Eaten
  after_slice (some fatal) s cs again = some (some fatal, s ∷ cs)
  after_slice none s cs again = next_slice s cs again

  abbrev pub slice_at : List Slice → ℕ → ℕ → Slice
  slice_at cs r_begin maxid = record {
    r_begin = r_begin;
    r_end = end_of size new_id r_begin;
    new_maxid = (eat_group_slice cs r_begin (end_of size new_id r_begin) maxid).0;
  }

  unfoldable pub slices_loop : ℕ → List Slice → ℕ → ℕ → Option Eaten
  slices_loop zero cs r_begin maxid = none
  slices_loop (suc n) cs r_begin maxid =
      let s = slice_at cs r_begin maxid in
      let t = eat_group_slice cs r_begin (end_of size new_id r_begin) maxid in
      after_slice t.1 s cs λ r_begin'. slices_loop n (s ∷ cs) r_begin' s.new_maxid

-- `eatGroup`, with fuel for each number that can begin a slice.
unfoldable pub eat_group :
    (List Slice → ℕ → ℕ → ℕ → ℕ × Option Bool) → ClientState → ℕ → ℕ → Option Eaten
eat_group slice s old_id new_id =
    slices_loop slice (use_slice_size s) new_id (suc (new_id - old_id)) [] ((old_id + 1) % 2 ^ 64)
      old_id
