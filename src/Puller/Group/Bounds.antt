-- ===== src/Puller/Group/Bounds.antt =====
-- `groupScanLoop` calls `eatGroup` for numbers that are new.
use mathlib.Core.Path.{subst}
use nksrv.Base.{
  ℕ, ◌^◌, ◌≤◌, ◌<◌, ◌≡◌, refl, ap, Bool, true, false, ◌||◌, List, [], ◌++◌, Option, none, some,
  Bytes, codes, ltb, ◌==◌, if◌then◌else◌, arith, Bool-cases, inl, inr,
}
use nksrv.Base.Int.{lt_int, to_int64}
use nksrv.Puller.Response.{ClientState, Response, response, no_response, read_response}
use nksrv.Puller.Lines.{Try, ok, err, GroupAnswer, parse_group_response}
use nksrv.Puller.Lists.{Env, Client}
use nksrv.Puller.Lists.Behind.{Returns}
use nksrv.Puller.Slices.{Slice, is_negative, eat_group}
use nksrv.Puller.Slices.Chain.{IsSliced, eat_group-IsSliced}
use nksrv.Puller.Group.{
  GroupRes, group_id, no_group, soft_err, fatal_err, high_of, answer_res, group_res, do_group, Ids,
  rescan, before_group, after_group, GroupEnd, next_group, loop_fails, eats, eat_or_skip, on_group,
  ask_group, scan_group,
}

-- The number of a group is an `int64` that is not negative.
abbrev IsId : GroupRes → Type 0
IsId (group_id n) = n < 2 ^ 63
IsId _ = Unit

high_of-bound : (a : GroupAnswer) → high_of a < 2 ^ 63
high_of-bound a = ground arith

IsId-answer : (t : Try GroupAnswer) → IsId (answer_res t)
IsId-answer (ok a) = high_of-bound a
IsId-answer (err e) = tt

IsId-if : (b : Bool) (x y : GroupRes) → IsId x → IsId y → IsId (if b then x else y)
IsId-if true x y h k = h
IsId-if false x y h k = k

IsId-group_res : (t : Response × Bool) → IsId (group_res t)
IsId-group_res (no_response e, fatal) = IsId-if fatal fatal_err soft_err tt tt
IsId-group_res (response code rest, fatal) =
    IsId-if (code == 211) _ _ (IsId-answer (parse_group_response rest))
      (IsId-if (code == 411) no_group soft_err tt tt)

-- Where both numbers are known the old one is not above the new one, which is an `int64`.
abbrev IsScan : Option Ids → Type 0
IsScan none = Unit
IsScan (some i) = (i.old_id ≤ i.new_id) × (i.new_id < 2 ^ 63)

abbrev IsOpen : Option Ids → Type 0
IsOpen none = Unit
IsOpen (some i) = is_negative i.new_id ≡ false → (i.old_id ≤ i.new_id) × (i.new_id < 2 ^ 63)

IsScan-if :
    (b : Bool) (x y : Option Ids)
    → (b ≡ true → IsScan x)
    → (b ≡ false → IsScan y)
    → IsScan (if b then x else y)
IsScan-if true x y h k = h refl
IsScan-if false x y h k = k refl

IsScan-rescan : (i : Ids) → i.new_id < 2 ^ 63 → IsScan (rescan i)
IsScan-rescan i h =
    IsScan-if (i.old_id == i.new_id) _ _ (λ e. tt)
      λ e.
        IsScan-if (ltb i.new_id i.old_id) _ _ (λ l. (omega arith, h)) (λ l. (ground (arith, l), h))

-- `groupScanLoop` asks `eatGroup` for a group whose old number is below the new one.
pub data IsNew : GroupEnd → Type 0 where
  nexts : (u : List ℕ) → IsNew (next_group u)
  fails : (u : List ℕ) → IsNew (loop_fails u)
  is_new : (i : Ids) → i.old_id < i.new_id → i.new_id < 2 ^ 63 → IsNew (eats i)

IsNew-eat : (u : List ℕ) (o : Option Ids) → IsScan o → IsNew (eat_or_skip u o)
IsNew-eat u none h = nexts u
IsNew-eat u (some i) h = elim (Bool-cases (i.old_id == i.new_id)) [
  | inl e ↦ rw e (nexts i.updates)
  | inr e ↦ rw e (is_new i (ground (arith, e, h.0)) h.1)
]

IsScan-after_group :
    (g_id : ℕ) (i : Ids) → g_id < 2 ^ 63 → IsOpen (some i) → IsScan (after_group g_id i)
IsScan-after_group g_id i h o =
    IsScan-if (is_negative i.new_id || lt_int (to_int64 i.new_id) (to_int64 g_id)) _ _
      (λ e. IsScan-rescan (record i { new_id = g_id }) h)
      λ e. o (or-false (is_negative i.new_id) _ e)
  where
    or-false : (a b : Bool) → (a || b) ≡ false → a ≡ false
    or-false a b h = ground arith

IsNew-on : (i : Ids) (r : GroupRes) → IsOpen (some i) → IsId r → IsNew (on_group i r)
IsNew-on i fatal_err o h = fails i.updates
IsNew-on i soft_err o h = nexts i.updates
IsNew-on i no_group o h = nexts _
IsNew-on i (group_id g_id) o h =
    IsNew-eat i.updates (after_group g_id i) (IsScan-after_group g_id i h o)

IsOpen-scan : (o : Option Ids) → IsScan o → IsOpen o
IsOpen-scan none h = tt
IsOpen-scan (some i) h = λ n. h

IsOpen-if :
    (b : Bool) (x y : Option Ids)
    → (b ≡ true → IsOpen x)
    → (b ≡ false → IsOpen y)
    → IsOpen (if b then x else y)
IsOpen-if true x y h k = h refl
IsOpen-if false x y h k = k refl

IsOpen-before : (i : Ids) → IsOpen (before_group i)
IsOpen-before i =
    IsOpen-if (is_negative i.new_id) (some i) (rescan i) (λ e n. absurd (ground (arith, e, n)))
      λ e. IsOpen-scan (rescan i) (IsScan-rescan i (ground (arith, e)))

IsId-do_group : (env : Env) (gname : Bytes) (c : Client) → IsId (do_group env gname c).1
unfolding do_group
IsId-do_group env gname c = elim (Bool-cases (env.is_written c.sent (codes "GROUP " ++ gname))) [
  | inr e ↦ rw e tt
  | inl e ↦ rw e (IsId-group_res (read_response c.input).0)
]

IsNew-ask :
    (env : Env) (gname : Bytes) (c : Client) (o : Option Ids)
    → IsOpen o
    → IsNew (ask_group env gname c o).1
IsNew-ask env gname c none h = nexts []
IsNew-ask env gname c (some i) h = IsNew-on i (do_group env gname c).1 h (IsId-do_group env gname c)

-- Whatever the temporary list and the other server say of a group, `groupScanLoop` calls `eatGroup` only where the old
-- number is below the new one and both are `int64` that are not negative.
pub scan_group-IsNew :
    (env : Env) (gname : Bytes) (new_id old_id : ℕ) (c : Client)
    → IsNew (scan_group env gname new_id old_id c).1
unfolding scan_group
scan_group-IsNew env gname new_id old_id c =
    IsNew-ask env gname c _
      (IsOpen-before (record { old_id = old_id; new_id = new_id; updates = [] }))

-- Where `groupScanLoop` calls `eatGroup`, the call comes back, and its slices reach the new number.
pub scan_group-eats :
    (slice : List Slice → ℕ → ℕ → ℕ → ℕ × Option Bool) (s : ClientState) (env : Env) (gname : Bytes)
    (new_id old_id : ℕ) (c : Client) (i : Ids)
    → (scan_group env gname new_id old_id c).1 ≡ eats i
    → Returns (IsSliced i.old_id i.new_id) (eat_group slice s i.old_id i.new_id)
scan_group-eats slice s env gname new_id old_id c i e =
    go (scan_group env gname new_id old_id c).1 (scan_group-IsNew env gname new_id old_id c) e
  where
    go :
        (x : GroupEnd)
        → IsNew x
        → x ≡ eats i
        → Returns (IsSliced i.old_id i.new_id) (eat_group slice s i.old_id i.new_id)
    go _ (nexts u) e' = absurd (ground arith)
    go _ (fails u) e' = absurd (ground arith)
    go _ (is_new j l h) e' =
        let p : j ≡ i = ap (λ x. elim x [ eats k ↦ k | next_group u ↦ j | loop_fails u ↦ j ]) e' in
        subst (λ k. Returns (IsSliced k.old_id k.new_id) (eat_group slice s k.old_id k.new_id)) p
          (eat_group-IsSliced slice s j.old_id j.new_id l h)
