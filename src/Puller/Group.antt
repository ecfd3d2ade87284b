-- ===== src/Puller/Group.antt =====
-- `doGroup` of src/nksrv/lib/nntp/client_puller.go, and what `groupScanLoop` does with a group that `LoadTempGroup` hands
-- out. An `int64` is its 64 bits.
pub mod Bounds
use nksrv.Base.{
  ℕ, ◌+◌, ◌-◌, ◌^◌, Bool, true, false, not, ◌&&◌, ◌||◌, List, [], ◌∷◌, ◌++◌, Option, none, some,
  Bytes, codes, ltb, leb, ◌==◌, if◌then◌else◌,
}
use nksrv.Base.Int.{lt_int, to_int64}
use nksrv.Puller.Response.{Response, response, no_response, read_response}
use nksrv.Puller.Lines.{Try, ok, err, GroupAnswer, parse_group_response}
use nksrv.Puller.Lists.{Env, Client}
use nksrv.Puller.Slices.{is_negative}

-- The highest number of a group, none of it, or an error.
pub data GroupRes : Type 0 where
  group_id : ℕ → GroupRes
  no_group soft_err fatal_err : GroupRes

-- `new_id` of an answer.
abbrev pub high_of : GroupAnswer → ℕ
high_of a =
    let hi = if ltb a.hi a.lo || a.num == 0 then 0 else a.hi in
    if is_negative hi then 2 ^ 63 - 1 else hi

abbrev pub answer_res : Try GroupAnswer → GroupRes
answer_res (ok a) = group_id (high_of a)
answer_res (err e) = soft_err

abbrev pub group_res : Response × Bool → GroupRes
group_res (no_response e, fatal) = if fatal then fatal_err else soft_err
group_res (response code rest, fatal) =
    if code == 211
    then answer_res (parse_group_response rest)
    else if code == 411
    then no_group
    else soft_err

-- `doGroup`.
unfoldable pub do_group : Env → Bytes → Client → Client × GroupRes
do_group env gname c =
    let cmd = codes "GROUP " ++ gname in
    let t = read_response c.input in
    if not (env.is_written c.sent cmd)
    then (c, fatal_err)
    else (record c { input = t.1; sent = cmd ∷ c.sent }, group_res t.0)

-- The two numbers of a group, and what was handed to `UpdateGroupID` on the way.
pub record Ids : Type 0 where
  pub old_id : ℕ
  pub new_id : ℕ
  pub updates : List ℕ

-- The old number behind a new one that is known: none where they are the same, and a scan from the
-- start where the new one is lower.
abbrev pub rescan : Ids → Option Ids
rescan i =
    if i.old_id == i.new_id
    then none
    else if ltb i.new_id i.old_id
    then some (record i { old_id = 0; updates = i.updates ++ 0 ∷ [] })
    else some i

-- In front of `doGroup`, and behind it.
abbrev pub before_group : Ids → Option Ids
before_group i = if is_negative i.new_id then some i else rescan i

abbrev pub after_group : ℕ → Ids → Option Ids
after_group g_id i =
    if is_negative i.new_id || lt_int (to_int64 i.new_id) (to_int64 g_id)
    then rescan (record i { new_id = g_id })
    else some i

-- What becomes of the group: the next one is loaded, the loop returns an error, or `eatGroup` is
-- called.
pub data GroupEnd : Type 0 where
  next_group : List ℕ → GroupEnd
  loop_fails : List ℕ → GroupEnd
  eats : Ids → GroupEnd

abbrev pub eat_or_skip : List ℕ → Option Ids → GroupEnd
eat_or_skip updates none = next_group updates
eat_or_skip updates (some i) = if i.old_id == i.new_id then next_group i.updates else eats i

abbrev pub on_group : Ids → GroupRes → GroupEnd
on_group i fatal_err = loop_fails i.updates
on_group i soft_err = next_group i.updates
on_group i no_group = next_group (i.updates ++ 0 ∷ [])
on_group i (group_id g_id) = eat_or_skip i.updates (after_group g_id i)

abbrev pub ask_group : Env → Bytes → Client → Option Ids → Client × GroupEnd
ask_group env gname c none = (c, next_group [])
ask_group env gname c (some i) = let t = do_group env gname c in (t.0, on_group i t.1)

-- A round of the loop, up to `eatGroup`.
unfoldable pub scan_group : Env → Bytes → ℕ → ℕ → Client → Client × GroupEnd
scan_group env gname new_id old_id c =
    ask_group env gname c (before_group (record { old_id = old_id; new_id = new_id; updates = [] }))
