-- ===== src/Puller/SliceList.antt =====
-- `eatGroupSlice` of src/nksrv/lib/nntp/client_puller.go, up to its call of `processTODOList`: the four commands that list a
-- slice of a group are tried in turn. An `int64` is its 64 bits.
pub mod Tries
use nksrv.Base.{
  ℕ, zero, suc, ◌+◌, ◌/◌, ◌%◌, Bool, true, false, not, ◌&&◌, ◌||◌, List, [], ◌∷◌, ◌++◌, Option,
  none, some, Bytes, codes, ltb, ◌==◌, if◌then◌else◌,
}
use nksrv.BufReader.Stream.{Item}
use nksrv.Puller.Response.{
  ClientState, can_hdr, can_xhdr, can_over, can_xover, Response, response, no_response,
  read_response,
}
use nksrv.Puller.Lists.{Env, Client}
use nksrv.Puller.Slices.{is_negative}
use nksrv.Puller.Todo.{TodoArticle}
use nksrv.Puller.HdrList.{Eaten, eat_hdr_output}
use nksrv.Puller.OverList.{eat_over_output}

-- `%d` of a number that is not negative; 20 digits are enough for 64 bits.
decimal_loop : ℕ → ℕ → Bytes → Bytes
decimal_loop zero n acc = acc
decimal_loop (suc k) n acc =
    let more = decimal_loop k (n / 10) ((n % 10 + b'0') ∷ acc) in
    if ltb n 10 then (n + b'0') ∷ acc else more

unfoldable pub decimal : ℕ → Bytes
unfolding decimal_loop
decimal n = decimal_loop 20 n []

-- The slice in a command.
abbrev pub range_text : ℕ → ℕ → Bytes
range_text r_begin r_end =
    if is_negative r_end
    then decimal r_begin ++ codes "-"
    else if r_begin == r_end
    then decimal r_begin
    else decimal r_begin ++ (codes "-" ++ decimal r_end)

-- No article, an error, no command that is left, or a list for `processTODOList`.
pub data SliceEnd : Type 0 where
  no_articles soft_fail fatal_fail given_up : SliceEnd
  has_list : List TodoArticle → SliceEnd

-- What a response says of a command.
pub data Reply : Type 0 where
  listed none_there refused : Reply
  broken : Bool → Reply

abbrev pub reply_of : (ℕ → Bool) → Response × Bool → Reply
reply_of is_ok (no_response e, fatal) = broken fatal
reply_of is_ok (response code rest, fatal) =
    if is_ok code then listed else if code == 423 || code == 420 then none_there else refused

abbrev pub after_reply :
    (ClientState → ClientState)
    → (Client → Option (Client × SliceEnd))
    → (Client → Option (Client × SliceEnd))
    → Reply
    → Client
    → Option (Client × SliceEnd)
after_reply bad eat next listed c = eat c
after_reply bad eat next none_there c = some (c, no_articles)
after_reply bad eat next refused c = next (record c { state = bad c.state })
after_reply bad eat next (broken fatal) c = some (c, if fatal then fatal_fail else soft_fail)

-- A command is tried where the other server may know it.
abbrev pub try_command :
    Env
    → Bytes
    → Bool
    → (ℕ → Bool)
    → (ClientState → ClientState)
    → (Client → Option (Client × SliceEnd))
    → (Client → Option (Client × SliceEnd))
    → Client
    → Option (Client × SliceEnd)
try_command env cmd can is_ok bad eat next c =
    let t = read_response c.input in
    if not can
    then next c
    else if not (env.is_written c.sent cmd)
    then some (c, fatal_fail)
    else after_reply bad eat next (reply_of is_ok t.0)
        (record c { input = t.1; sent = cmd ∷ c.sent })

-- A list is read.
abbrev pub eat_list : (List Item → Option Eaten) → Client → Option (Client × SliceEnd)
eat_list eat c = elim (eat c.input) [
  | none ↦ none
  | some x ↦ some (record c { input = x.rest }, if x.fails then soft_fail else has_list x.todo)
]

abbrev pub hdr_ok : ℕ → Bool
hdr_ok code = code == 225 || code == 221

abbrev pub over_ok : ℕ → Bool
over_ok code = code == 224

module _ (env : Env) (r_begin r_end : ℕ) where
  abbrev pub try_xover : Client → Option (Client × SliceEnd)
  try_xover c =
      try_command env (codes "XOVER " ++ range_text r_begin r_end) (can_xover c.state) over_ok
        (λ s. record s { bad_xover = true }) (eat_list (eat_over_output r_begin r_end))
        (λ c'. some (c', given_up)) c

  abbrev pub try_over : Client → Option (Client × SliceEnd)
  try_over c =
      try_command env (codes "OVER " ++ range_text r_begin r_end) (can_over c.state) over_ok
        (λ s. record s { bad_over = true }) (eat_list (eat_over_output r_begin r_end)) try_xover c

  abbrev pub try_xhdr : Client → Option (Client × SliceEnd)
  try_xhdr c =
      try_command env (codes "XHDR Message-ID " ++ range_text r_begin r_end) (can_xhdr c.state)
        hdr_ok (λ s. record s { bad_xhdr = true }) (eat_list (eat_hdr_output r_begin r_end))
        try_over c

  -- `eatGroupSlice`.
  unfoldable pub list_slice : Client → Option (Client × SliceEnd)
  list_slice c =
      try_command env (codes "HDR Message-ID " ++ range_text r_begin r_end) (can_hdr c.state) hdr_ok
        (λ s. record s { bad_hdr = true }) (eat_list (eat_hdr_output r_begin r_end)) try_xhdr c
