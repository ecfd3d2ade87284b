-- ===== src/Puller/Lists.antt =====
-- The lists that the client asks for: `doActiveList`, `doNewsgroupsList` and `doCapabilities` of
-- src/nksrv/lib/nntp/client_puller.go. The database and the connection answer according to what was called and sent
-- before; a loop over lines has fuel.
pub mod Behind
pub mod Calls
pub mod InStep
use nksrv.Base.{
  ℕ, zero, suc, ◌+◌, ◌*◌, ◌^◌, ◌-◌, Bool, true, false, not, ◌&&◌, ◌||◌, List, [], ◌∷◌, ◌++◌, Option,
  none, some, Bytes, codes, ltb, leb, ◌==◌, if◌then◌else◌, length, bytes_eq, take, drop,
}
use nksrv.Base.Int.{ℤ, is_nonneg}
use nksrv.Ascii.{equal_fold}
use nksrv.BufReader.Stream.{Item}
use nksrv.Nntp.Syntax.{parse_keyword}
use nksrv.DotReader.{Dot, new_dot}
use nksrv.DotReader.Scan.{
  DotErr, article_end, cut_off, broken_off, Verdict, ScanEnd, answered, stopped, Scan, scan,
  discard,
}
use nksrv.DotReader.Scan.Ending.{size}
use nksrv.Puller.Response.{
  ClientState, Response, response, no_response, read_response, parse_response_arguments,
}
use nksrv.Puller.Lines.{
  Try, ok, err, dot_line_byte, GroupName, newsgroup_byte, ActiveLine, parse_list_active_line,
}

-- The calls of a `PullerDatabase` for the temporary list of groups.
pub data Call : Type 0 where
  start_temp_groups cancel_temp_groups finish_temp_groups : Call
  get_group_id store_temp_group : Bytes → Call
  store_temp_group_id : Bytes → ℕ → Call

-- What the database says behind the calls of a list, the last one first, and whether a
-- command is written.
pub record Env : Type 0 where
  pub fails : List Call → Call → Bool
  pub group_id : List Call → Bytes → ℤ
  pub is_written : List Bytes → Bytes → Bool

pub record Client : Type 0 where
  pub state : ClientState
  pub input : List Item
  pub sent : List Bytes
  pub calls : List Call

-- No error, an error, or one that is fatal.
pub data Result : Type 0 where
  done soft fatal : Result

-- An error of a line or of the connection, or of the database.
pub data Fault : Type 0 where
  bad_list db_error : Fault

-- How a loop over lines ends: none at the end of the list.
pub record LoopEnd (X : Type 0) : Type 0 where
  pub how : Option Fault
  pub dot : Dot
  pub rest : List Item
  pub out : X

module _ {S X : Type 0} (f : S → ℕ → Verdict S (Try Bytes)) (s0 : S)
    (on : Bytes → X → Option Fault × X) where
  abbrev end_loop : Option Fault → Dot → List Item → X → Option (LoopEnd X)
  end_loop e d is x = some (record { how = e; dot = d; rest = is; out = x })

  abbrev after_line :
      Option Fault × X → Dot → List Item → (X → Option (LoopEnd X)) → Option (LoopEnd X)
  after_line t d is again = elim t.0 [ none ↦ again t.1 | some e ↦ end_loop (some e) d is t.1 ]

  -- Behind a line that was read, or the error.
  abbrev pub after_scan :
      ScanEnd S (Try Bytes) → Dot → List Item → X → (X → Option (LoopEnd X)) → Option (LoopEnd X)
  after_scan (answered (ok line)) d is x again = after_line (on line x) d is again
  after_scan (answered (err e)) d is x again = end_loop (some bad_list) d is x
  after_scan (stopped s article_end) d is x again = end_loop none d is x
  after_scan (stopped s cut_off) d is x again = end_loop (some bad_list) d is x
  after_scan (stopped s (broken_off e)) d is x again = end_loop (some bad_list) d is x

  -- Lines are read and handled until one of them ends the loop.
  unfoldable pub lines_loop : ℕ → Dot → List Item → X → Option (LoopEnd X)
  lines_loop zero d is x = none
  lines_loop (suc n) d is x =
      let r = scan f s0 d is in after_scan r.how r.dot r.rest x (lines_loop n r.dot r.rest)

-- Each line takes something from what is left.
abbrev pub enough : List Item → ℕ
enough is = suc (size new_dot is)

-- `hiwm` of a line of LIST ACTIVE, none where it is -1.
abbrev pub hiwm_of : ClientState → ActiveLine → Option ℕ
hiwm_of s a =
    if ltb a.hiwm a.lowm
    then if s.workaround_stupid_active_list then none else some 0
    else if leb (2 ^ 63) a.hiwm
    then some (2 ^ 63 - 1)
    else some a.hiwm

abbrev pub store_call : Bytes → Option ℕ → Call
store_call name (some n) = store_temp_group_id name n
store_call name none = store_temp_group name

abbrev pub bad_active : ClientState → ClientState
bad_active s = record s { bad_active_list = true }

abbrev pub bad_newsgroups : ClientState → ClientState
bad_newsgroups s = record s { bad_newsgroups_list = true }

-- The argument of IMPLEMENTATION.
abbrev pub implementation : List Bytes → ClientState → ClientState
implementation [] s = s
implementation (impl ∷ args) s =
    if equal_fold impl (codes "srndv2")
    then record s { workaround_stupid_active_list = true; allow_large_over = true }
    else if equal_fold impl (codes "CNTPD")
    then record s { allow_large_over = true }
    else s

-- A line of CAPABILITIES.
unfoldable pub capability_line : Bytes → ClientState → ClientState
capability_line line s =
    let t = parse_keyword line in
    let capability = take t.1 t.0 in
    if bytes_eq capability (codes "HDR")
    then record s { cap_hdr = true }
    else if bytes_eq capability (codes "OVER")
    then record s { cap_over = true }
    else if bytes_eq capability (codes "READER")
    then record s { cap_reader = true }
    else if bytes_eq capability (codes "IMPLEMENTATION")
    then implementation (parse_response_arguments (drop t.1 t.0) 6) s
    else s

-- An error of the loop is one of a line or of the connection; no flag is set.
abbrev pub after_capabilities : Client → Option (LoopEnd ClientState) → Option (Client × Result)
after_capabilities c none = none
after_capabilities c (some r) = elim r.how [
  | none ↦ some (record c { state = r.out; input = r.rest }, done)
  | some bad_list ↦ some (record c { state = r.out; input = (discard r.dot r.rest).rest }, soft)
  | some db_error ↦ some (record c { state = r.out; input = (discard r.dot r.rest).rest }, soft)
]

abbrev pub capabilities_on : ℕ → Client → Option (Client × Result)
capabilities_on code c =
    if not (code == 101)
    then some (record c { state = record c.state { bad_capabilities = true } }, done)
    else after_capabilities c (
        lines_loop dot_line_byte [] (λ line s. (none, capability_line line s)) (enough c.input)
          new_dot c.input c.state)

module _ (env : Env) where
  -- A group that the database knows is stored.
  unfoldable pub store_known : Bytes → Call → List Call → Option Fault × List Call
  store_known name c cs =
      let get = get_group_id name in
      let cs' = get ∷ cs in
      if env.fails cs get
      then (some db_error, cs')
      else if not (is_nonneg (env.group_id cs name))
      then (none, cs')
      else (if env.fails cs' c then some db_error else none, c ∷ cs')

  -- A line of LIST ACTIVE, and a name of LIST NEWSGROUPS.
  abbrev pub parsed_line : ClientState → Try ActiveLine → List Call → Option Fault × List Call
  parsed_line s (err e) cs = (some bad_list, cs)
  parsed_line s (ok a) cs = store_known a.name (store_call a.name (hiwm_of s a)) cs

  abbrev pub active_line : ClientState → Bytes → List Call → Option Fault × List Call
  active_line s line cs = parsed_line s (parse_list_active_line line) cs

  abbrev pub newsgroup_line : Bytes → List Call → Option Fault × List Call
  newsgroup_line name cs = store_known name (store_temp_group name) cs

  -- The loops of the two commands.
  abbrev pub active_loop : ClientState → List Item → List Call → Option (LoopEnd (List Call))
  active_loop s is = lines_loop dot_line_byte [] (active_line s) (enough is) new_dot is

  abbrev pub newsgroups_loop : List Item → List Call → Option (LoopEnd (List Call))
  newsgroups_loop is =
      lines_loop newsgroup_byte (record { name = []; ended = false }) newsgroup_line (enough is)
        new_dot is

  -- The deferred calls behind the loop; `bad` sets the flag of the command.
  abbrev pub after_list :
      (ClientState → ClientState) → Client → LoopEnd (List Call) → Client × Result
  after_list bad c r =
      let discarded = (discard r.dot r.rest).rest in
      elim r.how [
        | none ↦
            let c' = record c { input = r.rest; calls = finish_temp_groups ∷ r.out } in
            if env.fails r.out finish_temp_groups
            then (record c' { input = discarded }, soft)
            else (c', done)
        | some bad_list ↦ (
          record c { state = bad c.state; input = discarded; calls = cancel_temp_groups ∷ r.out },
          soft,
        )
        | some db_error ↦ (record c { input = discarded; calls = cancel_temp_groups ∷ r.out }, soft)
      ]

  abbrev pub finish_list :
      (ClientState → ClientState) → Client → Option (LoopEnd (List Call)) → Option (Client × Result)
  finish_list bad c none = none
  finish_list bad c (some r) = some (after_list bad c r)

  -- Behind the response: the list, where there is one.
  abbrev pub read_list :
      (ClientState → ClientState)
      → (List Item → List Call → Option (LoopEnd (List Call)))
      → Client
      → Option (Client × Result)
  read_list bad loop c =
      let cs = start_temp_groups ∷ c.calls in
      if env.fails c.calls start_temp_groups
      then some (record c { input = (discard new_dot c.input).rest; calls = cs }, soft)
      else finish_list bad c (loop c.input cs)

  -- A command is written and the response is read.
  abbrev pub ask :
      Bytes → (ℕ → Client → Option (Client × Result)) → Client → Option (Client × Result)
  ask cmd then_do c =
      let t = read_response c.input in
      let c' = record c { input = t.1; sent = cmd ∷ c.sent } in
      if not (env.is_written c.sent cmd) then some (c, fatal) else elim t.0.0 [
        | no_response e ↦ some (c', if t.0.1 then fatal else soft)
        | response code rest ↦ then_do code c'
      ]

  abbrev pub read_list_on :
      (ClientState → ClientState)
      → (List Item → List Call → Option (LoopEnd (List Call)))
      → ℕ
      → Client
      → Option (Client × Result)
  read_list_on bad loop code c =
      if not (code == 215)
      then some (record c { state = bad c.state }, soft)
      else read_list bad loop c

  -- `doActiveList`.
  unfoldable pub do_active_list : Client → Option (Client × Result)
  do_active_list c = ask (codes "LIST") (read_list_on bad_active (active_loop c.state)) c

  -- `doNewsgroupsList`.
  unfoldable pub do_newsgroups_list : Client → Option (Client × Result)
  do_newsgroups_list c =
      ask (codes "LIST NEWSGROUPS") (read_list_on bad_newsgroups newsgroups_loop) c

  -- `doCapabilities`.
  unfoldable pub do_capabilities : Client → Option (Client × Result)
  do_capabilities c = ask (codes "CAPABILITIES") capabilities_on c
