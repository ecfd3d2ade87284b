-- ===== src/Puller/Lines.antt =====
-- src/nksrv/lib/nntp/client_puller_utils.go: the lines of the lists that the other server sends.
use nksrv.Base.{
  ℕ, Bool, false, not, ◌&&◌, ◌||◌, List, [], ◌∷◌, ◌++◌, Bytes, codes, leb, ◌==◌, if◌then◌else◌,
  length,
}
use nksrv.Ascii.{is_ws, trim_left_ws, equal_fold}
use nksrv.BufReader.Stream.{Item}
use nksrv.Nntp.Syntax.{full_valid_group_slice, is_number_slice, stoi, valid_message_id}
use nksrv.DotReader.{Dot}
use nksrv.DotReader.Scan.{DotErr, Verdict, more, answer, answered, stopped, Scan, scan}
use nksrv.Puller.Response.{inbuf_size, parse_response_arguments}

-- What is wrong with a line, or with the connection.
pub data LineErr : Type 0 where
  of_dot : DotErr → LineErr
  line_too_large bad_group bad_hiwm bad_lowm extra_data bad_id bad_msgid wanted_more bad_response :
      LineErr

-- A result, or an error.
pub data Try (A : Type 0) : Type 0 where
  ok : A → Try A
  err : LineErr → Try A

-- A loop's answer, or the error of `ReadByte`.
abbrev pub scan_result : {S A : Type 0} → Scan S (Try A) → Try A
scan_result r = elim r.how [ answered t ↦ t | stopped s e ↦ err (of_dot e) ]

-- The loop of `readDotLine`, on the bytes in `inbuf` so far.
abbrev pub dot_line_byte : Bytes → ℕ → Verdict Bytes (Try Bytes)
dot_line_byte line b =
    if b == b'\n'
    then answer (ok line)
    else if leb inbuf_size (length line)
    then answer (err line_too_large)
    else more (line ++ b ∷ [])

unfoldable pub read_dot_line : Dot → List Item → Scan Bytes (Try Bytes)
read_dot_line d is = scan dot_line_byte [] d is

-- The name in `inbuf` so far, and whether `end` is set.
pub record GroupName : Type 0 where
  pub name : Bytes
  pub ended : Bool

abbrev pub group_or_err : Bytes → Try Bytes
group_or_err name =
    if length name == 0 || not (full_valid_group_slice name) then err bad_group else ok name

-- The loop of `readOnlyNewsgroup`. A space in front of the name sets `end` to 0, which is not set.
abbrev pub newsgroup_byte : GroupName → ℕ → Verdict GroupName (Try Bytes)
newsgroup_byte g b =
    if b == b'\n'
    then answer (group_or_err g.name)
    else if g.ended
    then more g
    else if is_ws b
    then more (record g { ended = not (length g.name == 0) })
    else if leb inbuf_size (length g.name)
    then answer (err line_too_large)
    else more (record g { name = g.name ++ b ∷ [] })

unfoldable pub read_only_newsgroup : Dot → List Item → Scan GroupName (Try Bytes)
read_only_newsgroup d is = scan newsgroup_byte (record { name = []; ended = false }) d is

-- `skipNonWS`: the word that it passes, and the rest.
unfoldable pub skip_non_ws : Bytes → Bytes × Bytes
skip_non_ws [] = ([], [])
skip_non_ws (c ∷ s) = let t = skip_non_ws s in if is_ws c then ([], c ∷ s) else (c ∷ t.0, t.1)

-- A line of LIST ACTIVE.
pub record ActiveLine : Type 0 where
  pub name : Bytes
  pub hiwm : ℕ
  pub lowm : ℕ
  pub status : Bytes

abbrev pub is_number : Bytes → Bool
is_number w = not (length w == 0) && is_number_slice w

-- `parseListActiveLine`.
unfoldable pub parse_list_active_line : Bytes → Try ActiveLine
parse_list_active_line line =
    let name = skip_non_ws line in
    let hiwm = skip_non_ws (trim_left_ws name.1) in
    let lowm = skip_non_ws (trim_left_ws hiwm.1) in
    let status = skip_non_ws (trim_left_ws lowm.1) in
    if length name.0 == 0 || not (full_valid_group_slice name.0)
    then err bad_group
    else if not (is_number hiwm.0)
    then err bad_hiwm
    else if not (is_number lowm.0)
    then err bad_lowm
    else if not (length (trim_left_ws status.1) == 0)
    then err extra_data
    else ok (record { name = name.0; hiwm = stoi hiwm.0; lowm = stoi lowm.0; status = status.0 })

-- An article's number and identifier. Number 0 stands for a line that says nothing.
pub record HdrLine : Type 0 where
  pub id : ℕ
  pub msgid : Bytes

-- `eatHdrMsgIDLine`, on its line.
unfoldable pub parse_hdr_line : Bytes → Try HdrLine
parse_hdr_line line =
    let num = skip_non_ws (trim_left_ws line) in
    let id = skip_non_ws (trim_left_ws num.1) in
    if length num.0 == 0 || equal_fold num.0 (codes "(none)")
    then ok (record { id = 0; msgid = [] })
    else if not (is_number_slice num.0)
    then err bad_id
    else if not (valid_message_id id.0)
    then err bad_msgid
    else if not (length (trim_left_ws id.1) == 0)
    then err extra_data
    else ok (record { id = stoi num.0; msgid = id.0 })

abbrev pub hdr_of : Try Bytes → Try HdrLine
hdr_of (err e) = err e
hdr_of (ok line) = parse_hdr_line line

-- The answer of GROUP: the number of articles, and the lowest and the highest number.
pub record GroupAnswer : Type 0 where
  pub num : ℕ
  pub lo : ℕ
  pub hi : ℕ

abbrev pub group_args : List Bytes → Try GroupAnswer
group_args (a ∷ b ∷ c ∷ rest) =
    if is_number_slice a && is_number_slice b && is_number_slice c
    then ok (record { num = stoi a; lo = stoi b; hi = stoi c })
    else err bad_response
group_args _ = err bad_response

-- `parseGroupResponse`.
unfoldable pub parse_group_response : Bytes → Try GroupAnswer
parse_group_response rest = group_args (parse_response_arguments rest 4)
