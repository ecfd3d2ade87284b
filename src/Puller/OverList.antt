-- ===== src/Puller/OverList.antt =====
-- `eatOverOutput` of src/nksrv/lib/nntp/client_puller.go, and `getOverLineInfo` of
-- src/nksrv/lib/nntp/client_puller_utils.go: the articles of a slice, as OVER or XOVER lists them.
pub mod Line
pub mod Ends
pub mod Wanted
use nksrv.Base.{
  ℕ, zero, suc, Bool, true, false, not, ◌&&◌, ◌||◌, List, [], ◌∷◌, ◌++◌, Option, none, some, Bytes,
  leb, ◌==◌, if◌then◌else◌, length, ◌+◌,
}
use nksrv.Ascii.{trim_ws}
use nksrv.BufReader.Stream.{Item}
use nksrv.Nntp.Syntax.{is_number_slice, stoi, valid_message_id}
use nksrv.DotReader.{Dot, new_dot}
use nksrv.DotReader.Scan.{
  DotErr, article_end, cut_off, broken_off, Verdict, more, answer, ScanEnd, answered, stopped, Scan,
  scan, discard,
}
use nksrv.DotReader.Scan.Ending.{size}
use nksrv.MailTools.{extract_first_valid_reference}
use nksrv.Puller.Response.{inbuf_size}
use nksrv.Puller.HdrList.{add_article, Eaten}
use nksrv.Puller.Todo.{TodoArticle}

-- `io.EOF`, or another error.
pub data OverErr : Type 0 where
  at_eof other_err : OverErr

abbrev pub over_err : DotErr → OverErr
over_err article_end = at_eof
over_err _ = other_err

abbrev pub is_fatal : DotErr → Bool
is_fatal article_end = false
is_fatal _ = true

-- How far the fields of a line are read: `i`, `nomore`, and the connection.
pub record Pos : Type 0 where
  pub used : ℕ
  pub no_more : Bool
  pub dot : Dot
  pub rest : List Item

-- A field, or an error, and whether `fatal` is set.
pub data FieldRead : Type 0 where
  field : Bytes → FieldRead
  lost : OverErr → Bool → FieldRead

-- The field so far, and the bytes of `inbuf` that all fields take.
pub record Field : Type 0 where
  pub used : ℕ
  pub bytes : Bytes

pub data FieldEnd : Type 0 where
  last_field next_field : Field → FieldEnd
  too_long : Field → FieldEnd

-- The loop of `eatField`.
abbrev pub field_byte : Field → ℕ → Verdict Field FieldEnd
field_byte f b =
    if b == b'\n'
    then answer (last_field f)
    else if b == b'\t'
    then answer (next_field f)
    else if leb inbuf_size f.used
    then answer (too_long f)
    else more (record { used = f.used + 1; bytes = f.bytes ++ b ∷ [] })

abbrev pub field_of : ScanEnd Field FieldEnd → Dot → List Item → FieldRead × Pos
field_of (answered (last_field f)) d is =
    (field f.bytes, record { used = f.used; no_more = true; dot = d; rest = is })
field_of (answered (next_field f)) d is =
    (field f.bytes, record { used = f.used; no_more = false; dot = d; rest = is })
field_of (answered (too_long f)) d is =
    (lost other_err false, record { used = f.used; no_more = false; dot = d; rest = is })
field_of (stopped f e) d is =
    (lost (over_err e) (is_fatal e), record { used = f.used; no_more = false; dot = d; rest = is })

-- `eatField`.
abbrev pub eat_field : Pos → FieldRead × Pos
eat_field p =
    let r = scan field_byte (record { used = p.used; bytes = [] }) p.dot p.rest in
    if p.no_more then (field [], p) else field_of r.how r.dot r.rest

-- The loop of `ignoreField`: whether the line ends.
abbrev pub ignore_byte : Unit {0} → ℕ → Verdict (Unit {0}) Bool
ignore_byte u b = if b == b'\n' then answer true else if b == b'\t' then answer false else more tt

abbrev pub ignored_of : ℕ → ScanEnd (Unit {0}) Bool → Dot → List Item → FieldRead × Pos
ignored_of i (answered b) d is = (field [], record { used = i; no_more = b; dot = d; rest = is })
ignored_of i (stopped u e) d is =
    (lost (over_err e) (is_fatal e), record { used = i; no_more = false; dot = d; rest = is })

-- `ignoreField`.
abbrev pub ignore_field : Pos → FieldRead × Pos
ignore_field p =
    let r = scan ignore_byte tt p.dot p.rest in
    if p.no_more then (field [], p) else ignored_of p.used r.how r.dot r.rest

-- What `getOverLineInfo` returns, and the connection behind.
pub record OverLine : Type 0 where
  pub id : ℕ
  pub msgid : Bytes
  pub ref : Bytes
  pub err : Option OverErr
  pub fatal : Bool
  pub dot : Dot
  pub rest : List Item

-- The deferred loop: the rest of the line is read.
abbrev pub drain_byte : Unit {0} → ℕ → Verdict (Unit {0}) (Unit {0})
drain_byte u b = if b == b'\n' then answer tt else more tt

abbrev pub or_err : Option OverErr → OverErr → Option OverErr
or_err none e = some e
or_err (some x) e = some x

abbrev pub drained : OverLine → ScanEnd (Unit {0}) (Unit {0}) → Dot → List Item → OverLine
drained l (answered u) d is = record l { dot = d; rest = is }
drained l (stopped u e) d is = record l {
  err = or_err l.err (over_err e);
  fatal = l.fatal || is_fatal e;
  dot = d;
  rest = is;
}

-- A return, with the deferred function.
unfoldable pub leave : ℕ → Bytes → Bytes → Option OverErr → Bool → Pos → OverLine
leave id msgid ref err fatal p =
    let l : OverLine = record {
      id = id;
      msgid = msgid;
      ref = ref;
      err = err;
      fatal = fatal;
      dot = p.dot;
      rest = p.rest;
    } in
    let r = scan drain_byte tt p.dot p.rest in if p.no_more then l else drained l r.how r.dot r.rest

-- Behind a field, or a return with its error.
abbrev pub with_field : ℕ → Bytes → FieldRead × Pos → (Bytes → Pos → OverLine) → OverLine
with_field id msgid (lost e fatal, p) k = leave id msgid [] (some e) fatal p
with_field id msgid (field f, p) k = k f p

-- The references.
abbrev pub over_ref : ℕ → Bytes → Bytes → Pos → OverLine
over_ref id msgid xref p = leave id msgid (extract_first_valid_reference xref) none false p

-- The message identifier.
abbrev pub over_msgid : ℕ → Bytes → Pos → OverLine
over_msgid id smsgid p =
    let msgid = trim_ws smsgid in
    if not (valid_message_id msgid)
    then leave id msgid [] (some other_err) false p
    else with_field id msgid (eat_field p) (over_ref id msgid)

-- Fields that are not used: subject, author, date.
unfoldable pub over_skip : ℕ → ℕ → Pos → OverLine
over_skip zero id p = with_field id [] (eat_field p) (over_msgid id)
over_skip (suc n) id p = with_field id [] (ignore_field p) λ f p'. elim p'.no_more [
  | true ↦ leave id [] [] (some other_err) false p'
  | false ↦ over_skip n id p'
]

-- The number.
abbrev pub over_number : Bytes → Pos → OverLine
over_number f p =
    let snum = trim_ws f in
    if p.no_more
    then leave 0 [] [] none false p
    else if length snum == 0 || not (is_number_slice snum)
    then leave 0 [] [] (some other_err) false p
    else over_skip 3 (stoi snum) p

-- `getOverLineInfo`.
unfoldable pub get_over_line_info : Dot → List Item → OverLine
get_over_line_info d is =
    with_field 0 [] (eat_field (record { used = 0; no_more = false; dot = d; rest = is }))
      over_number

-- What the loop of `eatOverOutput` does behind a line.
abbrev pub after_over :
    ℕ → ℕ → OverLine → List TodoArticle → (List TodoArticle → Option Eaten) → Option Eaten
after_over r_begin r_end l todo again = elim l.err [
  | none ↦
      again (add_article r_begin r_end (record { id = l.id; msgid = l.msgid; ref = l.ref }) todo)
  | some at_eof ↦ some (record { todo = todo; fails = false; rest = l.rest })
  | some other_err ↦ elim l.fatal [
    | true ↦ some (record { todo = todo; fails = true; rest = (discard l.dot l.rest).rest })
    | false ↦ again todo
  ]
]

unfoldable pub over_loop : ℕ → ℕ → ℕ → Dot → List Item → List TodoArticle → Option Eaten
over_loop r_begin r_end zero d is todo = none
over_loop r_begin r_end (suc n) d is todo =
    let l = get_over_line_info d is in
    after_over r_begin r_end l todo (over_loop r_begin r_end n l.dot l.rest)

-- `eatOverOutput`.
unfoldable pub eat_over_output : ℕ → ℕ → List Item → Option Eaten
eat_over_output r_begin r_end is = over_loop r_begin r_end (suc (size new_dot is)) new_dot is []
