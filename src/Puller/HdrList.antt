-- ===== src/Puller/HdrList.antt =====
-- `eatHdrOutput` of src/nksrv/lib/nntp/client_puller.go: the articles of a slice, as HDR or XHDR lists them. The
-- bounds of the slice are the 64 bits of an `int64`.
pub mod Wanted
use nksrv.Base.{
  ℕ, suc, ◌+◌, ◌^◌, ◌%◌, Bool, true, false, not, ◌&&◌, ◌||◌, List, [], ◌∷◌, ◌++◌, Option, none,
  some, Bytes, ltb, leb, ◌==◌, if◌then◌else◌, length,
}
use nksrv.BufReader.Stream.{Item}
use nksrv.DotReader.{new_dot}
use nksrv.DotReader.Scan.{discard}
use nksrv.Puller.Lines.{Try, ok, err, dot_line_byte, HdrLine, parse_hdr_line}
use nksrv.Puller.Lists.{Fault, bad_list, LoopEnd, lines_loop, enough}
use nksrv.Puller.Slices.{is_negative}
use nksrv.Puller.Todo.{TodoArticle}

abbrev pub max_list_size : ℕ
max_list_size = 2048

-- Whether a number was not asked for.
unfoldable pub is_unwanted : ℕ → ℕ → ℕ → Bool
is_unwanted r_begin r_end id =
    id == 0
    || ltb id r_begin
    || (not (is_negative r_end) && ltb r_end id)
    || (is_negative r_end && leb ((r_begin + max_list_size) % 2 ^ 64) id)

-- An article is added to the list, if it was asked for and there is room.
unfoldable pub add_article : ℕ → ℕ → TodoArticle → List TodoArticle → List TodoArticle
add_article r_begin r_end a todo =
    if is_unwanted r_begin r_end a.id
    then todo
    else if leb max_list_size (length todo)
    then todo
    else todo ++ a ∷ []

abbrev pub hdr_line : ℕ → ℕ → Try HdrLine → List TodoArticle → Option Fault × List TodoArticle
hdr_line r_begin r_end (err e) todo = (some bad_list, todo)
hdr_line r_begin r_end (ok h) todo =
    (none, add_article r_begin r_end (record { id = h.id; msgid = h.msgid; ref = [] }) todo)

-- The list, whether there was an error, and the connection behind.
pub record Eaten : Type 0 where
  pub todo : List TodoArticle
  pub fails : Bool
  pub rest : List Item

abbrev pub after_hdr : LoopEnd (List TodoArticle) → Eaten
after_hdr r = elim r.how [
  | none ↦ record { todo = r.out; fails = false; rest = r.rest }
  | some e ↦ record { todo = r.out; fails = true; rest = (discard r.dot r.rest).rest }
]

abbrev pub eaten_of : Option (LoopEnd (List TodoArticle)) → Option Eaten
eaten_of none = none
eaten_of (some r) = some (after_hdr r)

unfoldable pub eat_hdr_output : ℕ → ℕ → List Item → Option Eaten
eat_hdr_output r_begin r_end is = eaten_of (
    lines_loop dot_line_byte [] (λ line. hdr_line r_begin r_end (parse_hdr_line line)) (enough is)
      new_dot is [])
