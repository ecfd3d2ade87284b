-- ===== src/TestSrv/Data.antt =====
-- src/nksrv/lib/nntp/testsrv/data.go: the articles and groups of the server, and what its methods
-- send and leave behind. A reply stands for the call of the `Responder` and its arguments; the
-- formatting of the lines is the standard library's. Replies are written without an error.
use nksrv.Base.{
  ℕ, ◌+◌, ◌-◌, ◌%◌, ◌^◌, Bool, true, false, ◌&&◌, ◌||◌, List, [], ◌∷◌, Option, none, some, Bytes,
  codes, leb, ◌==◌, if◌then◌else◌, bytes_eq,
}
use nksrv.Base.Int.{ℤ, pos, negsuc, is_nonneg}
use nksrv.Nntp.Syntax.{to_lower_ascii}
use nksrv.Nntp.Dates.{Date, Clock}
use nksrv.Nntp.Session.{ArticleKind}

-- `overview`.
pub record Overview : Type 0 where
  pub subject : Bytes
  pub from : Bytes
  pub date : Bytes
  pub msgid : Bytes
  pub references : Bytes
  pub bytes : Bytes
  pub lines : Bytes
  pub xref : Bytes
  pub to : Bytes
  pub cc : Bytes

-- The cases of `GetByHdr`, on a name that is in lower case.
abbrev pub by_name : Overview → Bytes → Option Bytes
by_name o s =
    if bytes_eq s (codes "subject")
    then some o.subject
    else if bytes_eq s (codes "from")
    then some o.from
    else if bytes_eq s (codes "date")
    then some o.date
    else if bytes_eq s (codes "message-id")
    then some o.msgid
    else if bytes_eq s (codes "references")
    then some o.references
    else if bytes_eq s (codes "bytes") || bytes_eq s (codes ":bytes")
    then some o.bytes
    else if bytes_eq s (codes "lines") || bytes_eq s (codes ":lines")
    then some o.lines
    else if bytes_eq s (codes "xref")
    then some o.xref
    else if bytes_eq s (codes "to")
    then some o.to
    else if bytes_eq s (codes "cc")
    then some o.cc
    else none

unfoldable pub get_by_hdr : Overview → Bytes → Option Bytes
get_by_hdr o b = by_name o (to_lower_ascii b)

-- A point in time, as `time.Date` makes it.
abbrev pub Time : Type 0
Time = Date × Clock

-- `article`.
pub record Article : Type 0 where
  pub msgid : Bytes
  pub group : Bytes
  pub number : ℕ
  pub posted : Time
  pub over : Overview
  pub head : Bytes
  pub body : Bytes

-- `group`; a map is the list of its entries.
pub record Group : Type 0 where
  pub name : Bytes
  pub info : Bytes
  pub created : Time
  pub status : ℕ
  pub articles : List (ℕ × Article)
  pub articles_sort : List ℕ

-- `server`.
pub record Srv : Type 0 where
  pub groups : List (Bytes × Group)
  pub groups_sort : List Bytes
  pub articles : List (Bytes × Article)

abbrev pub article_at : List (ℕ × Article) → ℕ → Option Article
article_at [] n = none
article_at ((k, a) ∷ es) n = if k == n then some a else article_at es n

abbrev pub lookup {ℓ} : {A : Type ℓ} → List (Bytes × A) → Bytes → Option A
lookup [] s = none
lookup ((k, a) ∷ es) s = if bytes_eq k s then some a else lookup es s

-- A name that is kept as a string of its own, or as one that shares the bytes of a command line,
-- which later commands write over.
pub data Name : Type 0 where
  own borrowed : Bytes → Name

-- `groupState`; none stands for the nil pointer in `g`.
pub record GroupState : Type 0 where
  pub group : Name
  pub number : ℕ
  pub g : Option Group

-- A line behind a reply, before it is formatted.
pub data Line : Type 0 where
  raw : Bytes → Line
  num_line : ℕ → Line
  over_line : ℕ → Overview → Line
  hdr_line : ℕ → Bytes → Line
  xhdr_line : Bytes → Bytes → Line
  active_line : Bytes → ℕ → ℕ → ℕ → Line
  info_line : Bytes → Bytes → Line
  id_line : Bytes → Line

-- What is sent: the calls of `Responder`, and the lines behind them.
pub data Sent : Type 0 where
  no_newsgroup_selected current_number_invalid no_next no_prev : Sent
  article_res : ArticleKind → ℕ → Bytes → Sent
  group_selected numbers_follow : ℕ → ℕ → ℕ → Bytes → Sent
  overview_follows hdr_follow xhdr_follow : Sent
  hdr_unsupported : Bytes → Sent
  send_article posting_failed posting_accepted : Sent
  transfer_failed send_transfer transfer_rejected transfer_success : Sent
  want_later wanted rejected transferred : Bytes → Sent
  dot_lines : List Line → Sent

-- A method's result: the Boolean it returns, `cs.CurrentGroup`, and what it sent. None, in place of
-- it, is a panic.
pub record Res : Type 0 where
  pub ok : Bool
  pub gs : Option GroupState
  pub sent : List Sent

abbrev pub answers : Option GroupState → List Sent → Option Res
answers gs sent = some (record { ok = true; gs = gs; sent = sent })

abbrev pub refuses : Option GroupState → Option Res
refuses gs = some (record { ok = false; gs = gs; sent = [] })

-- `uint64(x)` of an `int64`.
abbrev pub to_uint64 : ℤ → ℕ
to_uint64 (pos n) = n % 2 ^ 64
to_uint64 (negsuc n) = 2 ^ 64 - (n + 1)

-- `n >= uint64(rmin) && (rmax < 0 || n <= uint64(rmax))`.
abbrev pub in_range : ℤ → ℤ → ℕ → Bool
in_range rmin rmax n =
    leb (to_uint64 rmin) n && (if is_nonneg rmax then leb n (to_uint64 rmax) else true)
