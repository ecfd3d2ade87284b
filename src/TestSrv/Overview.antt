-- ===== src/TestSrv/Overview.antt =====
-- src/nksrv/lib/nntp/testsrv/testsrv.go: OVER and HDR with their older forms XOVER and XHDR.
use nksrv.Base.{ℕ, Bool, true, false, List, [], ◌∷◌, Option, none, some, Bytes, if◌then◌else◌}
use nksrv.Base.Int.{ℤ}
use nksrv.Nntp.Syntax.{to_lower_ascii}
use nksrv.TestSrv.Data.{
  get_by_hdr, Article, Group, Srv, article_at, lookup, GroupState, Line, over_line, hdr_line,
  xhdr_line, Sent, no_newsgroup_selected, overview_follows, hdr_follow, xhdr_follow,
  hdr_unsupported, dot_lines, Res, answers, refuses, in_range,
}
use nksrv.TestSrv.Articles.{artnum_in_group, in_group}

unfoldable pub get_over_by_msgid : Srv → (Bytes → Bytes) → Option GroupState → Bytes → Option Res
get_over_by_msgid s1 now gs msgid = elim (lookup s1.articles msgid) [
  | none ↦ refuses gs
  | some a ↦ answers gs (
      overview_follows
      ∷ dot_lines (over_line (artnum_in_group now gs a.group a.number) a.over ∷ [])
      ∷ [])
]

-- The loop over the numbers of the group. None is a panic: a number without an article.
abbrev pub with_over : Option Article → Option (List Line) → Option (List Line)
with_over none rest = none
with_over (some a) none = none
with_over (some a) (some ls) = some (over_line a.number a.over ∷ ls)

unfoldable pub over_loop : Group → ℤ → ℤ → List ℕ → Option (List Line)
over_loop g rmin rmax [] = some []
over_loop g rmin rmax (an ∷ ns) =
    let rest = over_loop g rmin rmax ns in
    if in_range rmin rmax an then with_over (article_at g.articles an) rest else rest

-- The reply is sent in front of the first line, and not at all where there is no line.
abbrev pub range_res : Sent → GroupState → Option (List Line) → Option Res
range_res res gs none = none
range_res res gs (some []) = refuses (some gs)
range_res res gs (some (l ∷ ls)) = answers (some gs) (res ∷ dot_lines (l ∷ ls) ∷ [])

unfoldable pub get_over_by_range : Option GroupState → ℤ → ℤ → Option Res
get_over_by_range none rmin rmax = answers none (no_newsgroup_selected ∷ [])
get_over_by_range (some gs) rmin rmax = elim gs.g [
  | none ↦ none
  | some g ↦ range_res overview_follows gs (over_loop g rmin rmax g.articles_sort)
]

abbrev pub over_curr : GroupState → Option (Option Article) → Option Res
over_curr gs none = none
over_curr gs (some none) = refuses (some gs)
over_curr gs (some (some a)) =
    answers (some gs) (overview_follows ∷ dot_lines (over_line a.number a.over ∷ []) ∷ [])

unfoldable pub get_over_by_curr : Option GroupState → Option Res
get_over_by_curr none = answers none (no_newsgroup_selected ∷ [])
get_over_by_curr (some gs) = over_curr gs (in_group gs gs.number)

-- `GetByHdr` writes the name that it was given in lower case.
abbrev pub unsupported : Option GroupState → Bytes → Option Res
unsupported gs hdr = answers gs (hdr_unsupported (to_lower_ascii hdr) ∷ [])

abbrev pub hdr_reply : Bool → Sent
hdr_reply true = hdr_follow
hdr_reply false = xhdr_follow

-- `commonGetHdrByMsgID`; the flag is `rfc`.
abbrev pub hdr_of_article :
    (Bytes → Bytes) → Bool → Option GroupState → Bytes → Bytes → Article → Option Bytes → Option Res
hdr_of_article now rfc gs hdr msgid a none = unsupported gs hdr
hdr_of_article now true gs hdr msgid a (some h) =
    answers gs
      (hdr_follow ∷ dot_lines (hdr_line (artnum_in_group now gs a.group a.number) h ∷ []) ∷ [])
hdr_of_article now false gs hdr msgid a (some h) =
    answers gs (xhdr_follow ∷ dot_lines (xhdr_line msgid h ∷ []) ∷ [])

unfoldable pub get_hdr_by_msgid :
    Srv → (Bytes → Bytes) → Bool → Option GroupState → Bytes → Bytes → Option Res
get_hdr_by_msgid s1 now rfc gs hdr msgid = elim (lookup s1.articles msgid) [
  | none ↦ refuses gs
  | some a ↦ hdr_of_article now rfc gs hdr msgid a (get_by_hdr a.over hdr)
]

-- How far the loop of `commonGetHdrByRange` comes: to its end, to a header that is not there, or to a
-- panic, each with the lines before it.
pub data HdrLoop : Type 0 where
  ended stopped : List Line → HdrLoop
  crashed : HdrLoop

abbrev pub with_hdr : Line → HdrLoop → HdrLoop
with_hdr l (ended ls) = ended (l ∷ ls)
with_hdr l (stopped ls) = stopped (l ∷ ls)
with_hdr l crashed = crashed

abbrev pub hdr_step : Bytes → ℕ → Option Article → HdrLoop → HdrLoop
hdr_step hdr an none rest = crashed
hdr_step hdr an (some a) rest = elim (get_by_hdr a.over hdr) [
  | none ↦ stopped []
  | some h ↦ with_hdr (hdr_line an h) rest
]

unfoldable pub hdr_loop : Group → Bytes → ℤ → ℤ → List ℕ → HdrLoop
hdr_loop g hdr rmin rmax [] = ended []
hdr_loop g hdr rmin rmax (an ∷ ns) =
    let rest = hdr_loop g hdr rmin rmax ns in
    if in_range rmin rmax an then hdr_step hdr an (article_at g.articles an) rest else rest

abbrev pub hdr_res : Bool → GroupState → Bytes → HdrLoop → Option Res
hdr_res rfc gs hdr (ended []) = refuses (some gs)
hdr_res rfc gs hdr (ended (l ∷ ls)) = answers (some gs) (hdr_reply rfc ∷ dot_lines (l ∷ ls) ∷ [])
hdr_res rfc gs hdr (stopped []) = unsupported (some gs) hdr
hdr_res rfc gs hdr (stopped (l ∷ ls)) =
    answers (some gs)
      (hdr_reply rfc ∷ dot_lines (l ∷ ls) ∷ hdr_unsupported (to_lower_ascii hdr) ∷ [])
hdr_res rfc gs hdr crashed = none

unfoldable pub get_hdr_by_range : Bool → Option GroupState → Bytes → ℤ → ℤ → Option Res
get_hdr_by_range rfc none hdr rmin rmax = answers none (no_newsgroup_selected ∷ [])
get_hdr_by_range rfc (some gs) hdr rmin rmax = elim gs.g [
  | none ↦ none
  | some g ↦ hdr_res rfc gs hdr (hdr_loop g hdr rmin rmax g.articles_sort)
]

abbrev pub hdr_curr : Bool → GroupState → Bytes → Option (Option Article) → Option Res
hdr_curr rfc gs hdr none = none
hdr_curr rfc gs hdr (some none) = refuses (some gs)
hdr_curr rfc gs hdr (some (some a)) = elim (get_by_hdr a.over hdr) [
  | none ↦ unsupported (some gs) hdr
  | some h ↦ answers (some gs) (hdr_reply rfc ∷ dot_lines (hdr_line a.number h ∷ []) ∷ [])
]

unfoldable pub get_hdr_by_curr : Bool → Option GroupState → Bytes → Option Res
get_hdr_by_curr rfc none hdr = answers none (no_newsgroup_selected ∷ [])
get_hdr_by_curr rfc (some gs) hdr = hdr_curr rfc gs hdr (in_group gs gs.number)
