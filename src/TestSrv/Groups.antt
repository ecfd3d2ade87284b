-- ===== src/TestSrv/Groups.antt =====
-- src/nksrv/lib/nntp/testsrv/testsrv.go: GROUP, LISTGROUP, NEXT, LAST and the lists of groups and news.
use nksrv.Base.{
  ℕ, ◌+◌, ◌-◌, ◌%◌, ◌^◌, Bool, true, false, List, [], ◌∷◌, reverse, Option, none, some, Bytes, ltb,
  ◌==◌, if◌then◌else◌, bytes_eq,
}
use nksrv.Base.Int.{ℤ}
use nksrv.Nntp.Syntax.{valid_group_slice}
use nksrv.Nntp.Wildmat.{compile_wildmat, check}
use nksrv.Nntp.Session.{article_stat}
use nksrv.TestSrv.Data.{
  Time, Article, Group, Srv, article_at, lookup, own, borrowed, GroupState, Line, num_line,
  active_line, info_line, id_line, Sent, no_newsgroup_selected, current_number_invalid, no_next,
  no_prev, article_res, group_selected, numbers_follow, dot_lines, Res, answers, refuses, in_range,
}
use nksrv.TestSrv.Articles.{read_name}

-- `g.articlesSort[len(g.articlesSort)-1]`, of a list with this head.
abbrev pub last : ℕ → List ℕ → ℕ
last n [] = n
last n (m ∷ ns) = last m ns

-- `gs.number`, and the arguments of the reply: `hi-lo+1, lo, hi`.
abbrev pub first_number : List ℕ → ℕ
first_number [] = 0
first_number (lo ∷ ns) = lo

abbrev pub count : ℕ → ℕ → ℕ
count lo hi = (hi + 2 ^ 64 - lo + 1) % 2 ^ 64

abbrev pub group_reply : (ℕ → ℕ → ℕ → Bytes → Sent) → List ℕ → Bytes → Sent
group_reply res [] name = res 0 0 0 name
group_reply res (lo ∷ ns) name = res (count lo (last lo ns)) lo (last lo ns) name

-- `SelectGroup`: the name shares the bytes of the command line.
unfoldable pub select_group : Srv → Option GroupState → Bytes → Option Res
select_group s1 gs group = elim (lookup s1.groups group) [
  | none ↦ refuses gs
  | some g ↦
      answers
        (some
          (record { group = borrowed group; number = first_number g.articles_sort; g = some g }))
        (group_reply group_selected g.articles_sort group ∷ [])
]

abbrev pub listed : ℤ → ℤ → List ℕ → List Line
listed rmin rmax [] = []
listed rmin rmax (n ∷ ns) =
    if in_range rmin rmax n then num_line n ∷ listed rmin rmax ns else listed rmin rmax ns

-- The rest of `SelectAndListGroup`, where a group state is there. It stays where the group is not.
abbrev pub list_selected : GroupState → ℤ → ℤ → Option Group → Option Res
list_selected gs rmin rmax none = refuses (some gs)
list_selected gs rmin rmax (some g) =
    answers
      (some (record { group = own g.name; number = first_number g.articles_sort; g = some g }))
      (group_reply numbers_follow g.articles_sort g.name
        ∷ dot_lines (listed rmin rmax g.articles_sort)
        ∷ [])

-- `&groupState{}`.
abbrev pub new_group_state : GroupState
new_group_state = record { group = own []; number = 0; g = none }

unfoldable pub select_and_list_group :
    Srv → (Bytes → Bytes) → Option GroupState → Bytes → ℤ → ℤ → Option Res
select_and_list_group s1 now none [] rmin rmax = answers none (no_newsgroup_selected ∷ [])
select_and_list_group s1 now none (c ∷ group) rmin rmax =
    list_selected new_group_state rmin rmax (lookup s1.groups (c ∷ group))
select_and_list_group s1 now (some gs) [] rmin rmax =
    list_selected gs rmin rmax (lookup s1.groups (read_name now gs.group))
select_and_list_group s1 now (some gs) (c ∷ group) rmin rmax =
    list_selected gs rmin rmax (lookup s1.groups (c ∷ group))

-- The first number of a list that is above, or below, another.
abbrev pub first_above : ℕ → List ℕ → Option ℕ
first_above x [] = none
first_above x (n ∷ ns) = if ltb x n then some n else first_above x ns

abbrev pub first_below : ℕ → List ℕ → Option ℕ
first_below x [] = none
first_below x (n ∷ ns) = if ltb n x then some n else first_below x ns

-- `gs.number = n`, and the article of that number; a panic, if it has none.
abbrev pub move_to : GroupState → Option Article → ℕ → Option Res
move_to gs none n = none
move_to gs (some a) n =
    answers (some (record gs { number = n })) (article_res article_stat a.number a.msgid ∷ [])

abbrev pub moved : GroupState → Group → Sent → Option ℕ → Option Res
moved gs g otherwise none = answers (some gs) (otherwise ∷ [])
moved gs g otherwise (some n) = move_to gs (article_at g.articles n) n

-- What `SelectNextArticle` and `SelectPrevArticle` share: the search in the numbers of the group.
abbrev pub move : (ℕ → List ℕ → Option ℕ) → Sent → GroupState → Option Group → Option Res
move find otherwise gs none = none
move find otherwise gs (some g) = moved gs g otherwise (find gs.number g.articles_sort)

abbrev pub select_move : (ℕ → List ℕ → Option ℕ) → Sent → Option GroupState → Option Res
select_move find otherwise none = answers none (no_newsgroup_selected ∷ [])
select_move find otherwise (some gs) =
    if gs.number == 0
    then answers (some gs) (current_number_invalid ∷ [])
    else move find otherwise gs gs.g

unfoldable pub select_next_article : Option GroupState → Option Res
select_next_article gs = select_move first_above no_next gs

unfoldable pub select_prev_article : Option GroupState → Option Res
select_prev_article gs = select_move (λ x ns. first_below x (reverse ns)) no_prev gs

-- `emptyWildmat`.
unfoldable pub empty_wildmat : Bytes → Bool
empty_wildmat [] = true
empty_wildmat (c ∷ []) = c == b'*'
empty_wildmat _ = false

-- `chk`: everything, one group, or a pattern, whose expressions are matched by the library; none is
-- the panic of a pattern that does not compile.
unfoldable pub chk : (Bytes → Bytes → Bool) → Bytes → Option (Bytes → Bool)
chk matches wildmat =
    let pattern : Option (Bytes → Bool) = elim (compile_wildmat wildmat) [
      | none ↦ none
      | some w ↦ some (check matches w)
    ] in
    if empty_wildmat wildmat
    then some (λ g. true)
    else if valid_group_slice wildmat
    then some (λ g. bytes_eq g wildmat)
    else pattern

-- A list that a panic breaks off: nothing of it is an answer.
abbrev pub with_line : Line → Option (List Line) → Option (List Line)
with_line l none = none
with_line l (some ls) = some (l ∷ ls)

-- `articlesSort[0]` and the last of them: a panic, where there is none. The group of a name that is
-- in `groupsSort` is there.
abbrev pub active_of : Bytes → Option Group → Option (List Line) → Option (List Line)
active_of gn none rest = none
active_of gn (some g) rest = elim g.articles_sort [
  | [] ↦ none
  | lo ∷ ns ↦ with_line (active_line gn (last lo ns) lo g.status) rest
]

module _ (s1 : Srv) where
  -- The loop of `ListActiveGroups`.
  unfoldable pub active_loop : (Bytes → Bool) → List Bytes → Option (List Line)
  active_loop p [] = some []
  active_loop p (gn ∷ gns) =
      let rest = active_loop p gns in if p gn then active_of gn (lookup s1.groups gn) rest else rest

  -- The loop of `ListNewGroups`, with `!qt.After(g.created)` as the test.
  unfoldable pub new_groups_loop : (Time → Bool) → List Bytes → Option (List Line)
  new_groups_loop p [] = some []
  new_groups_loop p (gn ∷ gns) =
      let rest = new_groups_loop p gns in
      elim (lookup s1.groups gn) [
        | none ↦ none
        | some g ↦ if p g.created then active_of gn (some g) rest else rest
      ]

  -- The loop of `ListNewsgroups`.
  unfoldable pub newsgroups_loop : (Bytes → Bool) → List Bytes → Option (List Line)
  newsgroups_loop p [] = some []
  newsgroups_loop p (gn ∷ gns) =
      let rest = newsgroups_loop p gns in
      if p gn
      then elim (lookup s1.groups gn) [
        | none ↦ none
        | some g ↦ with_line (info_line gn g.info) rest
      ]
      else rest

  -- The loop of `ListNewNews`, over the entries in the order that the map gives them in.
  unfoldable pub new_news_loop : (Time → Bool) → (Bytes → Bool) → List (Bytes × Article) → List Line
  new_news_loop p q [] = []
  new_news_loop p q ((id, a) ∷ arts) =
      let rest = new_news_loop p q arts in
      if p a.posted then (if q a.group then id_line id ∷ rest else rest) else rest

-- The loop of a list with its test, which is made before.
abbrev pub checked :
    Option (Bytes → Bool) → ((Bytes → Bool) → Option (List Line)) → Option (List Line)
checked none loop = none
checked (some p) loop = loop p

-- The lines, or the panic, as the result of a method that leaves the group as it is.
abbrev pub list_res : Option GroupState → Option (List Line) → Option Res
list_res gs none = none
list_res gs (some ls) = answers gs (dot_lines ls ∷ [])
