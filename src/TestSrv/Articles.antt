-- ===== src/TestSrv/Articles.antt =====
-- src/nksrv/lib/nntp/testsrv/testsrv.go: ARTICLE, HEAD, BODY and STAT, by message identifier, by number
-- and for the current article.
use nksrv.Base.{ℕ, List, [], ◌∷◌, Option, none, some, Bytes, codes, bytes_eq, if◌then◌else◌}
use nksrv.Nntp.Session.{ArticleKind, article_full, article_head, article_body, article_stat}
use nksrv.TestSrv.Data.{
  Article, Srv, article_at, lookup, Name, own, borrowed, GroupState, raw, Sent,
  no_newsgroup_selected, article_res, dot_lines, Res, answers, refuses,
}

-- What the methods send of an article, behind its number and identifier.
abbrev pub send_article_of : ArticleKind → ℕ → Bytes → Article → List Sent
send_article_of article_full n id a =
    article_res article_full n id ∷ dot_lines (raw a.head ∷ raw (b'\n' ∷ []) ∷ raw a.body ∷ []) ∷ []
send_article_of article_head n id a =
    article_res article_head n id ∷ dot_lines (raw a.head ∷ []) ∷ []
send_article_of article_body n id a =
    article_res article_body n id ∷ dot_lines (raw a.body ∷ []) ∷ []
send_article_of article_stat n id a = article_res article_stat n id ∷ []

-- A name as it reads by now: `now` gives what a command line that was borrowed from holds by now.
abbrev pub read_name : (Bytes → Bytes) → Name → Bytes
read_name now (own s) = s
read_name now (borrowed s) = now s

-- `artnumInGroup`.
unfoldable pub artnum_in_group : (Bytes → Bytes) → Option GroupState → Bytes → ℕ → ℕ
artnum_in_group now none group num = 0
artnum_in_group now (some gs) group num = if bytes_eq (read_name now gs.group) group then num else 0

unfoldable pub get_article_by_msgid :
    Srv → (Bytes → Bytes) → ArticleKind → Option GroupState → Bytes → Option Res
get_article_by_msgid s1 now kind gs msgid = elim (lookup s1.articles msgid) [
  | none ↦ refuses gs
  | some a ↦ answers gs (send_article_of kind (artnum_in_group now gs a.group a.number) a.msgid a)
]

-- `a1msgid`, which the reply of HEAD by number has in place of the article's own identifier.
abbrev pub a1_msgid : Bytes
a1_msgid = codes "nekosnekosnekosnekos@void.neko.test"

abbrev pub id_by_num : ArticleKind → Article → Bytes
id_by_num article_head a = a1_msgid
id_by_num _ a = a.msgid

-- `gs.g.articles[num]`, a panic on a nil `gs.g`.
abbrev pub in_group : GroupState → ℕ → Option (Option Article)
in_group gs num = elim gs.g [ none ↦ none | some g ↦ some (article_at g.articles num) ]

abbrev pub by_num : ArticleKind → GroupState → ℕ → Option (Option Article) → Option Res
by_num kind gs num none = none
by_num kind gs num (some none) = refuses (some gs)
by_num kind gs num (some (some a)) =
    answers (some (record gs { number = num })) (send_article_of kind num (id_by_num kind a) a)

unfoldable pub get_article_by_num : ArticleKind → Option GroupState → ℕ → Option Res
get_article_by_num kind none num = answers none (no_newsgroup_selected ∷ [])
get_article_by_num kind (some gs) num = by_num kind gs num (in_group gs num)

abbrev pub by_curr : ArticleKind → GroupState → Option (Option Article) → Option Res
by_curr kind gs none = none
by_curr kind gs (some none) = refuses (some gs)
by_curr kind gs (some (some a)) = answers (some gs) (send_article_of kind a.number a.msgid a)

unfoldable pub get_article_by_curr : ArticleKind → Option GroupState → Option Res
get_article_by_curr kind none = answers none (no_newsgroup_selected ∷ [])
get_article_by_curr kind (some gs) = by_curr kind gs (in_group gs gs.number)
