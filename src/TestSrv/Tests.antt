-- ===== src/TestSrv/Tests.antt =====
-- The server of src/nksrv/lib/nntp/testsrv/data.go, and runs of its methods.
use nksrv.Base.{
  arith, ◌≡◌, refl, true, false, List, [], ◌∷◌, ◌++◌, none, some, codes, bytes_eq, All, inl,
}
use nksrv.Base.Int.{pos, negsuc}
use nksrv.Nntp.Dates.{Date, Clock}
use nksrv.Nntp.Session.{
  article_by_num, article_stat, select_group, select_and_list_group, handle_post, Server,
}
use nksrv.Nntp.Session.Permission.{IsPermitted}
use nksrv.Nntp.Session.Serve.{line_read, Input, serve_client, new_conn, new_tls_conn}
use nksrv.Nntp.Fixture.{bob, small_server}
use nksrv.TestSrv.Data.{
  Overview, Article, Group, Srv, GroupState, own, borrowed, Sent, group_selected, Res, answers,
  refuses,
}
use nksrv.TestSrv.Posts.{Headers}
use nksrv.TestSrv.Answer.{TestSrv, World, method}
use nksrv.TestSrv.Articles.{get_article_by_num, a1_msgid}
use nksrv.TestSrv.Rounds.{state_of, select_prev-next}
use nksrv.TestSrv.Serving.{provide, provide-IsPermitted}
use nksrv.TestSrv.Groups
use nksrv.TestSrv.Posts
use nksrv.TestSrv.Data
use nksrv.TestSrv.Invariant.{start, call, Reached-IsSound}
use nksrv.TestSrv.Invariant.Moves.{IsSound, IsReady}

abbrev over1 : Overview
over1 = record {
  subject = codes "nekos";
  from = codes "<neko@void.neko.test>";
  date = codes "6 Oct 2000 01:23:45 -0000";
  msgid = a1_msgid;
  references = [];
  bytes = codes "33";
  lines = codes "2";
  xref = codes "void.neko.test nekos:9000";
  to = [];
  cc = [];
}

abbrev noon : Date × Clock
noon = (
  record { year = 2000; month = 10; day = 6; valid = true },
  record { hour = 12; minute = 0; second = 0; valid = true },
)

abbrev a1 : Article
a1 = record {
  msgid = a1_msgid;
  group = codes "nekos";
  number = 9000;
  posted = noon;
  over = over1;
  head = codes "Subject: nekos";
  body = codes "Nekos are Love.";
}

abbrev g1 : Group
g1 = record {
  name = codes "nekos";
  info = codes "group about nekos";
  created = noon;
  status = b'y';
  articles = (9000, a1) ∷ [];
  articles_sort = 9000 ∷ [];
}

abbrev s1 : Srv
s1 = record {
  groups = (codes "nekos", g1) ∷ [];
  groups_sort = codes "nekos" ∷ [];
  articles = (a1_msgid, a1) ∷ [];
}

abbrev p1 : TestSrv
p1 = record {
  support_new_news = true;
  support_over_by_msgid = true;
  support_hdr = true;
  support_ihave = true;
  support_post = true;
  support_stream = true;
  permits = record {
    posting_permit = true;
    posting_accept = true;
    transfer_permit = true;
    transfer_accept = true;
  };
}

-- The bytes of an earlier command are those of LISTGROUP by now.
abbrev world : World
world = record {
  now = λ s. codes "LISTG";
  incoming = record { msgid = codes "<a@b>"; failed = false };
  after = λ d c t. false;
  matches = λ re s. false;
}

-- The state behind GROUP.
abbrev in_nekos : GroupState
in_nekos = record { group = borrowed (codes "nekos"); number = 9000; g = some g1 }

selected :
    method p1 s1 world (select_group (codes "nekos")) none
    ≡ answers (some in_nekos) (group_selected 1 9000 9000 (codes "nekos") ∷ [])
unfolding method bytes_eq Groups.select_group
selected = refl

-- LISTGROUP without an argument does not find the group that is selected: its name was written over.
list_selected_fails :
    method p1 s1 world (select_and_list_group none (pos 1) (negsuc 0)) (some in_nekos)
    ≡ refuses (some in_nekos)
unfolding method bytes_eq Groups.select_and_list_group
list_selected_fails = refl

-- LISTGROUP of a group that is not there leaves a state that ARTICLE panics on.
article_panics :
    method p1 s1 world
      (article_by_num article_stat 1)
      (some (record { group = own []; number = 0; g = none }))
    ≡ none
unfolding method get_article_by_num
article_panics = refl

-- A post whose headers are read without an error is refused.
post_fails :
    method p1 s1 world handle_post none
    ≡ answers none (Data.send_article ∷ Data.posting_failed ∷ [])
unfolding method Posts.handle_post
post_fails = refl

ready : IsReady s1
ready = (((a1, refl), tt), tt)

Reached-IsSound_example : IsSound (some in_nekos)
unfolding method bytes_eq Groups.select_group
Reached-IsSound_example = Reached-IsSound p1 s1 (some in_nekos) ready (
    call world (select_group (codes "nekos")) none
      (record {
        ok = true;
        gs = some in_nekos;
        sent = group_selected 1 9000 9000 (codes "nekos") ∷ [];
      })
      start refl)

-- A group is selected and a post is refused for lack of the right.
abbrev T : Server
T = provide p1 s1 (λ r log. world) small_server

abbrev session : List (Input T)
session =
    line_read (codes "GROUP nekos" ++ b'\n' ∷ [])
    ∷ line_read (codes "POST" ++ b'\n' ∷ [])
    ∷ line_read (codes "STAT 9000" ++ b'\n' ∷ [])
    ∷ []

provide-IsPermitted_example :
    All IsPermitted (serve_client T session (new_conn T [])).1.trace
    × All IsPermitted (serve_client T session (new_tls_conn T (some bob) [])).1.trace
provide-IsPermitted_example =
    provide-IsPermitted p1 s1 (λ r log. world) small_server session (some bob) []

abbrev g3 : Group
g3 = record g1 { articles = (3, a1) ∷ (9, a1) ∷ (4, a1) ∷ []; articles_sort = 3 ∷ 4 ∷ 9 ∷ [] }

abbrev at_3 : GroupState
at_3 = record { group = own (codes "nekos"); number = 3; g = some g3 }

select_prev-next_example :
    (state_of (Groups.select_next_article (some at_3)) ≡ some (record at_3 { number = 4 }))
    × (state_of (Groups.select_prev_article (some (record at_3 { number = 4 }))) ≡ some at_3)
select_prev-next_example =
    select_prev-next at_3 g3 refl 4 ((a1, refl), ((a1, refl), ((a1, refl), tt)))
      ((omega arith, (omega arith, tt)), ((omega arith, tt), (tt, tt))) (inl refl) refl refl
