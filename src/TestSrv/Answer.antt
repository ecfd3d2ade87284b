-- ===== src/TestSrv/Answer.antt =====
-- src/nksrv/lib/nntp/testsrv: the test server as a provider of the NNTP server.
use nksrv.Base.{Bool, not, List, [], ◌++◌, Option, none, some, Bytes}
use nksrv.Nntp.Dates.{Date, Clock}
use nksrv.Nntp.Session.{
  Request, article_by_msgid, article_by_num, article_by_curr, select_next_article,
  select_prev_article, list_new_news, list_new_groups, list_active_groups, list_newsgroups,
  over_by_msgid, over_by_range, over_by_curr, hdr_by_msgid, hdr_by_range, hdr_by_curr, Answer,
  Feature, new_news, over_msgid, hdr, ihave, post, stream,
}
use nksrv.Nntp.Session
use nksrv.TestSrv.Data.{Time, Srv, GroupState, Sent, Res}
use nksrv.TestSrv.Articles.{get_article_by_msgid, get_article_by_num, get_article_by_curr}
use nksrv.TestSrv.Groups.{
  select_group, select_and_list_group, chk, active_loop, new_groups_loop, newsgroups_loop,
  new_news_loop, checked, list_res,
}
use nksrv.TestSrv.Groups
use nksrv.TestSrv.Overview.{
  get_over_by_msgid, get_over_by_range, get_over_by_curr, get_hdr_by_msgid, get_hdr_by_range,
  get_hdr_by_curr,
}
use nksrv.TestSrv.Posts.{
  Headers, Permits, handle_post, handle_ihave, handle_check, handle_take_this,
}

-- `TestSrv`: which methods it says it supports, and its settings.
pub record TestSrv : Type 0 where
  pub support_new_news : Bool
  pub support_over_by_msgid : Bool
  pub support_hdr : Bool
  pub support_ihave : Bool
  pub support_post : Bool
  pub support_stream : Bool
  pub permits : Permits

abbrev pub supports : TestSrv → Feature → Bool
supports p new_news = p.support_new_news
supports p over_msgid = p.support_over_by_msgid
supports p hdr = p.support_hdr
supports p ihave = p.support_ihave
supports p post = p.support_post
supports p stream = p.support_stream

-- The world around a call: what a command line holds by now, the article that is sent behind the command,
-- `qt.After(t)` of a point in time, and the matching of regular expressions.
pub record World : Type 0 where
  pub now : Bytes → Bytes
  pub incoming : Headers
  pub after : Date → Clock → Time → Bool
  pub matches : Bytes → Bytes → Bool

-- A byte slice that may be nil.
abbrev pub or_empty : Option Bytes → Bytes
or_empty none = []
or_empty (some s) = s

-- The method of `TestSrv` that each call of the provider comes to.
unfoldable pub method : TestSrv → Srv → World → Request → Option GroupState → Option Res
method p s1 u (article_by_msgid kind id) gs = get_article_by_msgid s1 u.now kind gs id
method p s1 u (article_by_num kind n) gs = get_article_by_num kind gs n
method p s1 u (article_by_curr kind) gs = get_article_by_curr kind gs
method p s1 u (Session.select_group g) gs = select_group s1 gs g
method p s1 u (Session.select_and_list_group g rmin rmax) gs =
    select_and_list_group s1 u.now gs (or_empty g) rmin rmax
method p s1 u select_next_article gs = Groups.select_next_article gs
method p s1 u select_prev_article gs = Groups.select_prev_article gs
method p s1 u (list_new_news w d t) gs = list_res gs (
    checked (chk u.matches w)
      (λ p. some (new_news_loop s1 (λ c. not (u.after d t c)) p s1.articles)))
method p s1 u (list_new_groups d t) gs =
    list_res gs (new_groups_loop s1 (λ c. not (u.after d t c)) s1.groups_sort)
method p s1 u (list_active_groups w) gs =
    list_res gs (checked (chk u.matches (or_empty w)) (λ p. active_loop s1 p s1.groups_sort))
method p s1 u (list_newsgroups w) gs =
    list_res gs (checked (chk u.matches (or_empty w)) (λ p. newsgroups_loop s1 p s1.groups_sort))
method p s1 u (over_by_msgid id) gs = get_over_by_msgid s1 u.now gs id
method p s1 u (over_by_range _ rmin rmax) gs = get_over_by_range gs rmin rmax
method p s1 u over_by_curr gs = get_over_by_curr gs
method p s1 u (hdr_by_msgid rfc h id) gs = get_hdr_by_msgid s1 u.now rfc gs h id
method p s1 u (hdr_by_range rfc h rmin rmax) gs = get_hdr_by_range rfc gs h rmin rmax
method p s1 u (hdr_by_curr rfc h) gs = get_hdr_by_curr rfc gs h
method p s1 u Session.handle_post gs = handle_post s1 p.permits gs u.incoming
method p s1 u (Session.handle_ihave id) gs = handle_ihave s1 p.permits gs u.incoming id
method p s1 u (Session.handle_check id) gs = handle_check s1 p.permits gs id
method p s1 u (Session.handle_take_this id) gs = handle_take_this p.permits gs u.incoming id

abbrev pub to_answer : List Sent → Option Res → Option (Answer (List Sent) GroupState)
to_answer log none = none
to_answer log (some r) = some (record { ok = r.ok; state = log ++ r.sent; group = r.gs })

-- As the `answer` of a `Server`, whose state is all that was sent; the world may be another in each call.
unfoldable pub answer :
    TestSrv
    → Srv
    → (Request → List Sent → World)
    → Request
    → List Sent
    → Option GroupState
    → Option (Answer (List Sent) GroupState)
answer p s1 world r log gs = to_answer log (method p s1 (world r log) r gs)
