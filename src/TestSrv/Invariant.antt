-- ===== src/TestSrv/Invariant.antt =====
-- The group that a connection has selected, over the calls of src/nksrv/lib/nntp/testsrv.
pub mod Unchanged
pub mod Moves
use nksrv.Base.{
  ℕ, ◌≡◌, refl, sym, ap, ◌∙◌, Bool, true, false, List, [], ◌∷◌, Option, none, some, Bytes, All, ◌⊎◌,
  inl, inr, Option-cases, arith,
}
use nksrv.Nntp.Session.{
  Request, article_by_msgid, article_by_num, article_by_curr, select_next_article,
  select_prev_article, list_new_news, list_new_groups, list_active_groups, list_newsgroups,
  over_by_msgid, over_by_range, over_by_curr, hdr_by_msgid, hdr_by_range, hdr_by_curr, Answer,
}
use nksrv.Nntp.Session
use nksrv.Nntp.Session.Permission.{need, reading}
use nksrv.TestSrv.Data.{Article, Group, Srv, GroupState, Sent, Res}
use nksrv.TestSrv.Answer.{TestSrv, World, or_empty, method, to_answer, answer}
use nksrv.TestSrv.Invariant.Unchanged.{
  Keeps, Keeps-list_res, Keeps-by_msgid, Keeps-over_by_msgid, Keeps-hdr_by_msgid,
  Keeps-article_by_curr, Keeps-over_by_curr, Keeps-hdr_by_curr, Keeps-over_by_range,
  Keeps-hdr_by_range, Keeps-post, Keeps-ihave, Keeps-check, Keeps-take_this,
}
use nksrv.TestSrv.Invariant.Moves.{
  IsSound, IsReady, Sound, Sound-by_num, Sound-select_group, Sound-select_and_list_group,
  Sound-next, Sound-prev,
}

Sound-Keeps : (gs : Option GroupState) (r : Option Res) → IsSound gs → Keeps gs r → Sound r
Sound-Keeps gs none h k = tt
Sound-Keeps gs (some r) h k = rw k h

module _ (p : TestSrv) (s1 : Srv) where
  Sound-method :
      (u : World) (r : Request) (gs : Option GroupState)
      → IsReady s1
      → IsSound gs
      → Sound (method p s1 u r gs)
  unfolding method
  Sound-method u (article_by_msgid kind id) gs ready h =
      Sound-Keeps gs _ h (Keeps-by_msgid s1 u.now kind gs id)
  Sound-method u (article_by_num kind n) gs ready h = Sound-by_num kind gs n h
  Sound-method u (article_by_curr kind) gs ready h =
      Sound-Keeps gs _ h (Keeps-article_by_curr kind gs)
  Sound-method u (Session.select_group g) gs ready h = Sound-select_group s1 gs g ready h
  Sound-method u (Session.select_and_list_group g rmin rmax) gs ready h =
      Sound-select_and_list_group s1 u.now gs (or_empty g) rmin rmax ready h
  Sound-method u select_next_article gs ready h = Sound-next gs h
  Sound-method u select_prev_article gs ready h = Sound-prev gs h
  Sound-method u (list_new_news w d t) gs ready h = Sound-Keeps gs _ h (Keeps-list_res gs _)
  Sound-method u (list_new_groups d t) gs ready h = Sound-Keeps gs _ h (Keeps-list_res gs _)
  Sound-method u (list_active_groups w) gs ready h = Sound-Keeps gs _ h (Keeps-list_res gs _)
  Sound-method u (list_newsgroups w) gs ready h = Sound-Keeps gs _ h (Keeps-list_res gs _)
  Sound-method u (over_by_msgid id) gs ready h =
      Sound-Keeps gs _ h (Keeps-over_by_msgid s1 u.now gs id)
  Sound-method u (over_by_range _ rmin rmax) gs ready h =
      Sound-Keeps gs _ h (Keeps-over_by_range gs rmin rmax)
  Sound-method u over_by_curr gs ready h = Sound-Keeps gs _ h (Keeps-over_by_curr gs)
  Sound-method u (hdr_by_msgid rfc f id) gs ready h =
      Sound-Keeps gs _ h (Keeps-hdr_by_msgid s1 u.now rfc gs f id)
  Sound-method u (hdr_by_range rfc f rmin rmax) gs ready h =
      Sound-Keeps gs _ h (Keeps-hdr_by_range rfc gs f rmin rmax)
  Sound-method u (hdr_by_curr rfc f) gs ready h = Sound-Keeps gs _ h (Keeps-hdr_by_curr rfc gs f)
  Sound-method u Session.handle_post gs ready h =
      Sound-Keeps gs _ h (Keeps-post s1 p.permits gs u.incoming)
  Sound-method u (Session.handle_ihave id) gs ready h =
      Sound-Keeps gs _ h (Keeps-ihave s1 p.permits gs u.incoming id)
  Sound-method u (Session.handle_check id) gs ready h =
      Sound-Keeps gs _ h (Keeps-check s1 p.permits gs u.incoming id)
  Sound-method u (Session.handle_take_this id) gs ready h =
      Sound-Keeps gs _ h (Keeps-take_this s1 p.permits gs u.incoming id)

  -- The group states that calls of the provider, one behind the other, can lead to.
  pub data Reached : Option GroupState → Type 0 where
    start : Reached none
    call :
        (u : World) (r : Request) (gs : Option GroupState) (res : Res)
        → Reached gs
        → method p s1 u r gs ≡ some res
        → Reached res.gs

  -- Where every group's list of numbers names articles of the group, the current number of a connection is 0 or the
  -- number of an article of the selected group, after any calls of the provider.
  pub Reached-IsSound : (gs : Option GroupState) → IsReady s1 → Reached gs → IsSound gs
  Reached-IsSound _ ready start = tt
  Reached-IsSound _ ready (call u r gs res h e) =
      let s = Sound-method u r gs ready (Reached-IsSound gs ready h) in rw e at s

  Keeps-method :
      (u : World) (r : Request) (gs : Option GroupState)
      → (need r ≡ reading → ⊥)
      → Keeps gs (method p s1 u r gs)
  unfolding method
  Keeps-method u (list_active_groups w) gs n = Keeps-list_res gs _
  Keeps-method u (list_newsgroups w) gs n = Keeps-list_res gs _
  Keeps-method u Session.handle_post gs n = Keeps-post s1 p.permits gs u.incoming
  Keeps-method u (Session.handle_ihave id) gs n = Keeps-ihave s1 p.permits gs u.incoming id
  Keeps-method u (Session.handle_check id) gs n = Keeps-check s1 p.permits gs u.incoming id
  Keeps-method u (Session.handle_take_this id) gs n = Keeps-take_this s1 p.permits gs u.incoming id
  Keeps-method u _ gs n = absurd (n refl)

  Keeps-answer :
      (log : List Sent) (gs : Option GroupState) (r : Option Res)
      (a : Answer (List Sent) GroupState)
      → Keeps gs r
      → to_answer log r ≡ some a
      → a.group ≡ gs
  Keeps-answer log gs none a k e = absurd (ground arith)
  Keeps-answer log gs (some r) a k e = sym (ap (λ o. elim o [ none ↦ gs | some b ↦ b.group ]) e) ∙ k

  -- The test server selects a group only where it is asked for articles.
  pub answer-KeepsGroup :
      (world : Request → List Sent → World) (r : Request) (log : List Sent) (gs : Option GroupState)
      (a : Answer (List Sent) GroupState)
      → (need r ≡ reading → ⊥)
      → answer p s1 world r log gs ≡ some a
      → a.group ≡ gs
  unfolding answer
  answer-KeepsGroup world r log gs a n e =
      Keeps-answer log gs (method p s1 (world r log) r gs) a (Keeps-method (world r log) r gs n) e
