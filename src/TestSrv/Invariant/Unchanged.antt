-- ===== src/TestSrv/Invariant/Unchanged.antt =====
-- The methods of src/nksrv/lib/nntp/testsrv that leave the selected group as it is.
use nksrv.Base.{
  ◌≡◌, refl, Bool, true, false, List, [], ◌∷◌, Option, none, some, Bytes, if◌then◌else◌,
}
use nksrv.Base.Int.{ℤ}
use nksrv.Nntp.Session.{ArticleKind}
use nksrv.TestSrv.Data.{
  get_by_hdr, lookup, Article, Srv, GroupState, Line, Sent, overview_follows, Res,
}
use nksrv.TestSrv.Articles.{in_group, by_curr, get_article_by_msgid, get_article_by_curr}
use nksrv.TestSrv.Groups.{list_res}
use nksrv.TestSrv.Overview.{
  get_over_by_msgid, range_res, over_loop, get_over_by_range, over_curr, get_over_by_curr,
  hdr_of_article, get_hdr_by_msgid, HdrLoop, ended, stopped, crashed, hdr_res, hdr_loop,
  get_hdr_by_range, hdr_curr, get_hdr_by_curr,
}
use nksrv.TestSrv.Posts.{
  Headers, Permits, handle_post, handle_ihave, handle_check, handle_take_this,
}

-- A method panics, or leaves the group as it is.
abbrev pub Keeps : Option GroupState → Option Res → Type 0
Keeps gs none = Unit
Keeps gs (some r) = r.gs ≡ gs

Keeps-if :
    (gs : Option GroupState) (b : Bool) (x y : Option Res)
    → Keeps gs x
    → Keeps gs y
    → Keeps gs (if b then x else y)
Keeps-if gs true x y hx hy = hx
Keeps-if gs false x y hx hy = hy

Keeps-elim :
    {A : Type 0} (gs : Option GroupState) (o : Option A) (n : Option Res) (f : A → Option Res)
    → Keeps gs n
    → ((a : A) → Keeps gs (f a))
    → Keeps gs (elim o [ none ↦ n | some a ↦ f a ])
Keeps-elim gs none n f h k = h
Keeps-elim gs (some a) n f h k = k a

pub Keeps-list_res : (gs : Option GroupState) (ls : Option (List Line)) → Keeps gs (list_res gs ls)
Keeps-list_res gs none = tt
Keeps-list_res gs (some ls) = refl

module _ (s1 : Srv) (now : Bytes → Bytes) where
  pub Keeps-by_msgid :
      (kind : ArticleKind) (gs : Option GroupState) (id : Bytes)
      → Keeps gs (get_article_by_msgid s1 now kind gs id)
  unfolding get_article_by_msgid
  Keeps-by_msgid kind gs id = Keeps-elim gs (lookup s1.articles id) _ _ refl (λ a. refl)

  pub Keeps-over_by_msgid :
      (gs : Option GroupState) (id : Bytes) → Keeps gs (get_over_by_msgid s1 now gs id)
  unfolding get_over_by_msgid
  Keeps-over_by_msgid gs id = Keeps-elim gs (lookup s1.articles id) _ _ refl (λ a. refl)

  hdr_of_article-Keeps :
      (rfc : Bool) (gs : Option GroupState) (hdr id : Bytes) (a : Article) (h : Option Bytes)
      → Keeps gs (hdr_of_article now rfc gs hdr id a h)
  hdr_of_article-Keeps rfc gs hdr id a none = refl
  hdr_of_article-Keeps true gs hdr id a (some h) = refl
  hdr_of_article-Keeps false gs hdr id a (some h) = refl

  pub Keeps-hdr_by_msgid :
      (rfc : Bool) (gs : Option GroupState) (hdr id : Bytes)
      → Keeps gs (get_hdr_by_msgid s1 now rfc gs hdr id)
  unfolding get_hdr_by_msgid
  Keeps-hdr_by_msgid rfc gs hdr id =
      Keeps-elim gs (lookup s1.articles id) _ _ refl
        λ a. hdr_of_article-Keeps rfc gs hdr id a (get_by_hdr a.over hdr)

Keeps-by_curr :
    (kind : ArticleKind) (gs : GroupState) (a : Option (Option Article))
    → Keeps (some gs) (by_curr kind gs a)
Keeps-by_curr kind gs none = tt
Keeps-by_curr kind gs (some none) = refl
Keeps-by_curr kind gs (some (some a)) = refl

pub Keeps-article_by_curr :
    (kind : ArticleKind) (gs : Option GroupState) → Keeps gs (get_article_by_curr kind gs)
unfolding get_article_by_curr
Keeps-article_by_curr kind none = refl
Keeps-article_by_curr kind (some gs) = Keeps-by_curr kind gs (in_group gs gs.number)

Keeps-over_curr : (gs : GroupState) (a : Option (Option Article)) → Keeps (some gs) (over_curr gs a)
Keeps-over_curr gs none = tt
Keeps-over_curr gs (some none) = refl
Keeps-over_curr gs (some (some a)) = refl

pub Keeps-over_by_curr : (gs : Option GroupState) → Keeps gs (get_over_by_curr gs)
unfolding get_over_by_curr
Keeps-over_by_curr none = refl
Keeps-over_by_curr (some gs) = Keeps-over_curr gs (in_group gs gs.number)

Keeps-hdr_curr :
    (rfc : Bool) (gs : GroupState) (hdr : Bytes) (a : Option (Option Article))
    → Keeps (some gs) (hdr_curr rfc gs hdr a)
Keeps-hdr_curr rfc gs hdr none = tt
Keeps-hdr_curr rfc gs hdr (some none) = refl
Keeps-hdr_curr rfc gs hdr (some (some a)) =
    Keeps-elim (some gs) (get_by_hdr a.over hdr) _ _ refl (λ h. refl)

pub Keeps-hdr_by_curr :
    (rfc : Bool) (gs : Option GroupState) (hdr : Bytes) → Keeps gs (get_hdr_by_curr rfc gs hdr)
unfolding get_hdr_by_curr
Keeps-hdr_by_curr rfc none hdr = refl
Keeps-hdr_by_curr rfc (some gs) hdr = Keeps-hdr_curr rfc gs hdr (in_group gs gs.number)

Keeps-range_res :
    (res : Sent) (gs : GroupState) (ls : Option (List Line)) → Keeps (some gs) (range_res res gs ls)
Keeps-range_res res gs none = tt
Keeps-range_res res gs (some []) = refl
Keeps-range_res res gs (some (l ∷ ls)) = refl

pub Keeps-over_by_range :
    (gs : Option GroupState) (rmin rmax : ℤ) → Keeps gs (get_over_by_range gs rmin rmax)
unfolding get_over_by_range
Keeps-over_by_range none rmin rmax = refl
Keeps-over_by_range (some gs) rmin rmax =
    Keeps-elim (some gs) gs.g _ _ tt
      λ g. Keeps-range_res overview_follows gs (over_loop g rmin rmax g.articles_sort)

Keeps-hdr_res :
    (rfc : Bool) (gs : GroupState) (hdr : Bytes) (l : HdrLoop)
    → Keeps (some gs) (hdr_res rfc gs hdr l)
Keeps-hdr_res rfc gs hdr (ended []) = refl
Keeps-hdr_res rfc gs hdr (ended (l ∷ ls)) = refl
Keeps-hdr_res rfc gs hdr (stopped []) = refl
Keeps-hdr_res rfc gs hdr (stopped (l ∷ ls)) = refl
Keeps-hdr_res rfc gs hdr crashed = tt

pub Keeps-hdr_by_range :
    (rfc : Bool) (gs : Option GroupState) (hdr : Bytes) (rmin rmax : ℤ)
    → Keeps gs (get_hdr_by_range rfc gs hdr rmin rmax)
unfolding get_hdr_by_range
Keeps-hdr_by_range rfc none hdr rmin rmax = refl
Keeps-hdr_by_range rfc (some gs) hdr rmin rmax =
    Keeps-elim (some gs) gs.g _ _ tt
      λ g. Keeps-hdr_res rfc gs hdr (hdr_loop g hdr rmin rmax g.articles_sort)

Keeps-answers :
    (gs : Option GroupState) (ok : Bool) (sent : List Sent)
    → Keeps gs (some (record { ok = ok; gs = gs; sent = sent }))
Keeps-answers gs ok sent = refl

ruleset keeps = (Keeps-if, Keeps-answers)

module _ (s1 : Srv) (p : Permits) (gs : Option GroupState) (h : Headers) where
  pub Keeps-post : Keeps gs (handle_post s1 p gs h)
  unfolding handle_post
  Keeps-post = search keeps

  pub Keeps-ihave : (id : Bytes) → Keeps gs (handle_ihave s1 p gs h id)
  unfolding handle_ihave
  Keeps-ihave id = search keeps

  pub Keeps-check : (id : Bytes) → Keeps gs (handle_check s1 p gs id)
  unfolding handle_check
  Keeps-check id = search keeps

  pub Keeps-take_this : (id : Bytes) → Keeps gs (handle_take_this p gs h id)
  unfolding handle_take_this
  Keeps-take_this id = search keeps
