-- ===== src/Nntp/Session/Permission/Reading.antt =====
-- The reading commands keep to the rights of the connection.
use nksrv.Base.{ℕ, ◌≡◌, Bool, true, List, [], ◌∷◌, Option, none, some, Bytes}
use nksrv.Nntp.Range.{Range}
use nksrv.Nntp.Session.{ArticleKind, Server, Conn, get}
use nksrv.Nntp.Session.Read.{
  article_num, article_arg, cmd_article, cmd_group, list_group_range, cmd_list_group, cmd_next,
  cmd_last, cmd_new_news, cmd_new_groups, over_range, over_arg, cmd_over, hdr_range, hdr_arg,
  hdr_query, cmd_hdr,
}
use nksrv.Nntp.Session.Permission.{IsLawful, Lawful, KeepsGroup, lawful}

module _ (S : Server) (keeps : KeepsGroup S) (c : Conn S) (h : IsLawful S c) where
  Lawful-article_num :
      (kind : ArticleKind) (n : Option ℕ)
      → c.priv.allow_reading ≡ true
      → Lawful S (article_num S kind n c)
  unfolding article_num get
  Lawful-article_num kind none p = search lawful
  Lawful-article_num kind (some n) p = search lawful depth 8

  Lawful-article_arg :
      (kind : ArticleKind) (args : List Bytes)
      → c.priv.allow_reading ≡ true
      → Lawful S (article_arg S kind args c)
  unfolding article_arg get
  Lawful-article_arg kind [] p = search lawful depth 8
  Lawful-article_arg kind (id ∷ _) p = search (lawful, Lawful-article_num) depth 8

  pub Lawful-article :
      (kind : ArticleKind) (args : List Bytes) → Lawful S (cmd_article S kind args c)
  unfolding cmd_article get
  Lawful-article kind args = search (lawful, Lawful-article_arg) depth 8

  pub Lawful-group : (args : List Bytes) → Lawful S (cmd_group S args c)
  unfolding cmd_group get
  Lawful-group [] = search lawful
  Lawful-group (group ∷ _) = search lawful depth 8

  Lawful-list_group_range :
      (group : Option Bytes) (r : Range) → Lawful S (list_group_range S group r c)
  unfolding list_group_range get
  Lawful-list_group_range group r = search lawful depth 8

  pub Lawful-list_group : (args : List Bytes) → Lawful S (cmd_list_group S args c)
  unfolding cmd_list_group get
  Lawful-list_group [] = search (lawful, Lawful-list_group_range) depth 8
  Lawful-list_group (group ∷ []) = search (lawful, Lawful-list_group_range) depth 8
  Lawful-list_group (group ∷ range ∷ _) = search (lawful, Lawful-list_group_range) depth 8

  -- The group that is selected stands for the right to read.
  pub Lawful-next : (args : List Bytes) → Lawful S (cmd_next S args c)
  unfolding cmd_next get
  Lawful-next args = search (lawful, h.group) depth 8

  pub Lawful-last : (args : List Bytes) → Lawful S (cmd_last S args c)
  unfolding cmd_last get
  Lawful-last args = search (lawful, h.group) depth 8

  pub Lawful-new_news : (args : List Bytes) → Lawful S (cmd_new_news S args c)
  unfolding cmd_new_news get
  Lawful-new_news [] = search lawful depth 8
  Lawful-new_news (_ ∷ []) = search lawful depth 8
  Lawful-new_news (_ ∷ _ ∷ []) = search lawful depth 8
  Lawful-new_news (wildmat ∷ ds ∷ ts ∷ _) = search lawful depth 10

  pub Lawful-new_groups : (args : List Bytes) → Lawful S (cmd_new_groups S args c)
  unfolding cmd_new_groups get
  Lawful-new_groups [] = search lawful depth 8
  Lawful-new_groups (_ ∷ []) = search lawful depth 8
  Lawful-new_groups (ds ∷ ts ∷ _) = search lawful depth 10

  Lawful-over_range :
      (over : Bool) (r : Range) → c.priv.allow_reading ≡ true → Lawful S (over_range S over r c)
  unfolding over_range
  Lawful-over_range over r p = search lawful depth 8

  Lawful-over_arg :
      (over : Bool) (args : List Bytes)
      → c.priv.allow_reading ≡ true
      → Lawful S (over_arg S over args c)
  unfolding over_arg get
  Lawful-over_arg over [] p = search lawful depth 8
  Lawful-over_arg over (id ∷ _) p = search (lawful, Lawful-over_range) depth 10

  pub Lawful-over : (over : Bool) (args : List Bytes) → Lawful S (cmd_over S over args c)
  unfolding cmd_over get
  Lawful-over over args = search (lawful, Lawful-over_arg) depth 8

  Lawful-hdr_range :
      (hdr : Bool) (hq : Bytes) (r : Range)
      → c.priv.allow_reading ≡ true
      → Lawful S (hdr_range S hdr hq r c)
  unfolding hdr_range
  Lawful-hdr_range hdr hq r p = search lawful depth 8

  Lawful-hdr_arg :
      (hdr : Bool) (hq : Bytes) (args : List Bytes)
      → c.priv.allow_reading ≡ true
      → Lawful S (hdr_arg S hdr hq args c)
  unfolding hdr_arg get
  Lawful-hdr_arg hdr hq [] p = search lawful depth 8
  Lawful-hdr_arg hdr hq (id ∷ _) p = search (lawful, Lawful-hdr_range) depth 10

  Lawful-hdr_query :
      (hdr : Bool) (hq : Bytes) (args : List Bytes) (v : Option Bool)
      → c.priv.allow_reading ≡ true
      → Lawful S (hdr_query S hdr hq args v c)
  unfolding hdr_query
  Lawful-hdr_query hdr hq args none p = search lawful
  Lawful-hdr_query hdr hq args (some v) p = search (lawful, Lawful-hdr_arg) depth 8

  pub Lawful-hdr : (hdr : Bool) (args : List Bytes) → Lawful S (cmd_hdr S hdr args c)
  unfolding cmd_hdr get
  Lawful-hdr hdr [] = search lawful depth 8
  Lawful-hdr hdr (field ∷ args) = search (lawful, Lawful-hdr_query) depth 8
