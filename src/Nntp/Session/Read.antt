-- ===== src/Nntp/Session/Read.antt =====
-- The reading commands: src/nksrv/lib/nntp/scmd_read.go. A handler takes the arguments that the
-- command line holds; an index past them is ruled out by `minargs` and is a panic here.
use nksrv.Base.{
  ℕ, Bool, true, false, not, ◌&&◌, List, [], ◌∷◌, Option, none, some, Bytes, if◌then◌else◌,
}
use nksrv.Base.Int.{pos, negsuc, is_nonneg, lt_int}
use nksrv.Nntp.Syntax.{
  cut_message_id, valid_message_id, reserved_message_id, valid_message_num, valid_header_query,
  full_valid_group_slice, to_lower_ascii,
}
use nksrv.Nntp.Range.{Range, parse_uint, parse_range}
use nksrv.Nntp.Dates.{Date, Clock, parse_date, parse_time}
use nksrv.Nntp.Wildmat.{valid_wildmat}
use nksrv.Nntp.Session.{
  ArticleKind, article_by_msgid, article_by_num, article_by_curr, select_group,
  select_and_list_group, select_next_article, select_prev_article, list_new_news, list_new_groups,
  over_by_msgid, over_by_range, over_by_curr, hdr_by_msgid, hdr_by_range, hdr_by_curr, new_news,
  over_msgid, hdr, Server, M, crash, refuse, ask, tell, get,
}

abbrev pub is_set {ℓ} : {A : Type ℓ} → Option A → Bool
is_set none = false
is_set (some _) = true

-- `rmax >= 0 && rmax < rmin`.
abbrev pub is_empty_range : Range → Bool
is_empty_range r = is_nonneg r.rmax && lt_int r.rmax r.rmin

module _ (S : Server) where
  -- By number, once `ParseUint` has read it.
  unfoldable pub article_num : ArticleKind → Option ℕ → M S Bool
  article_num kind none = refuse S 501
  article_num kind (some num) = get S λ c.
      if not (is_set c.current_group)
      then refuse S 412
      else if not (valid_message_num num)
      then refuse S 423
      else ask S (article_by_num kind num) 423

  unfoldable pub article_arg : ArticleKind → List Bytes → M S Bool
  article_arg kind [] =
      get S
        λ c. if not (is_set c.current_group) then refuse S 412 else ask S (article_by_curr kind) 420
  article_arg kind (id ∷ _) =
      if valid_message_id id
      then (if reserved_message_id id
          then refuse S 430
          else ask S (article_by_msgid kind (cut_message_id id)) 430)
      else article_num kind (parse_uint id)

  -- `commonArticleHandler`: ARTICLE, HEAD, BODY and STAT.
  unfoldable pub cmd_article : ArticleKind → List Bytes → M S Bool
  unfolding article_num article_arg
  cmd_article kind args =
      get S λ c. if not c.priv.allow_reading then refuse S 480 else article_arg kind args

  unfoldable pub cmd_group : List Bytes → M S Bool
  cmd_group [] = crash S
  cmd_group (group ∷ _) = get S λ c.
      if not (full_valid_group_slice group)
      then refuse S 501
      else if not c.priv.allow_reading
      then refuse S 480
      else ask S (select_group group) 411

  -- The rest of `cmdListGroup`, once the range is known.
  unfoldable pub list_group_range : Option Bytes → Range → M S Bool
  list_group_range group r = get S λ c.
      if not r.valid
      then refuse S 501
      else if not c.priv.allow_reading
      then refuse S 480
      else ask S (select_and_list_group group r.rmin r.rmax) 411

  abbrev pub full_range : Range
  full_range = record { rmin = pos 1; rmax = negsuc 0; valid = true }

  unfoldable pub cmd_list_group : List Bytes → M S Bool
  unfolding list_group_range
  cmd_list_group [] =
      get S
        λ c. if not (is_set c.current_group) then refuse S 412 else list_group_range none full_range
  cmd_list_group (group ∷ []) =
      if not (full_valid_group_slice group)
      then refuse S 501
      else list_group_range (some group) full_range
  cmd_list_group (group ∷ range ∷ _) =
      if not (full_valid_group_slice group)
      then refuse S 501
      else list_group_range (some group) (parse_range range)

  unfoldable pub cmd_next : List Bytes → M S Bool
  cmd_next args =
      get S λ c. if not (is_set c.current_group) then refuse S 412 else tell S select_next_article

  unfoldable pub cmd_last : List Bytes → M S Bool
  cmd_last args =
      get S λ c. if not (is_set c.current_group) then refuse S 412 else tell S select_prev_article

  -- `parseDateTime` of servutil.go, which replies where it fails, and what follows it.
  unfoldable pub with_date_time : Bytes → Bytes → (Date → Clock → M S Bool) → M S Bool
  with_date_time ds ts next =
      let d = parse_date S.current_year ds in
      let t = parse_time ts in
      if not d.valid then refuse S 501 else if not t.valid then refuse S 501 else next d t

  unfoldable pub cmd_new_news : List Bytes → M S Bool
  unfolding with_date_time
  cmd_new_news (wildmat ∷ ds ∷ ts ∷ _) = get S λ c.
      if not (S.supports new_news)
      then refuse S 503
      else if not (valid_wildmat wildmat)
      then refuse S 501
      else with_date_time ds ts λ d t.
        if not c.priv.allow_reading then refuse S 480 else tell S (list_new_news wildmat d t)
  cmd_new_news _ = if not (S.supports new_news) then refuse S 503 else crash S

  unfoldable pub cmd_new_groups : List Bytes → M S Bool
  unfolding with_date_time
  cmd_new_groups (ds ∷ ts ∷ _) = get S λ c.
      with_date_time ds ts
        λ d t. if not c.priv.allow_reading then refuse S 480 else tell S (list_new_groups d t)
  cmd_new_groups _ = crash S

  unfoldable pub over_range : Bool → Range → M S Bool
  over_range over r =
      let missing = if over then 423 else 420 in
      if not r.valid
      then refuse S 501
      else if is_empty_range r
      then refuse S missing
      else ask S (over_by_range over r.rmin r.rmax) missing

  unfoldable pub over_arg : Bool → List Bytes → M S Bool
  over_arg over [] =
      get S λ c. if not (is_set c.current_group) then refuse S 412 else ask S over_by_curr 420
  over_arg over (id ∷ _) = get S λ c.
      if valid_message_id id
      then (if not (S.supports over_msgid)
          then refuse S 503
          else if reserved_message_id id
          then refuse S 430
          else ask S (over_by_msgid (cut_message_id id)) 430)
      else if not (is_set c.current_group)
      then refuse S 412
      else over_range over (parse_range id)

  -- `commonCmdOver`: OVER, and XOVER with the flag false.
  unfoldable pub cmd_over : Bool → List Bytes → M S Bool
  unfolding over_range over_arg
  cmd_over over args =
      get S λ c. if not c.priv.allow_reading then refuse S 480 else over_arg over args

  unfoldable pub hdr_range : Bool → Bytes → Range → M S Bool
  hdr_range h hq r =
      let missing = if h then 423 else 420 in
      if not r.valid
      then refuse S 501
      else if is_empty_range r
      then refuse S missing
      else ask S (hdr_by_range h hq r.rmin r.rmax) missing

  unfoldable pub hdr_arg : Bool → Bytes → List Bytes → M S Bool
  hdr_arg h hq [] =
      get S λ c. if not (is_set c.current_group) then refuse S 412 else ask S (hdr_by_curr h hq) 420
  hdr_arg h hq (id ∷ _) = get S λ c.
      if valid_message_id id
      then (if reserved_message_id id
          then refuse S 430
          else ask S (hdr_by_msgid h hq (cut_message_id id)) 430)
      else if not (is_set c.current_group)
      then refuse S 412
      else hdr_range h hq (parse_range id)

  unfoldable pub hdr_query : Bool → Bytes → List Bytes → Option Bool → M S Bool
  hdr_query h hq args none = crash S
  hdr_query h hq args (some valid) = if not valid then refuse S 501 else hdr_arg h hq args

  -- `commonCmdHdr`: HDR, and XHDR with the flag false.
  unfoldable pub cmd_hdr : Bool → List Bytes → M S Bool
  unfolding hdr_range hdr_arg hdr_query
  cmd_hdr h [] = get S λ c.
      if not (S.supports hdr)
      then refuse S 503
      else if not c.priv.allow_reading
      then refuse S 480
      else crash S
  cmd_hdr h (field ∷ args) = get S λ c.
      if not (S.supports hdr)
      then refuse S 503
      else if not c.priv.allow_reading
      then refuse S 480
      else (let hq = to_lower_ascii field in hdr_query h hq args (valid_header_query hq))
