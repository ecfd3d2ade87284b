-- ===== src/TestSrv/Posts.antt =====
-- src/nksrv/lib/nntp/testsrv/post.go: POST, IHAVE, CHECK and TAKETHIS. Nothing is kept of an article; reading
-- its headers is the mail library's: what comes of it is an argument.
use nksrv.Base.{
  Bool, true, false, not, ◌||◌, ◌&&◌, [], ◌∷◌, Option, none, some, Bytes, if◌then◌else◌, bytes_eq,
  length, ◌==◌,
}
use nksrv.Ascii.{trim_ws}
use nksrv.Nntp.Syntax.{valid_message_id, reserved_message_id, cut_message_id}
use nksrv.TestSrv.Data.{
  Srv, lookup, GroupState, send_article, posting_failed, posting_accepted, transfer_failed,
  send_transfer, transfer_rejected, transfer_success, want_later, wanted, rejected, transferred,
  Res, answers, refuses,
}

-- What `mail.ReadHeaders` gives: the first Message-ID header, and whether it failed.
pub record Headers : Type 0 where
  pub msgid : Bytes
  pub failed : Bool

-- The settings of `TestSrv` that the methods of posting read.
pub record Permits : Type 0 where
  pub posting_permit : Bool
  pub posting_accept : Bool
  pub transfer_permit : Bool
  pub transfer_accept : Bool

abbrev pub has_article : Srv → Bytes → Bool
has_article s1 id = elim (lookup s1.articles id) [ none ↦ false | some a ↦ true ]

-- `getHdrMsgID`.
abbrev pub get_hdr_msgid : Headers → Bytes
get_hdr_msgid h = trim_ws h.msgid

-- The test that refuses an article: it holds where the headers are read without an error.
abbrev pub post_refused : Srv → Permits → Headers → Bool
post_refused s1 p h =
    let mid = get_hdr_msgid h in
    not p.posting_accept
    || not h.failed
    || not (length mid == 0)
      && (not (valid_message_id mid)
          || reserved_message_id mid
          || has_article s1 (cut_message_id mid))

unfoldable pub handle_post : Srv → Permits → Option GroupState → Headers → Option Res
handle_post s1 p gs h =
    if not p.posting_permit
    then refuses gs
    else if post_refused s1 p h
    then answers gs (send_article ∷ posting_failed ∷ [])
    else answers gs (send_article ∷ posting_accepted ∷ [])

abbrev pub transfer_refused : Permits → Headers → Bytes → Bool
transfer_refused p h msgid =
    let mid = get_hdr_msgid h in
    not p.transfer_accept
    || h.failed
    || not (valid_message_id mid)
    || not (bytes_eq (cut_message_id mid) msgid)

unfoldable pub handle_ihave : Srv → Permits → Option GroupState → Headers → Bytes → Option Res
handle_ihave s1 p gs h msgid =
    if not p.transfer_permit
    then answers gs (transfer_failed ∷ [])
    else if has_article s1 msgid
    then refuses gs
    else if transfer_refused p h msgid
    then answers gs (send_transfer ∷ transfer_rejected ∷ [])
    else answers gs (send_transfer ∷ transfer_success ∷ [])

unfoldable pub handle_check : Srv → Permits → Option GroupState → Bytes → Option Res
handle_check s1 p gs msgid =
    if not p.transfer_permit
    then answers gs (want_later msgid ∷ [])
    else if has_article s1 msgid
    then refuses gs
    else answers gs (wanted msgid ∷ [])

unfoldable pub handle_take_this : Permits → Option GroupState → Headers → Bytes → Option Res
handle_take_this p gs h msgid =
    if transfer_refused p h msgid
    then answers gs (rejected msgid ∷ [])
    else answers gs (transferred msgid ∷ [])
