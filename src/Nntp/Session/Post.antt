-- ===== src/Nntp/Session/Post.antt =====
-- The posting commands: src/nksrv/lib/nntp/scmd_post.go.
use nksrv.Base.{Bool, not, ◌&&◌, List, [], ◌∷◌, Bytes, if◌then◌else◌}
use nksrv.Nntp.Syntax.{cut_message_id, valid_message_id, reserved_message_id}
use nksrv.Nntp.Session.{
  handle_post, handle_ihave, handle_check, handle_take_this, ihave, post, stream, Server, M, crash,
  refuse, ask, get,
}

module _ (S : Server) where
  unfoldable pub cmd_post : List Bytes → M S Bool
  cmd_post args = get S λ c.
      if not (S.supports post)
      then refuse S 503
      else if not c.priv.allow_posting
      then refuse S 440
      else ask S handle_post 440

  unfoldable pub cmd_ihave : List Bytes → M S Bool
  cmd_ihave [] = if not (S.supports ihave) then refuse S 503 else crash S
  cmd_ihave (id ∷ _) = get S λ c.
      if not (S.supports ihave)
      then refuse S 503
      else if not (valid_message_id id)
      then refuse S 501
      else if not c.priv.allow_posting
      then refuse S 480
      else if reserved_message_id id
      then refuse S 435
      else ask S (handle_ihave (cut_message_id id)) 435

  -- CHECK is open to those who may read, too.
  unfoldable pub cmd_check : List Bytes → M S Bool
  cmd_check [] = if not (S.supports stream) then refuse S 503 else crash S
  cmd_check (id ∷ _) = get S λ c.
      if not (S.supports stream)
      then refuse S 503
      else if not (valid_message_id id)
      then refuse S 501
      else if not c.priv.allow_posting && not c.priv.allow_reading
      then refuse S 480
      else if reserved_message_id id
      then refuse S 438
      else ask S (handle_check (cut_message_id id)) 438

  -- The deferred `r.Discard(-1)` reads on the connection and changes nothing that is kept here.
  unfoldable pub cmd_take_this : List Bytes → M S Bool
  cmd_take_this [] = if not (S.supports stream) then refuse S 503 else crash S
  cmd_take_this (id ∷ _) = get S λ c.
      if not (S.supports stream)
      then refuse S 503
      else if not (valid_message_id id)
      then refuse S 501
      else if not c.priv.allow_posting
      then refuse S 480
      else if reserved_message_id id
      then refuse S 439
      else ask S (handle_take_this (cut_message_id id)) 439
