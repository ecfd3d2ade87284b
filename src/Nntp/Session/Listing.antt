-- ===== src/Nntp/Session/Listing.antt =====
-- The listing commands of src/nksrv/lib/nntp/scmd_list.go, and the commands of scmd_base.go that
-- keep no state. Of a reply with several lines the first is modelled.
use nksrv.Base.{
  Bool, true, false, not, ◌&&◌, List, [], ◌∷◌, Option, none, some, Bytes, codes, bytes_eq,
  if◌then◌else◌,
}
use nksrv.Nntp.Syntax.{to_upper_ascii}
use nksrv.Nntp.Wildmat.{valid_wildmat}
use nksrv.Nntp.Session.{
  Request, list_active_groups, list_newsgroups, stream, reply_sent, Server, done, M, pure, crash,
  refuse, tell, get,
}

module _ (S : Server) where
  -- `listCmdActive`, `listCmdNewsgroups` and `cmdXGTitle` differ in the call.
  unfoldable pub listing : (Option Bytes → Request) → List Bytes → M S Bool
  listing request [] = get S λ c.
      if not c.priv.allow_reading && not c.priv.allow_posting
      then refuse S 480
      else tell S (request none)
  listing request (wildmat ∷ _) = get S λ c.
      if not (valid_wildmat wildmat)
      then refuse S 501
      else if not c.priv.allow_reading && not c.priv.allow_posting
      then refuse S 480
      else tell S (request (some wildmat))

  unfoldable pub list_active : List Bytes → M S Bool
  unfolding listing
  list_active = listing list_active_groups

  unfoldable pub list_groups : List Bytes → M S Bool
  unfolding listing
  list_groups = listing list_newsgroups

  unfoldable pub cmd_xgtitle : List Bytes → M S Bool
  unfolding listing
  cmd_xgtitle = listing list_newsgroups

  unfoldable pub list_overview_fmt : List Bytes → M S Bool
  list_overview_fmt args = refuse S 215

  -- `cmdMode`.
  unfoldable pub cmd_mode : List Bytes → M S Bool
  cmd_mode [] = crash S
  cmd_mode (arg ∷ _) = get S λ c.
      let mode = to_upper_ascii arg in
      if bytes_eq mode (codes "READER")
      then (if not c.priv.allow_reading
          then refuse S 480
          else if c.priv.allow_posting
          then refuse S 200
          else refuse S 201)
      else if bytes_eq mode (codes "STREAM")
      then (if not (S.supports stream)
          then refuse S 503
          else if c.priv.allow_posting
          then refuse S 203
          else refuse S 480)
      else refuse S 503

  -- `cmdVoid`: an empty line is ignored, and a line that begins with a space is refused.
  unfoldable pub cmd_void : Bytes → M S Bool
  cmd_void [] = pure S true
  cmd_void (_ ∷ _) = refuse S 501

  -- `cmdQuit` does not look whether its reply is written.
  unfoldable pub cmd_quit : M S Bool
  cmd_quit c = done false (record c { trace = reply_sent 205 ∷ c.trace })

  -- `cmdHelp`, `cmdDate`, `cmdSlave`, `cmdXListen` and `cmdXWait` reply alike in
  -- every state.
  unfoldable pub cmd_help : M S Bool
  cmd_help = refuse S 100

  unfoldable pub cmd_date : M S Bool
  cmd_date = refuse S 111

  unfoldable pub cmd_slave : M S Bool
  cmd_slave = refuse S 202

  unfoldable pub cmd_xlisten : M S Bool
  cmd_xlisten = refuse S 503

  unfoldable pub cmd_xwait : M S Bool
  cmd_xwait = refuse S 503
