-- ===== src/Nntp/Session/Capabilities.antt =====
-- `cmdCapabilities` of src/nksrv/lib/nntp/scmd_base.go.
pub mod Honest
use nksrv.Base.{
  Bool, true, false, not, ◌&&◌, ◌||◌, List, [], ◌∷◌, ◌++◌, Bytes, codes, if◌then◌else◌,
}
use nksrv.Nntp.Session.{
  lines_sent, new_news, over_msgid, hdr, ihave, post, stream, Server, Conn, M, pure, bind, write,
  reply, get,
}
use nksrv.Nntp.Session.Auth.{advertise_plaintext_auth}

-- A line that is printed under a condition.
abbrev pub when : Bool → Bytes → List Bytes
when b line = if b then line ∷ [] else []

module _ (S : Server) where
  -- The lines that are printed to the `DotWriter`.
  unfoldable pub capabilities : Conn S → List Bytes
  capabilities c =
      let reading = c.priv.allow_reading in
      let posting = c.priv.allow_posting in
      codes "VERSION 2" ∷ when (advertise_plaintext_auth S c) (codes "AUTHINFO USER")
      ++ when reading (codes "READER")
      ++ when (posting && S.supports post) (codes "POST")
      ++ when (posting && S.supports ihave) (codes "IHAVE")
      ++ when (posting && S.supports stream) (codes "STREAMING")
      ++ when (reading && S.supports new_news) (codes "NEWNEWS")
      ++ when (reading && not (S.supports over_msgid)) (codes "OVER")
      ++ when (reading && S.supports over_msgid) (codes "OVER MSGID")
      ++ when (reading && S.supports hdr) (codes "HDR")
      ++ when (reading || posting) (codes "LIST ACTIVE NEWSGROUPS OVERVIEW.FMT")
      ++ when (S.has_tls_config && not c.tls_started) (codes "STARTTLS")
      ++ codes "IMPLEMENTATION CNTPD" ∷ []

  unfoldable pub cmd_capabilities : M S Bool
  unfolding capabilities
  cmd_capabilities =
      bind S (reply S 101)
        λ _. get S λ c. bind S (write S (lines_sent (capabilities c))) λ _. pure S true
