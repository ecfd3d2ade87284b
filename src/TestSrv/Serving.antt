-- ===== src/TestSrv/Serving.antt =====
-- The NNTP server of src/nksrv/lib/nntp with the provider of src/nksrv/lib/nntp/testsrv.
use nksrv.Base.{List, Option, All}
use nksrv.Nntp.Session.{Request, UserInfo, Server}
use nksrv.Nntp.Session.Permission.{IsPermitted, KeepsGroup}
use nksrv.Nntp.Session.Permission.Serving.{serve_client-IsPermitted}
use nksrv.Nntp.Session.Serve.{Input, serve_client, new_conn, new_tls_conn}
use nksrv.TestSrv.Data.{Srv, GroupState, Sent}
use nksrv.TestSrv.Answer.{TestSrv, World, supports, answer}
use nksrv.TestSrv.Invariant.{answer-KeepsGroup}

-- A server whose provider is the test server; all else of it is as it was.
abbrev pub provide : TestSrv → Srv → (Request → List Sent → World) → Server → Server
provide p s1 world S = record {
  State = List Sent;
  Group = GroupState;
  supports = supports p;
  answer = answer p s1 world;
  default_priv = S.default_priv;
  tls_priv = S.tls_priv;
  has_tls_config = S.has_tls_config;
  unsafe_pass = S.unsafe_pass;
  unsafe_early_user_reject = S.unsafe_early_user_reject;
  cert_fp_auto_auth = S.cert_fp_auto_auth;
  user_pass = S.user_pass;
  handshake = S.handshake;
  write_ok = S.write_ok;
  current_year = S.current_year;
}

module _ (p : TestSrv) (s1 : Srv) (world : Request → List Sent → World) (S : Server) where
  provide-KeepsGroup : KeepsGroup (provide p s1 world S)
  provide-KeepsGroup r log gs a n e = answer-KeepsGroup p s1 world r log gs a n e

  -- With the test server as the provider, whatever articles and settings it has and whatever a client sends, on a
  -- plain connection or one with TLS from the start, each of its methods is called with the rights that it needs.
  pub provide-IsPermitted :
      (inputs : List (Input (provide p s1 world S))) (cert : Option UserInfo) (log : List Sent)
      → (let T = provide p s1 world S in
          All IsPermitted (serve_client T inputs (new_conn T log)).1.trace
          × All IsPermitted (serve_client T inputs (new_tls_conn T cert log)).1.trace)
  provide-IsPermitted inputs cert log =
      serve_client-IsPermitted (provide p s1 world S) provide-KeepsGroup inputs cert log
