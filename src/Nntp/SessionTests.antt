-- ===== src/Nntp/SessionTests.antt =====
-- Runs of a session with the small server.
use nksrv.Base.{
  ◌≡◌, refl, true, false, List, [], ◌∷◌, none, some, Bytes, codes, reverse, bytes_eq, All, ◌++◌,
}
use nksrv.Utf8.{utf8_valid}
use nksrv.Nntp.Syntax.{parse_keyword, full_valid_group_slice}
use nksrv.Nntp.Args.{parse_args}
use nksrv.Nntp.Session.Read.{cmd_group}
use nksrv.Nntp.Session.Post.{cmd_post}
use nksrv.Nntp.Session.{
  reply_sent, provider_called, select_group, handle_post, Conn, bind, pure, reply, call, refuse,
  ask, get, modify,
}
use nksrv.Nntp.Session.Auth.{auth_user, auth_pass, login, login_success}
use nksrv.Nntp.Session.Serve.{
  dispatch, command_table, handle_command, Input, line_read, serve_client, new_conn, new_tls_conn,
}
use nksrv.Nntp.Session.Permission.{IsPermitted}
use nksrv.Nntp.Session.Permission.Serving.{serve_client-IsPermitted}
use nksrv.Nntp.Session.Login.{LoggedIn, HasPass, final, auth_pass_sound}
use nksrv.Nntp.Session.Capabilities.Honest.{Honest, found_by, capabilities-Honest}
use nksrv.Nntp.Session.Auth.{cmd_start_tls, after_handshake}
use nksrv.Nntp.Session.Illegal.{count_illegal, warned, handle_command_illegal}
use nksrv.Nntp.Fixture.{bob, small_server, small_server-KeepsGroup}

abbrev line : Bytes → Input small_server
line s = line_read (s ++ b'\r' ∷ b'\n' ∷ [])

-- A group is selected, a post is refused, bob logs in, and the next post is taken.
abbrev session : List (Input small_server)
session =
    line (codes "GROUP misc.test")
    ∷ line (codes "POST")
    ∷ line (codes "AUTHINFO USER bob")
    ∷ line (codes "AUTHINFO PASS pw")
    ∷ line (codes "POST")
    ∷ []

serve_client-IsPermitted_example :
    All IsPermitted (serve_client small_server session (new_conn small_server 0)).1.trace
    × All IsPermitted
        (serve_client small_server session (new_tls_conn small_server (some bob) 0)).1.trace
serve_client-IsPermitted_example =
    serve_client-IsPermitted small_server small_server-KeepsGroup session (some bob) 0

abbrev pending : Conn small_server
pending = record {
  current_group = none;
  priv = record { allow_reading = true; allow_posting = false };
  authenticated = false;
  active_login = some (record { ui = some bob; ch = codes "bob" });
  tls_started = false;
  provider = 0;
  trace = [];
}

abbrev idle : Conn small_server
idle = record pending { active_login = none }

auth_pass_sound_example :
    (p : HasPass small_server (codes "pw") pending.active_login) × LoggedIn small_server
      pending.priv
      (final small_server (auth_pass small_server (codes "pw" ∷ []) pending))
      p.ui
unfolding auth_pass get modify bind reply pure login login_success bytes_eq
auth_pass_sound_example = auth_pass_sound small_server (codes "pw") [] pending refl refl

handle_command_illegal_example :
    handle_command small_server (0 ∷ b'\r' ∷ codes "DATE") pending
    ≡ dispatch small_server
        (command_table small_server)
        500
        (0 ∷ b'\r' ∷ codes "DATE")
        (warned small_server (count_illegal (0 ∷ b'\r' ∷ codes "DATE")) pending)
handle_command_illegal_example =
    handle_command_illegal small_server (λ _ _. refl) (0 ∷ b'\r' ∷ codes "DATE") pending

capabilities-Honest_example :
    Honest small_server
      (codes "STARTTLS")
      (cmd_start_tls small_server [])
      (bind small_server
        (reply small_server 382)
        (λ _. after_handshake small_server small_server.handshake))
      idle
    × Honest small_server
        (codes "POST")
        (cmd_post small_server [])
        (ask small_server handle_post 440)
        idle
    × Honest small_server
        (codes "AUTHINFO USER")
        (auth_user small_server (codes "bob" ∷ []))
        (found_by small_server small_server.user_pass (codes "bob"))
        idle
capabilities-Honest_example = capabilities-Honest small_server (codes "bob") [] idle refl

session_runs :
    reverse (serve_client small_server session (new_conn small_server 0)).1.trace
    ≡ reply_sent 201
      ∷ provider_called
          (select_group (codes "misc.test"))
          (record { allow_reading = true; allow_posting = false })
      ∷ reply_sent 440
      ∷ reply_sent 381
      ∷ reply_sent 281
      ∷ provider_called handle_post (record { allow_reading = true; allow_posting = true })
      ∷ []
unfolding serve_client dispatch bind get new_conn reply pure bytes_eq parse_keyword parse_args
    cmd_group full_valid_group_slice ask call cmd_post refuse auth_user modify auth_pass
    login_success utf8_valid
session_runs = refl
