-- ===== src/Nntp/Session/Permission/Serving.antt =====
-- The command loop keeps to the rights of the connection, whatever the client sends.
use nksrv.Base.{Bool, true, false, ◌||◌, List, [], ◌∷◌, Option, Bytes, ◌==◌, All}
use nksrv.Nntp.Session.{UserInfo, Server, Conn, Outcome, done, aborted, M, pure, get}
use nksrv.Nntp.Session.Serve.{
  command_table, illegal_loop, handle_command, strip_line_end, Input, line_read, line_too_long,
  read_failed, serve_loop, greet, recovered, serve_client, new_conn, new_tls_conn,
}
use nksrv.Nntp.Session.Permission.{
  IsPermitted, IsLawful, Lawful, KeepsGroup, Lawful-bind, Lawful-reply, Lawful-pure, Lawful-if,
}
use nksrv.Nntp.Session.Permission.Others.{IsLawful-post_tls}
use nksrv.Nntp.Session.Permission.Tables.{Lawful-dispatch, Lawful-table}

module _ (S : Server) (keeps : KeepsGroup S) where
  Lawful-illegal : (s : Bytes) (c : Conn S) → IsLawful S c → Lawful S (illegal_loop S s c)
  unfolding illegal_loop
  Lawful-illegal [] c h = Lawful-pure S tt c h
  Lawful-illegal (ch ∷ s) c h =
      Lawful-if S (ch == 0 || ch == b'\r') _ _ c
        (λ _. Lawful-bind S _ _ c (Lawful-reply S 501 c h) λ _ c' h'. Lawful-illegal s c' h')
        (λ _. Lawful-illegal s c h)

  pub Lawful-command :
      (incmd : Bytes) (c : Conn S) → IsLawful S c → Lawful S (handle_command S incmd c)
  unfolding handle_command
  Lawful-command incmd c h =
      Lawful-bind S _ _ c (Lawful-illegal incmd c h)
        λ _ c' h'. Lawful-dispatch S (command_table S) 500 incmd c' (Lawful-table S keeps) h'

  Lawful-round :
      (more : Bool) (inputs : List (Input S)) (c : Conn S)
      → IsLawful S c
      → ((d : Conn S) → IsLawful S d → Lawful S (serve_loop S inputs d))
      → Lawful S
          ((elim more as (λ _. M S Bool) [ true ↦ serve_loop S inputs | false ↦ pure S false ]) c)
  Lawful-round true inputs c h k = k c h
  Lawful-round false inputs c h k = Lawful-pure S false c h

  Lawful-loop :
      (inputs : List (Input S)) (c : Conn S) → IsLawful S c → Lawful S (serve_loop S inputs c)
  unfolding serve_loop
  Lawful-loop [] c h = Lawful-pure S false c h
  Lawful-loop (read_failed ∷ inputs) c h = Lawful-pure S true c h
  Lawful-loop (line_too_long ∷ inputs) c h =
      Lawful-bind S _ _ c (Lawful-reply S 501 c h) λ _ c' h'. Lawful-loop inputs c' h'
  Lawful-loop (line_read line ∷ inputs) c h =
      Lawful-bind S _ _ c (Lawful-command (strip_line_end S line) c h)
        λ more c' h'. Lawful-round more inputs c' h' (λ d k. Lawful-loop inputs d k)

  Lawful-greet : (c : Conn S) → IsLawful S c → Lawful S (greet S c)
  unfolding greet get
  Lawful-greet c h =
      Lawful-if S c.priv.allow_posting _ _ c (λ _. Lawful-reply S 200 c h)
        (λ _. Lawful-reply S 201 c h)

  Lawful-recovered : (o : Outcome S Bool) → Lawful S o → IsLawful S (recovered S o).1
  unfolding recovered
  Lawful-recovered (done b c) h = h
  Lawful-recovered (aborted c) h = h

  -- Serving keeps a connection lawful.
  pub serve_client-IsLawful :
      (inputs : List (Input S)) (c : Conn S) → IsLawful S c → IsLawful S (serve_client S inputs c).1
  unfolding serve_client
  serve_client-IsLawful inputs c h =
      Lawful-recovered _
        (Lawful-bind S (greet S) _ c (Lawful-greet c h) λ _ c' h'. Lawful-loop inputs c' h')

  new_conn-IsLawful : (state : S.State) → IsLawful S (new_conn S state)
  unfolding new_conn
  new_conn-IsLawful state = record { calls = tt; group = λ e. cc }

  -- Whatever a client sends, on a plain connection or one with TLS from the start, each call of the
  -- provider is made with the rights that it needs, under the condition that a provider changes
  -- the current group only when it is asked for articles.
  pub serve_client-IsPermitted :
      (inputs : List (Input S)) (cert : Option UserInfo) (state : S.State)
      → All IsPermitted (serve_client S inputs (new_conn S state)).1.trace
        × All IsPermitted (serve_client S inputs (new_tls_conn S cert state)).1.trace
  unfolding new_tls_conn
  serve_client-IsPermitted inputs cert state =
      let plain = new_conn-IsLawful state in
      (
        (serve_client-IsLawful inputs (new_conn S state) plain).calls,
        (serve_client-IsLawful inputs _ (IsLawful-post_tls S cert (new_conn S state) plain)).calls,
      )
