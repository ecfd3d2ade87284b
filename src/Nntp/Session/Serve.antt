-- ===== src/Nntp/Session/Serve.antt =====
-- The command loop: `serveClient` and the start of `handleConnection` of
-- src/nksrv/lib/nntp/server.go, with the command tables of scmd_base.go, `cmdAuthInfo` of
-- scmd_auth.go and `cmdList` of scmd_base.go.
use nksrv.Base.{
  ℕ, ◌+◌, ◌-◌, Bool, true, false, not, ◌&&◌, ◌||◌, List, [], ◌∷◌, Option, none, some, Bytes, codes,
  bytes_eq, ltb, ◌==◌, if◌then◌else◌, length, get_or, take, drop,
}
use nksrv.Nntp.Syntax.{parse_keyword}
use nksrv.Nntp.Args.{Parsed, all_args, extra_args, parse_args}
use nksrv.Nntp.Session.{
  article_full, article_head, article_body, article_stat, UserInfo, Server, Conn, Outcome, done,
  aborted, M, pure, bind, reply, refuse, get,
}
use nksrv.Nntp.Session.Read.{
  cmd_article, cmd_group, cmd_list_group, cmd_next, cmd_last, cmd_new_news, cmd_new_groups,
  cmd_over, cmd_hdr,
}
use nksrv.Nntp.Session.Post.{cmd_post, cmd_ihave, cmd_check, cmd_take_this}
use nksrv.Nntp.Session.Listing.{
  list_active, list_groups, list_overview_fmt, cmd_xgtitle, cmd_mode, cmd_void, cmd_quit, cmd_help,
  cmd_date, cmd_slave, cmd_xlisten, cmd_xwait,
}
use nksrv.Nntp.Session.Capabilities.{cmd_capabilities}
use nksrv.Nntp.Session.Auth.{auth_user, auth_pass, auth_sasl, cmd_start_tls, post_tls}

-- The bounds of `command`: `minargs`, `maxargs` and `allowextra`.
pub record Arity : Type 0 where
  pub minargs : ℕ
  pub maxargs : ℕ
  pub allowextra : Bool

abbrev pub arity : ℕ → ℕ → Arity
arity lo hi = record { minargs = lo; maxargs = hi; allowextra = false }

abbrev pub open_arity : ℕ → ℕ → Arity
open_arity lo hi = record { minargs = lo; maxargs = hi; allowextra = true }

module _ (S : Server) where
  -- `command`, with its name. The last argument is `rest`.
  pub record Command : Type 0 where
    pub name : Bytes
    pub bounds : Arity
    pub run : List Bytes → Bytes → M S Bool

  abbrev pub command : Bytes → Arity → (List Bytes → M S Bool) → Command
  command name bounds run = record { name = name; bounds = bounds; run = λ args rest. run args }

  abbrev pub with_rest : Bytes → Arity → (Bytes → M S Bool) → Command
  with_rest name bounds run = record { name = name; bounds = bounds; run = λ args rest. run rest }

  unfoldable pub find_command : List Command → Bytes → Option Command
  find_command [] name = none
  find_command (c ∷ cs) name = if bytes_eq c.name name then some c else find_command cs name

  -- The arguments are counted, and the command is run.
  unfoldable pub run_parsed : Command → Parsed → M S Bool
  run_parsed c (all_args args) =
      if ltb (length args) c.bounds.minargs then refuse S 501 else c.run args []
  run_parsed c (extra_args args rest) =
      if not c.bounds.allowextra then refuse S 501 else c.run args rest

  -- The line behind the keyword, which is `x` bytes long: `x >= len(line)`, or from `x+1` on.
  unfoldable pub run_command : Command → ℕ → Bytes → M S Bool
  unfolding run_parsed
  run_command c x line = run_parsed c (parse_args c.bounds.maxargs (drop (x + 1) line))

  unfoldable pub run_found : Option Command → ℕ → ℕ → Bytes → M S Bool
  run_found none code x line = refuse S code
  run_found (some c) code x line = run_command c x line

  -- `parseKeyword`, the table, and the reply where the keyword is not in it.
  unfoldable pub dispatch : List Command → ℕ → Bytes → M S Bool
  unfolding find_command run_command run_found
  dispatch table code line =
      let (line', x) = parse_keyword line in
      run_found (find_command table (take x line')) code x line'

  abbrev pub auth_table : List Command
  auth_table =
      command (codes "USER") (arity 1 1) (auth_user S)
      ∷ command (codes "PASS") (arity 1 1) (auth_pass S)
      ∷ command (codes "SASL") (arity 1 2) (auth_sasl S)
      ∷ []

  -- The result of the command is dropped.
  unfoldable pub keep_on : M S Bool → M S Bool
  keep_on m = bind S m λ _. pure S true

  unfoldable pub cmd_auth_info : Bytes → M S Bool
  unfolding dispatch keep_on
  cmd_auth_info [] = refuse S 501
  cmd_auth_info (c ∷ rest) = keep_on (dispatch auth_table 501 (c ∷ rest))

  abbrev pub list_table : List Command
  list_table =
      command (codes "ACTIVE") (arity 0 1) (list_active S)
      ∷ command (codes "NEWSGROUPS") (arity 0 1) (list_groups S)
      ∷ command (codes "OVERVIEW.FMT") (arity 0 0) (list_overview_fmt S)
      ∷ []

  unfoldable pub cmd_list : Bytes → M S Bool
  unfolding dispatch keep_on
  cmd_list [] = keep_on (list_active S [])
  cmd_list (c ∷ rest) = keep_on (dispatch list_table 501 (c ∷ rest))

  -- `commandMap`.
  abbrev pub command_table : List Command
  command_table =
      with_rest [] (open_arity 0 0) (cmd_void S)
      ∷ with_rest (codes "CAPABILITIES") (open_arity 0 0) (λ _. cmd_capabilities S)
      ∷ command (codes "MODE") (arity 1 1) (cmd_mode S)
      ∷ with_rest (codes "HELP") (arity 0 2) (λ _. cmd_help S)
      ∷ with_rest (codes "LIST") (open_arity 0 0) cmd_list
      ∷ with_rest (codes "QUIT") (open_arity 0 0) (λ _. cmd_quit S)
      ∷ with_rest (codes "SLAVE") (arity 0 0) (λ _. cmd_slave S)
      ∷ with_rest (codes "AUTHINFO") (open_arity 0 0) cmd_auth_info
      ∷ command (codes "STARTTLS") (arity 0 0) (cmd_start_tls S)
      ∷ with_rest (codes "DATE") (arity 0 0) (λ _. cmd_date S)
      ∷ command (codes "GROUP") (arity 1 1) (cmd_group S)
      ∷ command (codes "LISTGROUP") (arity 0 2) (cmd_list_group S)
      ∷ command (codes "NEXT") (arity 0 0) (cmd_next S)
      ∷ command (codes "LAST") (arity 0 0) (cmd_last S)
      ∷ command (codes "ARTICLE") (arity 0 1) (cmd_article S article_full)
      ∷ command (codes "HEAD") (arity 0 1) (cmd_article S article_head)
      ∷ command (codes "BODY") (arity 0 1) (cmd_article S article_body)
      ∷ command (codes "STAT") (arity 0 1) (cmd_article S article_stat)
      ∷ command (codes "NEWGROUPS") (arity 2 4) (cmd_new_groups S)
      ∷ command (codes "NEWNEWS") (arity 3 5) (cmd_new_news S)
      ∷ command (codes "XGTITLE") (arity 0 1) (cmd_xgtitle S)
      ∷ command (codes "OVER") (arity 0 1) (cmd_over S true)
      ∷ command (codes "XOVER") (arity 0 1) (cmd_over S false)
      ∷ command (codes "HDR") (arity 1 2) (cmd_hdr S true)
      ∷ command (codes "XHDR") (arity 1 2) (cmd_hdr S false)
      ∷ command (codes "POST") (arity 0 0) (cmd_post S)
      ∷ command (codes "IHAVE") (arity 1 1) (cmd_ihave S)
      ∷ command (codes "CHECK") (arity 1 1) (cmd_check S)
      ∷ command (codes "TAKETHIS") (arity 1 1) (cmd_take_this S)
      ∷ with_rest (codes "XLISTEN") (open_arity 1 1) (λ _. cmd_xlisten S)
      ∷ with_rest (codes "XWAIT") (arity 1 1) (λ _. cmd_xwait S)
      ∷ []

  -- The test for illegal characters. Its `continue` goes on with the inner loop, so a reply is sent
  -- for each of them, and the line is processed all the same.
  unfoldable pub illegal_loop : Bytes → M S (Unit {0})
  illegal_loop [] = pure S tt
  illegal_loop (ch ∷ s) =
      let rest = illegal_loop s in
      if ch == 0 || ch == b'\r' then bind S (reply S 501) (λ _. rest) else rest

  -- One command, without its line end.
  unfoldable pub handle_command : Bytes → M S Bool
  unfolding dispatch illegal_loop cmd_auth_info cmd_list
  handle_command incmd = bind S (illegal_loop incmd) λ _. dispatch command_table 500 incmd

  -- `c.inbuf[:i]`, which ends in a line feed, without it and a carriage return in front of it.
  unfoldable pub strip_line_end : Bytes → Bytes
  strip_line_end line =
      let i = length line in
      if ltb 1 i && get_or line (i - 2) 0 == b'\r' then take (i - 2) line else take (i - 1) line

  -- What the reads of the loop come back with: a line, `ErrDelimNotFound` and then the end of the
  -- long line, or an error that is not the end of the input. The end of the list is `io.EOF`.
  pub data Input : Type 0 where
    line_read : Bytes → Input
    line_too_long : Input
    read_failed : Input

  -- The loop; the result says whether the connection is to be reset.
  unfoldable pub serve_loop : List Input → M S Bool
  unfolding handle_command strip_line_end
  serve_loop [] = pure S false
  serve_loop (read_failed ∷ inputs) = pure S true
  serve_loop (line_too_long ∷ inputs) = bind S (reply S 501) (λ _. serve_loop inputs)
  serve_loop (line_read line ∷ inputs) =
      bind S (handle_command (strip_line_end line))
        λ more. elim more [ true ↦ serve_loop inputs | false ↦ pure S false ]

  unfoldable pub greet : M S (Unit {0})
  greet = get S λ c. if c.priv.allow_posting then reply S 200 else reply S 201

  -- A panic is recovered, and `serveClient` returns false.
  unfoldable pub recovered : Outcome S Bool → Bool × Conn S
  recovered (done reset c) = (reset, c)
  recovered (aborted c) = (false, c)

  unfoldable pub serve_client : List Input → Conn S → Bool × Conn S
  unfolding serve_loop greet recovered
  serve_client inputs c = recovered (bind S greet (λ _. serve_loop inputs) c)

  -- The connection that `handleConnection` makes, on a server without and with TLS from the start.
  unfoldable pub new_conn : S.State → Conn S
  new_conn state = record {
    current_group = none;
    priv = S.default_priv;
    authenticated = false;
    active_login = none;
    tls_started = false;
    provider = state;
    trace = [];
  }

  unfoldable pub new_tls_conn : Option UserInfo → S.State → Conn S
  unfolding new_conn
  new_tls_conn cert state = post_tls S cert (new_conn state)
