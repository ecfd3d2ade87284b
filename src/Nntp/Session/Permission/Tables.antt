-- ===== src/Nntp/Session/Permission/Tables.antt =====
-- Every command of the tables keeps to the rights of the connection.
use nksrv.Base.{
  ℕ, ◌+◌, Bool, true, false, not, List, [], ◌∷◌, Bytes, bytes_eq, ltb, length, take, drop, All,
  Bool-cases, inl, inr,
}
use nksrv.Nntp.Syntax.{parse_keyword}
use nksrv.Nntp.Args.{Parsed, all_args, extra_args, parse_args}
use nksrv.Nntp.Session.{
  lines_sent, article_full, article_head, article_body, article_stat, Server, Conn, M, refuse, get,
}
use nksrv.Nntp.Session.Capabilities.{capabilities, cmd_capabilities}
use nksrv.Nntp.Session.Auth.{auth_sasl}
use nksrv.Nntp.Session.Listing.{
  list_overview_fmt, cmd_help, cmd_date, cmd_slave, cmd_xlisten, cmd_xwait,
}
use nksrv.Nntp.Session.Serve.{
  Command, find_command, run_parsed, run_command, run_found, dispatch, auth_table, keep_on,
  cmd_auth_info, list_table, cmd_list, command_table,
}
use nksrv.Nntp.Session.Permission.{
  IsLawful, Lawful, KeepsGroup, Lawful-bind, Lawful-write, Lawful-reply, Lawful-refuse, Lawful-pure,
  Lawful-if,
}
use nksrv.Nntp.Session.Permission.Reading.{
  Lawful-article, Lawful-group, Lawful-list_group, Lawful-next, Lawful-last, Lawful-new_news,
  Lawful-new_groups, Lawful-over, Lawful-hdr,
}
use nksrv.Nntp.Session.Permission.Others.{
  Lawful-post, Lawful-ihave, Lawful-check, Lawful-take_this, Lawful-active, Lawful-groups,
  Lawful-xgtitle, Lawful-mode, Lawful-void, Lawful-quit, Lawful-auth_user, Lawful-auth_pass,
  Lawful-start_tls,
}

infixr 5 ◌⊕◌
-- A table, command by command.
◌⊕◌ : {A B : Type 0} → A → B → A × B
h ⊕ hs = (h, hs)

module _ (S : Server) where
  abbrev LawfulRun : (List Bytes → Bytes → M S Bool) → Type 0
  LawfulRun run =
      (args : List Bytes) (rest : Bytes) (c : Conn S) → IsLawful S c → Lawful S (run args rest c)

  abbrev LawfulTable : List (Command S) → Type 0
  LawfulTable = All (λ cmd. LawfulRun cmd.run)

  Lawful-parsed :
      (cmd : Command S) (p : Parsed) (c : Conn S)
      → LawfulRun cmd.run
      → IsLawful S c
      → Lawful S (run_parsed S cmd p c)
  unfolding run_parsed
  Lawful-parsed cmd (all_args args) c k h =
      Lawful-if S (ltb (length args) cmd.bounds.minargs) _ _ c (λ _. Lawful-refuse S 501 c h)
        (λ _. k args [] c h)
  Lawful-parsed cmd (extra_args args rest) c k h =
      Lawful-if S (not cmd.bounds.allowextra) _ _ c (λ _. Lawful-refuse S 501 c h)
        (λ _. k args rest c h)

  Lawful-found :
      (table : List (Command S)) (name : Bytes) (code x : ℕ) (line : Bytes) (c : Conn S)
      → LawfulTable table
      → IsLawful S c
      → Lawful S (run_found S (find_command S table name) code x line c)
  unfolding find_command run_found run_command
  Lawful-found [] name code x line c k h = Lawful-refuse S code c h
  Lawful-found (cmd ∷ table) name code x line c (k, ks) h =
      elim (Bool-cases (bytes_eq cmd.name name)) [
        | inl e ↦ rw e (Lawful-parsed cmd (parse_args cmd.bounds.maxargs (drop (x + 1) line)) c k h)
        | inr e ↦ rw e (Lawful-found table name code x line c ks h)
      ]

  pub Lawful-dispatch :
      (table : List (Command S)) (code : ℕ) (line : Bytes) (c : Conn S)
      → LawfulTable table
      → IsLawful S c
      → Lawful S (dispatch S table code line c)
  unfolding dispatch
  Lawful-dispatch table code line c k h =
      Lawful-found table (take (parse_keyword line).1 (parse_keyword line).0) code _ _ c k h

  Lawful-keep_on : (m : M S Bool) (c : Conn S) → Lawful S (m c) → Lawful S (keep_on S m c)
  unfolding keep_on
  Lawful-keep_on m c h = Lawful-bind S m _ c h λ _ c' h'. Lawful-pure S true c' h'

  Lawful-capabilities : (c : Conn S) → IsLawful S c → Lawful S (cmd_capabilities S c)
  unfolding cmd_capabilities get
  Lawful-capabilities c h = Lawful-bind S _ _ c (Lawful-reply S 101 c h) λ _ c' h'.
      Lawful-bind S _ _ c' (Lawful-write S (lines_sent (capabilities S c')) c' tt h')
        λ _ c'' h''. Lawful-pure S true c'' h''

  Lawful-fixed : (code : ℕ) → LawfulRun (λ args rest. refuse S code)
  Lawful-fixed code args rest c h = Lawful-refuse S code c h

module _ (S : Server) (keeps : KeepsGroup S) where
  Lawful-auth_info : (rest : Bytes) (c : Conn S) → IsLawful S c → Lawful S (cmd_auth_info S rest c)
  unfolding cmd_auth_info auth_sasl
  Lawful-auth_info [] c h = Lawful-refuse S 501 c h
  Lawful-auth_info (b ∷ rest) c h = Lawful-keep_on S _ c (
      Lawful-dispatch S (auth_table S) 501 (b ∷ rest) c
        (
          λ args rest c h. Lawful-auth_user S args c h,
          (λ args rest c h. Lawful-auth_pass S args c h, (Lawful-fixed S 503, tt)),
        )
        h)

  Lawful-list : (rest : Bytes) (c : Conn S) → IsLawful S c → Lawful S (cmd_list S rest c)
  unfolding cmd_list list_overview_fmt
  Lawful-list [] c h = Lawful-keep_on S _ c (Lawful-active S keeps c h [])
  Lawful-list (b ∷ rest) c h = Lawful-keep_on S _ c (
      Lawful-dispatch S (list_table S) 501 (b ∷ rest) c
        (
          λ args rest c h. Lawful-active S keeps c h args,
          (λ args rest c h. Lawful-groups S keeps c h args, (Lawful-fixed S 215, tt)),
        )
        h)

  pub Lawful-table : LawfulTable S (command_table S)
  unfolding cmd_help cmd_date cmd_slave cmd_xlisten cmd_xwait
  Lawful-table =
      (λ args rest c h. Lawful-void S keeps c h rest)
      ⊕ (λ args rest c h. Lawful-capabilities S c h)
      ⊕ (λ args rest c h. Lawful-mode S keeps c h args)
      ⊕ Lawful-fixed S 100
      ⊕ (λ args rest c h. Lawful-list rest c h)
      ⊕ (λ args rest c h. Lawful-quit S keeps c h)
      ⊕ Lawful-fixed S 202
      ⊕ (λ args rest c h. Lawful-auth_info rest c h)
      ⊕ (λ args rest c h. Lawful-start_tls S args c h)
      ⊕ Lawful-fixed S 111
      ⊕ (λ args rest c h. Lawful-group S keeps c h args)
      ⊕ (λ args rest c h. Lawful-list_group S keeps c h args)
      ⊕ (λ args rest c h. Lawful-next S keeps c h args)
      ⊕ (λ args rest c h. Lawful-last S keeps c h args)
      ⊕ (λ args rest c h. Lawful-article S keeps c h article_full args)
      ⊕ (λ args rest c h. Lawful-article S keeps c h article_head args)
      ⊕ (λ args rest c h. Lawful-article S keeps c h article_body args)
      ⊕ (λ args rest c h. Lawful-article S keeps c h article_stat args)
      ⊕ (λ args rest c h. Lawful-new_groups S keeps c h args)
      ⊕ (λ args rest c h. Lawful-new_news S keeps c h args)
      ⊕ (λ args rest c h. Lawful-xgtitle S keeps c h args)
      ⊕ (λ args rest c h. Lawful-over S keeps c h true args)
      ⊕ (λ args rest c h. Lawful-over S keeps c h false args)
      ⊕ (λ args rest c h. Lawful-hdr S keeps c h true args)
      ⊕ (λ args rest c h. Lawful-hdr S keeps c h false args)
      ⊕ (λ args rest c h. Lawful-post S keeps c h args)
      ⊕ (λ args rest c h. Lawful-ihave S keeps c h args)
      ⊕ (λ args rest c h. Lawful-check S keeps c h args)
      ⊕ (λ args rest c h. Lawful-take_this S keeps c h args)
      ⊕ Lawful-fixed S 503
      ⊕ Lawful-fixed S 503
      ⊕ tt
