-- ===== src/Nntp/Session/Auth.antt =====
-- Authentication: src/nksrv/lib/nntp/scmd_auth.go and auth.go, and `cmdStartTLS` of scmd_base.go.
use nksrv.Base.{
  Bool, true, false, not, ◌&&◌, ◌||◌, List, [], ◌∷◌, Option, none, some, Bytes, if◌then◌else◌, ◌==◌,
}
use nksrv.Nntp.Session.{
  UserPriv, merge_user_priv, UserInfo, UserPass, ActiveLogin, Server, Conn, M, pure, bind, crash,
  reply, refuse, get, modify,
}
use nksrv.Nntp.Session.Read.{is_set}

-- The loop of `ParseUserPriv`: what was read so far comes back beside the verdict.
unfoldable pub parse_user_priv : Bytes → UserPriv → UserPriv × Bool
parse_user_priv [] up = (up, true)
parse_user_priv (c ∷ s) up =
    let r = parse_user_priv s (record up { allow_reading = true }) in
    let w = parse_user_priv s (record up { allow_posting = true }) in
    if c == b'r' then r else if c == b'w' then w else (up, false)

abbrev pub is_nil : Bytes → Bool
is_nil [] = true
is_nil (_ ∷ _) = false

module _ (S : Server) where
  -- `advertisePlaintextAuth`.
  unfoldable pub advertise_plaintext_auth : Conn S → Bool
  advertise_plaintext_auth c =
      is_set S.user_pass && not c.authenticated && (S.unsafe_pass || c.tls_started)

  unfoldable pub login : UserInfo → Conn S → Conn S
  login ui c = record c { authenticated = true; priv = merge_user_priv c.priv ui.priv }

  -- `loginSuccess`, behind the reply.
  unfoldable pub login_success : UserInfo → M S Bool
  unfolding login
  login_success ui = bind S (reply S 281) λ _. bind S (modify S (login ui)) λ _. pure S true

  -- The end of `authCmdUser`: a user without a password is taken, and another must give it.
  unfoldable pub user_found : Option UserInfo × Bytes → M S Bool
  user_found (none, ch) =
      if S.unsafe_early_user_reject
      then refuse S 481
      else bind S (reply S 381) λ _.
        bind S (modify S λ c. record c { active_login = some (record { ui = none; ch = ch }) })
          λ _. pure S true
  user_found (some ui, ch) =
      if is_nil ch
      then login_success ui
      else bind S (reply S 381) λ _.
        bind S (modify S λ c. record c { active_login = some (record { ui = some ui; ch = ch }) })
          λ _. pure S true

  unfoldable pub user_lookup : Option UserPass → Bytes → M S Bool
  user_lookup none name = refuse S 503
  user_lookup (some upp) name = get S λ c.
      if not S.unsafe_pass && not c.tls_started then refuse S 483 else user_found (upp.by_name name)

  -- `pullActiveLogin`.
  abbrev pub pulled : Conn S → Conn S
  pulled c = record c { active_login = none }

  unfoldable pub auth_user : List Bytes → M S Bool
  unfolding login_success user_found user_lookup
  auth_user [] = crash S
  auth_user (name ∷ _) = get S λ old. bind S (modify S pulled) λ _.
      if is_set old.active_login
      then refuse S 482
      else if old.authenticated
      then refuse S 502
      else user_lookup S.user_pass name

  -- `authCmdPass` with no login under way.
  unfoldable pub pass_rejected : M S Bool
  pass_rejected = get S λ c.
      if c.authenticated
      then refuse S 502
      else if not (is_set S.user_pass)
      then refuse S 503
      else if not S.unsafe_pass && not c.tls_started
      then refuse S 483
      else refuse S 482

  -- `upp == nil || !upp.NNTPCheckPass(ol.ch, rpass)`.
  abbrev pub pass_fails : Option UserPass → Bytes → Bytes → Bool
  pass_fails none ch pass = true
  pass_fails (some upp) ch pass = not (upp.check_pass ch pass)

  unfoldable pub pass_check : Option UserInfo → Bytes → Bytes → M S Bool
  unfolding login_success
  pass_check none ch pass = refuse S 481
  pass_check (some ui) ch pass =
      if not (is_nil ch) && pass_fails S.user_pass ch pass then refuse S 481 else login_success ui

  unfoldable pub pass_login : Option ActiveLogin → Bytes → M S Bool
  unfolding pass_rejected pass_check
  pass_login none pass = pass_rejected
  pass_login (some ol) pass = pass_check ol.ui ol.ch pass

  unfoldable pub auth_pass : List Bytes → M S Bool
  unfolding pass_login
  auth_pass [] = crash S
  auth_pass (pass ∷ _) = get S λ old. bind S (modify S pulled) λ _. pass_login old.active_login pass

  unfoldable pub auth_sasl : List Bytes → M S Bool
  auth_sasl args = refuse S 503

  unfoldable pub cert_login : Option UserInfo → Conn S → Conn S
  unfolding login
  cert_login none c = c
  cert_login (some ui) c = login ui c

  -- `postTLS`: the rights of TLS, and those of the certificate's user.
  unfoldable pub post_tls : Option UserInfo → Conn S → Conn S
  unfolding cert_login
  post_tls cert c =
      let c' = record c { tls_started = true; priv = merge_user_priv c.priv S.tls_priv } in
      if S.cert_fp_auto_auth && not c'.authenticated then cert_login cert c' else c'

  unfoldable pub after_handshake : Option (Option UserInfo) → M S Bool
  after_handshake none = pure S false
  after_handshake (some cert) =
      bind S (modify S λ c. post_tls cert (record c { current_group = none })) λ _. pure S true

  unfoldable pub cmd_start_tls : List Bytes → M S Bool
  unfolding after_handshake post_tls
  cmd_start_tls args = get S λ c.
      if not S.has_tls_config
      then refuse S 580
      else if c.tls_started
      then refuse S 502
      else bind S (reply S 382) λ _. after_handshake S.handshake
