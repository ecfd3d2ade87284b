-- ===== src/Nntp/Session/Permission/Others.antt =====
-- The posting, listing and authentication commands keep to the rights of the connection.
use nksrv.Base.{
  ◌≡◌, refl, Bool, true, false, not, ◌&&◌, ◌||◌, List, [], ◌∷◌, Option, none, some, Bytes,
  Bool-cases, inl, inr,
}
use nksrv.Nntp.Session.{
  merge_user_priv, UserInfo, UserPass, ActiveLogin, Server, Conn, get, modify, pure, bind, reply,
}
use nksrv.Nntp.Session.Post.{cmd_post, cmd_ihave, cmd_check, cmd_take_this}
use nksrv.Nntp.Session.Listing.{
  listing, list_active, list_groups, cmd_xgtitle, cmd_mode, cmd_void, cmd_quit,
}
use nksrv.Nntp.Session.Auth.{
  login, login_success, user_found, user_lookup, pulled, auth_user, pass_rejected, pass_check,
  pass_login, auth_pass, cert_login, post_tls, after_handshake, cmd_start_tls,
}
use nksrv.Nntp.Session.Permission.{
  IsLawful, Lawful, KeepsGroup, lawful, Lawful-bind, Lawful-reply, Lawful-refuse, Lawful-pure,
  Lawful-if,
}

module _ (S : Server) (keeps : KeepsGroup S) (c : Conn S) (h : IsLawful S c) where
  pub Lawful-post : (args : List Bytes) → Lawful S (cmd_post S args c)
  unfolding cmd_post get
  Lawful-post args = search lawful depth 8

  pub Lawful-ihave : (args : List Bytes) → Lawful S (cmd_ihave S args c)
  unfolding cmd_ihave get
  Lawful-ihave [] = search lawful depth 8
  Lawful-ihave (id ∷ _) = search lawful depth 10

  pub Lawful-check : (args : List Bytes) → Lawful S (cmd_check S args c)
  unfolding cmd_check get
  Lawful-check [] = search lawful depth 8
  Lawful-check (id ∷ _) = search lawful depth 10

  pub Lawful-take_this : (args : List Bytes) → Lawful S (cmd_take_this S args c)
  unfolding cmd_take_this get
  Lawful-take_this [] = search lawful depth 8
  Lawful-take_this (id ∷ _) = search lawful depth 10

  pub Lawful-active : (args : List Bytes) → Lawful S (list_active S args c)
  unfolding list_active listing get
  Lawful-active [] = search lawful depth 8
  Lawful-active (wildmat ∷ _) = search lawful depth 10

  pub Lawful-groups : (args : List Bytes) → Lawful S (list_groups S args c)
  unfolding list_groups listing get
  Lawful-groups [] = search lawful depth 8
  Lawful-groups (wildmat ∷ _) = search lawful depth 10

  pub Lawful-xgtitle : (args : List Bytes) → Lawful S (cmd_xgtitle S args c)
  unfolding cmd_xgtitle listing get
  Lawful-xgtitle [] = search lawful depth 8
  Lawful-xgtitle (wildmat ∷ _) = search lawful depth 10

  pub Lawful-mode : (args : List Bytes) → Lawful S (cmd_mode S args c)
  unfolding cmd_mode get
  Lawful-mode [] = search lawful depth 8
  Lawful-mode (arg ∷ _) = search lawful depth 10

  pub Lawful-void : (rest : Bytes) → Lawful S (cmd_void S rest c)
  unfolding cmd_void
  Lawful-void [] = search lawful
  Lawful-void (_ ∷ _) = search lawful

  pub Lawful-quit : Lawful S (cmd_quit S c)
  unfolding cmd_quit
  Lawful-quit = record { calls = (tt, h.calls); group = h.group }

or_left : (a b : Bool) → a ≡ true → (a || b) ≡ true
or_left true b h = refl
or_left false b h = cc

module _ (S : Server) where
  IsLawful-login : (ui : UserInfo) (c : Conn S) → IsLawful S c → IsLawful S (login S ui c)
  unfolding login
  IsLawful-login ui c h = record {
    calls = h.calls;
    group = λ e. or_left c.priv.allow_reading _ (h.group e);
  }

  IsLawful-cert_login :
      (cert : Option UserInfo) (c : Conn S) → IsLawful S c → IsLawful S (cert_login S cert c)
  unfolding cert_login
  IsLawful-cert_login none c h = h
  IsLawful-cert_login (some ui) c h = IsLawful-login ui c h

  pub IsLawful-post_tls :
      (cert : Option UserInfo) (c : Conn S) → IsLawful S c → IsLawful S (post_tls S cert c)
  unfolding post_tls
  IsLawful-post_tls cert c h =
      let c' : Conn S = record c { tls_started = true; priv = merge_user_priv c.priv S.tls_priv } in
      let h' : IsLawful S c' = record {
        calls = h.calls;
        group = λ e. or_left c.priv.allow_reading _ (h.group e);
      } in
      elim (Bool-cases (S.cert_fp_auto_auth && not c.authenticated)) [
        | inl e ↦ rw e (IsLawful-cert_login cert c' h')
        | inr e ↦ rw e h'
      ]

  Lawful-login_success :
      (ui : UserInfo) (c : Conn S) → IsLawful S c → Lawful S (login_success S ui c)
  unfolding login_success modify
  Lawful-login_success ui c h = Lawful-bind S _ _ c (Lawful-reply S 281 c h) λ _ c' h'.
      Lawful-bind S _ _ c' (IsLawful-login ui c' h') λ _ c'' h''. Lawful-pure S true c'' h''

  -- A reply, and a change of the login under way.
  Lawful-await :
      (ol : Option ActiveLogin) (c : Conn S)
      → IsLawful S c
      → Lawful S (
          bind S
            (reply S 381)
            (λ _. bind S (modify S λ c. record c { active_login = ol }) λ _. pure S true)
            c)
  unfolding modify
  Lawful-await ol c h = Lawful-bind S _ _ c (Lawful-reply S 381 c h) λ _ c' h'.
      Lawful-bind S _ _ c' (record { calls = h'.calls; group = h'.group })
        λ _ c'' h''. Lawful-pure S true c'' h''

  Lawful-user_found :
      (u : Option UserInfo × Bytes) (c : Conn S) → IsLawful S c → Lawful S (user_found S u c)
  unfolding user_found
  Lawful-user_found (none, ch) c h = search (lawful, Lawful-await)
  Lawful-user_found (some ui, []) c h = Lawful-login_success ui c h
  Lawful-user_found (some ui, b ∷ ch) c h = Lawful-await _ c h

  Lawful-user_lookup :
      (upp : Option UserPass) (name : Bytes) (c : Conn S)
      → IsLawful S c
      → Lawful S (user_lookup S upp name c)
  unfolding user_lookup get
  Lawful-user_lookup none name c h = search lawful
  Lawful-user_lookup (some upp) name c h = search (lawful, Lawful-user_found)

  pub Lawful-auth_user :
      (args : List Bytes) (c : Conn S) → IsLawful S c → Lawful S (auth_user S args c)
  unfolding auth_user get modify
  Lawful-auth_user [] c h = search lawful
  Lawful-auth_user (name ∷ _) c h =
      Lawful-bind S (modify S (pulled S)) _ c (record { calls = h.calls; group = h.group })
        λ _ c' h'. search (lawful, Lawful-user_lookup) depth 8

  Lawful-pass_rejected : (c : Conn S) → IsLawful S c → Lawful S (pass_rejected S c)
  unfolding pass_rejected get
  Lawful-pass_rejected c h = search lawful depth 8

  Lawful-pass_check :
      (ui : Option UserInfo) (ch pass : Bytes) (c : Conn S)
      → IsLawful S c
      → Lawful S (pass_check S ui ch pass c)
  unfolding pass_check
  Lawful-pass_check none ch pass c h = search lawful
  Lawful-pass_check (some ui) ch pass c h = search (lawful, Lawful-login_success)

  Lawful-pass_login :
      (ol : Option ActiveLogin) (pass : Bytes) (c : Conn S)
      → IsLawful S c
      → Lawful S (pass_login S ol pass c)
  unfolding pass_login
  Lawful-pass_login none pass c h = Lawful-pass_rejected c h
  Lawful-pass_login (some ol) pass c h = Lawful-pass_check ol.ui ol.ch pass c h

  pub Lawful-auth_pass :
      (args : List Bytes) (c : Conn S) → IsLawful S c → Lawful S (auth_pass S args c)
  unfolding auth_pass get modify
  Lawful-auth_pass [] c h = search lawful
  Lawful-auth_pass (pass ∷ _) c h =
      Lawful-bind S (modify S (pulled S)) _ c (record { calls = h.calls; group = h.group })
        λ _ c' h'. Lawful-pass_login c.active_login pass c' h'

  Lawful-after_handshake :
      (r : Option (Option UserInfo)) (c : Conn S) → IsLawful S c → Lawful S (after_handshake S r c)
  unfolding after_handshake modify
  Lawful-after_handshake none c h = search lawful
  Lawful-after_handshake (some cert) c h =
      Lawful-bind S _ _ c
        (IsLawful-post_tls cert (record c { current_group = none })
          (record { calls = h.calls; group = λ e. cc }))
        λ _ c' h'. Lawful-pure S true c' h'

  pub Lawful-start_tls :
      (args : List Bytes) (c : Conn S) → IsLawful S c → Lawful S (cmd_start_tls S args c)
  unfolding cmd_start_tls get
  Lawful-start_tls args c h =
      Lawful-if S (not S.has_tls_config) _ _ c (λ _. Lawful-refuse S 580 c h)
        λ _.
          Lawful-if S c.tls_started _ _ c (λ _. Lawful-refuse S 502 c h)
            λ _.
              Lawful-bind S _ _ c (Lawful-reply S 382 c h)
                λ _ c' h'. Lawful-after_handshake S.handshake c' h'
