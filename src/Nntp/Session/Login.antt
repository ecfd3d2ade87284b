-- ===== src/Nntp/Session/Login.antt =====
-- When AUTHINFO USER and AUTHINFO PASS authenticate a connection.
use nksrv.Base.{
  ℕ, ◌≡◌, refl, Bool, true, false, not, ◌&&◌, List, [], ◌∷◌, Option, none, some, Bytes,
  if◌then◌else◌, ◌⊎◌, inl, inr, Bool-cases,
}
use nksrv.Nntp.Session.{
  reply_sent, UserPriv, merge_user_priv, UserInfo, UserPass, ActiveLogin, Server, Conn, Outcome,
  done, aborted, M, pure, bind, reply, refuse, get, modify,
}
use nksrv.Nntp.Session.Auth.{
  login, login_success, pass_rejected, pass_check, is_nil, pass_fails, pulled, pass_login,
  auth_pass,
}
use nksrv.Nntp.Session.Permission.{not-eq-false}

module _ (S : Server) where
  -- The connection holds the rights of the user beside its own, and no login is under way.
  pub record LoggedIn (priv : UserPriv) (c' : Conn S) (ui : UserInfo) : Type 0 where
    pub rights : c'.priv ≡ merge_user_priv priv ui.priv
    pub settled : c'.active_login ≡ none

  -- The pending login of AUTHINFO PASS, with a password that fits.
  pub record HasPass (pass : Bytes) (o : Option ActiveLogin) : Type 0 where
    pub ui : UserInfo
    pub ch : Bytes
    pub pending : o ≡ some (record { ui = some ui; ch = ch })
    pub fits :
        (ch ≡ []) ⊎ ((upp : UserPass) × (S.user_pass ≡ some upp) × (upp.check_pass ch pass ≡ true))

  -- The connection behind a command.
  abbrev pub final : Outcome S Bool → Conn S
  final (done b c) = c
  final (aborted c) = c

  -- A command that does not touch the login.
  abbrev Keeps : M S Bool → Conn S → Type 0
  Keeps m c = (final (m c)).authenticated ≡ c.authenticated

  Keeps-if :
      (b : Bool) (x y : M S Bool) (c : Conn S)
      → Keeps x c
      → Keeps y c
      → Keeps (if b then x else y) c
  Keeps-if true x y c hx hy = hx
  Keeps-if false x y c hx hy = hy

  Keeps-refuse : (code : ℕ) (c : Conn S) → Keeps (refuse S code) c
  unfolding refuse bind pure reply
  Keeps-refuse code c = elim (Bool-cases (S.write_ok c.trace (reply_sent code))) [
    | inl e ↦ rw (final, e) refl
    | inr e ↦ rw (final, e) refl
  ]

  Keeps-rejected : (c : Conn S) → Keeps (pass_rejected S) c
  unfolding pass_rejected get
  Keeps-rejected c = search (Keeps-if, Keeps-refuse) depth 8

  never :
      {T : Type 0} (m : M S Bool) (c : Conn S)
      → c.authenticated ≡ false
      → Keeps m c
      → (final (m c)).authenticated ≡ true
      → T
  never m c fresh k h = cc

  login_success_lem :
      (ui : UserInfo) (c : Conn S)
      → c.authenticated ≡ false
      → c.active_login ≡ none
      → (final (login_success S ui c)).authenticated ≡ true
      → LoggedIn c.priv (final (login_success S ui c)) ui
  unfolding login_success bind pure reply modify login
  login_success_lem ui c fresh settled auth =
      elim (Bool-cases (S.write_ok c.trace (reply_sent 281))) [
        | inl e ↦ rw (final, e) (record { rights = refl; settled = settled })
        | inr e ↦ let stays = rw (final, e) at auth in cc
      ]

  pass_check_sound :
      (ui : UserInfo) (ch pass : Bytes) (c : Conn S)
      → c.authenticated ≡ false
      → c.active_login ≡ none
      → (final (pass_check S (some ui) ch pass c)).authenticated ≡ true
      → ((not (is_nil ch) && pass_fails S S.user_pass ch pass) ≡ false)
        × LoggedIn c.priv (final (pass_check S (some ui) ch pass c)) ui
  unfolding pass_check
  pass_check_sound ui ch pass c fresh settled auth =
      elim (Bool-cases (not (is_nil ch) && pass_fails S S.user_pass ch pass)) [
        | inl e ↦ never (refuse S 481) c fresh (Keeps-refuse 481 c) (rw e at auth)
        | inr e ↦ (e, rw e (login_success_lem ui c fresh settled (rw e at auth)))
      ]

  fits_lem :
      (up : Option UserPass) (ch pass : Bytes)
      → (not (is_nil ch) && pass_fails S up ch pass) ≡ false
      → (ch ≡ []) ⊎ ((upp : UserPass) × (up ≡ some upp) × (upp.check_pass ch pass ≡ true))
  fits_lem up [] pass h = inl refl
  fits_lem none (b ∷ ch) pass h = cc
  fits_lem (some upp) (b ∷ ch) pass h = inr (upp, refl, not-eq-false _ h)

  pass_user_sound :
      (ui : Option UserInfo) (ch pass : Bytes) (c : Conn S)
      → c.authenticated ≡ false
      → c.active_login ≡ none
      → (final (pass_check S ui ch pass c)).authenticated ≡ true
      → (p : HasPass pass (some (record { ui = ui; ch = ch }))) × LoggedIn c.priv
          (final (pass_check S ui ch pass c))
          p.ui
  unfolding pass_check
  pass_user_sound none ch pass c fresh settled auth =
      never (refuse S 481) c fresh (Keeps-refuse 481 c) auth
  pass_user_sound (some ui) ch pass c fresh settled auth =
      let (e, l) = pass_check_sound ui ch pass c fresh settled auth in
      (record { ui = ui; ch = ch; pending = refl; fits = fits_lem S.user_pass ch pass e }, l)

  pass_login_sound :
      (o : Option ActiveLogin) (pass : Bytes) (c : Conn S)
      → c.authenticated ≡ false
      → c.active_login ≡ none
      → (final (pass_login S o pass c)).authenticated ≡ true
      → (p : HasPass pass o) × LoggedIn c.priv (final (pass_login S o pass c)) p.ui
  unfolding pass_login
  pass_login_sound none pass c fresh settled auth =
      never (pass_rejected S) c fresh (Keeps-rejected c) auth
  pass_login_sound (some ol) pass c fresh settled auth =
      pass_user_sound ol.ui ol.ch pass c fresh settled auth

  -- AUTHINFO PASS authenticates a connection that was not authenticated only where the login of a
  -- known user is pending, and the password is the user's, or the user has none; then the connection
  -- gets the user's rights beside its own, and the login is over.
  pub auth_pass_sound :
      (pass : Bytes) (args : List Bytes) (c : Conn S)
      → c.authenticated ≡ false
      → (final (auth_pass S (pass ∷ args) c)).authenticated ≡ true
      → (p : HasPass pass c.active_login) × LoggedIn c.priv
          (final (auth_pass S (pass ∷ args) c))
          p.ui
  unfolding auth_pass get modify bind
  auth_pass_sound pass args c fresh auth =
      pass_login_sound c.active_login pass (pulled S c) fresh refl auth
