-- ===== src/Nntp/Session/Capabilities/Honest.antt =====
-- What the capability list promises, against what the commands do.
use nksrv.Base.{
  ℕ, ◌≡◌, refl, sym, ap, ◌∙◌, Bool, true, false, not, ◌&&◌, ◌||◌, List, [], ◌∷◌, ◌++◌, Option, none,
  some, Bytes, codes, bytes_eq, if◌then◌else◌, ◌⊎◌, inl, inr, Bool-cases,
}
use nksrv.Nntp.Session.{
  ActiveLogin, UserPass, handle_post, post, Server, Conn, Outcome, M, bind, reply, refuse, ask, get,
  modify,
}
use nksrv.Nntp.Session.Read.{is_set}
use nksrv.Nntp.Session.Post.{cmd_post}
use nksrv.Nntp.Session.Auth.{
  advertise_plaintext_auth, user_found, user_lookup, pulled, auth_user, after_handshake,
  cmd_start_tls,
}
use nksrv.Nntp.Session.Capabilities.{when, capabilities}

-- Whether a line is in the list.
unfoldable pub offers : Bytes → List Bytes → Bool
offers x [] = false
offers x (y ∷ ys) = if bytes_eq x y then true else offers x ys

offers-append : (x : Bytes) (a b : List Bytes) → offers x (a ++ b) ≡ (offers x a || offers x b)
unfolding offers
offers-append x [] b = refl
offers-append x (y ∷ a) b = elim (Bool-cases (bytes_eq x y)) [
  | inl e ↦ rw e refl
  | inr e ↦ rw e (offers-append x a b)
]

offers-when : (x : Bytes) (b : Bool) (y : Bytes) → offers x (when b y) ≡ (b && bytes_eq x y)
unfolding offers
offers-when x true y = elim (Bool-cases (bytes_eq x y)) [ inl e ↦ rw e refl | inr e ↦ rw e refl ]
offers-when x false y = refl

and_false : (b : Bool) → (b && false) ≡ false
and_false true = refl
and_false false = refl

and_true : (b : Bool) → (b && true) ≡ b
and_true true = refl
and_true false = refl

or_false : (b : Bool) → (b || false) ≡ b
or_false true = refl
or_false false = refl

module _ (S : Server) where
  offers-start_tls :
      (c : Conn S)
      → offers (codes "STARTTLS") (capabilities S c) ≡ (S.has_tls_config && not c.tls_started)
  unfolding capabilities offers bytes_eq
  offers-start_tls c = simp (offers-append, offers-when, and_false, and_true, or_false)

  offers-post :
      (c : Conn S)
      → offers (codes "POST") (capabilities S c) ≡ (c.priv.allow_posting && S.supports post)
  unfolding capabilities offers bytes_eq
  offers-post c = simp (offers-append, offers-when, and_false, and_true, or_false)

  offers-auth_user :
      (c : Conn S)
      → offers (codes "AUTHINFO USER") (capabilities S c) ≡ advertise_plaintext_auth S c
  unfolding capabilities offers bytes_eq
  offers-auth_user c = simp (offers-append, offers-when, and_false, and_true, or_false)

  -- A command does its work where its line is in the list, and else it is refused.
  abbrev pub Honest : Bytes → M S Bool → M S Bool → Conn S → Type 0
  Honest line run work c =
      ((offers line (capabilities S c) ≡ true) × (run c ≡ work c))
      ⊎ ((offers line (capabilities S c) ≡ false) × (code : ℕ) × (run c ≡ refuse S code c))

  start_tls-Honest :
      (args : List Bytes) (c : Conn S)
      → Honest
          (codes "STARTTLS")
          (cmd_start_tls S args)
          (bind S (reply S 382) (λ _. after_handshake S S.handshake))
          c
  unfolding cmd_start_tls get
  start_tls-Honest args c = elim (Bool-cases S.has_tls_config) [
    | inl h ↦ elim (Bool-cases c.tls_started) [
      | inl t ↦ inr (offers-start_tls c ∙ rw (h, t) refl, 502, rw (h, t) refl)
      | inr t ↦ inl (offers-start_tls c ∙ rw (h, t) refl, rw (h, t) refl)
    ]
    | inr h ↦ inr (offers-start_tls c ∙ rw h refl, 580, rw h refl)
  ]

  post-Honest :
      (args : List Bytes) (c : Conn S)
      → Honest (codes "POST") (cmd_post S args) (ask S handle_post 440) c
  unfolding cmd_post get
  post-Honest args c = elim (Bool-cases (S.supports post)) [
    | inl h ↦ elim (Bool-cases c.priv.allow_posting) [
      | inl p ↦ inl (offers-post c ∙ rw (h, p) refl, rw (h, p) refl)
      | inr p ↦ inr (offers-post c ∙ rw (h, p) refl, 440, rw (h, p) refl)
    ]
    | inr h ↦ inr (offers-post c ∙ rw (h, and_false) refl, 503, rw h refl)
  ]

  -- The user is looked up, where a password provider is configured.
  abbrev pub found_by : Option UserPass → Bytes → M S Bool
  found_by none name = refuse S 503
  found_by (some upp) name = user_found S (upp.by_name name)

  lookup_lem :
      (up : Option UserPass) (name : Bytes) (c : Conn S)
      → c.authenticated ≡ false
      → (((is_set up && not c.authenticated && (S.unsafe_pass || c.tls_started)) ≡ true)
          × (user_lookup S up name c ≡ found_by up name c))
        ⊎ (((is_set up && not c.authenticated && (S.unsafe_pass || c.tls_started)) ≡ false)
            × (code : ℕ) × (user_lookup S up name c ≡ refuse S code c))
  unfolding user_lookup get
  lookup_lem none name c n = inr (refl, 503, refl)
  lookup_lem (some upp) name c n = elim (Bool-cases S.unsafe_pass) [
    | inl h ↦ inl (rw (n, h) refl, rw h refl)
    | inr h ↦ elim (Bool-cases c.tls_started) [
      | inl t ↦ inl (rw (n, h, t) refl, rw (h, t) refl)
      | inr t ↦ inr (rw (n, h, t) refl, 483, rw (h, t) refl)
    ]
  ]

  pulled-idle : (c : Conn S) → c.active_login ≡ none → pulled S c ≡ c
  pulled-idle c idle = ap (λ a. record c { active_login = a }) (sym idle)

  -- What is left of the command when no login is under way.
  abbrev idle_user : Bytes → Option ActiveLogin → Conn S → M S Bool
  idle_user name a c =
      if is_set a
      then refuse S 482
      else if c.authenticated
      then refuse S 502
      else user_lookup S S.user_pass name

  auth_user-idle :
      (name : Bytes) (args : List Bytes) (c : Conn S)
      → c.active_login ≡ none
      → auth_user S (name ∷ args) c ≡ idle_user name none c c
  unfolding auth_user get bind modify
  auth_user-idle name args c idle =
      ap (λ a. idle_user name a c (pulled S c)) idle
      ∙ ap (idle_user name none c) (pulled-idle c idle)

  auth_user-Honest :
      (name : Bytes) (args : List Bytes) (c : Conn S)
      → c.active_login ≡ none
      → Honest (codes "AUTHINFO USER") (auth_user S (name ∷ args)) (found_by S.user_pass name) c
  unfolding advertise_plaintext_auth
  auth_user-Honest name args c idle =
      let run = auth_user-idle name args c idle in
      let line = offers-auth_user c in
      let rest : Bool → Outcome S Bool =
        λ b. (if b then refuse S 502 else user_lookup S S.user_pass name) c in
      elim (Bool-cases c.authenticated) [
        | inl a ↦ inr (line ∙ rw (a, and_false) refl, 502, run ∙ ap rest a)
        | inr a ↦ elim (lookup_lem S.user_pass name c a) [
          | inl (e, w) ↦ inl (line ∙ e, run ∙ ap rest a ∙ w)
          | inr (e, code, w) ↦ inr (line ∙ e, code, run ∙ ap rest a ∙ w)
        ]
      ]

  -- Where `STARTTLS`, `POST` or `AUTHINFO USER` is in the list of capabilities, that command goes on
  -- to the handshake, the provider or the look-up of the user, and where it is not, the command is
  -- refused in that state. For `AUTHINFO USER` no other login is under way.
  pub capabilities-Honest :
      (name : Bytes) (args : List Bytes) (c : Conn S)
      → c.active_login ≡ none
      → Honest
          (codes "STARTTLS")
          (cmd_start_tls S args)
          (bind S (reply S 382) (λ _. after_handshake S S.handshake))
          c
        × Honest (codes "POST") (cmd_post S args) (ask S handle_post 440) c
        × Honest (codes "AUTHINFO USER") (auth_user S (name ∷ args)) (found_by S.user_pass name) c
  capabilities-Honest name args c idle =
      (start_tls-Honest args c, post-Honest args c, auth_user-Honest name args c idle)
