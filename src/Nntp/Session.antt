-- ===== src/Nntp/Session.antt =====
-- The state of a connection to the NNTP server, `ConnState` of src/nksrv/lib/nntp/stypes.go, and the
-- steps that its command handlers are made of. The provider of articles (`NNTPProvider`), the
-- password provider, the TLS library and the network are no code of this module: they are the
-- record `Server`, a parameter. A reply is its three-digit code.
pub mod Read
pub mod Post
pub mod Listing
pub mod Auth
pub mod Capabilities
pub mod Serve
pub mod Permission
pub mod Login
pub mod Illegal
use nksrv.Base.{ℕ, Bool, true, false, ◌||◌, List, [], ◌∷◌, Option, none, some, Bytes, if◌then◌else◌}
use nksrv.Base.Int.{ℤ}
use nksrv.Nntp.Dates.{Date, Clock}

-- `UserPriv` and `MergeUserPriv` of auth.go.
pub record UserPriv : Type 0 where
  pub allow_reading : Bool
  pub allow_posting : Bool

abbrev pub merge_user_priv : UserPriv → UserPriv → UserPriv
merge_user_priv a b = record {
  allow_reading = a.allow_reading || b.allow_reading;
  allow_posting = a.allow_posting || b.allow_posting;
}

-- `UserInfo`, without the names, which are only logged.
pub record UserInfo : Type 0 where
  pub priv : UserPriv

-- The indices of `setA`.
pub data ArticleKind : Type 0 where
  article_full article_head article_body article_stat : ArticleKind

-- The calls of the provider, with their arguments. The flag of the overview and header queries
-- tells `Over` from `XOver`, and `Hdr` from `XHdr`.
pub data Request : Type 0 where
  article_by_msgid : ArticleKind → Bytes → Request
  article_by_num : ArticleKind → ℕ → Request
  article_by_curr : ArticleKind → Request
  select_group : Bytes → Request
  select_and_list_group : Option Bytes → ℤ → ℤ → Request
  select_next_article select_prev_article : Request
  list_new_news : Bytes → Date → Clock → Request
  list_new_groups : Date → Clock → Request
  list_active_groups list_newsgroups : Option Bytes → Request
  over_by_msgid : Bytes → Request
  over_by_range : Bool → ℤ → ℤ → Request
  over_by_curr : Request
  hdr_by_msgid : Bool → Bytes → Bytes → Request
  hdr_by_range : Bool → Bytes → ℤ → ℤ → Request
  hdr_by_curr : Bool → Bytes → Request
  handle_post : Request
  handle_ihave handle_check handle_take_this : Bytes → Request

-- The `Supports…` methods.
pub data Feature : Type 0 where
  new_news over_msgid hdr ihave post stream : Feature

-- What happens on the connection: a reply, the lines that follow one, or a call of the provider with
-- the rights of the moment.
pub data Event : Type 0 where
  reply_sent : ℕ → Event
  lines_sent : List Bytes → Event
  provider_called : Request → UserPriv → Event

-- What a call of the provider comes back with.
pub record Answer (State Group : Type 0) : Type 0 where
  pub ok : Bool
  pub state : State
  pub group : Option Group

-- `UserPassProvider` of auth_pass.go.
pub record UserPass : Type 0 where
  pub by_name : Bytes → Option UserInfo × Bytes
  pub check_pass : Bytes → Bytes → Bool

-- The provider, `NNTPServerRunCfg`, and the world around the connection.
pub record Server : Type 1 where
  -- the provider's own state, and its kind of `CurrentGroup`
  pub State : Type 0
  pub Group : Type 0
  pub supports : Feature → Bool
  -- none is a panic, as of `Responder.Abort`
  pub answer : Request → State → Option Group → Option (Answer State Group)
  -- the run-time configuration, the same during the connection
  pub default_priv : UserPriv
  pub tls_priv : UserPriv
  pub has_tls_config : Bool
  pub unsafe_pass : Bool
  pub unsafe_early_user_reject : Bool
  pub cert_fp_auto_auth : Bool
  pub user_pass : Option UserPass
  -- the handshake of STARTTLS: none if it fails, and else the user of the peer's certificate
  pub handshake : Option (Option UserInfo)
  -- whether a reply, or what follows it, is written, after these events
  pub write_ok : List Event → Event → Bool
  -- the year of `time.Now()`
  pub current_year : ℕ

-- `ActiveLogin`: the user, if it is known, and its password challenge.
pub record ActiveLogin : Type 0 where
  pub ui : Option UserInfo
  pub ch : Bytes

module _ (S : Server) where
  open S use {State, Group, answer, write_ok}

  -- `ConnState`. The trace has the newest event first.
  pub record Conn : Type 0 where
    pub current_group : Option Group
    pub priv : UserPriv
    pub authenticated : Bool
    pub active_login : Option ActiveLogin
    pub tls_started : Bool
    pub provider : State
    pub trace : List Event

  -- A step ends with a value, or in a panic that `serveClient` recovers.
  pub data Outcome (A : Type 0) : Type 0 where
    done : A → Conn → Outcome A
    aborted : Conn → Outcome A

  abbrev pub M : Type 0 → Type 0
  M A = Conn → Outcome A

  unfoldable pub pure : {A : Type 0} → A → M A
  pure a c = done a c

  unfoldable pub bind : {A B : Type 0} → M A → (A → M B) → M B
  bind m f c = elim (m c) [ done a c' ↦ f a c' | aborted c' ↦ aborted c' ]

  unfoldable pub crash : {A : Type 0} → M A
  crash c = aborted c

  -- What is written, or else a panic.
  unfoldable pub write : Event → M (Unit {0})
  write event c =
      let c' = record c { trace = event ∷ c.trace } in
      if write_ok c.trace event then done tt c' else aborted c'

  -- `AbortOnErr(c.w.PrintfLine(…))`.
  unfoldable pub reply : ℕ → M (Unit {0})
  unfolding write
  reply code = write (reply_sent code)

  abbrev after_answer : Conn → Option (Answer State Group) → Outcome Bool
  after_answer c none = aborted c
  after_answer c (some a) = done a.ok (record c { provider = a.state; current_group = a.group })

  unfoldable pub call : Request → M Bool
  call r c =
      let c' = record c { trace = provider_called r c.priv ∷ c.trace } in
      after_answer c' (answer r c.provider c.current_group)

  -- A reply, and on to the next command: `AbortOnErr(…); return true`.
  unfoldable pub refuse : ℕ → M Bool
  refuse code = bind (reply code) (λ _. pure true)

  -- `if !provider(…) { AbortOnErr(…) }; return true`.
  unfoldable pub ask : Request → ℕ → M Bool
  ask r code = bind (call r) (λ ok. if ok then pure true else refuse code)

  -- A call whose result the handler does not look at.
  unfoldable pub tell : Request → M Bool
  tell r = bind (call r) (λ _. pure true)

  -- The state of the connection, for a handler that reads it.
  unfoldable pub get : {A : Type 0} → (Conn → M A) → M A
  get f c = f c c

  unfoldable pub modify : (Conn → Conn) → M (Unit {0})
  modify f c = done tt (f c)
