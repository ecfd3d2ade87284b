-- ===== src/Nntp/Session/Permission.antt =====
-- Which rights a call of the provider needs, and the rules by which the handlers of the session
-- keep to them.
pub mod Reading
pub mod Others
pub mod Tables
pub mod Serving
use nksrv.Base.{
  ℕ, ◌≡◌, refl, sym, ap, ◌∙◌, Bool, true, false, not, ◌&&◌, ◌||◌, List, [], ◌∷◌, Option, none, some,
  Bytes, if◌then◌else◌, arith, All, Option-cases, Bool-cases, inl, inr, ◌⊎◌,
}
use nksrv.Nntp.Session.{
  UserPriv, Request, select_group, list_active_groups, list_newsgroups, handle_post, handle_ihave,
  handle_check, handle_take_this, Event, reply_sent, lines_sent, provider_called, Answer, Server,
  Conn, Outcome, done, aborted, M, pure, bind, crash, write, reply, call, refuse, ask, tell, get,
  modify,
}
use nksrv.Nntp.Session.Read.{is_set}

pub data Need : Type 0 where
  reading posting either : Need

-- What the protocol asks of each request.
abbrev pub need : Request → Need
need (list_active_groups _) = either
need (list_newsgroups _) = either
need (handle_check _) = either
need handle_post = posting
need (handle_ihave _) = posting
need (handle_take_this _) = posting
need _ = reading

abbrev pub grants : UserPriv → Need → Bool
grants p reading = p.allow_reading
grants p posting = p.allow_posting
grants p either = p.allow_reading || p.allow_posting

-- A call is made with the rights that it needs.
abbrev pub IsPermitted : Event → Type 0
IsPermitted (reply_sent _) = Unit
IsPermitted (lines_sent _) = Unit
IsPermitted (provider_called r p) = grants p (need r) ≡ true

module _ (S : Server) where
  -- Every call so far was permitted, and a group is selected only where reading is allowed.
  pub record IsLawful (c : Conn S) : Type 0 where
    pub calls : All IsPermitted c.trace
    pub group : is_set c.current_group ≡ true → c.priv.allow_reading ≡ true

  -- Whatever a step comes back with, the connection is lawful.
  abbrev pub Lawful : {A : Type 0} → Outcome S A → Type 0
  Lawful (done a c) = IsLawful c
  Lawful (aborted c) = IsLawful c

  pub Lawful-if :
      {A : Type 0} (b : Bool) (x y : M S A) (c : Conn S)
      → (b ≡ true → Lawful (x c))
      → (b ≡ false → Lawful (y c))
      → Lawful ((if b then x else y) c)
  Lawful-if true x y c hx hy = hx refl
  Lawful-if false x y c hx hy = hy refl

  Lawful-cases :
      {A B : Type 0} (o : Outcome S A) (f : A → M S B)
      → Lawful o
      → ((a : A) (c : Conn S) → IsLawful c → Lawful (f a c))
      → Lawful (elim o [ done a c ↦ f a c | aborted c ↦ aborted c ])
  Lawful-cases (done a c) f h k = k a c h
  Lawful-cases (aborted c) f h k = h

  pub Lawful-bind :
      {A B : Type 0} (m : M S A) (f : A → M S B) (c : Conn S)
      → Lawful (m c)
      → ((a : A) (c' : Conn S) → IsLawful c' → Lawful (f a c'))
      → Lawful (bind S m f c)
  unfolding bind
  Lawful-bind m f c h k = Lawful-cases (m c) f h k

  -- A line is lawful whatever it says.
  pub Lawful-write :
      (event : Event) (c : Conn S) → IsPermitted event → IsLawful c → Lawful (write S event c)
  unfolding write
  Lawful-write event c p h = elim (Bool-cases (S.write_ok c.trace event)) [
    | inl e ↦ rw e (record { calls = (p, h.calls); group = h.group })
    | inr e ↦ rw e (record { calls = (p, h.calls); group = h.group })
  ]

  pub Lawful-reply : (code : ℕ) (c : Conn S) → IsLawful c → Lawful (reply S code c)
  unfolding reply
  Lawful-reply code c h = Lawful-write (reply_sent code) c tt h

  pub Lawful-pure : {A : Type 0} (a : A) (c : Conn S) → IsLawful c → Lawful (pure S a c)
  unfolding pure
  Lawful-pure a c h = h

  pub Lawful-crash : (c : Conn S) → IsLawful c → Lawful (crash S {A = Bool} c)
  unfolding crash
  Lawful-crash c h = h

  pub Lawful-refuse : (code : ℕ) (c : Conn S) → IsLawful c → Lawful (refuse S code c)
  unfolding refuse
  Lawful-refuse code c h =
      Lawful-bind (reply S code) (λ _. pure S true) c (Lawful-reply code c h)
        (λ _ c' h'. Lawful-pure true c' h')

  -- A provider selects a group only where it is asked for articles: a request that does not need
  -- the right to read leaves `CurrentGroup` as it is.
  abbrev pub KeepsGroup : Type 0
  KeepsGroup =
      (r : Request) (s : S.State) (g : Option S.Group) (a : Answer S.State S.Group)
      → (need r ≡ reading → ⊥)
      → S.answer r s g ≡ some a
      → a.group ≡ g

need_cases : (n : Need) → (n ≡ reading) ⊎ (n ≡ reading → ⊥)
need_cases reading = inl refl
need_cases posting = inr (λ e. cc)
need_cases either = inr (λ e. cc)

pub not-eq-false : (b : Bool) → not b ≡ false → b ≡ true
not-eq-false true h = refl
not-eq-false false h = cc

-- The test of the commands that either right opens.
pub either_right : (a b : Bool) → (not a && not b) ≡ false → (a || b) ≡ true
either_right true b h = refl
either_right false true h = refl
either_right false false h = cc

pub either_right' : (a b : Bool) → (not b && not a) ≡ false → (a || b) ≡ true
either_right' true b h = refl
either_right' false true h = refl
either_right' false false h = cc

module _ (S : Server) (keeps : KeepsGroup S) where
  answered :
      (r : Request) (c : Conn S) (a : Answer S.State S.Group)
      → IsLawful S c
      → grants c.priv (need r) ≡ true
      → S.answer r c.provider c.current_group ≡ some a
      → is_set a.group ≡ true
      → c.priv.allow_reading ≡ true
  answered r c a h p e set = elim (need_cases (need r)) [
    | inl n ↦ rw n at p
    | inr n ↦ h.group (rw (keeps r c.provider c.current_group a n e) at set)
  ]

  pub Lawful-call :
      (r : Request) (c : Conn S)
      → IsLawful S c
      → grants c.priv (need r) ≡ true
      → Lawful S (call S r c)
  unfolding call
  Lawful-call r c h p = elim (Option-cases (S.answer r c.provider c.current_group)) [
    | inl e ↦ rw e (record { calls = (p, h.calls); group = h.group })
    | inr (a, e) ↦ rw e (record { calls = (p, h.calls); group = answered r c a h p e })
  ]

  pub Lawful-ask :
      (r : Request) (code : ℕ) (c : Conn S)
      → IsLawful S c
      → grants c.priv (need r) ≡ true
      → Lawful S (ask S r code c)
  unfolding ask
  Lawful-ask r code c h p = Lawful-bind S (call S r) _ c (Lawful-call r c h p) λ ok c' h'.
      Lawful-if S ok (pure S true) (refuse S code) c' (λ _. Lawful-pure S true c' h')
        (λ _. Lawful-refuse S code c' h')

  pub Lawful-tell :
      (r : Request) (c : Conn S)
      → IsLawful S c
      → grants c.priv (need r) ≡ true
      → Lawful S (tell S r c)
  unfolding tell
  Lawful-tell r c h p =
      Lawful-bind S (call S r) _ c (Lawful-call r c h p) λ ok c' h'. Lawful-pure S true c' h'

-- The rules for `search` on a handler.
pub ruleset lawful = (
  Lawful-if, Lawful-refuse, Lawful-crash, Lawful-pure, Lawful-ask, Lawful-tell, not-eq-false,
  either_right, either_right',
)
