-- ===== src/Nntp/Session/Illegal.antt =====
-- A command line with illegal characters.
use nksrv.Base.{
  ap, ◌∙◌, zero, ℕ, ◌≡◌, refl, true, ◌||◌, List, [], ◌∷◌, ◌++◌, Bytes, ◌==◌, if◌then◌else◌, suc,
  Bool-cases, inl, inr, replicate,
}
use nksrv.Nntp.Session.{Event, reply_sent, Server, Conn, M, done, bind, reply, pure}
use nksrv.Nntp.Session.Serve.{dispatch, command_table, illegal_loop, handle_command}

-- How many bytes of a line are NUL or carriage return.
unfoldable pub count_illegal : Bytes → ℕ
count_illegal [] = 0
count_illegal (ch ∷ s) = if ch == 0 || ch == b'\r' then suc (count_illegal s) else count_illegal s

replicate-shift :
    {A : Type 0} (n : ℕ) (x : A) (t : List A)
    → replicate n x ++ (replicate 1 x ++ t) ≡ replicate (suc n) x ++ t
replicate-shift zero x t = refl
replicate-shift (suc n) x t = ap (x ∷◌) (replicate-shift n x t)

module _ (S : Server) where
  -- The connection after so many 501 replies.
  abbrev pub warned : ℕ → Conn S → Conn S
  warned n c = record c { trace = replicate n (reply_sent 501) ++ c.trace }

  bind-done :
      {A B : Type 0} (m : M S A) (f : A → M S B) (c d : Conn S) (a : A)
      → m c ≡ done a d
      → bind S m f c ≡ f a d
  unfolding bind
  bind-done m f c d a h = rw (bind, h) refl

  warned-suc : (n : ℕ) (c : Conn S) → warned n (warned 1 c) ≡ warned (suc n) c
  warned-suc n c = ap (λ t. record c { trace = t }) (replicate-shift n (reply_sent 501) c.trace)

module _ (S : Server) (writes : (t : List Event) (e : Event) → S.write_ok t e ≡ true) where
  reply_done : (c : Conn S) → reply S 501 c ≡ done tt (warned S 1 c)
  unfolding reply
  reply_done c = rw (writes c.trace (reply_sent 501)) refl

  illegal_loop_lem :
      (s : Bytes) (c : Conn S) → illegal_loop S s c ≡ done tt (warned S (count_illegal s) c)
  unfolding illegal_loop count_illegal pure
  illegal_loop_lem [] c = refl
  illegal_loop_lem (ch ∷ s) c = elim (Bool-cases (ch == 0 || ch == b'\r')) [
    | inl e ↦ rw e (
        bind-done S (reply S 501) (λ _. illegal_loop S s) c (warned S 1 c) tt (reply_done c)
        ∙ illegal_loop_lem s (warned S 1 c)
        ∙ ap (done tt) (warned-suc S (count_illegal s) c))
    | inr e ↦ rw e (illegal_loop_lem s c)
  ]

  -- Where every line can be written, a command line with illegal characters is answered by a 501
  -- for each of them, and is then carried out like any other.
  pub handle_command_illegal :
      (incmd : Bytes) (c : Conn S)
      → handle_command S incmd c
        ≡ dispatch S (command_table S) 500 incmd (warned S (count_illegal incmd) c)
  unfolding handle_command
  handle_command_illegal incmd c =
      bind-done S (illegal_loop S incmd) (λ _. dispatch S (command_table S) 500 incmd) c _ tt
        (illegal_loop_lem incmd c)
