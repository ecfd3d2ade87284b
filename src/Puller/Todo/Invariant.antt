-- ===== src/Puller/Todo/Invariant.antt =====
-- What holds of the two routines of `processTODOList` wherever they stand, and how the asking one keeps it.
use nksrv.Base.{
  ◌≤◌, ◌≡◌, refl, sym, ap, ◌∙◌, Bool, true, false, List, [], ◌∷◌, ◌++◌, append_assoc, append-nil,
  some, length, arith,
}
use mathlib.Core.Path.{subst}
use mathlib.Core.Option.{some-injective}
use nksrv.Base.Int.{ℤ}
use nksrv.Puller.Todo.{
  TodoArticle, max_pending, End, clean, soft_error, fatal_error, unexpected_quit, Main, enqueue,
  wait_quit, finished, Worker, idle, closed_end, busy, sending, gone, Sys, finish, received,
  finish_case, waited,
}

-- The article whose response the worker is at.
abbrev pub held : Worker → List TodoArticle
held (busy a) = a ∷ []
held (sending a) = a ∷ []
held (gone a) = a ∷ []
held _ = []

-- What was asked for and is not on the channel.
abbrev pub on_hand : Main → List TodoArticle
on_hand (enqueue a) = a ∷ []
on_hand (finished e rest) = rest
on_hand _ = []

-- Whether the channel is closed, as far as the asking routine tells.
abbrev pub ClosedBy : Main → Bool → Type 0
ClosedBy (finished e rest) c = Unit
ClosedBy (wait_quit e) c = c ≡ true
ClosedBy _ c = c ≡ false

abbrev pub is_running : Main → Bool
is_running (finished e rest) = false
is_running _ = true

-- Where the worker can be: it has quit once the call is over, and only then behind its error; it
-- closes `finishchan` only behind the last article of a closed channel.
abbrev pub WorkerIn : Worker → Bool → Bool → List TodoArticle → Type 0
WorkerIn closed_end running c ch = (c ≡ true) × (ch ≡ [])
WorkerIn (gone a) running c ch = running ≡ false
WorkerIn _ running c ch = running ≡ true

-- The worker did not quit before it was told to.
abbrev pub IsExpected : Main → Type 0
IsExpected (finished unexpected_quit rest) = ⊥
IsExpected (wait_quit unexpected_quit) = ⊥
IsExpected _ = Unit

pub record IsOrdered (s : Sys) : Type 0 where
  pub order : s.sent ≡ s.answered ++ (held s.worker ++ (s.chan ++ on_hand s.main))
  pub room : length s.chan ≤ max_pending
  pub closed_by : ClosedBy s.main s.closed
  pub worker_in : WorkerIn s.worker (is_running s.main) s.closed s.chan
  pub expected : IsExpected s.main

held-received : (w : Worker) → held (received w) ≡ held w
held-received idle = refl
held-received closed_end = refl
held-received (busy a) = refl
held-received (sending a) = refl
held-received (gone a) = refl

WorkerIn-received :
    (w : Worker) (e r c : Bool) (ch : List TodoArticle)
    → finish w ≡ some e
    → WorkerIn w r c ch
    → WorkerIn (received w) false c ch
WorkerIn-received idle e r c ch f h = absurd (ground arith)
WorkerIn-received closed_end e r c ch f h = h
WorkerIn-received (busy a) e r c ch f h = absurd (ground arith)
WorkerIn-received (sending a) e r c ch f h = refl
WorkerIn-received (gone a) e r c ch f h = absurd (ground arith)

-- While the channel is open a receive gives an error.
finish-true :
    (w : Worker) (e r : Bool) (ch : List TodoArticle)
    → finish w ≡ some e
    → WorkerIn w r false ch
    → e ≡ true
finish-true idle e r ch f h = absurd (ground arith)
finish-true closed_end e r ch f h = absurd (ground (arith, h.0))
finish-true (busy a) e r ch f h = absurd (ground arith)
finish-true (sending a) e r ch f h = sym (some-injective true e f)
finish-true (gone a) e r ch f h = absurd (ground arith)

-- The worker stays where it is while the channel is closed.
WorkerIn-closes :
    (w : Worker) (r : Bool) (ch : List TodoArticle) → WorkerIn w r false ch → WorkerIn w r true ch
WorkerIn-closes idle r ch h = h
WorkerIn-closes closed_end r ch h = absurd (ground (arith, h.0))
WorkerIn-closes (busy a) r ch h = h
WorkerIn-closes (sending a) r ch h = h
WorkerIn-closes (gone a) r ch h = h

module _ (s : Sys) (i : IsOrdered s) where
  -- The asking routine moves on.
  pub moves :
      (m : Main) (todo : List TodoArticle) (x : ℤ)
      → on_hand m ≡ on_hand s.main
      → is_running m ≡ is_running s.main
      → ClosedBy m s.closed
      → IsExpected m
      → IsOrdered (record s { main = m; todo = todo; new_maxid = x })
  moves m todo x h r c e = record {
    order = i.order ∙ ap (λ l. s.answered ++ (held s.worker ++ (s.chan ++ l))) (sym h);
    room = i.room;
    closed_by = c;
    worker_in = subst (λ b. WorkerIn s.worker b s.closed s.chan) (sym r) i.worker_in;
    expected = e;
  }

  -- It closes the channel.
  pub closes :
      (m : Main) (e : End)
      → s.main ≡ m
      → on_hand m ≡ []
      → is_running m ≡ true
      → s.closed ≡ false
      → IsExpected (wait_quit e)
      → IsOrdered (record s { main = wait_quit e; closed = true })
  closes m e em h r c x = record {
    order = i.order ∙ ap (λ l. s.answered ++ (held s.worker ++ (s.chan ++ l))) (ap on_hand em ∙ h);
    room = i.room;
    closed_by = refl;
    worker_in = WorkerIn-closes s.worker true s.chan (
        subst (λ b. WorkerIn s.worker b false s.chan) (ap is_running em ∙ r)
          (subst (λ b. WorkerIn s.worker (is_running s.main) b s.chan) c i.worker_in));
    expected = x;
  }

  -- It sees that the worker has quit.
  pub finishes :
      (m : Main) (r : End) (rest : List TodoArticle) (e : Bool)
      → s.main ≡ m
      → on_hand m ≡ rest
      → finish s.worker ≡ some e
      → IsExpected (finished r rest)
      → IsOrdered (record s { main = finished r rest; worker = received s.worker })
  finishes m r rest e em h f x = record {
    order =
        i.order
        ∙ ap (λ l. s.answered ++ (held s.worker ++ (s.chan ++ l))) (ap on_hand em ∙ h)
        ∙ ap (λ l. s.answered ++ (l ++ (s.chan ++ rest))) (sym (held-received s.worker));
    room = i.room;
    closed_by = tt;
    worker_in = WorkerIn-received s.worker e (is_running s.main) s.closed s.chan f i.worker_in;
    expected = x;
  }

  -- At a select in front of the end of the list the worker can only have quit for an error.
  pub polled :
      (m : Main) (rest : List TodoArticle) (e : Bool)
      → s.main ≡ m
      → on_hand m ≡ rest
      → s.closed ≡ false
      → finish s.worker ≡ some e
      → IsOrdered (record s { main = finished (finish_case e) rest; worker = received s.worker })
  polled m rest e em h c f =
      let t =
        finish-true s.worker e (is_running s.main) s.chan f
          (subst (λ b. WorkerIn s.worker (is_running s.main) b s.chan) c i.worker_in) in
      finishes m (finish_case e) rest e em h f
        (subst (λ b. IsExpected (finished (finish_case b) rest)) (sym t) tt)

-- Whether the channel is open where the asking routine stands.
pub open_at : (s : Sys) (m : Main) → IsOrdered s → s.main ≡ m → ClosedBy m s.closed
open_at s m i em = subst (λ x. ClosedBy x s.closed) em i.closed_by

pub append-behind :
    (xs hs cs r : List TodoArticle) → xs ++ (hs ++ (cs ++ [])) ++ r ≡ xs ++ (hs ++ (cs ++ r))
append-behind xs hs cs r =
    ap (λ l. xs ++ (hs ++ l) ++ r) (append-nil cs)
    ∙ append_assoc xs (hs ++ cs) r
    ∙ ap (λ l. xs ++ l) (append_assoc hs cs r)

pub WorkerIn-put :
    (w : Worker) (r c : Bool) (ch ch' : List TodoArticle)
    → c ≡ false
    → WorkerIn w r c ch
    → WorkerIn w r c ch'
WorkerIn-put idle r c ch ch' e h = h
WorkerIn-put closed_end r c ch ch' e h = absurd (ground (arith, e, h.0))
WorkerIn-put (busy a) r c ch ch' e h = h
WorkerIn-put (sending a) r c ch ch' e h = h
WorkerIn-put (gone a) r c ch ch' e h = h

pub IsExpected-waited :
    (r : End) (e : Bool) → IsExpected (wait_quit r) → IsExpected (finished (waited r e) [])
IsExpected-waited clean true h = tt
IsExpected-waited clean false h = tt
IsExpected-waited soft_error e h = tt
IsExpected-waited fatal_error e h = tt
IsExpected-waited unexpected_quit e h = h
