-- ===== src/Puller/Todo/Live.antt =====
-- The call comes to an end in every interleaving: it is never stuck, and every step uses something up.
use mathlib.Core.Path.{subst}
use nksrv.Base.{
  ℕ, zero, suc, ◌+◌, ◌*◌, ◌≤◌, ◌<◌, ◌≡◌, refl, ap, ◌∙◌, Bool, true, false, List, [], ◌∷◌, none,
  some, ◌⊎◌, inl, inr, if◌then◌else◌, length, length-append, ltb, ltb→lt, arith, Bool-cases,
  Option-cases,
}
use nksrv.Puller.Todo.{
  TodoArticle, max_pending, End, clean, Main, poll_loop, poll_ref, poll_write, ask, check_ref,
  write_line, enqueue, wait_quit, finished, Worker, idle, closed_end, busy, sending, gone, Sys,
  finish, received, has_ref, MainStep, list_done, loop_passes, loop_finishes, wanted, unwanted,
  wanted_fails, ref_passes, ref_finishes, ref_checked, ref_fails, write_passes, write_finishes,
  written, write_fails, put, put_finishes, quit_seen, WorkerStep, take, close_end, eaten, not_eaten,
  fatal, Step, by_main, by_worker, Reach,
}
use nksrv.Puller.Todo.Invariant.{WorkerIn, ClosedBy, IsOrdered, is_running}
use nksrv.Puller.Todo.Order.{Step-IsOrdered, Reach-IsOrdered}

abbrev main_steps : Main → ℕ
main_steps poll_loop = 10
main_steps (ask a) = 29
main_steps (poll_ref a) = 28
main_steps (check_ref a) = 27
main_steps (poll_write a) = 26
main_steps (write_line a) = 25
main_steps (enqueue a) = 24
main_steps (wait_quit e) = 5
main_steps (finished e rest) = 0

abbrev worker_steps : Worker → ℕ
worker_steps idle = 1
worker_steps (busy a) = 3
worker_steps _ = 0

-- A bound on the steps that are left.
abbrev pub steps_left : Sys → ℕ
steps_left s = 20 * length s.todo + 4 * length s.chan + main_steps s.main + worker_steps s.worker

worker_steps-received : (w : Worker) → worker_steps (received w) ≤ worker_steps w
worker_steps-received idle = omega arith
worker_steps-received closed_end = omega arith
worker_steps-received (busy a) = omega arith
worker_steps-received (sending a) = omega arith
worker_steps-received (gone a) = omega arith

main_steps-ref :
    (a : TodoArticle) (b : Bool) → main_steps (if b then check_ref a else write_line a) ≤ 27
main_steps-ref a true = omega arith
main_steps-ref a false = omega arith

MainStep-less : (s t : Sys) → MainStep s t → steps_left t < steps_left s
MainStep-less s t (list_done em e et) = rw et (omega (arith, ap main_steps em))
MainStep-less s t (loop_passes a rest em e f et) =
    rw et (omega (arith, ap main_steps em, ap length e))
MainStep-less s t (loop_finishes a rest e em e' f et) =
    rw et (omega (arith, ap main_steps em, worker_steps-received s.worker))
MainStep-less s t (wanted a em et) = rw et (omega (arith, ap main_steps em))
MainStep-less s t (unwanted a em n et) = rw et (omega (arith, ap main_steps em))
MainStep-less s t (wanted_fails a em n et) = rw et (omega (arith, ap main_steps em))
MainStep-less s t (ref_passes a em f et) =
    rw et (omega (arith, ap main_steps em, main_steps-ref a (has_ref a)))
MainStep-less s t (ref_finishes a e em f et) =
    rw et (omega (arith, ap main_steps em, worker_steps-received s.worker))
MainStep-less s t (ref_checked a em et) = rw et (omega (arith, ap main_steps em))
MainStep-less s t (ref_fails a em et) = rw et (omega (arith, ap main_steps em))
MainStep-less s t (write_passes a em f et) = rw et (omega (arith, ap main_steps em))
MainStep-less s t (write_finishes a e em f et) =
    rw et (omega (arith, ap main_steps em, worker_steps-received s.worker))
MainStep-less s t (written a em et) = rw et (omega (arith, ap main_steps em))
MainStep-less s t (write_fails a em et) = rw et (omega (arith, ap main_steps em))
MainStep-less s t (put a em r et) =
    rw et (omega (arith, ap main_steps em, length-append {0} s.chan (a ∷ [])))
MainStep-less s t (put_finishes a e em f et) =
    rw et (omega (arith, ap main_steps em, worker_steps-received s.worker))
MainStep-less s t (quit_seen r e em f et) =
    rw et (omega (arith, ap main_steps em, worker_steps-received s.worker))

WorkerStep-less : (s t : Sys) → WorkerStep s t → steps_left t < steps_left s
WorkerStep-less s t (take a rest ew ec et) = rw et (omega (arith, ap worker_steps ew, ap length ec))
WorkerStep-less s t (close_end ew ec c et) = rw et (omega (arith, ap worker_steps ew))
WorkerStep-less s t (eaten a ew et) = rw et (omega (arith, ap worker_steps ew))
WorkerStep-less s t (not_eaten a ew et) = rw et (omega (arith, ap worker_steps ew))
WorkerStep-less s t (fatal a ew et) = rw et (omega (arith, ap worker_steps ew))

Step-less : (s t : Sys) → Step s t → steps_left t < steps_left s
Step-less s t (by_main st) = MainStep-less s t st
Step-less s t (by_worker st) = WorkerStep-less s t st

-- The call is over, or a step can be made.
abbrev pub GoesOn : Sys → Type 0
GoesOn s = (t : Sys) × Step s t

abbrev pub IsOver : Sys → Type 0
IsOver s = (e : End) × ((rest : List TodoArticle) × (s.main ≡ finished e rest))

-- A worker that the asking routine waits for goes on.
worker-GoesOn :
    (s : Sys) (w : Worker) (ch : List TodoArticle)
    → s.worker ≡ w
    → s.chan ≡ ch
    → finish w ≡ none
    → WorkerIn w true s.closed ch
    → (ch ≡ [] → s.closed ≡ true)
    → GoesOn s
worker-GoesOn s idle [] ew ec f h c =
    (record s { worker = closed_end }, by_worker (close_end ew ec (c refl) refl))
worker-GoesOn s idle (a ∷ ch) ew ec f h c =
    (record s { worker = busy a; chan = ch }, by_worker (take a ch ew ec refl))
worker-GoesOn s closed_end ch ew ec f h c = absurd (ground arith)
worker-GoesOn s (busy a) ch ew ec f h c =
    (record s { worker = sending a }, by_worker (fatal a ew refl))
worker-GoesOn s (sending a) ch ew ec f h c = absurd (ground arith)
worker-GoesOn s (gone a) ch ew ec f h c = absurd (ground (arith, h))

module _ (s : Sys) (i : IsOrdered s) where
  worker_at : (m : Main) → s.main ≡ m → is_running m ≡ true → WorkerIn s.worker true s.closed s.chan
  worker_at m em r =
      subst (λ b. WorkerIn s.worker b s.closed s.chan) (ap is_running em ∙ r) i.worker_in

  -- A select: the worker's end is taken, or the routine passes.
  selects :
      ((e : Bool) → finish s.worker ≡ some e → GoesOn s)
      → (finish s.worker ≡ none → GoesOn s)
      → GoesOn s
  selects f g = elim (Option-cases (finish s.worker)) [ inl e ↦ g e | inr (b, e) ↦ f b e ]

  GoesOn-main : (m : Main) → s.main ≡ m → IsOver s ⊎ GoesOn s
  GoesOn-main poll_loop em = inr (at_list s.todo refl)
    where
      at_list : (l : List TodoArticle) → s.todo ≡ l → GoesOn s
      at_list [] et =
          (record s { main = wait_quit clean; closed = true }, by_main (list_done em et refl))
      at_list (a ∷ l) et =
          selects (λ e f. (_, by_main (loop_finishes a l e em et f refl)))
            (λ f. (_, by_main (loop_passes a l em et f refl)))
  GoesOn-main (ask a) em = inr (_, by_main (wanted a em refl))
  GoesOn-main (poll_ref a) em = inr (
      selects (λ e f. (_, by_main (ref_finishes a e em f refl)))
        (λ f. (_, by_main (ref_passes a em f refl))))
  GoesOn-main (check_ref a) em = inr (_, by_main (ref_checked a em refl))
  GoesOn-main (poll_write a) em = inr (
      selects (λ e f. (_, by_main (write_finishes a e em f refl)))
        (λ f. (_, by_main (write_passes a em f refl))))
  GoesOn-main (write_line a) em = inr (_, by_main (written a em refl))
  GoesOn-main (enqueue a) em = inr (elim (Bool-cases (ltb (length s.chan) max_pending)) [
    | inl l ↦ (_, by_main (put a em (ltb→lt (length s.chan) max_pending l) refl))
    | inr l ↦
        selects (λ e f. (_, by_main (put_finishes a e em f refl)))
          (λ f.
            worker-GoesOn s s.worker s.chan refl refl f (worker_at (enqueue a) em refl)
              (λ n. let z = ap length n in absurd (ground arith)))
  ])
  GoesOn-main (wait_quit r) em = inr (
      selects (λ e f. (_, by_main (quit_seen r e em f refl)))
        (λ f.
          worker-GoesOn s s.worker s.chan refl refl f (worker_at (wait_quit r) em refl)
            (λ n. subst (λ m. ClosedBy m s.closed) em i.closed_by)))
  GoesOn-main (finished e rest) em = inl (e, (rest, em))

-- Every run from a state comes to its end: whichever steps are made, one can be made until the call is over.
pub data Ends : Sys → Type 0 where
  over : (s : Sys) → IsOver s → Ends s
  goes_on : (s : Sys) → GoesOn s → ((t : Sys) → Step s t → Ends t) → Ends s

Ends-steps : (n : ℕ) (s : Sys) → steps_left s < n → IsOrdered s → Ends s
Ends-steps zero s h i = absurd (omega arith)
Ends-steps (suc n) s h i = elim (GoesOn-main s i s.main refl) [
  | inl o ↦ over s o
  | inr g ↦
      goes_on s g
        (λ t st. Ends-steps n t (omega (arith, Step-less s t st)) (Step-IsOrdered s t i st))
]

-- From every state that the two routines can reach, and so from the start, every run comes to an end: until the call
-- is over some routine can go on, and each step leaves fewer to make.
pub Reach-Ends : (todo : List TodoArticle) (s : Sys) → Reach todo s → Ends s
Reach-Ends todo s r = Ends-steps (suc (steps_left s)) s (omega arith) (Reach-IsOrdered todo s r)
