-- ===== src/Puller/Todo/Order.antt =====
-- Responses are read for the articles that were asked for, in that order, in every interleaving.
use nksrv.Base.{
  ◌≡◌, refl, sym, ap, ◌∙◌, true, List, [], ◌∷◌, ◌++◌, append_assoc, append-nil, Bool-cases, inl,
  inr, length, length-append, arith,
}
use mathlib.Core.Path.{subst}
use nksrv.Base.Int.{ℤ}
use nksrv.Puller.Todo.{
  TodoArticle, clean, soft_error, fatal_error, poll_loop, poll_ref, poll_write, ask, check_ref,
  write_line, enqueue, wait_quit, idle, busy, Sys, waited, has_ref, MainStep, list_done,
  loop_passes, loop_finishes, wanted, unwanted, wanted_fails, ref_passes, ref_finishes, ref_checked,
  ref_fails, write_passes, write_finishes, written, write_fails, put, put_finishes, quit_seen,
  WorkerStep, take, close_end, eaten, not_eaten, fatal, Step, by_main, by_worker, start, Reach,
  here, next,
}
use nksrv.Puller.Todo.Invariant.{
  held, on_hand, is_running, WorkerIn, IsExpected, IsOrdered, moves, closes, finishes, polled,
  open_at, append-behind, WorkerIn-put, IsExpected-waited,
}

MainStep-IsOrdered : (s t : Sys) → IsOrdered s → MainStep s t → IsOrdered t
MainStep-IsOrdered s t i (list_done em e et) =
    rw et (closes s i poll_loop clean em refl refl (open_at s poll_loop i em) tt)
MainStep-IsOrdered s t i (loop_passes a rest em e f et) = rw et (
    moves s i (ask a) rest s.new_maxid (sym (ap on_hand em)) (sym (ap is_running em))
      (open_at s poll_loop i em) tt)
MainStep-IsOrdered s t i (loop_finishes a rest e em et' f et) =
    rw et (polled s i poll_loop [] e em refl (open_at s poll_loop i em) f)
MainStep-IsOrdered s t i (wanted a em et) = rw et (
    moves s i (poll_ref a) s.todo s.new_maxid (sym (ap on_hand em)) (sym (ap is_running em))
      (open_at s (ask a) i em) tt)
MainStep-IsOrdered s t i (unwanted a em n et) = rw et (
    moves s i poll_loop s.todo _ (sym (ap on_hand em)) (sym (ap is_running em))
      (open_at s (ask a) i em) tt)
MainStep-IsOrdered s t i (wanted_fails a em n et) =
    rw et (closes s i (ask a) soft_error em refl refl (open_at s (ask a) i em) tt)
MainStep-IsOrdered s t i (ref_passes a em f et) = rw et (elim (Bool-cases (has_ref a)) [
  | inl h ↦ rw h (
      moves s i (check_ref a) s.todo s.new_maxid (sym (ap on_hand em)) (sym (ap is_running em))
        (open_at s (poll_ref a) i em) tt)
  | inr h ↦ rw h (
      moves s i (write_line a) s.todo s.new_maxid (sym (ap on_hand em)) (sym (ap is_running em))
        (open_at s (poll_ref a) i em) tt)
])
MainStep-IsOrdered s t i (ref_finishes a e em f et) =
    rw et (polled s i (poll_ref a) [] e em refl (open_at s (poll_ref a) i em) f)
MainStep-IsOrdered s t i (ref_checked a em et) = rw et (
    moves s i (poll_write a) s.todo s.new_maxid (sym (ap on_hand em)) (sym (ap is_running em))
      (open_at s (check_ref a) i em) tt)
MainStep-IsOrdered s t i (ref_fails a em et) =
    rw et (closes s i (check_ref a) soft_error em refl refl (open_at s (check_ref a) i em) tt)
MainStep-IsOrdered s t i (write_passes a em f et) = rw et (
    moves s i (write_line a) s.todo s.new_maxid (sym (ap on_hand em)) (sym (ap is_running em))
      (open_at s (poll_write a) i em) tt)
MainStep-IsOrdered s t i (write_finishes a e em f et) =
    rw et (polled s i (poll_write a) [] e em refl (open_at s (poll_write a) i em) f)
MainStep-IsOrdered s t i (written a em et) = rw et (record {
  order =
      ap (λ l. l ++ a ∷ [])
        (i.order ∙ ap (λ l. s.answered ++ (held s.worker ++ (s.chan ++ l))) (ap on_hand em))
      ∙ append-behind s.answered (held s.worker) s.chan (a ∷ []);
  room = i.room;
  closed_by = open_at s (write_line a) i em;
  worker_in = subst (λ b. WorkerIn s.worker b s.closed s.chan) (ap is_running em) i.worker_in;
  expected = tt;
})
MainStep-IsOrdered s t i (write_fails a em et) =
    rw et (closes s i (write_line a) fatal_error em refl refl (open_at s (write_line a) i em) tt)
MainStep-IsOrdered s t i (put a em r et) = rw et (record {
  order =
      i.order
      ∙ ap (λ l. s.answered ++ (held s.worker ++ (s.chan ++ l))) (ap on_hand em)
      ∙ ap (λ l. s.answered ++ (held s.worker ++ l)) (sym (append-nil (s.chan ++ a ∷ [])));
  room = omega (arith, length-append {0} s.chan (a ∷ []));
  closed_by = open_at s (enqueue a) i em;
  worker_in =
      WorkerIn-put s.worker true s.closed s.chan (s.chan ++ a ∷ []) (open_at s (enqueue a) i em)
        (subst (λ b. WorkerIn s.worker b s.closed s.chan) (ap is_running em) i.worker_in);
  expected = tt;
})
MainStep-IsOrdered s t i (put_finishes a e em f et) =
    rw et (polled s i (enqueue a) (a ∷ []) e em refl (open_at s (enqueue a) i em) f)
MainStep-IsOrdered s t i (quit_seen r e em f et) = rw et (
    finishes s i (wait_quit r) (waited r e) [] e em refl f
      (IsExpected-waited r e (subst IsExpected em i.expected)))

-- A response is read.
answers :
    (s : Sys) (i : IsOrdered s) (a : TodoArticle)
    → s.worker ≡ busy a
    → (x : ℤ)
    → IsOrdered (record s { worker = idle; new_maxid = x; answered = s.answered ++ a ∷ [] })
answers s i a ew x = record {
  order =
      i.order
      ∙ ap (λ w. s.answered ++ (held w ++ (s.chan ++ on_hand s.main))) ew
      ∙ sym (append_assoc s.answered (a ∷ []) (s.chan ++ on_hand s.main));
  room = i.room;
  closed_by = i.closed_by;
  worker_in = subst (λ w. WorkerIn w (is_running s.main) s.closed s.chan) ew i.worker_in;
  expected = i.expected;
}

WorkerStep-IsOrdered : (s t : Sys) → IsOrdered s → WorkerStep s t → IsOrdered t
WorkerStep-IsOrdered s t i (take a rest ew ec et) = rw et (record {
  order =
      i.order
      ∙ ap (λ w. s.answered ++ (held w ++ (s.chan ++ on_hand s.main))) ew
      ∙ ap (λ l. s.answered ++ (l ++ on_hand s.main)) ec;
  room = omega (arith, ap length ec, i.room);
  closed_by = i.closed_by;
  worker_in = subst (λ w. WorkerIn w (is_running s.main) s.closed s.chan) ew i.worker_in;
  expected = i.expected;
})
WorkerStep-IsOrdered s t i (close_end ew ec c et) = rw et (record {
  order = i.order ∙ ap (λ w. s.answered ++ (held w ++ (s.chan ++ on_hand s.main))) ew;
  room = i.room;
  closed_by = i.closed_by;
  worker_in = (c, ec);
  expected = i.expected;
})
WorkerStep-IsOrdered s t i (eaten a ew et) = rw et (answers s i a ew _)
WorkerStep-IsOrdered s t i (not_eaten a ew et) = rw et (answers s i a ew s.new_maxid)
WorkerStep-IsOrdered s t i (fatal a ew et) = rw et (record {
  order = i.order ∙ ap (λ w. s.answered ++ (held w ++ (s.chan ++ on_hand s.main))) ew;
  room = i.room;
  closed_by = i.closed_by;
  worker_in = subst (λ w. WorkerIn w (is_running s.main) s.closed s.chan) ew i.worker_in;
  expected = i.expected;
})

pub Step-IsOrdered : (s t : Sys) → IsOrdered s → Step s t → IsOrdered t
Step-IsOrdered s t i (by_main st) = MainStep-IsOrdered s t i st
Step-IsOrdered s t i (by_worker st) = WorkerStep-IsOrdered s t i st

start-IsOrdered : (todo : List TodoArticle) → IsOrdered (start todo)
start-IsOrdered todo = record {
  order = refl;
  room = omega arith;
  closed_by = refl;
  worker_in = refl;
  expected = tt;
}

-- However the two routines interleave and whatever the database and the network answer: the responses that
-- are read, the one that the worker is at, the channel and what the asking routine has in hand are, one behind the
-- other, the articles that were asked for. The channel holds at most 32. When the call ends the worker has
-- quit, and it never quits before the list is done without an error.
pub Reach-IsOrdered : (todo : List TodoArticle) (s : Sys) → Reach todo s → IsOrdered s
Reach-IsOrdered todo _ here = start-IsOrdered todo
Reach-IsOrdered todo t (next {s} r st) = Step-IsOrdered s t (Reach-IsOrdered todo s r) st
