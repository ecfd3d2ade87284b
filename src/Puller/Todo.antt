-- ===== src/Puller/Todo.antt =====
-- `processTODOList` of src/nksrv/lib/nntp/client_puller.go: one routine asks for the articles of a list, and
-- another one reads the responses, behind a channel of 32 articles. A step is what one of them does between
-- two points where the other can come in; what the database and the network answer is chosen by
-- the step. The calls of both come back.
pub mod Invariant
pub mod Order
pub mod Live
use nksrv.Base.{
  ℕ, ◌<◌, ◌≡◌, Bool, true, false, not, ◌&&◌, List, [], ◌∷◌, ◌++◌, Option, none, some, Bytes,
  bytes_eq, if◌then◌else◌, length,
}
use nksrv.Base.Int.{ℤ, pos, negsuc, is_nonneg, lt_int, to_int64}

-- `todoArticle`.
pub record TodoArticle : Type 0 where
  pub id : ℕ
  pub msgid : Bytes
  pub ref : Bytes

-- The capacity of `todochan`.
abbrev pub max_pending : ℕ
max_pending = 32

-- How the call ends: without an error, with one after which the connection goes on, or with a fatal one.
-- The last is the error of a worker that quit too early.
pub data End : Type 0 where
  clean soft_error fatal_error unexpected_quit : End

-- Where the asking routine stands, with the article it is at. The first three select on `finishchan`
-- without blocking. A finished one keeps the articles that it had asked for and did not put on the channel.
pub data Main : Type 0 where
  poll_loop : Main
  poll_ref poll_write : TodoArticle → Main
  ask check_ref write_line enqueue : TodoArticle → Main
  wait_quit : End → Main
  finished : End → List TodoArticle → Main

-- Where the reading routine stands: at the channel, in a response, sending a fatal error to `finishchan`, behind that,
-- or behind closing it.
pub data Worker : Type 0 where
  idle closed_end : Worker
  busy sending gone : TodoArticle → Worker

pub record Sys : Type 0 where
  pub todo : List TodoArticle
  pub main : Main
  pub worker : Worker
  pub chan : List TodoArticle
  pub closed : Bool
  pub new_maxid : ℤ
  -- the articles that were asked for, and those whose response was read, in order
  pub sent : List TodoArticle
  pub answered : List TodoArticle

-- What a receive from `finishchan` gives, where it would not block: whether it is an error.
abbrev pub finish : Worker → Option Bool
finish (sending a) = some true
finish closed_end = some false
finish _ = none

-- The worker behind that receive.
abbrev pub received : Worker → Worker
received (sending a) = gone a
received w = w

-- `handleFinishCase`.
abbrev pub finish_case : Bool → End
finish_case true = fatal_error
finish_case false = unexpected_quit

-- The end of a call that waited for the worker: behind the list an error of the worker counts.
abbrev pub waited : End → Bool → End
waited clean true = fatal_error
waited e _ = e

-- `if id > new_maxid { new_maxid = id }`.
abbrev pub raise : ℤ → TodoArticle → ℤ
raise m a = if lt_int m (to_int64 a.id) then to_int64 a.id else m

abbrev pub is_nil : Bytes → Bool
is_nil [] = true
is_nil (c ∷ s) = false

-- The test in front of `DoesReferenceExist`.
abbrev pub has_ref : TodoArticle → Bool
has_ref a = not (is_nil a.ref) && not (bytes_eq a.ref a.msgid)

-- What the asking routine does.
pub data MainStep (s t : Sys) : Type 0 where
  list_done :
      s.main ≡ poll_loop
      → s.todo ≡ []
      → t ≡ record s { main = wait_quit clean; closed = true }
      → MainStep s t
  loop_passes :
      (a : TodoArticle) (rest : List TodoArticle)
      → s.main ≡ poll_loop
      → s.todo ≡ a ∷ rest
      → finish s.worker ≡ none
      → t ≡ record s { main = ask a; todo = rest }
      → MainStep s t
  loop_finishes :
      (a : TodoArticle) (rest : List TodoArticle) (e : Bool)
      → s.main ≡ poll_loop
      → s.todo ≡ a ∷ rest
      → finish s.worker ≡ some e
      → t ≡ record s { main = finished (finish_case e) []; worker = received s.worker }
      → MainStep s t
  -- `IsArticleWanted`, which is not asked about an article without an identifier
  wanted : (a : TodoArticle) → s.main ≡ ask a → t ≡ record s { main = poll_ref a } → MainStep s t
  unwanted :
      (a : TodoArticle)
      → s.main ≡ ask a
      → is_nil a.msgid ≡ false
      → t ≡ record s { main = poll_loop; new_maxid = raise s.new_maxid a }
      → MainStep s t
  wanted_fails :
      (a : TodoArticle)
      → s.main ≡ ask a
      → is_nil a.msgid ≡ false
      → t ≡ record s { main = wait_quit soft_error; closed = true }
      → MainStep s t
  ref_passes :
      (a : TodoArticle)
      → s.main ≡ poll_ref a
      → finish s.worker ≡ none
      → t ≡ record s { main = if has_ref a then check_ref a else write_line a }
      → MainStep s t
  ref_finishes :
      (a : TodoArticle) (e : Bool)
      → s.main ≡ poll_ref a
      → finish s.worker ≡ some e
      → t ≡ record s { main = finished (finish_case e) []; worker = received s.worker }
      → MainStep s t
  -- `DoesReferenceExist`, whose answer changes nothing
  ref_checked :
      (a : TodoArticle) → s.main ≡ check_ref a → t ≡ record s { main = poll_write a } → MainStep s t
  ref_fails :
      (a : TodoArticle)
      → s.main ≡ check_ref a
      → t ≡ record s { main = wait_quit soft_error; closed = true }
      → MainStep s t
  write_passes :
      (a : TodoArticle)
      → s.main ≡ poll_write a
      → finish s.worker ≡ none
      → t ≡ record s { main = write_line a }
      → MainStep s t
  write_finishes :
      (a : TodoArticle) (e : Bool)
      → s.main ≡ poll_write a
      → finish s.worker ≡ some e
      → t ≡ record s { main = finished (finish_case e) []; worker = received s.worker }
      → MainStep s t
  -- the ARTICLE command
  written :
      (a : TodoArticle)
      → s.main ≡ write_line a
      → t ≡ record s { main = enqueue a; sent = s.sent ++ a ∷ [] }
      → MainStep s t
  write_fails :
      (a : TodoArticle)
      → s.main ≡ write_line a
      → t ≡ record s { main = wait_quit fatal_error; closed = true }
      → MainStep s t
  put :
      (a : TodoArticle)
      → s.main ≡ enqueue a
      → length s.chan < max_pending
      → t ≡ record s { main = poll_loop; chan = s.chan ++ a ∷ [] }
      → MainStep s t
  put_finishes :
      (a : TodoArticle) (e : Bool)
      → s.main ≡ enqueue a
      → finish s.worker ≡ some e
      → t ≡ record s { main = finished (finish_case e) (a ∷ []); worker = received s.worker }
      → MainStep s t
  quit_seen :
      (r : End) (e : Bool)
      → s.main ≡ wait_quit r
      → finish s.worker ≡ some e
      → t ≡ record s { main = finished (waited r e) []; worker = received s.worker }
      → MainStep s t

-- What the reading routine, `responseLoop`, does.
pub data WorkerStep (s t : Sys) : Type 0 where
  take :
      (a : TodoArticle) (rest : List TodoArticle)
      → s.worker ≡ idle
      → s.chan ≡ a ∷ rest
      → t ≡ record s { worker = busy a; chan = rest }
      → WorkerStep s t
  close_end :
      s.worker ≡ idle
      → s.chan ≡ []
      → s.closed ≡ true
      → t ≡ record s { worker = closed_end }
      → WorkerStep s t
  -- `responseHandler` comes back with `normalok`
  eaten :
      (a : TodoArticle)
      → s.worker ≡ busy a
      → t ≡ record s {
        worker = idle;
        new_maxid = raise s.new_maxid a;
        answered = s.answered ++ a ∷ [];
      }
      → WorkerStep s t
  -- without it, or with an error that is not fatal
  not_eaten :
      (a : TodoArticle)
      → s.worker ≡ busy a
      → t ≡ record s { worker = idle; answered = s.answered ++ a ∷ [] }
      → WorkerStep s t
  fatal :
      (a : TodoArticle) → s.worker ≡ busy a → t ≡ record s { worker = sending a } → WorkerStep s t

pub data Step (s t : Sys) : Type 0 where
  by_main : MainStep s t → Step s t
  by_worker : WorkerStep s t → Step s t

abbrev pub start : List TodoArticle → Sys
start todo = record {
  todo = todo;
  main = poll_loop;
  worker = idle;
  chan = [];
  closed = false;
  new_maxid = negsuc 0;
  sent = [];
  answered = [];
}

pub data Reach (todo : List TodoArticle) : Sys → Type 0 where
  here : Reach todo (start todo)
  next : {s t : Sys} → Reach todo s → Step s t → Reach todo t

-- What the deferred function hands to `UpdateGroupID`, if it calls it.
abbrev pub update_id : ℤ → ℤ → Option ℤ
update_id maxid m = if is_nonneg m && lt_int maxid m then some m else none
