-- ===== src/Puller/Lists/InStep.antt =====
-- Behind a list, whatever became of it, the connection is behind the list's end.
use nksrv.Base.{
  ℕ, ◌≡◌, ap, ◌∙◌, true, List, [], ◌∷◌, Option, none, some, Bytes, codes, arith, Bool-cases, inl,
  inr,
}
use nksrv.BufReader.Stream.{Item}
use nksrv.DotReader.{Dot, new_dot}
use nksrv.DotReader.Scan.{DotErr, article_end, discard}
use nksrv.DotReader.Scan.Ending.{ending, discard-rest}
use nksrv.Puller.Response.{ClientState, response, read_response}
use nksrv.Puller.Lines.{dot_line_byte}
use nksrv.Puller.Lists.{
  Call, start_temp_groups, finish_temp_groups, Env, Client, Result, Fault, bad_list, db_error,
  LoopEnd, enough, active_loop, newsgroups_loop, after_list, finish_list, ask, read_list_on,
  bad_active, bad_newsgroups, do_active_list, do_newsgroups_list, capability_line,
  after_capabilities, capabilities_on, do_capabilities,
}
use nksrv.Puller.Lists.Behind.{Returns, returns, Leaves, lines_loop-Returns}
use nksrv.Puller.Lists.Calls.{
  Stores, IsStoringLoop, active_loop-IsStoring, newsgroups_loop-IsStoring,
}

-- The connection is at a place.
abbrev At : List Item → Client × Result → Type 0
At after r = r.0.input ≡ after

module _ {X : Type 0} (t : DotErr × List Item) (after : List Item)
    (e : t ≡ (article_end, after)) where
  -- `Discard` behind a loop.
  discarded : (r : LoopEnd X) → Leaves t r → (discard r.dot r.rest).rest ≡ after
  discarded r l = discard-rest r.dot r.rest after (l.0 (ap (λ u. u.0) e) ∙ e)

after_list-in_step :
    (env : Env) (bad : ClientState → ClientState) (c : Client) (t : DotErr × List Item)
    (after : List Item) (r : LoopEnd (List Call))
    → t ≡ (article_end, after)
    → Leaves t r
    → At after (after_list env bad c r)
after_list-in_step env bad c t after r e l = go r.how r.dot r.rest l
  where
    go :
        (how : Option Fault) (d : Dot) (is : List Item)
        → Leaves t (record { how = how; dot = d; rest = is; out = r.out })
        → At after (after_list env bad c (record { how = how; dot = d; rest = is; out = r.out }))
    go none d is l = elim (Bool-cases (env.fails r.out finish_temp_groups)) [
      | inl x ↦
          rw x (discarded t after e (record { how = none; dot = d; rest = is; out = r.out }) l)
      | inr x ↦ rw x (ap (λ u. u.1) (l.1 ∙ e))
    ]
    go (some bad_list) d is l =
        discarded t after e (record { how = some bad_list; dot = d; rest = is; out = r.out }) l
    go (some db_error) d is l =
        discarded t after e (record { how = some db_error; dot = d; rest = is; out = r.out }) l

finish_list-in_step :
    (env : Env) (bad : ClientState → ClientState) (c : Client) (t : DotErr × List Item)
    (before : List Call) (after : List Item) (o : Option (LoopEnd (List Call)))
    → t ≡ (article_end, after)
    → Returns (Stores t before) o
    → Returns (At after) (finish_list env bad c o)
finish_list-in_step env bad c t before after _ e (returns r p) =
    returns _ (after_list-in_step env bad c t after r e p.0)

read_list-in_step :
    (env : Env) (bad : ClientState → ClientState)
    (loop : List Item → List Call → Option (LoopEnd (List Call))) (c : Client) (after : List Item)
    → ending new_dot c.input ≡ (article_end, after)
    → IsStoringLoop loop
    → Returns (At after) (read_list_on env bad loop 215 c)
read_list-in_step env bad loop c after e h =
    elim (Bool-cases (env.fails c.calls start_temp_groups)) [
      | inl x ↦ rw x (returns _ (discard-rest new_dot c.input after e))
      | inr x ↦ rw x (
          finish_list-in_step env bad c (ending new_dot c.input) c.calls after
            (loop c.input (start_temp_groups ∷ c.calls)) e (h c.input c.calls))
    ]

-- Behind a command that is written and a response with a code.
ask-in_step :
    (env : Env) (cmd : Bytes) (then_do : ℕ → Client → Option (Client × Result)) (c : Client)
    (code : ℕ) (rest : Bytes) (after : List Item)
    → env.is_written c.sent cmd ≡ true
    → (read_response c.input).0.0 ≡ response code rest
    → Returns
        (At after)
        (then_do code (record c { input = (read_response c.input).1; sent = cmd ∷ c.sent }))
    → Returns (At after) (ask env cmd then_do c)
ask-in_step env cmd then_do c code rest after w x h = rw (w, x) h

-- Where LIST or LIST NEWSGROUPS is written and answered with 215 and a list that ends properly, the connection is behind
-- the list when the call comes back, also where a line is bad or the database fails.
pub lists-in_step :
    (env : Env) (c : Client) (rest : Bytes) (after : List Item)
    → ((cmd : Bytes) → env.is_written c.sent cmd ≡ true)
    → (read_response c.input).0.0 ≡ response 215 rest
    → ending new_dot (read_response c.input).1 ≡ (article_end, after)
    → Returns (At after) (do_active_list env c) × Returns (At after) (do_newsgroups_list env c)
unfolding do_active_list do_newsgroups_list
lists-in_step env c rest after w x e = (
  ask-in_step env (codes "LIST") (read_list_on env bad_active (active_loop env c.state)) c 215 rest
      after (w (codes "LIST")) x
      (read_list-in_step env bad_active (active_loop env c.state) _ after e
        (active_loop-IsStoring env c.state)),
  ask-in_step env (codes "LIST NEWSGROUPS") (read_list_on env bad_newsgroups (newsgroups_loop env))
      c 215 rest after (w (codes "LIST NEWSGROUPS")) x
      (read_list-in_step env bad_newsgroups (newsgroups_loop env) _ after e
        (newsgroups_loop-IsStoring env)),
)

after_capabilities-in_step :
    (c : Client) (t : DotErr × List Item) (after : List Item) (o : Option (LoopEnd ClientState))
    → t ≡ (article_end, after)
    → Returns (λ r. Leaves t r × Unit {0}) o
    → Returns (At after) (after_capabilities c o)
after_capabilities-in_step c t after _ e (returns r p) = go r.how r.dot r.rest p.0
  where
    go :
        (how : Option Fault) (d : Dot) (is : List Item)
        → Leaves t (record { how = how; dot = d; rest = is; out = r.out })
        → Returns
            (At after)
            (after_capabilities c (some (record { how = how; dot = d; rest = is; out = r.out })))
    go none d is l = returns _ (ap (λ u. u.1) (l.1 ∙ e))
    go (some bad_list) d is l =
        returns _
          (discarded t after e (record { how = some bad_list; dot = d; rest = is; out = r.out }) l)
    go (some db_error) d is l =
        returns _
          (discarded t after e (record { how = some db_error; dot = d; rest = is; out = r.out }) l)

-- Where CAPABILITIES is written and answered with 101 and a list that ends properly, the connection is
-- behind the list when the call comes back.
pub do_capabilities-in_step :
    (env : Env) (c : Client) (rest : Bytes) (after : List Item)
    → env.is_written c.sent (codes "CAPABILITIES") ≡ true
    → (read_response c.input).0.0 ≡ response 101 rest
    → ending new_dot (read_response c.input).1 ≡ (article_end, after)
    → Returns (At after) (do_capabilities env c)
unfolding do_capabilities
do_capabilities-in_step env c rest after w x e =
    let is = (read_response c.input).1 in
    let on : Bytes → ClientState → Option Fault × ClientState =
      λ line s. (none, capability_line line s) in
    ask-in_step env (codes "CAPABILITIES") capabilities_on c 101 rest after w x (
      after_capabilities-in_step (record c { input = is; sent = codes "CAPABILITIES" ∷ c.sent })
        (ending new_dot is) after _ e
        (lines_loop-Returns dot_line_byte [] on (λ s. Unit {0}) (λ line s p. tt) (enough is) new_dot
          is c.state (omega arith) tt))
