-- ===== src/Puller/Lists/Calls.antt =====
-- What the commands for lists leave behind: the temporary list of groups is closed, and the connection
-- is behind the list.
use mathlib.Core.Path.{subst}
use nksrv.Base.{
  ℕ, ◌≡◌, refl, ap, Bool, true, false, ◌&&◌, List, [], ◌∷◌, ◌++◌, Option, none, some, Bytes, codes,
  if◌then◌else◌, ◌==◌, arith, Bool-cases, inl, inr,
}
use nksrv.Base.Int.{is_nonneg}
use nksrv.BufReader.Stream.{Item}
use nksrv.DotReader.{Dot, new_dot}
use nksrv.DotReader.Scan.{DotErr}
use nksrv.DotReader.Scan.Ending.{ending}
use nksrv.Puller.Response.{ClientState, Response, response, no_response, read_response}
use nksrv.Puller.Lines.{
  Try, ok, err, dot_line_byte, newsgroup_byte, ActiveLine, parse_list_active_line,
}
use nksrv.Puller.Lists.{
  Call, start_temp_groups, cancel_temp_groups, finish_temp_groups, get_group_id, store_temp_group,
  Env, Client, Result, done, soft, fatal, Fault, bad_list, db_error, LoopEnd, enough, hiwm_of,
  store_call, store_known, parsed_line, active_line, newsgroup_line, active_loop, newsgroups_loop,
  after_list, finish_list, ask, read_list_on, bad_active, bad_newsgroups, do_active_list,
  do_newsgroups_list,
}
use nksrv.Puller.Lists.Behind.{Returns, returns, Leaves, lines_loop-Returns}

-- A call between the start of a temporary list and its end.
abbrev is_inner : Call → Bool
is_inner start_temp_groups = false
is_inner cancel_temp_groups = false
is_inner finish_temp_groups = false
is_inner _ = true

abbrev all_inner : List Call → Bool
all_inner [] = true
all_inner (c ∷ cs) = is_inner c && all_inner cs

-- A temporary list was started, and looked up and added to since.
pub record IsStoring (before cs : List Call) : Type 0 where
  pub added : List Call
  pub order : cs ≡ added ++ start_temp_groups ∷ before
  pub inner : all_inner added ≡ true

-- What a command calls, the last call first: nothing, a start that fails, or a start and, behind what is added, one end.
pub data IsBracketed (env : Env) (before after : List Call) : Result → Type 0 where
  fatally : after ≡ before → IsBracketed env before after fatal
  refused : after ≡ before → IsBracketed env before after soft
  unstarted :
      env.fails before start_temp_groups ≡ true
      → after ≡ start_temp_groups ∷ before
      → IsBracketed env before after soft
  finished :
      (cs : List Call)
      → IsStoring before cs
      → after ≡ finish_temp_groups ∷ cs
      → env.fails cs finish_temp_groups ≡ false
      → IsBracketed env before after done
  unfinished :
      (cs : List Call)
      → IsStoring before cs
      → after ≡ finish_temp_groups ∷ cs
      → env.fails cs finish_temp_groups ≡ true
      → IsBracketed env before after soft
  cancelled :
      (cs : List Call)
      → IsStoring before cs
      → after ≡ cancel_temp_groups ∷ cs
      → IsBracketed env before after soft

module _ (before : List Call) where
  IsStoring-adds :
      (c : Call) (cs : List Call)
      → is_inner c ≡ true
      → IsStoring before cs
      → IsStoring before (c ∷ cs)
  IsStoring-adds c cs h s = record {
    added = c ∷ s.added;
    order = ap (λ l. c ∷ l) s.order;
    inner = rw h s.inner;
  }

  IsStoring-known :
      (env : Env) (name : Bytes) (c : Call) (cs : List Call)
      → is_inner c ≡ true
      → IsStoring before cs
      → IsStoring before (store_known env name c cs).1
  unfolding store_known
  IsStoring-known env name c cs h s =
      let got = IsStoring-adds (get_group_id name) cs refl s in
      elim (Bool-cases (env.fails cs (get_group_id name))) [
        | inl e ↦ rw e got
        | inr e ↦ elim (Bool-cases (is_nonneg (env.group_id cs name))) [
          | inl p ↦ rw (e, p) (IsStoring-adds c (get_group_id name ∷ cs) h got)
          | inr p ↦ rw (e, p) got
        ]
      ]

  is_inner-store_call : (name : Bytes) (o : Option ℕ) → is_inner (store_call name o) ≡ true
  is_inner-store_call name none = refl
  is_inner-store_call name (some n) = refl

  IsStoring-parsed :
      (env : Env) (s : ClientState) (t : Try ActiveLine) (cs : List Call)
      → IsStoring before cs
      → IsStoring before (parsed_line env s t cs).1
  IsStoring-parsed env s (err e) cs i = i
  IsStoring-parsed env s (ok a) cs i =
      IsStoring-known env a.name (store_call a.name (hiwm_of s a)) cs
        (is_inner-store_call a.name (hiwm_of s a)) i

-- A loop that starts with a temporary list ends with one, in front of the end of the article.
abbrev pub Stores : DotErr × List Item → List Call → LoopEnd (List Call) → Type 0
Stores t before r = Leaves t r × IsStoring before r.out

abbrev pub IsStoringLoop : (List Item → List Call → Option (LoopEnd (List Call))) → Type 0
IsStoringLoop loop =
    (is : List Item) (before : List Call)
    → Returns (Stores (ending new_dot is) before) (loop is (start_temp_groups ∷ before))

started : (before : List Call) → IsStoring before (start_temp_groups ∷ before)
started before = record { added = []; order = refl; inner = refl }

pub active_loop-IsStoring : (env : Env) (s : ClientState) → IsStoringLoop (active_loop env s)
active_loop-IsStoring env s is before =
    lines_loop-Returns dot_line_byte [] (active_line env s) (IsStoring before)
      (λ line cs. IsStoring-parsed before env s (parse_list_active_line line) cs) (enough is)
      new_dot is (start_temp_groups ∷ before) (omega arith) (started before)

pub newsgroups_loop-IsStoring : (env : Env) → IsStoringLoop (newsgroups_loop env)
newsgroups_loop-IsStoring env is before =
    lines_loop-Returns newsgroup_byte _ (newsgroup_line env) (IsStoring before)
      (λ name cs. IsStoring-known before env name (store_temp_group name) cs refl) (enough is)
      new_dot is (start_temp_groups ∷ before) (omega arith) (started before)

-- What a list command comes to: the calls are bracketed.
abbrev Closed : Env → List Call → Client × Result → Type 0
Closed env before r = IsBracketed env before r.0.calls r.1

module _ (env : Env) (bad : ClientState → ClientState) (c : Client) where
  after_list-Closed :
      (before : List Call) (r : LoopEnd (List Call))
      → IsStoring before r.out
      → Closed env before (after_list env bad c r)
  after_list-Closed before r s = go r.how r.dot r.rest
    where
      go :
          (how : Option Fault) (d : Dot) (is : List Item)
          → Closed env before
              (after_list env bad c (record { how = how; dot = d; rest = is; out = r.out }))
      go none d is = elim (Bool-cases (env.fails r.out finish_temp_groups)) [
        | inl e ↦ rw e (unfinished r.out s refl e)
        | inr e ↦ rw e (finished r.out s refl e)
      ]
      go (some bad_list) d is = cancelled r.out s refl
      go (some db_error) d is = cancelled r.out s refl

  finish_list-Closed :
      (t : DotErr × List Item) (before : List Call) (o : Option (LoopEnd (List Call)))
      → Returns (Stores t before) o
      → Returns (Closed env before) (finish_list env bad c o)
  finish_list-Closed t before _ (returns r p) = returns _ (after_list-Closed before r p.1)

  read_list_on-Closed :
      (loop : List Item → List Call → Option (LoopEnd (List Call))) (code : ℕ)
      → IsStoringLoop loop
      → Returns (Closed env c.calls) (read_list_on env bad loop code c)
  read_list_on-Closed loop code h = elim (Bool-cases (code == 215)) [
    | inr e ↦ rw e (returns _ (refused refl))
    | inl e ↦ elim (Bool-cases (env.fails c.calls start_temp_groups)) [
      | inl x ↦ rw (e, x) (returns _ (unstarted x refl))
      | inr x ↦
          rw (e, x)
            (finish_list-Closed (ending new_dot c.input) c.calls
              (loop c.input (start_temp_groups ∷ c.calls)) (h c.input c.calls))
    ]
  ]

ask-Closed :
    (env : Env) (cmd : Bytes) (then_do : ℕ → Client → Option (Client × Result)) (c : Client)
    → ((code : ℕ) (c' : Client)
        → c'.calls ≡ c.calls
        → Returns (Closed env c.calls) (then_do code c'))
    → Returns (Closed env c.calls) (ask env cmd then_do c)
ask-Closed env cmd then_do c h = elim (Bool-cases (env.is_written c.sent cmd)) [
  | inr e ↦ rw e (returns _ (fatally refl))
  | inl e ↦ rw e (go (read_response c.input).0.0 (read_response c.input).0.1)
]
  where
    c' : Client
    c' = record c { input = (read_response c.input).1; sent = cmd ∷ c.sent }

    go :
        (r : Response) (b : Bool)
        → Returns (Closed env c.calls) (elim r [
          | no_response e ↦ some (c', if b then fatal else soft)
          | response code rest ↦ then_do code c'
        ])
    go (no_response e) true = returns _ (fatally refl)
    go (no_response e) false = returns _ (refused refl)
    go (response code rest) b = h code c' refl

list-Closed :
    (env : Env) (bad : ClientState → ClientState) (cmd : Bytes)
    (loop : List Item → List Call → Option (LoopEnd (List Call))) (c : Client)
    → IsStoringLoop loop
    → Returns (Closed env c.calls) (ask env cmd (read_list_on env bad loop) c)
list-Closed env bad cmd loop c h = ask-Closed env cmd (read_list_on env bad loop) c λ code c' e.
    subst (λ cs. Returns (Closed env cs) (read_list_on env bad loop code c')) e
      (read_list_on-Closed env bad c' loop code h)

-- Whatever the other server and the database answer, the commands for the two lists come back, and a call of
-- StartTempGroups that does not fail is followed, behind look-ups and stored groups, by exactly one
-- end, FinishTempGroups or CancelTempGroups. There is no error only where FinishTempGroups was called and did
-- not fail.
pub lists-IsBracketed :
    (env : Env) (c : Client)
    → Returns (Closed env c.calls) (do_active_list env c)
      × Returns (Closed env c.calls) (do_newsgroups_list env c)
unfolding do_active_list do_newsgroups_list
lists-IsBracketed env c = (
  list-Closed env bad_active (codes "LIST") (active_loop env c.state) c
      (active_loop-IsStoring env c.state),
  list-Closed env bad_newsgroups (codes "LIST NEWSGROUPS") (newsgroups_loop env) c
      (newsgroups_loop-IsStoring env),
)
