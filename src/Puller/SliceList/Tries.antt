-- ===== src/Puller/SliceList/Tries.antt =====
-- What `eatGroupSlice` hands on, and when it gives up.
use nksrv.Base.{
  ℕ, ◌^◌, ◌<◌, ◌≡◌, refl, Bool, true, false, not, ◌&&◌, List, ◌∷◌, Option, none, some, Bytes,
  if◌then◌else◌, Bool-cases, inl, inr,
}
use nksrv.BufReader.Stream.{Item}
use nksrv.Puller.Response.{ClientState, can_hdr, can_xhdr, can_over, can_xover, read_response}
use nksrv.Puller.Lists.{Env, Client}
use nksrv.Puller.Lists.Behind.{Returns, returns}
use nksrv.Puller.Todo.{TodoArticle}
use nksrv.Puller.HdrList.{Eaten, eat_hdr_output}
use nksrv.Puller.HdrList.Wanted.{IsTodo, eat_hdr_output-HasTodo}
use nksrv.Puller.OverList.{eat_over_output}
use nksrv.Puller.OverList.Wanted.{HasTodo, eat_over_output-HasTodo}
use nksrv.Puller.SliceList.{
  SliceEnd, no_articles, soft_fail, fatal_fail, given_up, has_list, Reply, listed, none_there,
  refused, broken, reply_of, after_reply, try_command, eat_list, hdr_ok, over_ok, try_xover,
  try_over, try_xhdr, list_slice,
}

-- A list holds articles that were asked for, and the call gives up only where none of the four commands is left.
pub data IsListed (r_begin r_end : ℕ) : Client × SliceEnd → Type 0 where
  empty : (c : Client) → IsListed r_begin r_end (c, no_articles)
  fails : (c : Client) → IsListed r_begin r_end (c, soft_fail)
  fails_fatally : (c : Client) → IsListed r_begin r_end (c, fatal_fail)
  lists :
      (c : Client) (todo : List TodoArticle)
      → IsTodo r_begin r_end todo
      → IsListed r_begin r_end (c, has_list todo)
  gives_up :
      (c : Client)
      → can_hdr c.state ≡ false
      → can_xhdr c.state ≡ false
      → can_over c.state ≡ false
      → can_xover c.state ≡ false
      → IsListed r_begin r_end (c, given_up)

module _ (r_begin r_end : ℕ) where
  eat_list-IsListed :
      (eat : List Item → Option Eaten) (c : Client)
      → ((is : List Item) → Returns (HasTodo r_begin r_end) (eat is))
      → Returns (IsListed r_begin r_end) (eat_list eat c)
  eat_list-IsListed eat c h = go (eat c.input) (h c.input)
    where
      ended :
          (b : Bool) (x : Eaten)
          → HasTodo r_begin r_end x
          → IsListed r_begin r_end
              (record c { input = x.rest }, if b then soft_fail else has_list x.todo)
      ended true x t = fails _
      ended false x t = lists _ x.todo t

      go :
          (o : Option Eaten)
          → Returns (HasTodo r_begin r_end) o
          → Returns (IsListed r_begin r_end) (elim o [
            | none ↦ none
            | some x ↦
                some (record c { input = x.rest }, if x.fails then soft_fail else has_list x.todo)
          ])
      go _ (returns x t) = returns _ (ended x.fails x t)

  after_reply-IsListed :
      (P : ClientState → Type 0) (bad : ClientState → ClientState)
      (eat next : Client → Option (Client × SliceEnd)) (r : Reply) (c : Client)
      → P (bad c.state)
      → ((c' : Client) → Returns (IsListed r_begin r_end) (eat c'))
      → ((c' : Client) → P c'.state → Returns (IsListed r_begin r_end) (next c'))
      → Returns (IsListed r_begin r_end) (after_reply bad eat next r c)
  after_reply-IsListed P bad eat next listed c p e n = e c
  after_reply-IsListed P bad eat next none_there c p e n = returns _ (empty c)
  after_reply-IsListed P bad eat next refused c p e n = n _ p
  after_reply-IsListed P bad eat next (broken true) c p e n = returns _ (fails_fatally c)
  after_reply-IsListed P bad eat next (broken false) c p e n = returns _ (fails c)

  -- Behind a command that is not tried or not known it is not tried again.
  try_command-IsListed :
      (P : ClientState → Type 0) (env : Env) (cmd : Bytes) (can : Bool) (is_ok : ℕ → Bool)
      (bad : ClientState → ClientState) (eat next : Client → Option (Client × SliceEnd))
      (c : Client)
      → P (bad c.state)
      → (can ≡ false → P c.state)
      → ((c' : Client) → Returns (IsListed r_begin r_end) (eat c'))
      → ((c' : Client) → P c'.state → Returns (IsListed r_begin r_end) (next c'))
      → Returns (IsListed r_begin r_end) (try_command env cmd can is_ok bad eat next c)
  try_command-IsListed P env cmd false is_ok bad eat next c p q e n = n c (q refl)
  try_command-IsListed P env cmd true is_ok bad eat next c p q e n =
      elim (Bool-cases (env.is_written c.sent cmd)) [
        | inr w ↦ rw w (returns _ (fails_fatally c))
        | inl w ↦ rw w (
            after_reply-IsListed P bad eat next (reply_of is_ok (read_response c.input).0)
              (record c { input = (read_response c.input).1; sent = cmd ∷ c.sent }) p e n)
      ]

-- The commands that are behind.
abbrev NoHdr : ClientState → Type 0
NoHdr s = can_hdr s ≡ false

abbrev NoXhdr : ClientState → Type 0
NoXhdr s = NoHdr s × (can_xhdr s ≡ false)

abbrev NoOver : ClientState → Type 0
NoOver s = NoXhdr s × (can_over s ≡ false)

abbrev NoXover : ClientState → Type 0
NoXover s = NoOver s × (can_xover s ≡ false)

and-not : (a : Bool) → (a && not true) ≡ false
and-not true = refl
and-not false = refl

module _ (env : Env) (r_begin r_end : ℕ) (h : r_begin < 2 ^ 63) where
  eat_hdr-IsListed :
      (c : Client) → Returns (IsListed r_begin r_end) (eat_list (eat_hdr_output r_begin r_end) c)
  eat_hdr-IsListed c =
      eat_list-IsListed r_begin r_end (eat_hdr_output r_begin r_end) c
        λ is. eat_hdr_output-HasTodo r_begin r_end is h

  eat_over-IsListed :
      (c : Client) → Returns (IsListed r_begin r_end) (eat_list (eat_over_output r_begin r_end) c)
  eat_over-IsListed c =
      eat_list-IsListed r_begin r_end (eat_over_output r_begin r_end) c
        λ is. eat_over_output-HasTodo r_begin r_end is h

  try_xover-IsListed :
      (c : Client)
      → NoOver c.state
      → Returns (IsListed r_begin r_end) (try_xover env r_begin r_end c)
  try_xover-IsListed c n =
      try_command-IsListed r_begin r_end NoXover env _ (can_xover c.state) over_ok
        (λ s. record s { bad_xover = true }) _ _ c (n, refl) (λ e. (n, e)) eat_over-IsListed
        λ c' n'. returns _ (gives_up c' n'.0.0.0 n'.0.0.1 n'.0.1 n'.1)

  try_over-IsListed :
      (c : Client)
      → NoXhdr c.state
      → Returns (IsListed r_begin r_end) (try_over env r_begin r_end c)
  try_over-IsListed c n =
      try_command-IsListed r_begin r_end NoOver env _ (can_over c.state) over_ok
        (λ s. record s { bad_over = true }) _ _ c (n, and-not c.state.cap_over) (λ e. (n, e))
        eat_over-IsListed try_xover-IsListed

  try_xhdr-IsListed :
      (c : Client) → NoHdr c.state → Returns (IsListed r_begin r_end) (try_xhdr env r_begin r_end c)
  try_xhdr-IsListed c n =
      try_command-IsListed r_begin r_end NoXhdr env _ (can_xhdr c.state) hdr_ok
        (λ s. record s { bad_xhdr = true }) _ _ c (n, refl) (λ e. (n, e)) eat_hdr-IsListed
        try_over-IsListed

-- Whatever the other server answers, `eatGroupSlice` comes to an end in front of `processTODOList`. The list
-- that it hands on holds 2048 articles at most, all of the slice, and it says that the slice cannot be
-- listed only where each of HDR, XHDR, OVER and XOVER is unknown or was refused.
pub list_slice-IsListed :
    (env : Env) (r_begin r_end : ℕ) (c : Client)
    → r_begin < 2 ^ 63
    → Returns (IsListed r_begin r_end) (list_slice env r_begin r_end c)
unfolding list_slice
list_slice-IsListed env r_begin r_end c h =
    try_command-IsListed r_begin r_end NoHdr env _ (can_hdr c.state) hdr_ok
      (λ s. record s { bad_hdr = true }) _ _ c (and-not c.state.cap_hdr) (λ e. e)
      (eat_hdr-IsListed env r_begin r_end h) (try_xhdr-IsListed env r_begin r_end h)
