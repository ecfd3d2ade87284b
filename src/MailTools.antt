-- ===== src/MailTools.antt =====
-- src/nksrv/lib/mail/tools.go: the message identifiers of a References header. What is left of the string stands
-- for the index, and the loop has fuel. `ValidMessageIDStr` of src/nksrv/lib/utils/minimail/minimail.go is the
-- test `ValidMessageID` of the server.
pub mod Found
pub mod First
pub mod All
mod Tests
use nksrv.Base.{
  ℕ, zero, suc, ◌+◌, ◌-◌, Bool, true, false, not, ◌&&◌, ◌||◌, List, [], ◌∷◌, ◌++◌, Option, none,
  some, Bytes, leb, ◌==◌, if◌then◌else◌, length,
}
use nksrv.Ascii.{is_ws}
use nksrv.Nntp.Syntax.{valid_message_id}

-- What stands behind a comment, at a depth and behind a backslash or not.
unfoldable pub skip_comment : ℕ → Bool → Bytes → Bytes
skip_comment clvl q [] = []
skip_comment clvl q (cc ∷ s) =
    let closes = cc == b')' && not q in
    let clvl' = if cc == b'(' && not q then clvl + 1 else if closes then clvl - 1 else clvl in
    let rest = skip_comment clvl' (cc == b'\\') s in if closes && leb clvl 1 then s else rest

-- A word, and what stands behind it.
unfoldable pub cut_reference : Bytes → Bytes × Bytes
cut_reference [] = ([], [])
cut_reference (c ∷ s) =
    let t = cut_reference s in if is_ws c || c == b'(' then ([], c ∷ s) else (c ∷ t.0, t.1)

-- `NextValidReference`: the identifier, empty where there is none, and the rest.
unfoldable pub next_reference_loop : ℕ → Bytes → Option (Bytes × Bytes)
next_reference_loop zero s = none
next_reference_loop (suc n) [] = some ([], [])
next_reference_loop (suc n) (c ∷ s) =
    let t = cut_reference s in
    let behind_ws = next_reference_loop n s in
    let behind_comment = next_reference_loop n (skip_comment 1 false s) in
    let behind_word = next_reference_loop n t.1 in
    if is_ws c
    then behind_ws
    else if c == b'('
    then behind_comment
    else if valid_message_id (c ∷ t.0)
    then some (c ∷ t.0, t.1)
    else behind_word

unfoldable pub next_valid_reference : Bytes → Option (Bytes × Bytes)
next_valid_reference s = next_reference_loop (suc (length s)) s

-- `ExtractFirstValidReference`.
abbrev pub reference_of : Option (Bytes × Bytes) → Bytes
reference_of none = []
reference_of (some t) = t.0

unfoldable pub extract_first_valid_reference : Bytes → Bytes
extract_first_valid_reference s = reference_of (next_valid_reference s)

-- The loop of `ExtractAllValidReferences`.
abbrev pub with_reference : List Bytes → Bytes → List Bytes
with_reference refs x = if length x == 0 then refs else refs ++ x ∷ []

unfoldable pub all_references_loop : ℕ → List Bytes → Bytes → Option (List Bytes)
all_references_loop zero refs s = none
all_references_loop (suc n) refs s = elim (next_valid_reference s) [
  | none ↦ none
  | some t ↦
      let refs' = with_reference refs t.0 in
      let again = all_references_loop n refs' t.1 in if length t.1 == 0 then some refs' else again
]

-- `ExtractAllValidReferences`.
unfoldable pub extract_all_valid_references : List Bytes → Bytes → Option (List Bytes)
extract_all_valid_references refs s = all_references_loop (suc (length s)) refs s
