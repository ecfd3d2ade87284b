-- ===== src/MailTools/First.antt =====
-- `NextValidReference` against the grammar of what it passes.
use nksrv.Base.{
  ℕ, suc, ◌≡◌, ◌≢◌, ◌⊎◌, Bool, true, false, [], ◌∷◌, ◌++◌, Option, none, some, Bytes, ◌==◌, All,
}
use nksrv.Ascii.{is_ws}
use nksrv.Nntp.Syntax.{valid_message_id}

-- What is left behind the comments that are open: how many, and whether the byte before was a
-- backslash, after which a parenthesis does not count. The end of the string closes all of them.
pub data Comment : ℕ → Bool → Bytes → Bytes → Type 0 where
  unclosed : (n : ℕ) (q : Bool) → Comment n q [] []
  closed : (s : Bytes) → Comment 1 false (b')' ∷ s) s
  inner_closed :
      (n : ℕ) (s t : Bytes) → Comment (suc n) false s t → Comment (suc (suc n)) false (b')' ∷ s) t
  opened : (n : ℕ) (s t : Bytes) → Comment (suc n) false s t → Comment n false (b'(' ∷ s) t
  quoted :
      (n c : ℕ) (s t : Bytes)
      → (c ≡ b'(') ⊎ (c ≡ b')')
      → Comment n false s t
      → Comment n true (c ∷ s) t
  text :
      (n c : ℕ) (q : Bool) (s t : Bytes)
      → c ≢ b'('
      → c ≢ b')'
      → Comment n (c == b'\\') s t
      → Comment n q (c ∷ s) t

-- A word holds no space and no opening parenthesis, and ends at one or at the end.
abbrev pub IsReferenceWord : Bytes → Type 0
IsReferenceWord = All (λ c. (is_ws c ≡ false) × (c ≢ b'('))

abbrev pub EndsWord : Bytes → Type 0
EndsWord [] = Unit
EndsWord (c ∷ s) = (is_ws c ≡ true) ⊎ (c ≡ b'(')

-- The first word outside of comments that is a valid identifier, and what stands behind it: spaces,
-- comments and other words in front are passed, and only the end of the string gives nothing.
pub data FirstReference : Bytes → Bytes × Bytes → Type 0 where
  nothing : FirstReference [] ([], [])
  blank :
      (c : ℕ) (s : Bytes) (r : Bytes × Bytes)
      → is_ws c ≡ true
      → FirstReference s r
      → FirstReference (c ∷ s) r
  comment :
      (s t : Bytes) (r : Bytes × Bytes)
      → Comment 1 false s t
      → FirstReference t r
      → FirstReference (b'(' ∷ s) r
  valid :
      (c : ℕ) (w rest : Bytes)
      → IsReferenceWord (c ∷ w)
      → EndsWord rest
      → valid_message_id (c ∷ w) ≡ true
      → FirstReference (c ∷ (w ++ rest)) (c ∷ w, rest)
  invalid :
      (c : ℕ) (w rest : Bytes) (r : Bytes × Bytes)
      → IsReferenceWord (c ∷ w)
      → EndsWord rest
      → valid_message_id (c ∷ w) ≡ false
      → FirstReference rest r
      → FirstReference (c ∷ (w ++ rest)) r

-- Which round of the loop over a comment it is.
abbrev Byte : ℕ → Type 0
Byte c = (c ≡ b')') ⊎ ((c ≡ b'(') ⊎ ((c ≢ b'(') × (c ≢ b')')))

-- What a run of the loop gives, and that it is right.
abbrev Found : Bytes → Option (Bytes × Bytes) → Type 0
Found s none = ⊥
Found s (some r) = FirstReference s r
