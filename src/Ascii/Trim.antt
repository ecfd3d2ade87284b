-- ===== src/Ascii/Trim.antt =====
-- Trimming of spaces and tabs.
use mathlib.Core.List.{reverse-append, reverse-reverse}
use mathlib.Core.Path.{subst}
use nksrv.Base.{
  ◌≡◌, refl, sym, ap, ◌∙◌, true, false, [], ◌∷◌, ◌++◌, reverse, Bytes, All, All-append, Bool-cases,
  inl, inr,
}
use nksrv.Ascii.{is_ws, trim_left_ws, trim_right_ws, trim_ws}

abbrev pub IsBlank : Bytes → Type 0
IsBlank = All (λ c. is_ws c ≡ true)

-- The first byte, if there is one, is no space.
abbrev pub StartsSolid : Bytes → Type 0
StartsSolid [] = Unit
StartsSolid (c ∷ s) = is_ws c ≡ false

-- What `TrimLeftWSBytes` does: it cuts off a blank prefix, and what is left starts with no space.
pub trim_left_ws_lem :
    (b : Bytes) → (p : Bytes) × (b ≡ p ++ trim_left_ws b) × IsBlank p × StartsSolid (trim_left_ws b)
unfolding trim_left_ws
trim_left_ws_lem [] = ([], refl, tt, tt)
trim_left_ws_lem (c ∷ b) = elim (Bool-cases (is_ws c)) [
  | inl w ↦
      let (p, e, blank, solid) = trim_left_ws_lem b in
      rw w (c ∷ p, ap (λ t. c ∷ t) e, (w, blank), solid)
  | inr s ↦ rw s ([], refl, tt, s)
]

IsBlank-reverse : (b : Bytes) → IsBlank b → IsBlank (reverse b)
IsBlank-reverse [] h = tt
IsBlank-reverse (c ∷ b) (w, h) =
    rw (reverse-append (c ∷ []) b)
      (All-append (λ c. is_ws c ≡ true) (reverse b) (c ∷ []) (IsBlank-reverse b h) (w, tt))

trim_right_ws_lem :
    (b : Bytes)
    → (q : Bytes) × (b ≡ trim_right_ws b ++ q) × IsBlank q × StartsSolid (reverse (trim_right_ws b))
unfolding trim_right_ws
trim_right_ws_lem b =
    let (p, e, blank, solid) = trim_left_ws_lem (reverse b) in
    (
      reverse p,
      sym (reverse-reverse b) ∙ ap reverse e ∙ reverse-append p _,
      IsBlank-reverse p blank,
      rw reverse-reverse solid,
    )

StartsSolid-append : (s t : Bytes) → StartsSolid (s ++ t) → StartsSolid s
StartsSolid-append [] t h = tt
StartsSolid-append (c ∷ s) t h = h

-- What `TrimWSString` does: it cuts a blank prefix and a blank suffix off, and what is left neither
-- starts nor ends with a space.
pub trim_ws_lem :
    (b : Bytes)
    → (p : Bytes) × (q : Bytes) × (b ≡ p ++ (trim_ws b ++ q))
      × IsBlank p
      × IsBlank q
      × StartsSolid (trim_ws b)
      × StartsSolid (reverse (trim_ws b))
unfolding trim_ws
trim_ws_lem b =
    let (p, e, blank, solid) = trim_left_ws_lem b in
    let (q, e', blank', solid') = trim_right_ws_lem (trim_left_ws b) in
    (
      p,
      q,
      e ∙ ap (λ t. p ++ t) e',
      blank,
      blank',
      StartsSolid-append _ q (subst StartsSolid e' solid),
      solid',
    )
