-- ===== src/Nntp/Wildmat/Scanning.antt =====
-- The loop of `ValidWildmat` over the pieces between commas.
use mathlib.Core.Path.{subst}
use nksrv.Base.{
  ℕ, ◌≡◌, refl, ◌↔◌, ◌⊎◌, inl, inr, Bool, true, false, not, ◌&&◌, ◌||◌, List, [], ◌∷◌, Option, none,
  some, Bytes, leb, ◌==◌, if◌then◌else◌, arith, All, ◌<◌, Bool-cases, Option-cases,
}
use nksrv.Utf8.{utf8_valid, ascii-utf8_valid}
use nksrv.Nntp.Wildmat.{
  Scan, start_pattern, inside_pattern, negate, is_item, scan_step, scan_loop, scan_end,
  valid_wildmat,
}

-- The pieces between commas: the first, and the others.
unfoldable pub split_comma : Bytes → Bytes × List Bytes
split_comma [] = ([], [])
split_comma (c ∷ x) = let (p, ps) = split_comma x in if c == b',' then ([], p ∷ ps) else (c ∷ p, ps)

abbrev pub AllItems : Bytes → Type 0
AllItems = All (λ c. is_item c ≡ true)

-- `wildmat-pattern`: one or more items.
abbrev pub IsPattern : Bytes → Type 0
IsPattern [] = ⊥
IsPattern (c ∷ p) = AllItems (c ∷ p)

-- A pattern, or `!` and a pattern.
abbrev pub IsPiece : Bytes → Type 0
IsPiece [] = ⊥
IsPiece (c ∷ p) = IsPattern (c ∷ p) ⊎ ((c ≡ b'!') × IsPattern p)

-- What the rest of the current piece must be, in each state.
abbrev Rest : Scan → Bytes → Type 0
Rest start_pattern p = IsPiece p
Rest inside_pattern p = AllItems p
Rest negate p = IsPattern p

abbrev Good : Scan → Bytes × List Bytes → Type 0
Good s (p, ps) = Rest s p × All IsPiece ps

-- Which of its three rounds the loop makes.
abbrev Round : Scan → ℕ → Scan → Type 0
Round s c s' =
    ((is_item c ≡ true) × (s' ≡ inside_pattern))
    ⊎ ((c ≡ b'!') × (s ≡ start_pattern) × (s' ≡ negate))
    ⊎ ((c ≡ b',') × (s ≡ inside_pattern) × (s' ≡ start_pattern))

scan_step-Round : (s : Scan) (c : ℕ) {s' : Scan} → scan_step s c ≡ some s' → Round s c s'
unfolding scan_step
scan_step-Round start_pattern c h = elim (Bool-cases (is_item c)) [
  | inl i ↦ inl (i, ground arith)
  | inr n ↦ inr (inl (ground arith, refl, ground arith))
]
scan_step-Round inside_pattern c h = elim (Bool-cases (is_item c)) [
  | inl i ↦ inl (i, ground arith)
  | inr n ↦ inr (inr (ground arith, refl, ground arith))
]
scan_step-Round negate c h = elim (Bool-cases (is_item c)) [
  | inl i ↦ inl (i, ground arith)
  | inr n ↦ absurd (ground arith)
]

item_ne_comma : (c : ℕ) → is_item c ≡ true → (c == b',') ≡ false
item_ne_comma c h = ground arith

scan_step-item : (s : Scan) (c : ℕ) → is_item c ≡ true → scan_step s c ≡ some inside_pattern
unfolding scan_step
scan_step-item s c h = rw h

Rest-item : (s : Scan) (c : ℕ) (p : Bytes) → is_item c ≡ true → AllItems p → Rest s (c ∷ p)
Rest-item start_pattern c p h a = inl (h, a)
Rest-item inside_pattern c p h a = (h, a)
Rest-item negate c p h a = (h, a)

Good-next :
    (s s' : Scan) (c : ℕ) (x : Bytes)
    → Round s c s'
    → Good s' (split_comma x)
    → Good s (split_comma (c ∷ x))
unfolding split_comma
Good-next s s' c x (inl (i, e)) g =
    let g' : Good inside_pattern (split_comma x) = subst (λ t. Good t (split_comma x)) e g in
    rw (item_ne_comma c i) (Rest-item s c _ i g'.0, g'.1)
Good-next s s' c x (inr (inl (ec, es, e))) g =
    let g' : Good negate (split_comma x) = subst (λ t. Good t (split_comma x)) e g in
    rw (ec, es) (inr (refl, g'.0), g'.1)
Good-next s s' c x (inr (inr (ec, es, e))) g =
    let g' : Good start_pattern (split_comma x) = subst (λ t. Good t (split_comma x)) e g in
    rw (ec, es) (tt, (g'.0, g'.1))

abbrev AllLow : Bytes → Type 0
AllLow = All (λ c. c < 0x80)

scan_loop_sound :
    (s : Scan) (u v : Bool) (x : Bytes)
    → scan_loop s u x ≡ some (inside_pattern, v)
    → Good s (split_comma x) × (v ≡ false → (u ≡ false) × AllLow x)
unfolding scan_loop split_comma
scan_loop_sound start_pattern u v [] h = absurd (ground arith)
scan_loop_sound negate u v [] h = absurd (ground arith)
scan_loop_sound inside_pattern u v [] h = ((tt, tt), λ e. (ground arith, tt))
scan_loop_sound s u v (c ∷ x) h = elim (Option-cases (scan_step s c)) [
  | inl e ↦ cc (rw (e, scan_loop) at h)
  | inr (s', e) ↦
      let (g, low) =
        scan_loop_sound s' (if leb 0x80 c then true else u) v x (rw (e, scan_loop) at h) in
      (
        Good-next s s' c x (scan_step-Round s c e) g,
        λ f. let (a, b) = low f in (ground arith, (ground arith, b)),
      )
]

scan_step-comma : scan_step inside_pattern b',' ≡ some start_pattern
unfolding scan_step
scan_step-comma = refl

scan_step-bang : scan_step start_pattern b'!' ≡ some negate
unfolding scan_step
scan_step-bang = refl

-- At a comma only the state inside a pattern goes on.
Good-comma :
    (s : Scan) (x : Bytes)
    → Good s (split_comma (b',' ∷ x))
    → (s' : Scan) × (scan_step s b',' ≡ some s') × Good s' (split_comma x)
unfolding split_comma
Good-comma start_pattern x g = absurd g.0
Good-comma negate x g = absurd g.0
Good-comma inside_pattern x g = (start_pattern, scan_step-comma, (g.1.0, g.1.1))

Good-plain :
    (s : Scan) (c : ℕ) (p : Bytes) (ps : List Bytes)
    → Good s (c ∷ p, ps)
    → (s' : Scan) × (scan_step s c ≡ some s') × Good s' (p, ps)
Good-plain start_pattern c p ps (inl (i, a), g) =
    (inside_pattern, scan_step-item start_pattern c i, (a, g))
Good-plain start_pattern c p ps (inr (e, a), g) = (negate, rw e scan_step-bang, (a, g))
Good-plain inside_pattern c p ps ((i, a), g) =
    (inside_pattern, scan_step-item inside_pattern c i, (a, g))
Good-plain negate c p ps ((i, a), g) = (inside_pattern, scan_step-item negate c i, (a, g))

Good-step :
    (s : Scan) (c : ℕ) (x : Bytes)
    → Good s (split_comma (c ∷ x))
    → (s' : Scan) × (scan_step s c ≡ some s') × Good s' (split_comma x)
unfolding split_comma
Good-step s c x g = elim (Bool-cases (c == b',')) [
  | inl e ↦
      let ec : c ≡ b',' = ground arith in
      rw ec (Good-comma s x (subst (λ t. Good s (split_comma (t ∷ x))) ec g))
  | inr n ↦ Good-plain s c (split_comma x).0 (split_comma x).1 (rw n at g)
]

scan_loop_complete :
    (s : Scan) (u : Bool) (x : Bytes)
    → Good s (split_comma x)
    → (v : Bool) × (scan_loop s u x ≡ some (inside_pattern, v))
unfolding scan_loop split_comma
scan_loop_complete start_pattern u [] g = absurd g.0
scan_loop_complete negate u [] g = absurd g.0
scan_loop_complete inside_pattern u [] g = (u, refl)
scan_loop_complete s u (c ∷ x) g =
    let (s', e, g') = Good-step s c x g in
    rw (e, scan_loop) (scan_loop_complete s' (if leb 0x80 c then true else u) x g')

or_true : (v : Bool) → (true && (not v || true)) ≡ true
or_true true = refl
or_true false = refl

-- The texts that the loop takes, by the pieces between their commas.
pub valid_wildmat_lem :
    (x : Bytes)
    → (valid_wildmat x ≡ true)
      ↔ IsPiece (split_comma x).0 × All IsPiece (split_comma x).1 × (utf8_valid x ≡ true)
unfolding valid_wildmat
valid_wildmat_lem x = (sound (scan_loop start_pattern false x) refl, complete)
  where
    sound :
        (r : Option (Scan × Bool))
        → scan_loop start_pattern false x ≡ r
        → scan_end x r ≡ true
        → IsPiece (split_comma x).0 × All IsPiece (split_comma x).1 × (utf8_valid x ≡ true)
    sound none e h = cc
    sound (some (start_pattern, v)) e h = cc
    sound (some (negate, v)) e h = cc
    sound (some (inside_pattern, true)) e h =
        let ((p, ps), low) = scan_loop_sound start_pattern false true x e in (p, ps, h)
    sound (some (inside_pattern, false)) e h =
        let ((p, ps), low) = scan_loop_sound start_pattern false false x e in
        (p, ps, ascii-utf8_valid x (low refl).1)

    complete :
        IsPiece (split_comma x).0 × All IsPiece (split_comma x).1 × (utf8_valid x ≡ true)
        → scan_end x (scan_loop start_pattern false x) ≡ true
    complete (p, ps, valid) =
        let (v, e) = scan_loop_complete start_pattern false x (p, ps) in
        rw (e, scan_end, valid) (or_true v)
