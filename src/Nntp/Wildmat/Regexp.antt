-- ===== src/Nntp/Wildmat/Regexp.antt =====
-- The expression that `CompileWildmat` writes for a stretch, read by `regexp`.
use nksrv.Base.{
  ℕ, ◌<◌, ◌≡◌, refl, sym, ap, Option, none, some, ◌∙◌, true, false, List, [], ◌∷◌, ◌++◌, Bytes, ltb,
  ◌==◌, if◌then◌else◌, arith, All, Bool-cases, inl, inr, ◌⊎◌,
}
use nksrv.Nntp.Wildmat.{Atom, lit, any_char, many, with_atom, read_atoms, translate, is_alnum}

-- The regular expression of a piece: every byte but `!` translated, between `^` and `$`.
unfoldable pub translated : Bytes → Bytes
translated [] = []
translated (c ∷ p) = if c == b'!' then translated p else translate c ++ translated p

-- What a stretch is to match: `?` any character, `*` any number of them, another byte itself, and
-- `!` is no part of it.
unfoldable pub pattern_atoms : Bytes → List Atom
pattern_atoms [] = []
pattern_atoms (c ∷ p) =
    let rest = pattern_atoms p in
    if c == b'!'
    then rest
    else if c == b'?'
    then any_char ∷ rest
    else if c == b'*'
    then many ∷ rest
    else lit c ∷ rest

abbrev pub IsAscii : Bytes → Type 0
IsAscii = All (λ c. c < 0x80)

-- Text that does not begin with `*`, which would belong to a `.` in front.
abbrev Follows : Bytes → Type 0
Follows [] = ⊥
Follows (c ∷ s) = (c == b'*') ≡ false

Follows-translated : (p : Bytes) → Follows (translated p ++ b'$' ∷ [])
unfolding translated
Follows-translated [] = refl
Follows-translated (c ∷ p) = elim (Bool-cases (c == b'!')) [
  | inl e ↦ rw e (Follows-translated p)
  | inr n ↦ elim (Bool-cases (is_alnum c)) [
    | inl a ↦ (let m : (c == b'*') ≡ false = ground arith in rw (n, a) m)
    | inr a ↦ elim (Bool-cases (c == b'?')) [
      | inl e ↦ rw (n, a, e) refl
      | inr q ↦ elim (Bool-cases (c == b'*')) [
        | inl e ↦ rw (n, a, q, e) refl
        | inr m ↦ rw (n, a, q, m) refl
      ]
    ]
  ]
]

read_atoms-alnum :
    (c : ℕ) (s : Bytes)
    → is_alnum c ≡ true
    → Follows s
    → read_atoms (c ∷ s) ≡ with_atom (lit c) (read_atoms s)
unfolding read_atoms
read_atoms-alnum c [] a f = absurd f
read_atoms-alnum c (d ∷ s) a f =
    let e : (c == b'\\') ≡ false = ground arith in
    let g : (c == b'.') ≡ false = ground arith in rw (e, g, a) refl

read_atoms-any : (s : Bytes) → Follows s → read_atoms (b'.' ∷ s) ≡ with_atom any_char (read_atoms s)
unfolding read_atoms
read_atoms-any [] f = absurd f
read_atoms-any (d ∷ s) f = rw f refl

read_atoms-many : (s : Bytes) → read_atoms (b'.' ∷ b'*' ∷ s) ≡ with_atom many (read_atoms s)
unfolding read_atoms
read_atoms-many s = refl

read_atoms-escaped :
    (c : ℕ) (s : Bytes)
    → ltb c 0x80 ≡ true
    → is_alnum c ≡ false
    → read_atoms (b'\\' ∷ c ∷ s) ≡ with_atom (lit c) (read_atoms s)
unfolding read_atoms
read_atoms-escaped c s l a = rw (l, a) refl

read_atoms-refused : (c : ℕ) (s : Bytes) → ltb c 0x80 ≡ false → read_atoms (b'\\' ∷ c ∷ s) ≡ none
unfolding read_atoms
read_atoms-refused c s l = rw l refl

read_atoms-end : read_atoms (b'$' ∷ []) ≡ some (pattern_atoms [])
unfolding read_atoms pattern_atoms
read_atoms-end = refl

module _ (c : ℕ) (p : Bytes) where
  pattern_atoms-bang : (c == b'!') ≡ true → pattern_atoms (c ∷ p) ≡ pattern_atoms p
  unfolding pattern_atoms
  pattern_atoms-bang n = rw n refl

  pattern_atoms-any :
      (c == b'!') ≡ false → (c == b'?') ≡ true → pattern_atoms (c ∷ p) ≡ any_char ∷ pattern_atoms p
  unfolding pattern_atoms
  pattern_atoms-any n q = rw (n, q) refl

  pattern_atoms-many :
      (c == b'!') ≡ false
      → (c == b'?') ≡ false
      → (c == b'*') ≡ true
      → pattern_atoms (c ∷ p) ≡ many ∷ pattern_atoms p
  unfolding pattern_atoms
  pattern_atoms-many n q m = rw (n, q, m) refl

  pattern_atoms-lit :
      (c == b'!') ≡ false
      → (c == b'?') ≡ false
      → (c == b'*') ≡ false
      → pattern_atoms (c ∷ p) ≡ lit c ∷ pattern_atoms p
  unfolding pattern_atoms
  pattern_atoms-lit n q m = rw (n, q, m) refl

-- How the expression of a stretch is read: to its parts, or not at all.
abbrev pub ReadBack : Bytes → Option (List Atom) → Type 0
ReadBack p o = (IsAscii p × (o ≡ some (pattern_atoms p))) ⊎ ((IsAscii p → ⊥) × (o ≡ none))

ReadBack-cons :
    (c : ℕ) (p : Bytes) (a : Atom) (o : Option (List Atom))
    → c < 0x80
    → pattern_atoms (c ∷ p) ≡ a ∷ pattern_atoms p
    → ReadBack p o
    → ReadBack (c ∷ p) (with_atom a o)
ReadBack-cons c p a o l e (inl (h, f)) =
    inl ((l, h), ap (λ t. with_atom a t) f ∙ ap (λ t. some t) (sym e))
ReadBack-cons c p a o l e (inr (h, f)) = inr (λ t. h t.1, ap (λ t. with_atom a t) f)

pub ReadBack-translated : (p : Bytes) → ReadBack p (read_atoms (translated p ++ b'$' ∷ []))
unfolding translated
ReadBack-translated [] = inl (tt, read_atoms-end)
ReadBack-translated (c ∷ p) = elim (Bool-cases (c == b'!')) [
  | inl e ↦ elim (ReadBack-translated p) [
    | inl (h, f) ↦
        inl ((ground (arith, e), h), rw e (f ∙ ap (λ t. some t) (sym (pattern_atoms-bang c p e))))
    | inr (h, f) ↦ inr (λ t. h t.1, rw e f)
  ]
  | inr n ↦ elim (Bool-cases (is_alnum c)) [
    | inl a ↦
        let l : c < 0x80 = ground arith in
        let q : (c == b'?') ≡ false = ground arith in
        let m : (c == b'*') ≡ false = ground arith in
        rw (n, a, read_atoms-alnum c _ a (Follows-translated p))
          (ReadBack-cons c p (lit c) _ l (pattern_atoms-lit c p n q m) (ReadBack-translated p))
    | inr a ↦ elim (Bool-cases (c == b'?')) [
      | inl q ↦
          let l : c < 0x80 = ground (arith, q) in
          rw (n, a, q, read_atoms-any _ (Follows-translated p))
            (ReadBack-cons c p any_char _ l (pattern_atoms-any c p n q) (ReadBack-translated p))
      | inr q ↦ elim (Bool-cases (c == b'*')) [
        | inl m ↦
            let l : c < 0x80 = ground (arith, m) in
            rw (n, a, q, m, read_atoms-many (translated p ++ b'$' ∷ []))
              (ReadBack-cons c p many _ l (pattern_atoms-many c p n q m) (ReadBack-translated p))
        | inr m ↦ elim (Bool-cases (ltb c 0x80)) [
          | inl t ↦
              let l : c < 0x80 = ground (arith, t) in
              rw (n, a, q, m, read_atoms-escaped c (translated p ++ b'$' ∷ []) t a)
                (ReadBack-cons c p (lit c) _ l (pattern_atoms-lit c p n q m)
                  (ReadBack-translated p))
          | inr t ↦
              rw (n, a, q, m, read_atoms-refused c (translated p ++ b'$' ∷ []) t)
                (inr (λ h. (let l = h.0 in ground (arith, t, l)), refl))
        ]
      ]
    ]
  ]
]
