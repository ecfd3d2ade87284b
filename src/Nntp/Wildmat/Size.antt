-- ===== src/Nntp/Wildmat/Size.antt =====
-- The size of the buffer that `CompileWildmat` allocates.
use nksrv.Base.{
  ℕ, ◌+◌, ◌≤◌, ◌≡◌, sym, some, ◌∙◌, Bool, true, false, ◌||◌, List, [], ◌∷◌, map, Bytes, ltb, ◌==◌,
  if◌then◌else◌, length, length-append, arith, All, Bool-cases, inl, inr, ◌⊎◌,
}
use mathlib.Core.Option.{some-injective}
use mathlib.Core.Path.{subst}
use nksrv.Nntp.Wildmat.{
  Piece, translate, is_alnum, compile_wildmat, estimate_loop, estimate_translated_size,
}
use nksrv.Nntp.Wildmat.Scanning.{split_comma}
use nksrv.Nntp.Wildmat.Regexp.{translated}
use nksrv.Nntp.Wildmat.Compile.{piece_of, stretches, push_all-cases, compile_wildmat-push_all}

abbrev is_single : ℕ → Bool
is_single c = is_alnum c || c == b'?'

-- What kind of byte it is, and how many bytes its translation has.
abbrev Kind : ℕ → Type 0
Kind c =
    ((is_single c ≡ true)
      × ((c == b',') ≡ false)
      × ((c == b'!') ≡ false)
      × (length (translate c) ≡ 1))
    ⊎ ((is_single c ≡ false) × ((c == b',') ≡ true))
    ⊎ ((is_single c ≡ false) × ((c == b',') ≡ false) × ((c == b'!') ≡ true))
    ⊎ ((is_single c ≡ false)
        × ((c == b',') ≡ false)
        × ((c == b'!') ≡ false)
        × (length (translate c) ≡ 2))

kind : (c : ℕ) → Kind c
kind c = elim (Bool-cases (is_single c)) [
  | inl s ↦ inl (s, ground arith, ground arith, ground arith)
  | inr s ↦ elim (Bool-cases (c == b',')) [
    | inl e ↦ inr (inl (s, e))
    | inr n ↦ elim (Bool-cases (c == b'!')) [
      | inl e ↦ inr (inr (inl (s, n, e)))
      | inr m ↦ inr (inr (inr (s, n, m, ground arith)))
    ]
  ]
]

-- The bytes that a byte of a piece adds to the estimate are those it adds to the translation.
estimate_loop_lem :
    (x : Bytes) (this max : ℕ)
    → (max ≤ estimate_loop this max x)
      × (this + length (translated (split_comma x).0) ≤ estimate_loop this max x)
      × All (λ p. length (translated p) ≤ estimate_loop this max x) (split_comma x).1
unfolding estimate_loop split_comma translated
estimate_loop_lem [] this max = (ground arith, ground arith, tt)
estimate_loop_lem (c ∷ x) this max = elim (kind c) [
  | inl (s, n, m, l) ↦
      let (a, b, rest) = estimate_loop_lem x (this + 1) max in
      rw (s, n, m)
        (a, omega (arith, length-append {0} (translate c) (translated (split_comma x).0)), rest)
  | inr (inl (s, e)) ↦
      let (a, b, rest) = estimate_loop_lem x 0 (if ltb max this then this else max) in
      rw (s, e) (ground arith, ground arith, (omega arith, rest))
  | inr (inr (inl (s, n, e))) ↦
      let (a, b, rest) = estimate_loop_lem x this max in rw (s, n, e) (a, b, rest)
  | inr (inr (inr (s, n, m, l))) ↦
      let (a, b, rest) = estimate_loop_lem x (this + 2) max in
      rw (s, n, m)
        (a, omega (arith, length-append {0} (translate c) (translated (split_comma x).0)), rest)
]

All-map :
    (n : ℕ) (ps : List Bytes)
    → All (λ p. length (translated p) ≤ n) ps
    → All (λ p. length p.re ≤ 2 + n) (map piece_of ps)
unfolding piece_of
All-map n [] h = tt
All-map n (p ∷ ps) (h, t) =
    (omega (arith, length-append {0} (translated p) (b'$' ∷ [])), All-map n ps t)

-- The buffer of `CompileWildmat`, allocated with `2+estimateTranslatedSize(x)` bytes, never has to
-- grow: no expression is longer.
pub estimate_translated_size_bound :
    (x : Bytes) (w : List Piece)
    → compile_wildmat x ≡ some w
    → All (λ p. length p.re ≤ 2 + estimate_translated_size x) w
unfolding estimate_translated_size
estimate_translated_size_bound x w h = elim (push_all-cases (stretches x) []) [
  | inr (n, e) ↦ cc (h, e, compile_wildmat-push_all x)
  | inl (l, e, m) ↦
      let (a, b, rest) = estimate_loop_lem x 0 0 in
      let q : map piece_of (stretches x) ≡ w =
        some-injective _ w (sym e ∙ sym (compile_wildmat-push_all x) ∙ h) in
      subst (λ t. All (λ p. length p.re ≤ 2 + estimate_loop 0 0 x) t) q
        (All-map (estimate_loop 0 0 x) (stretches x) (omega arith, rest))
]
