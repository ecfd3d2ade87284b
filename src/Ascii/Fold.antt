-- ===== src/Ascii/Fold.antt =====
-- Comparison without regard to case, against equality of the lower-case forms.
use mathlib.Core.List.{reverse-append, reverse-reverse}
use nksrv.Base.{
  ℕ, ◌+◌, ◌≡◌, refl, sym, ap, ◌∙◌, ◌↔◌, true, [], ◌∷◌, ◌++◌, map, reverse, Bytes, arith, within,
  if◌then◌else◌, length, ◌==◌, length-append, length-map, length-reverse, map-reverse, ==_iff,
  Bool-cases, ◌≤◌, inl, inr,
}
use nksrv.Ascii.{
  fold_byte, equal_fold_loop, equal_fold, starts_fold_loop, starts_with_fold, ends_with_fold,
}

-- An ASCII capital becomes a small letter.
abbrev pub lower : ℕ → ℕ
lower c = if within b'A' b'Z' c then c + 32 else c

fold_byte_iff : (x y : ℕ) → (fold_byte x y ≡ true) ↔ (lower x ≡ lower y)
unfolding fold_byte
fold_byte_iff x y = (λ h. ground arith, λ h. ground arith)

loop_iff :
    (a b : Bytes) → length a ≡ length b → (equal_fold_loop a b ≡ true) ↔ (map lower a ≡ map lower b)
unfolding equal_fold_loop
loop_iff [] [] e = (λ h. refl, λ h. refl)
loop_iff [] (y ∷ b) e = absurd (omega arith)
loop_iff (x ∷ a) [] e = absurd (omega arith)
loop_iff (x ∷ a) (y ∷ b) e =
    let ih = loop_iff a b (omega arith) in
    let eb = fold_byte_iff x y in (λ h. ground (arith, ih, eb), λ h. ground (arith, ih, eb))

-- Two strings are equal by `EqualFoldString` exactly when their lower-case forms are equal.
pub equal_fold_iff : (a b : Bytes) → (equal_fold a b ≡ true) ↔ (map lower a ≡ map lower b)
unfolding equal_fold
equal_fold_iff a b = elim (Bool-cases (length a == length b)) [
  | inl e ↦ rw e (loop_iff a b ((==_iff (length a) (length b)).0 e))
  | inr ne ↦ (
    λ h. ground arith,
    λ h. ground (arith, sym (length-map a lower) ∙ ap length h ∙ length-map b lower),
  )
]

-- `s` is a prefix of `b` up to case: `b` splits into a part with the lower-case form of `s`, and a rest.
abbrev pub FoldPrefix : Bytes → Bytes → Type 0
FoldPrefix b s = (p : Bytes) × (r : Bytes) × (b ≡ p ++ r) × (map lower p ≡ map lower s)

-- `s` is a suffix of `b` up to case.
abbrev pub FoldSuffix : Bytes → Bytes → Type 0
FoldSuffix b s = (r : Bytes) × (p : Bytes) × (b ≡ r ++ p) × (map lower p ≡ map lower s)

starts_sound : (b s : Bytes) → starts_fold_loop b s ≡ true → FoldPrefix b s
unfolding starts_fold_loop
starts_sound b [] h = ([], b, refl, refl)
starts_sound [] (y ∷ s) h = cc
starts_sound (x ∷ b) (y ∷ s) h =
    let same : fold_byte x y ≡ true = ground arith in
    let (p, r, eb, es) = starts_sound b s (ground arith) in
    (x ∷ p, r, cc, cc ((fold_byte_iff x y).0 same))

starts_complete : (s p r : Bytes) → map lower p ≡ map lower s → starts_fold_loop (p ++ r) s ≡ true
unfolding starts_fold_loop
starts_complete [] p r e = refl
starts_complete (y ∷ s) [] r e = cc
starts_complete (y ∷ s) (x ∷ p) r e =
    rw ((fold_byte_iff x y).1 (ground arith)) (starts_complete s p r (ground arith))

-- A string no shorter than `s` is all that the length test lets through.
prefix_length : (b s : Bytes) → FoldPrefix b s → length s ≤ length b
prefix_length b s (p, r, eb, es) = omega (
  arith,
  ap length es,
  length-map {0, 0} p lower,
  length-map {0, 0} s lower,
  ap length eb,
  length-append {0} p r,
)

-- `StartsWithFoldString(b, s)` says exactly whether `s` is a prefix of `b` up to case.
pub starts_with_fold_iff : (b s : Bytes) → (starts_with_fold b s ≡ true) ↔ FoldPrefix b s
unfolding starts_with_fold
starts_with_fold_iff b s = (λ h. starts_sound b s (ground arith), λ h. starts_true h)
  where
    starts_true : FoldPrefix b s → starts_with_fold b s ≡ true
    starts_true h =
        let fits = prefix_length b s h in
        let looped : starts_fold_loop b s ≡ true = rw h.2 (starts_complete s h.0 h.1 h.3) in
        ground arith

reversed : (b p r : Bytes) → reverse b ≡ p ++ r → b ≡ reverse r ++ reverse p
reversed b p r e = sym (reverse-reverse b) ∙ ap reverse e ∙ reverse-append p r

-- `EndsWithFoldString(b, s)` says exactly whether `s` is a suffix of `b` up to case.
pub ends_with_fold_iff : (b s : Bytes) → (ends_with_fold b s ≡ true) ↔ FoldSuffix b s
unfolding ends_with_fold
ends_with_fold_iff b s =
    (λ h. sound (starts_sound (reverse b) (reverse s) (ground arith)), complete)
  where
    sound : FoldPrefix (reverse b) (reverse s) → FoldSuffix b s
    sound (p, r, eb, es) = (
      reverse r,
      reverse p,
      reversed b p r eb,
      map-reverse lower p
          ∙ ap reverse es
          ∙ ap reverse (map-reverse lower s)
          ∙ reverse-reverse (map lower s),
    )

    complete : FoldSuffix b s → ends_with_fold b s ≡ true
    complete (r, p, eb, es) =
        let pre : FoldPrefix (reverse b) (reverse s) = (
          reverse p,
          reverse r,
          ap reverse eb ∙ reverse-append r p,
          map-reverse lower p ∙ ap reverse es ∙ sym (map-reverse lower s),
        ) in
        let fits = prefix_length (reverse b) (reverse s) pre in
        let looped : starts_fold_loop (reverse b) (reverse s) ≡ true =
          rw pre.2 (starts_complete (reverse s) pre.0 pre.1 pre.3) in
        ground (arith, length-reverse b, length-reverse s)
