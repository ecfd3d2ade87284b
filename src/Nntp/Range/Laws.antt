-- ===== src/Nntp/Range/Laws.antt =====
-- What ranges `parseRange` takes, and what it makes of them.
use nksrv.Base.{
  ℕ, ◌+◌, ◌-◌, ◌*◌, ◌^◌, ◌≤◌, ◌<◌, ◌≡◌, refl, ap, ◌≢◌, ◌⊎◌, inl, inr, true, false, [], ◌∷◌, ◌++◌,
  none, some, Bytes, arith, All, Option-cases,
}
use nksrv.Base.Int.{ℤ, pos, negsuc, is_nonneg}
use nksrv.Nntp.Range.{
  uint_loop, parse_uint, cut_dash, Range, range_end, refused, range_last, range_first, range_single,
  range_of, parse_range,
}

abbrev pub IsDigit : ℕ → Type 0
IsDigit c = (b'0' ≤ c) × (c ≤ b'9')

-- The number that digits spell behind `n`, with no bound.
unfoldable pub value : ℕ → Bytes → ℕ
value n [] = n
value n (c ∷ s) = value (n * 10 + (c - b'0')) s

le-value : (n : ℕ) (s : Bytes) → n ≤ value n s
unfolding value
le-value n [] = omega arith
le-value n (c ∷ s) = omega (arith, le-value (n * 10 + (c - b'0')) s)

uint_sound :
    (n : ℕ) (s : Bytes) {r : ℕ}
    → n < 2 ^ 64
    → uint_loop n s ≡ some r
    → All IsDigit s × (r ≡ value n s) × (r < 2 ^ 64)
unfolding uint_loop value
uint_sound n [] fits h = ground arith
uint_sound n (c ∷ s) {r} fits h = ground (arith, uint_sound (n * 10 + (c - b'0')) s {r = r})

uint_complete :
    (n : ℕ) (s : Bytes) → All IsDigit s → value n s < 2 ^ 64 → uint_loop n s ≡ some (value n s)
unfolding uint_loop value
uint_complete n [] d fits = refl
uint_complete n (c ∷ s) (dc, d) fits =
    let m = n * 10 + (c - b'0') in ground (arith, uint_complete m s d fits, le-value m s)

-- A text that `ParseUint` takes is one or more digits whose value fits 64 bits, and the number is
-- that value.
parse_uint_sound :
    (s : Bytes) {r : ℕ}
    → parse_uint s ≡ some r
    → (s ≢ []) × All IsDigit s × (r ≡ value 0 s) × (r < 2 ^ 64)
unfolding parse_uint
parse_uint_sound [] h = cc
parse_uint_sound (c ∷ s) {r} h =
    let (d, e, fits) = uint_sound 0 (c ∷ s) {r = r} (omega arith) h in (λ e. cc, d, e, fits)

-- One or more digits whose value fits 64 bits are taken, with that value.
parse_uint_complete :
    (s : Bytes) → s ≢ [] → All IsDigit s → value 0 s < 2 ^ 64 → parse_uint s ≡ some (value 0 s)
unfolding parse_uint
parse_uint_complete [] ne d fits = absurd (ne refl)
parse_uint_complete (c ∷ s) ne d fits = uint_complete 0 (c ∷ s) d fits

-- The bounds of a range in the form that the callers rely on: `rmin` is a number, and `rmax` a
-- number or -1, for no upper bound.
abbrev pub IsBounded : Range → Type 0
IsBounded r = (is_nonneg r.rmin ≡ true) × ((is_nonneg r.rmax ≡ true) ⊎ (r.rmax ≡ negsuc 0))

range_end_bounded :
    (s : Bytes) (old : ℤ) {z : ℤ} → range_end s old ≡ some z → (is_nonneg z ≡ true) ⊎ (z ≡ old)
unfolding range_end
range_end_bounded [] old h = inr cc
range_end_bounded (c ∷ s) old h = ground (arith, Option-cases (parse_uint (c ∷ s)))

range_last-IsBounded :
    (rmin : ℤ) (b : Bytes)
    → is_nonneg rmin ≡ true
    → IsBounded (range_last rmin (range_end b (negsuc 0)))
unfolding range_last refused
range_last-IsBounded rmin b h = elim (Option-cases (range_end b (negsuc 0))) [
  | inl e ↦ rw e (h, inr refl)
  | inr (z, e) ↦ rw e (h, range_end_bounded b (negsuc 0) e)
]

range_first-IsBounded : (a b : Bytes) → IsBounded (range_first (range_end a (pos 1)) b)
unfolding range_first refused
range_first-IsBounded a b = elim (Option-cases (range_end a (pos 1))) [
  | inl e ↦ rw e (refl, inr refl)
  | inr (z, e) ↦ rw e (
      range_last-IsBounded z b
        (elim (range_end_bounded a (pos 1) e) [ inl h ↦ h | inr h ↦ ap is_nonneg h ]))
]

-- A range with a dash comes back with bounds that are numbers, or -1 for no upper bound, whatever
-- stands around the dash and whether the range is valid or not.
pub parse_range-IsBounded :
    (s : Bytes) {a b : Bytes} → cut_dash s ≡ some (a, b) → IsBounded (parse_range s)
unfolding parse_range
parse_range-IsBounded s {a} {b} h = rw h (range_first-IsBounded a b)

cut_dash-digits : (s rest : Bytes) → All IsDigit s → cut_dash (s ++ b'-' ∷ rest) ≡ some (s, rest)
unfolding cut_dash
cut_dash-digits [] rest d = refl
cut_dash-digits (c ∷ s) rest (dc, d) = ground (arith, cut_dash-digits s rest d)

cut_dash-none : (s : Bytes) → All IsDigit s → cut_dash s ≡ none
unfolding cut_dash
cut_dash-none [] d = refl
cut_dash-none (c ∷ s) (dc, d) = ground (arith, cut_dash-none s d)

-- An end that is left out is 1 below, and -1 above, which stands for no bound.
abbrev pub end_or : ℤ → Bytes → ℤ
end_or old [] = old
end_or old (c ∷ s) = pos (value 0 (c ∷ s))

nonempty : (s : Bytes) → 2 ^ 63 ≤ value 0 s → s ≢ []
unfolding value
nonempty [] h = absurd (omega arith)
nonempty (c ∷ s) h = λ e. cc

range_end-digits :
    (s : Bytes) (old : ℤ)
    → All IsDigit s
    → value 0 s < 2 ^ 63
    → range_end s old ≡ some (end_or old s)
unfolding range_end
range_end-digits [] old d fits = refl
range_end-digits (c ∷ s) old d fits =
    ground (arith, parse_uint_complete (c ∷ s) (λ e. cc) d (omega arith))

-- `num-num`, also with either number left out: the range has the bounds that are written, where
-- those fit int64, and begins at 1 where the first number is missing. That form, as in `-5`, is in
-- neither the comment of `parseRange` nor the grammar of RFC 3977.
pub parse_range-append :
    (a b : Bytes)
    → All IsDigit a
    → All IsDigit b
    → value 0 a < 2 ^ 63
    → value 0 b < 2 ^ 63
    → parse_range (a ++ b'-' ∷ b)
      ≡ record { rmin = end_or (pos 1) a; rmax = end_or (negsuc 0) b; valid = true }
unfolding parse_range
parse_range-append a b da db fa fb = rw (
  cut_dash-digits a b da,
  range_of,
  range_end-digits a (pos 1) da fa,
  range_first,
  range_end-digits b (negsuc 0) db fb,
  range_last,
)

-- A single number of 2^63 or more, which `ParseUint` takes, comes back as a valid range with
-- both bounds negative: `int64(n)` is not tested there as it is for a range with a dash.
pub parse_range_wraps :
    (s : Bytes)
    → All IsDigit s
    → 2 ^ 63 ≤ value 0 s
    → value 0 s < 2 ^ 64
    → ((parse_range s).valid ≡ true)
      × (is_nonneg (parse_range s).rmin ≡ false)
      × (is_nonneg (parse_range s).rmax ≡ false)
unfolding parse_range
parse_range_wraps s d big fits =
    rw (cut_dash-none s d, parse_uint_complete s (nonempty s big) d fits)
      (unfold range_single in ground arith)
