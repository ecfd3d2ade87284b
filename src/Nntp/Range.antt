-- ===== src/Nntp/Range.antt =====
-- `parseRange` of src/nksrv/lib/nntp/servutil.go, over `strconv.ParseUint(s, 10, 64)` of the
-- standard library: it refuses an empty text, a byte that is no digit, and a value of 2^64 or more.
pub mod Laws
use mathlib.Core.Option
use nksrv.Base.{
  ℕ, ◌+◌, ◌-◌, ◌*◌, ◌^◌, Bool, true, false, ◌||◌, [], ◌∷◌, Option, none, some, Bytes, ltb, leb,
  ◌==◌, if◌then◌else◌,
}
use nksrv.Base.Int.{ℤ, pos, negsuc, to_int64, is_nonneg}

uint_loop : ℕ → Bytes → Option ℕ
uint_loop n [] = some n
uint_loop n (c ∷ s) =
    let n' = n * 10 + (c - b'0') in
    if ltb c b'0' || ltb b'9' c then none else if leb (2 ^ 64) n' then none else uint_loop n' s

unfoldable pub parse_uint : Bytes → Option ℕ
unfolding uint_loop
parse_uint [] = none
parse_uint (c ∷ s) = uint_loop 0 (c ∷ s)

-- `strings.IndexByte(s, '-')`, as the parts before and behind the first dash.
unfoldable pub cut_dash : Bytes → Option (Bytes × Bytes)
cut_dash [] = none
cut_dash (c ∷ s) =
    if c == b'-'
    then some ([], s)
    else Option.map (λ (p : Bytes × Bytes). (c ∷ p.0, p.1)) (cut_dash s)

-- `rmin`, `rmax` and `valid`.
pub record Range : Type 0 where
  pub rmin : ℤ
  pub rmax : ℤ
  pub valid : Bool

-- One end of a range with a dash: none is the error of `ParseUint`. An end that is left out, or
-- that does not fit `int64`, stays as it was.
range_end : Bytes → ℤ → Option ℤ
range_end [] old = some old
range_end (c ∷ s) old =
    Option.map (λ n. if is_nonneg (to_int64 n) then to_int64 n else old) (parse_uint (c ∷ s))

refused : ℤ → Range
refused rmin = record { rmin = rmin; rmax = negsuc 0; valid = false }

range_last : ℤ → Option ℤ → Range
range_last rmin none = refused rmin
range_last rmin (some rmax) = record { rmin = rmin; rmax = rmax; valid = true }

range_first : Option ℤ → Bytes → Range
range_first none b = refused (pos 1)
range_first (some rmin) b = range_last rmin (range_end b (negsuc 0))

range_single : Option ℕ → Range
range_single none = refused (pos 1)
range_single (some n) = record { rmin = to_int64 n; rmax = to_int64 n; valid = true }

range_of : Bytes → Option (Bytes × Bytes) → Range
range_of s none = range_single (parse_uint s)
range_of s (some (a, b)) = range_first (range_end a (pos 1)) b

unfoldable pub parse_range : Bytes → Range
unfolding range_end refused range_last range_first range_single range_of
parse_range s = range_of s (cut_dash s)
