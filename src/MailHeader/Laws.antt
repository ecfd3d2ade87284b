-- ===== src/MailHeader/Laws.antt =====
-- Two names have one canonical form exactly when they are equal up to the case of letters.
use nksrv.Base.{
  ℕ, leb→le, ltb→lt, ◌≤◌, ◌≡◌, refl, sym, ap, ◌∙◌, ◌↔◌, Bool, true, false, ◌&&◌, List, [], ◌∷◌, map,
  Option, none, some, Bytes, leb, ltb, ◌==◌, bytes_eq, bytes_eq_iff, length, arith, Bool-cases,
  Option-cases, inl, inr, length-map,
}
use mathlib.Core.Option.{some-injective}
use nksrv.Nntp.Syntax.{lower}
use nksrv.MailHeader.{
  header_map, lookup, max_common_hdr_len, canonical_byte, canonicalise_loop, canonicalise_slice,
  or_else, find_common_canonical_key, unsafe_canonical_header,
}

canonical_byte-lower : (up : Bool) (c : ℕ) → canonical_byte up (lower c) ≡ canonical_byte up c
canonical_byte-lower true c = ground arith
canonical_byte-lower false c = ground arith

lower-canonical_byte : (up : Bool) (c : ℕ) → lower (canonical_byte up c) ≡ lower c
lower-canonical_byte true c = ground arith
lower-canonical_byte false c = ground arith

dash-lower : (c : ℕ) → (lower c == b'-') ≡ (c == b'-')
dash-lower c = ground arith

canonicalise_loop-lower :
    (up : Bool) (s : Bytes) → canonicalise_loop up (map lower s) ≡ canonicalise_loop up s
canonicalise_loop-lower up [] = refl
canonicalise_loop-lower up (c ∷ s) =
    ap (λ d. d ∷ canonicalise_loop (lower c == b'-') (map lower s)) (canonical_byte-lower up c)
    ∙ ap (λ t. canonical_byte up c ∷ canonicalise_loop t (map lower s)) (dash-lower c)
    ∙ ap (λ t. canonical_byte up c ∷ t) (canonicalise_loop-lower (c == b'-') s)

lower-canonicalise_loop : (up : Bool) (s : Bytes) → map lower (canonicalise_loop up s) ≡ map lower s
lower-canonicalise_loop up [] = refl
lower-canonicalise_loop up (c ∷ s) =
    ap (λ d. d ∷ map lower (canonicalise_loop (c == b'-') s)) (lower-canonical_byte up c)
    ∙ ap (λ t. lower c ∷ t) (lower-canonicalise_loop (c == b'-') s)

-- What holds of each entry of the map: its value is found under the canonical form of the key too, and
-- is the key up to case, and the key is not too long.
abbrev is_found : Bytes → Option Bytes → Bool
is_found v none = false
is_found v (some h) = bytes_eq h v

is_good : Bytes → Bytes → Bool
is_good k v =
    is_found v (lookup header_map (canonicalise_slice k))
    && (bytes_eq (map lower v) (map lower k) && leb (length k) max_common_hdr_len)

all_good : List (Bytes × Bytes) → Bool
all_good [] = true
all_good ((k, v) ∷ es) = is_good k v && all_good es

header_map-good : all_good header_map ≡ true
unfolding lookup canonicalise_slice bytes_eq header_map is_good all_good
header_map-good = refl

and-left : (a b : Bool) → (a && b) ≡ true → a ≡ true
and-left true b h = refl
and-left false b h = h

and-right : (a b : Bool) → (a && b) ≡ true → b ≡ true
and-right true b h = h
and-right false b h = absurd (ground arith)

lookup-good :
    (es : List (Bytes × Bytes)) (s v : Bytes)
    → all_good es ≡ true
    → lookup es s ≡ some v
    → is_good s v ≡ true
unfolding lookup all_good
lookup-good [] s v g e = absurd (ground arith)
lookup-good ((k, h) ∷ es) s v g e = elim (Bool-cases (bytes_eq k s)) [
  | inl b ↦
      let q : h ≡ v = some-injective h v (rw b at e) in
      let c = and-left (is_good k h) (all_good es) g in rw ((bytes_eq_iff k s).0 b, q) at c
  | inr b ↦ lookup-good es s v (and-right (is_good k h) (all_good es) g) (rw b at e)
]

found : (v : Bytes) (o : Option Bytes) → is_found v o ≡ true → o ≡ some v
found v none h = absurd (ground arith)
found v (some h) e = ap some ((bytes_eq_iff h v).0 e)

-- What an entry says of its key.
record Entry (s v : Bytes) : Type 0 where
  canonical : lookup header_map (canonicalise_slice s) ≡ some v
  same : map lower v ≡ map lower s
  short : length s ≤ max_common_hdr_len

lookup-Entry : (s v : Bytes) → lookup header_map s ≡ some v → Entry s v
unfolding is_good
lookup-Entry s v e =
    let g = lookup-good header_map s v header_map-good e in
    let f = is_found v (lookup header_map (canonicalise_slice s)) in
    let l = bytes_eq (map lower v) (map lower s) in
    let n = leb (length s) max_common_hdr_len in
    let r = and-right f (l && n) g in
    record {
      canonical = found v (lookup header_map (canonicalise_slice s)) (and-left f (l && n) g);
      same = (bytes_eq_iff (map lower v) (map lower s)).0 (and-left l n r);
      short = leb→le (length s) max_common_hdr_len (and-right l n r);
    }

canonicalise_slice-same :
    (a b : Bytes) → map lower a ≡ map lower b → canonicalise_slice a ≡ canonicalise_slice b
unfolding canonicalise_slice
canonicalise_slice-same a b h =
    sym (canonicalise_loop-lower true a)
    ∙ ap (canonicalise_loop true) h
    ∙ canonicalise_loop-lower true b

lower-canonicalise_slice : (s : Bytes) → map lower (canonicalise_slice s) ≡ map lower s
unfolding canonicalise_slice
lower-canonicalise_slice s = lower-canonicalise_loop true s

length-canonicalise_slice : (s : Bytes) → length (canonicalise_slice s) ≡ length s
length-canonicalise_slice s =
    sym (length-map (canonicalise_slice s) lower)
    ∙ ap length (lower-canonicalise_slice s)
    ∙ length-map s lower

-- The first look into the map changes nothing.
unsafe_canonical_header_lem :
    (s : Bytes)
    → unsafe_canonical_header s
      ≡ or_else (lookup header_map (canonicalise_slice s)) (canonicalise_slice s)
unfolding unsafe_canonical_header
unsafe_canonical_header_lem s = elim (Option-cases (lookup header_map s)) [
  | inl e ↦ rw (unsafe_canonical_header, e) refl
  | inr (h, e) ↦ rw (unsafe_canonical_header, e, (lookup-Entry s h e).canonical) refl
]

lower-unsafe_canonical_header : (s : Bytes) → map lower (unsafe_canonical_header s) ≡ map lower s
lower-unsafe_canonical_header s =
    rw (unsafe_canonical_header_lem s)
      (elim (Option-cases (lookup header_map (canonicalise_slice s))) [
        | inl e ↦ rw e (lower-canonicalise_slice s)
        | inr (h, e) ↦
            rw e ((lookup-Entry (canonicalise_slice s) h e).same ∙ lower-canonicalise_slice s)
      ])

-- Two names of headers have the same canonical form exactly when they are equal up to the case of letters.
pub unsafe_canonical_header_iff :
    (a b : Bytes)
    → (unsafe_canonical_header a ≡ unsafe_canonical_header b) ↔ (map lower a ≡ map lower b)
unsafe_canonical_header_iff a b = (
  λ h. sym (lower-unsafe_canonical_header a) ∙ ap (map lower) h ∙ lower-unsafe_canonical_header b,
  λ h.
      unsafe_canonical_header_lem a
      ∙ ap (λ c. or_else (lookup header_map c) c) (canonicalise_slice-same a b h)
      ∙ sym (unsafe_canonical_header_lem b),
)

-- The common name that a name of any length and case stands for is the one that its canonical form has in the map.
pub find_common_canonical_key_lem :
    (s : Bytes)
    → find_common_canonical_key s ≡ or_else (lookup header_map (canonicalise_slice s)) []
unfolding find_common_canonical_key
find_common_canonical_key_lem s = elim (Option-cases (lookup header_map s)) [
  | inr (h, e) ↦ rw (find_common_canonical_key, e, (lookup-Entry s h e).canonical) refl
  | inl e ↦ elim (Bool-cases (ltb max_common_hdr_len (length s))) [
    | inr l ↦ rw (find_common_canonical_key, e, l) refl
    | inl l ↦
        rw (find_common_canonical_key, e, l)
          (elim (Option-cases (lookup header_map (canonicalise_slice s))) [
            | inl f ↦ rw f refl
            | inr (h, f) ↦
                let n = (lookup-Entry (canonicalise_slice s) h f).short in
                let k = length-canonicalise_slice s in
                let q = ltb→lt max_common_hdr_len (length s) l in absurd (omega (arith, k, n, q))
          ])
  ]
]
