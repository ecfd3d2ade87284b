-- ===== src/Utf8.antt =====
-- `utf8.Valid` of Go's standard library, as its documentation and RFC 3629 give it: which bytes may
-- follow a lead byte.
use nksrv.Base.{
  ℕ, zero, suc, Bool, true, false, [], ◌∷◌, ◌&&◌, Bytes, ltb, ◌==◌, within, if◌then◌else◌, ◌≡◌,
  arith, ◌<◌, All, refl,
}

-- How many continuation bytes a lead byte wants, and the range of the first of them.
pub record Lead : Type 0 where
  pub more : ℕ
  pub low : ℕ
  pub high : ℕ

abbrev continuation : ℕ → Lead
continuation n = record { more = n; low = 0x80; high = 0xbf }

-- Zero wanted bytes for a lead byte that is refused.
abbrev lead : ℕ → Lead
lead c =
    if within 0xc2 0xdf c
    then continuation 1
    else if c == 0xe0
    then record { more = 2; low = 0xa0; high = 0xbf }
    else if c == 0xed
    then record { more = 2; low = 0x80; high = 0x9f }
    else if within 0xe1 0xef c
    then continuation 2
    else if c == 0xf0
    then record { more = 3; low = 0x90; high = 0xbf }
    else if within 0xf1 0xf3 c
    then continuation 3
    else if c == 0xf4
    then record { more = 3; low = 0x80; high = 0x8f }
    else continuation 0

-- The loop: the bytes still wanted of the current character, and the range of the next.
utf8_loop : ℕ → ℕ → ℕ → Bytes → Bool
utf8_loop zero lo hi [] = true
utf8_loop (suc n) lo hi [] = false
utf8_loop zero lo hi (c ∷ s) =
    let rest = utf8_loop (lead c).more (lead c).low (lead c).high s in
    let ascii = utf8_loop 0 0x80 0xbf s in
    if ltb c 0x80 then ascii else if (lead c).more == 0 then false else rest
utf8_loop (suc n) lo hi (c ∷ s) = within lo hi c && utf8_loop n 0x80 0xbf s

unfoldable pub utf8_valid : Bytes → Bool
unfolding utf8_loop
utf8_valid s = utf8_loop 0 0x80 0xbf s

pub ascii-utf8_valid : (s : Bytes) → All (λ c. c < 0x80) s → utf8_valid s ≡ true
unfolding utf8_valid
ascii-utf8_valid [] h = refl
ascii-utf8_valid (c ∷ s) (lt, h) = ground (arith, ascii-utf8_valid s h)
