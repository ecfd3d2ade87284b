-- ===== src/Nntp/Dates/Laws.antt =====
-- What dates and times are read, and the century of a two-digit year.
use nksrv.Base.{
  ℕ, ◌+◌, ◌-◌, ◌*◌, ◌/◌, ◌%◌, ◌≤◌, ◌<◌, ◌≡◌, refl, true, ◌&&◌, [], ◌∷◌, Bytes, ltb, leb, arith,
}
use nksrv.Nntp.Syntax.{is_number_slice}
use nksrv.Nntp.Dates.{century, parse_date, parse_time}

-- Two digits of a number below 100.
abbrev pub digits2 : ℕ → Bytes → Bytes
digits2 n rest = (b'0' + n / 10) ∷ (b'0' + n % 10) ∷ rest

-- `YYYYMMDD`, and `YYMMDD`.
abbrev pub long_date : ℕ → ℕ → ℕ → Bytes
long_date y m d = digits2 (y / 100) (digits2 (y % 100) (digits2 m (digits2 d [])))

abbrev pub short_date : ℕ → ℕ → ℕ → Bytes
short_date y m d = digits2 y (digits2 m (digits2 d []))

nil_number : is_number_slice [] ≡ true
unfolding is_number_slice
nil_number = refl

is_number_slice-digits2 :
    (n : ℕ) (rest : Bytes)
    → n < 100
    → is_number_slice rest ≡ true
    → is_number_slice (digits2 n rest) ≡ true
unfolding is_number_slice
is_number_slice-digits2 n rest h e = ground arith

two_digits-digits2 :
    (n : ℕ)
    → n < 100
    → (b'0' + n / 10 + 256 - b'0') % 256 * 10 + (b'0' + n % 10 + 256 - b'0') % 256 ≡ n
two_digits-digits2 n h = omega arith

century_lem :
    (current y : ℕ)
    → 100 ≤ current
    → y < 100
    → (century current y % 100 ≡ y)
      × (century current y ≤ current)
      × (current < century current y + 100)
unfolding century
century_lem current y hc hy = (ground arith, ground arith, ground arith)

-- RFC 3977: a two-digit year is that of the last hundred years, the current one included.
pub parse_date-short_date :
    (current y m d : ℕ)
    → 100 ≤ current
    → y < 100
    → m < 100
    → d < 100
    → let date = parse_date current (short_date y m d) in
      (date.year % 100 ≡ y)
      × (date.year ≤ current)
      × (current < date.year + 100)
      × (date.month ≡ m)
      × (date.day ≡ d)
unfolding parse_date
parse_date-short_date current y m d hc hy hm hd =
    let number = is_number_slice-digits2 in
    rw
      (
        number y _ hy (number m _ hm (number d [] hd nil_number)),
        two_digits-digits2 y hy,
        two_digits-digits2 m hm,
        two_digits-digits2 d hd,
      )
      (let (a, b, c) = century_lem current y hc hy in (a, b, c, refl, refl))

-- `hhmmss` is read as written, and it is valid when the hour is at most 24, the minute below 60 and
-- the second at most 61.
pub parse_time-digits :
    (h m s : ℕ)
    → h < 100
    → m < 100
    → s < 100
    → parse_time (digits2 h (digits2 m (digits2 s [])))
      ≡ record { hour = h; minute = m; second = s; valid = leb h 24 && ltb m 60 && leb s 61 }
unfolding parse_time
parse_time-digits h m s hh hm hs =
    let number = is_number_slice-digits2 in
    rw (
      number h _ hh (number m _ hm (number s [] hs nil_number)),
      two_digits-digits2 h hh,
      two_digits-digits2 m hm,
      two_digits-digits2 s hs,
    )
