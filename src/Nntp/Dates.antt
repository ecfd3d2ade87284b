-- ===== src/Nntp/Dates.antt =====
-- `parseDateSlice` and `parseTimeSlice` of src/nksrv/lib/nntp/servutil.go. The current year, which
-- the code reads from the clock, is an argument.
pub mod Laws
use nksrv.Base.{
  ℕ, ◌+◌, ◌-◌, ◌*◌, ◌/◌, ◌%◌, Bool, true, false, not, ◌&&◌, ◌||◌, Bytes, ltb, leb, ◌==◌,
  if◌then◌else◌, length, get_or, take,
}
use nksrv.Nntp.Syntax.{is_number_slice, stoi}

pub record Date : Type 0 where
  pub year : ℕ
  pub month : ℕ
  pub day : ℕ
  pub valid : Bool

-- `int(date[i]-'0')*10 + int(date[i+1]-'0')`; `-` on bytes wraps around.
abbrev pub two_digits : Bytes → ℕ → ℕ
two_digits s i = (get_or s i 0 + 256 - b'0') % 256 * 10 + (get_or s (i + 1) 0 + 256 - b'0') % 256

-- The century of a two-digit year.
century : ℕ → ℕ → ℕ
century current y =
    if leb y (current % 100) then y + current / 100 * 100 else y + (current / 100 - 1) * 100

unfoldable pub parse_date : ℕ → Bytes → Date
unfolding century
parse_date current date =
    let n = length date in
    if ltb n 6 || n == 7 || ltb 12 n || not (is_number_slice date)
    then record { year = 0; month = 0; day = 0; valid = false }
    else (let d = two_digits date (n - 2) in
        let m = two_digits date (n - 4) in
        let y =
          if not (n == 6) then stoi (take (n - 4) date) else century current (two_digits date 0) in
        record { year = y; month = m; day = d; valid = ltb 0 m && leb m 12 && ltb 0 d })

pub record Clock : Type 0 where
  pub hour : ℕ
  pub minute : ℕ
  pub second : ℕ
  pub valid : Bool

unfoldable pub parse_time : Bytes → Clock
parse_time t =
    if not (length t == 6) || not (is_number_slice t)
    then record { hour = 0; minute = 0; second = 0; valid = false }
    else (let h = two_digits t 0 in
        let m = two_digits t 2 in
        let s = two_digits t 4 in
        record { hour = h; minute = m; second = s; valid = leb h 24 && ltb m 60 && leb s 61 })
