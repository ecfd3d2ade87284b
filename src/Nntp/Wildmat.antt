-- ===== src/Nntp/Wildmat.antt =====
-- src/nksrv/lib/nntp/wildmat.go: the test of a wildmat, its translation to regular expressions,
-- and the check of a name. A piece keeps the text that is handed to `regexp.MustCompile`, whose panic
-- is modelled for the part of its syntax that the source writes; a matcher is an argument of the check.
pub mod Scanning
pub mod Grammar
pub mod Regexp
pub mod Compile
pub mod Size
pub mod Check
use nksrv.Base.{
  ℕ, ◌+◌, Bool, true, false, not, ◌&&◌, ◌||◌, List, [], ◌∷◌, ◌++◌, Option, none, some, Bytes, ltb,
  leb, ◌==◌, within, if◌then◌else◌,
}
use nksrv.Utf8.{utf8_valid}
use nksrv.Nntp.Syntax.{is_exact}

pub data Scan : Type 0 where
  start_pattern inside_pattern negate : Scan

abbrev pub is_start : Scan → Bool
is_start start_pattern = true
is_start _ = false

abbrev pub is_inside : Scan → Bool
is_inside inside_pattern = true
is_inside _ = false

-- `wildmat-exact` or `wildmat-wild`.
abbrev pub is_item : ℕ → Bool
is_item c = is_exact c || c == b'*' || c == b'?'

-- The next state; none is the early `return false`.
scan_step : Scan → ℕ → Option Scan
scan_step s c =
    if is_item c
    then some inside_pattern
    else if c == b'!' && is_start s
    then some negate
    else if c == b',' && is_inside s
    then some start_pattern
    else none

-- The loop over the bytes: the state and `hasunicode` behind it, or none for an early return.
scan_loop : Scan → Bool → Bytes → Option (Scan × Bool)
scan_loop s u [] = some (s, u)
scan_loop s u (c ∷ x) = elim (scan_step s c) [
  | none ↦ none
  | some s' ↦ scan_loop s' (if leb 0x80 c then true else u) x
]

scan_end : Bytes → Option (Scan × Bool) → Bool
scan_end x none = false
scan_end x (some (s, u)) = is_inside s && (not u || utf8_valid x)

unfoldable pub valid_wildmat : Bytes → Bool
unfolding scan_step scan_loop scan_end
valid_wildmat x = scan_end x (scan_loop start_pattern false x)

abbrev pub is_alnum : ℕ → Bool
is_alnum c = within b'0' b'9' c || within b'A' b'Z' c || within b'a' b'z' c

-- The loop of `estimateTranslatedSize` over `this` and `max`.
estimate_loop : ℕ → ℕ → Bytes → ℕ
estimate_loop this max [] = if ltb max this then this else max
estimate_loop this max (c ∷ x) =
    let comma = estimate_loop 0 (if ltb max this then this else max) x in
    let alnum = estimate_loop (this + 1) max x in
    let bang = estimate_loop this max x in
    let punct = estimate_loop (this + 2) max x in
    if is_alnum c || c == b'?'
    then alnum
    else if c == b','
    then comma
    else if c == b'!'
    then bang
    else punct

unfoldable pub estimate_translated_size : Bytes → ℕ
unfolding estimate_loop
estimate_translated_size x = estimate_loop 0 0 x

-- `wildmatPiece`, with the text of its regular expression.
pub record Piece : Type 0 where
  pub re : Bytes
  pub result : Bool

-- What is written to the buffer for one byte that ends no piece.
abbrev pub translate : ℕ → Bytes
translate c =
    if is_alnum c
    then c ∷ []
    else if c == b'?'
    then b'.' ∷ []
    else if c == b'*'
    then b'.' ∷ b'*' ∷ []
    else b'\\' ∷ c ∷ []

-- What an expression matches, part by part: a byte, any character, or any number of them.
pub data Atom : Type 0 where
  lit : ℕ → Atom
  any_char many : Atom

abbrev pub with_atom : Atom → Option (List Atom) → Option (List Atom)
with_atom a none = none
with_atom a (some l) = some (a ∷ l)

-- What may follow a backslash for itself: punctuation, but no byte of 0x80 or more.
abbrev pub is_escapable : ℕ → Bool
is_escapable c = ltb c 0x80 && not (is_alnum c)

-- The part of the syntax of `regexp` that the source writes, up to the `$` at the end: letters and
-- digits, `.`, `.*`, and a backslash before punctuation. None is an error.
unfoldable pub read_atoms : Bytes → Option (List Atom)
read_atoms [] = none
read_atoms (c ∷ []) = if c == b'$' then some [] else none
read_atoms (c ∷ d ∷ s) =
    let short = read_atoms (d ∷ s) in
    let long = read_atoms s in
    if c == b'\\'
    then (if is_escapable d then with_atom (lit d) long else none)
    else if c == b'.'
    then (if d == b'*' then with_atom many long else with_atom any_char short)
    else if is_alnum c
    then with_atom (lit c) short
    else none

unfoldable pub read_regexp : Bytes → Option (List Atom)
read_regexp [] = none
read_regexp (c ∷ s) = if c == b'^' then read_atoms s else none

-- A piece behind the others; none where `regexp.MustCompile` panics.
unfoldable pub push : List Piece → Bytes → Bool → Option (List Piece)
push w b result = elim (read_regexp (b ++ b'$' ∷ [])) [
  | none ↦ none
  | some l ↦ some (w ++ record { re = b ++ b'$' ∷ []; result = result } ∷ [])
]

-- The loop of `CompileWildmat` over the buffer, `result` and `w`.
compile_loop : Bytes → Bool → List Piece → Bytes → Option (List Piece)
compile_loop b result w [] = push w b result
compile_loop b result w (c ∷ x) =
    let cut : Option (List Piece) = elim (push w b result) [
      | none ↦ none
      | some w' ↦ compile_loop (b'^' ∷ []) true w' x
    ] in
    let bang = compile_loop b false w x in
    let write = compile_loop (b ++ translate c) result w x in
    if c == b',' then cut else if c == b'!' then bang else write

-- None is a panic.
unfoldable pub compile_wildmat : Bytes → Option (List Piece)
unfolding compile_loop
compile_wildmat x = compile_loop (b'^' ∷ []) true [] x

module _ (matches : Bytes → Bytes → Bool) where
  -- The loop of `CheckString` and `CheckBytes`: later pieces override earlier ones.
  check_loop : Bool → List Piece → Bytes → Bool
  check_loop result [] s = result
  check_loop result (p ∷ w) s = check_loop (if matches p.re s then p.result else result) w s

  unfoldable pub check : List Piece → Bytes → Bool
  unfolding check_loop
  check w s = check_loop false w s
