-- ===== src/Ascii.antt =====
-- The byte-string helpers of src/nksrv/lib/utils/text/asciiutils/asciiutils.go. A Go string or
-- slice is its list of bytes; an index loop is a recursion on the rest of the list, and a loop
-- from the end is a recursion on the reversed list.
pub mod Fold
pub mod Trim
pub mod Fields
pub mod UnixText
mod Tests
use nksrv.Base.{
  ℕ, ◌+◌, ◌-◌, Bool, true, false, not, ◌&&◌, ◌||◌, List, [], ◌∷◌, ◌++◌, reverse, Bytes, ltb, leb,
  ◌==◌, within, if◌then◌else◌, Option, none, some, length,
}

abbrev pub is_ws : ℕ → Bool
is_ws c = c == b' ' || c == b'\t'

-- The two bytes in order: `if ac > bc { ac, bc = bc, ac }`, then the letter test.
abbrev fold_ordered : ℕ → ℕ → Bool
fold_ordered ac bc = within b'A' b'Z' ac && (ac + b'a' - b'A' == bc)

-- One round of the three loops: whether it goes on.
unfoldable pub fold_byte : ℕ → ℕ → Bool
fold_byte ac bc =
    if ac == bc then true else if ltb bc ac then fold_ordered bc ac else fold_ordered ac bc

-- The loop over `i`, on what is left of the two strings.
equal_fold_loop : Bytes → Bytes → Bool
equal_fold_loop [] b = true
equal_fold_loop (x ∷ a) [] = false
equal_fold_loop (x ∷ a) (y ∷ b) = if fold_byte x y then equal_fold_loop a b else false

unfoldable pub equal_fold : Bytes → Bytes → Bool
unfolding equal_fold_loop
equal_fold a b = if not (length a == length b) then false else equal_fold_loop a b

starts_fold_loop : Bytes → Bytes → Bool
starts_fold_loop b [] = true
starts_fold_loop [] (y ∷ s) = false
starts_fold_loop (x ∷ b) (y ∷ s) = if fold_byte x y then starts_fold_loop b s else false

-- `StartsWithFoldString(b, s)`.
unfoldable pub starts_with_fold : Bytes → Bytes → Bool
unfolding starts_fold_loop
starts_with_fold b s = if ltb (length b) (length s) then false else starts_fold_loop b s

-- `EndsWithFoldString(b, s)` reads `b[len(b)-i]` and `s[len(s)-i]` for i = 1, 2, ….
unfoldable pub ends_with_fold : Bytes → Bytes → Bool
unfolding starts_fold_loop
ends_with_fold b s =
    if ltb (length b) (length s) then false else starts_fold_loop (reverse b) (reverse s)

-- `UntilString`.
unfoldable pub until : Bytes → ℕ → Bytes
until [] c = []
until (x ∷ s) c = if not (x == c) then x ∷ until s c else []

-- `IterateFields`: the arguments of the calls of `f`, in order. The mode is the bytes read since
-- `is`, or none while spaces are skipped.
unfoldable pub fields_loop : Option Bytes → Bytes → List Bytes
fields_loop none [] = []
fields_loop (some cur) [] = cur ∷ []
fields_loop none (c ∷ s) = if is_ws c then fields_loop none s else fields_loop (some (c ∷ [])) s
fields_loop (some cur) (c ∷ s) =
    let skip = fields_loop none s in
    let more = fields_loop (some (cur ++ c ∷ [])) s in if is_ws c then cur ∷ skip else more

unfoldable pub iterate_fields : Bytes → List Bytes
unfolding fields_loop
iterate_fields s = fields_loop none s

-- `TrimLeftWSBytes`, and the first loop of `TrimWSBytes` and `TrimWSString`.
unfoldable pub trim_left_ws : Bytes → Bytes
trim_left_ws [] = []
trim_left_ws (c ∷ b) = if is_ws c then trim_left_ws b else c ∷ b

-- The second loop: `y` goes down while `b[y-1]` is a space.
trim_right_ws : Bytes → Bytes
unfolding trim_left_ws
trim_right_ws b = reverse (trim_left_ws (reverse b))

unfoldable pub trim_ws : Bytes → Bytes
unfolding trim_left_ws trim_right_ws
trim_ws b = trim_right_ws (trim_left_ws b)

-- `IsPrintableASCIISlice` and `IsPrintableASCIIStr`.
unfoldable pub is_printable_ascii : Bytes → ℕ → Bool
is_printable_ascii [] e = true
is_printable_ascii (c ∷ s) e =
    if leb c 32 || leb 127 c || c == e then false else is_printable_ascii s e

-- `Is7BitBytes` and `Is7BitString`.
unfoldable pub is_7bit : Bytes → Bool
is_7bit [] = true
is_7bit (c ∷ s) = if leb 0x80 c then false else is_7bit s

-- `ContainsControlString`.
unfoldable pub contains_control : Bytes → Bool
contains_control [] = false
contains_control (c ∷ s) =
    if (ltb c 0x20 && not (c == b'\t')) || c == 0x7f then true else contains_control s

-- `TrimUnixNL`, on the reversed string: its last two bytes come first.
trim_nl_reversed : Bytes → Bytes
trim_nl_reversed (x ∷ y ∷ s) = if x == b'\n' && not (y == b'\n') then y ∷ s else x ∷ y ∷ s
trim_nl_reversed s = s

unfoldable pub trim_unix_nl : Bytes → Bytes
unfolding trim_nl_reversed
trim_unix_nl s = reverse (trim_nl_reversed (reverse s))
