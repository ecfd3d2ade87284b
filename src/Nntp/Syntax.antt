-- ===== src/Nntp/Syntax.antt =====
-- src/nksrv/lib/nntp/servutil.go: the words of the protocol. A slice is its list of bytes, and a
-- routine that writes to its argument returns what the argument holds afterwards.
pub mod Laws
use nksrv.Base.{
  ℕ, zero, suc, ◌+◌, ◌-◌, ◌*◌, ◌/◌, ◌%◌, ◌^◌, Bool, true, false, not, ◌&&◌, ◌||◌, List, [], ◌∷◌,
  ◌++◌, map, Option, none, some, Bytes, codes, bytes_eq, ltb, leb, ◌==◌, within, if◌then◌else◌,
  length, get_or, take, drop,
}
use nksrv.Base.Int.{ℤ, pos, negsuc, to_int64, is_nonneg}
use nksrv.Ascii.{is_ws, is_printable_ascii}
use nksrv.Utf8.{utf8_valid}

abbrev pub upper : ℕ → ℕ
upper c = if within b'a' b'z' c then c - (b'a' - b'A') else c

abbrev pub lower : ℕ → ℕ
lower c = if within b'A' b'Z' c then c + (b'a' - b'A') else c

-- `parseKeyword`: the slice with its first word in capitals, and the length of that word.
unfoldable pub parse_keyword : Bytes → Bytes × ℕ
parse_keyword [] = ([], 0)
parse_keyword (c ∷ b) =
    let (b', i) = parse_keyword b in if is_ws c then (c ∷ b, 0) else (upper c ∷ b', suc i)

-- `ToUpperASCII`, `ToLowerASCII`.
unfoldable pub to_upper_ascii : Bytes → Bytes
to_upper_ascii b = map upper b

unfoldable pub to_lower_ascii : Bytes → Bytes
to_lower_ascii b = map lower b

-- `CutMessageID`: `id[1 : len(id)-1]`, for an `id` of two bytes or more.
unfoldable pub cut_message_id : Bytes → Bytes
cut_message_id id = take (length id - 2) (drop 1 id)

unfoldable pub valid_message_id : Bytes → Bool
valid_message_id id =
    leb 3 (length id)
    && get_or id 0 0 == b'<'
    && get_or id (length id - 1) 0 == b'>'
    && leb (length id) 250
    && is_printable_ascii (cut_message_id id) b'>'

unfoldable pub reserved_message_id : Bytes → Bool
reserved_message_id id = bytes_eq id (codes "<0>") || bytes_eq id (codes "<keepalive@dummy.tld>")

-- `int64(n) > 0` of a `uint64`.
unfoldable pub valid_message_num : ℕ → Bool
valid_message_num n = is_nonneg (to_int64 n) && not (n == 0)

-- `validHeaderQuery`; `hq[0]` panics on an empty slice.
unfoldable pub valid_header_query : Bytes → Option Bool
unfolding is_printable_ascii
valid_header_query [] = none
valid_header_query (c ∷ hq) =
    some (if c == b':' then is_printable_ascii hq b':' else is_printable_ascii (c ∷ hq) b':')

abbrev pub max_group_name_length : ℕ
max_group_name_length = 450

-- A byte of a group name: `wildmat-exact` of RFC 3977.
abbrev pub is_exact : ℕ → Bool
is_exact c =
    within 0x22 0x29 c
    || c == 0x2b
    || within 0x2d 0x3e c
    || within 0x40 0x5a c
    || within 0x5e 0x7e c
    || leb 0x80 c

-- The loop of `ValidGroupSlice`.
group_loop : Bytes → Bool
group_loop [] = true
group_loop (c ∷ s) = if not (is_exact c) then false else group_loop s

unfoldable pub valid_group_slice : Bytes → Bool
unfolding group_loop
valid_group_slice s = if ltb max_group_name_length (length s) then false else group_loop s

-- The loop of `FullValidGroupSlice`; the flag is `hasunicode`, and none an early return.
full_group_loop : Bool → Bytes → Option Bool
full_group_loop hasunicode [] = some hasunicode
full_group_loop hasunicode (c ∷ s) =
    if not (is_exact c) then none else full_group_loop (if leb 0x80 c then true else hasunicode) s

full_group_end : Bytes → Option Bool → Bool
full_group_end s none = false
full_group_end s (some hasunicode) = not hasunicode || utf8_valid s

unfoldable pub full_valid_group_slice : Bytes → Bool
unfolding full_group_loop full_group_end
full_valid_group_slice s =
    if ltb max_group_name_length (length s)
    then false
    else full_group_end s (full_group_loop false s)

abbrev pub is_digit : ℕ → Bool
is_digit c = within b'0' b'9' c

-- `isNumberSlice`.
unfoldable pub is_number_slice : Bytes → Bool
is_number_slice [] = true
is_number_slice (c ∷ x) = if ltb c b'0' || ltb b'9' c then false else is_number_slice x

-- `stoi` and `stoi64`: 64-bit arithmetic that wraps around, on bytes.
stoi_loop : ℕ → Bytes → ℕ
stoi_loop n [] = n
stoi_loop n (c ∷ x) = stoi_loop ((n * 10 + (c + 256 - b'0') % 256) % 2 ^ 64) x

unfoldable pub stoi : Bytes → ℕ
unfolding stoi_loop
stoi x = stoi_loop 0 x
