-- ===== src/Nntp/Tests.antt =====
-- Runs of the protocol's words, of the wildmats and of a session with the small server.
use mathlib.Core.Option
use nksrv.Base.{
  none, some, ◌≡◌, ◌^◌, ◌%◌, refl, ◌↔◌, ◌⊎◌, true, false, List, [], ◌∷◌, ◌++◌, map, Bytes, codes,
  bytes_eq, arith,
}
use nksrv.Base.Int.{pos, negsuc, is_nonneg}
use nksrv.Utf8.{utf8_valid}
use nksrv.Ascii.{is_printable_ascii, iterate_fields}
use nksrv.Nntp.Syntax.{cut_message_id, valid_message_id, full_valid_group_slice, stoi}
use nksrv.Nntp.Syntax.Laws.{
  IsMessageId, valid_message_id_sound, valid_message_id_complete, stoi-value,
  full_valid_group_slice_iff, IsGroupName,
}
use nksrv.Nntp.Range.{cut_dash, parse_range}
use nksrv.Nntp.Range.Laws.{
  value, IsBounded, parse_range-IsBounded, end_or, parse_range-append, parse_range_wraps,
}
use nksrv.Nntp.Wildmat.{
  Piece, lit, any_char, many, valid_wildmat, read_atoms, read_regexp, push, compile_wildmat, check,
}
use nksrv.Nntp.Wildmat.Grammar.{IsWildmat, valid_wildmat_iff}
use nksrv.Nntp.Wildmat.Compile.{IsCompiled, meaning, compile_wildmat_lem}
use nksrv.Nntp.Wildmat.Check.{NoMatch, Decides, check_lem}
use nksrv.Nntp.Args.{parse_args}
use nksrv.Nntp.Args.Laws.{Accounts, parse_args-Accounts}

valid_message_id_sound_example : IsMessageId (codes "<1@a>") (cut_message_id (codes "<1@a>"))
unfolding valid_message_id is_printable_ascii cut_message_id
valid_message_id_sound_example = valid_message_id_sound (codes "<1@a>") refl

valid_message_id_complete_example :
    (valid_message_id (codes "<1@a>") ≡ true) × (cut_message_id (codes "<1@a>") ≡ codes "1@a")
valid_message_id_complete_example =
    valid_message_id_complete (codes "<1@a>") (codes "1@a")
      (refl, omega arith, omega arith, ground arith)

stoi-value_example : stoi (codes "1042") ≡ value 0 (codes "1042") % 2 ^ 64
stoi-value_example = stoi-value (codes "1042") (ground arith)

full_valid_group_slice_iff_example :
    (full_valid_group_slice (codes "misc.test") ≡ true)
    ↔ ((codes "misc.test" ≡ []) ⊎ IsGroupName (codes "misc.test"))
full_valid_group_slice_iff_example = full_valid_group_slice_iff (codes "misc.test")

parse_range-IsBounded_example : IsBounded (parse_range (codes "10-x"))
unfolding cut_dash
parse_range-IsBounded_example =
    parse_range-IsBounded (codes "10-x") {a = codes "10"} {b = codes "x"} refl

parse_range-append_example :
    parse_range (codes "10" ++ b'-' ∷ [])
    ≡ record { rmin = end_or (pos 1) (codes "10"); rmax = end_or (negsuc 0) []; valid = true }
unfolding value
parse_range-append_example =
    parse_range-append (codes "10") [] (ground arith) tt (omega arith) (omega arith)

parse_range_wraps_example :
    ((parse_range (codes "9223372036854775808")).valid ≡ true)
    × (is_nonneg (parse_range (codes "9223372036854775808")).rmin ≡ false)
    × (is_nonneg (parse_range (codes "9223372036854775808")).rmax ≡ false)
unfolding value
parse_range_wraps_example =
    parse_range_wraps (codes "9223372036854775808") (ground arith) (omega arith) (omega arith)

abbrev wildmat : Bytes
wildmat = codes "misc.*,!misc.test,alt.?"

valid_wildmat_iff_example :
    (valid_wildmat wildmat ≡ true)
    ↔ (utf8_valid wildmat ≡ true)
      × (IsWildmat wildmat ⊎ ((y : Bytes) × (wildmat ≡ b'!' ∷ y) × IsWildmat y))
valid_wildmat_iff_example = valid_wildmat_iff wildmat

compile_wildmat_lem_example : IsCompiled wildmat (compile_wildmat wildmat)
compile_wildmat_lem_example = compile_wildmat_lem wildmat

-- A wildmat of one letter of two bytes is taken, but does not compile.
abbrev umlaut : Bytes
umlaut = 0xc3 ∷ 0xa4 ∷ []

umlaut_test : (valid_wildmat umlaut ≡ true) × (compile_wildmat umlaut ≡ none)
unfolding valid_wildmat compile_wildmat push read_regexp read_atoms utf8_valid
umlaut_test = (refl, refl)

-- What the pieces of a wildmat are read as.
pieces_test :
    Option.map (map meaning) (compile_wildmat (codes "m.*,!?"))
    ≡ some ((some (lit b'm' ∷ lit b'.' ∷ many ∷ []), true) ∷ (some (any_char ∷ []), false) ∷ [])
unfolding compile_wildmat push read_regexp read_atoms
pieces_test = refl

abbrev two_pieces : List Piece
two_pieces =
    record { re = codes "a"; result = true } ∷ record { re = codes "b"; result = false } ∷ []

check_lem_example :
    (NoMatch bytes_eq (codes "b") two_pieces × (check bytes_eq two_pieces (codes "b") ≡ false))
    ⊎ ((p : Piece) × Decides bytes_eq (codes "b") two_pieces p
        × (check bytes_eq two_pieces (codes "b") ≡ p.result))
check_lem_example = check_lem bytes_eq (codes "b") two_pieces

parse_args-Accounts_example :
    Accounts 1 (iterate_fields (codes "misc.test  1-5")) (parse_args 1 (codes "misc.test  1-5"))
parse_args-Accounts_example = parse_args-Accounts 1 (codes "misc.test  1-5")
