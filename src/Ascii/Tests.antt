-- ===== src/Ascii/Tests.antt =====
-- Runs of the byte-string helpers.
use nksrv.Base.{arith, ◌≡◌, refl, ◌↔◌, true, [], ◌∷◌, ◌++◌, map, Bytes, codes}
use nksrv.Ascii.{fold_byte, equal_fold, iterate_fields, trim_left_ws, trim_ws}
use nksrv.Ascii.Fold.{lower, equal_fold_iff}
use nksrv.Ascii.Trim.{IsBlank, StartsSolid, trim_left_ws_lem}
use nksrv.Ascii.UnixText.{s_nl, text_read}
use nksrv.Ascii.UnixText.Laws.{
  strip_cr, end_with_nl, TextCall, all_given, read_text, read_text-end_with_nl,
}

equal_fold_iff_example :
    (equal_fold (codes "Subject") (codes "SUBJECT") ≡ true)
    ↔ (map lower (codes "Subject") ≡ map lower (codes "SUBJECT"))
equal_fold_iff_example = equal_fold_iff (codes "Subject") (codes "SUBJECT")

trim_left_ws_lem_example :
    (p : Bytes) × (codes "  a b " ≡ p ++ trim_left_ws (codes "  a b "))
    × IsBlank p
    × StartsSolid (trim_left_ws (codes "  a b "))
trim_left_ws_lem_example = trim_left_ws_lem (codes "  a b ")

equal_fold_runs : equal_fold (codes "Subject") (codes "sUBJECT") ≡ true
unfolding equal_fold fold_byte
equal_fold_runs = refl

iterate_fields_runs :
    iterate_fields (codes " GROUP  misc.test ") ≡ codes "GROUP" ∷ codes "misc.test" ∷ []
unfolding iterate_fields
iterate_fields_runs = refl

trim_ws_runs : trim_ws (codes "  a b ") ≡ codes "a b"
unfolding trim_ws
trim_ws_runs = refl

abbrev first_call : TextCall
first_call = record { room = 4; given = codes "ab" ++ b'\r' ∷ [] }

abbrev second_call : TextCall
second_call = record { room = 2; given = b'\n' ∷ b'c' ∷ [] }

read_text-end_with_nl_example :
    read_text s_nl (first_call ∷ []) second_call
    ≡ end_with_nl (strip_cr (all_given (first_call ∷ []) ++ second_call.given))
read_text-end_with_nl_example =
    read_text-end_with_nl (first_call ∷ []) second_call (omega arith, tt) (omega arith)

read_text_runs :
    read_text s_nl (first_call ∷ []) second_call ≡ codes "ab" ++ b'\n' ∷ b'c' ∷ b'\n' ∷ []
unfolding text_read
read_text_runs = refl
