-- ===== src/MailTools/Tests.antt =====
-- References on concrete input, and the theorem applied to it.
use nksrv.Base.{some, ◌∷◌, [], ◌≡◌, refl, codes, Bytes}
use nksrv.Ascii.{is_printable_ascii}
use nksrv.Nntp.Syntax.{valid_message_id, cut_message_id}
use nksrv.MailTools.{
  extract_all_valid_references, all_references_loop, skip_comment, cut_reference,
  next_reference_loop, next_valid_reference, extract_first_valid_reference,
}

abbrev mentioned : Bytes
mentioned = codes "(see) x <a@b> <c@d>"

first_test : extract_first_valid_reference (codes "(see) x <a@b> <c@d>") ≡ codes "<a@b>"
unfolding extract_first_valid_reference next_valid_reference next_reference_loop skip_comment
    cut_reference valid_message_id cut_message_id is_printable_ascii
first_test = refl

all_test :
    extract_all_valid_references [] (codes "(see) x <a@b> <c@d>")
    ≡ some (codes "<a@b>" ∷ codes "<c@d>" ∷ [])
unfolding extract_all_valid_references all_references_loop next_valid_reference next_reference_loop
    skip_comment cut_reference valid_message_id cut_message_id is_printable_ascii
all_test = refl
