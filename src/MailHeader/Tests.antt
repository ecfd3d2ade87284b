-- ===== src/MailHeader/Tests.antt =====
-- Runs on names of headers.
use nksrv.Base.{◌≡◌, ◌↔◌, refl, map, codes, bytes_eq}
use nksrv.Nntp.Syntax.{lower}
use nksrv.MailHeader.{
  header_map, lookup, canonicalise_slice, unsafe_canonical_header,
  unsafe_map_canonical_original_headers,
}
use nksrv.MailHeader.Laws.{unsafe_canonical_header_iff}

common : unsafe_canonical_header (codes "mime-VERSION") ≡ codes "MIME-Version"
unfolding unsafe_canonical_header lookup header_map canonicalise_slice bytes_eq
common = refl

own_name :
    unsafe_map_canonical_original_headers (codes "x-my-ID") ≡ (codes "X-My-Id", codes "x-my-ID")
unfolding unsafe_map_canonical_original_headers lookup header_map canonicalise_slice bytes_eq
own_name = refl

unsafe_canonical_header_iff_example :
    (unsafe_canonical_header (codes "message-id") ≡ unsafe_canonical_header (codes "MESSAGE-ID"))
    ↔ (map lower (codes "message-id") ≡ map lower (codes "MESSAGE-ID"))
unsafe_canonical_header_iff_example =
    unsafe_canonical_header_iff (codes "message-id") (codes "MESSAGE-ID")
