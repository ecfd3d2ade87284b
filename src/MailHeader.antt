-- ===== src/MailHeader.antt =====
-- src/nksrv/lib/mail/common.go and headermap.go: the canonical form of the name of a header.
pub mod Laws
mod Tests
use nksrv.Base.{
  ℕ, ◌+◌, ◌-◌, Bool, true, false, List, [], ◌∷◌, ◌++◌, map, Option, none, some, Bytes, codes, ltb,
  ◌==◌, within, if◌then◌else◌, bytes_eq, length,
}

-- The overrides of `headerMap`.
abbrev pub overrides : List (Bytes × Bytes)
overrides =
    (codes "Message-Id", codes "Message-ID")
    ∷ (codes "Content-Id", codes "Content-ID")
    ∷ (codes "List-Id", codes "List-ID")
    ∷ (codes "Mime-Version", codes "MIME-Version")
    ∷ (codes "Nntp-Posting-Date", codes "NNTP-Posting-Date")
    ∷ (codes "Nntp-Posting-Host", codes "NNTP-Posting-Host")
    ∷ (codes "X-Pubkey-Ed25519", codes "X-PubKey-Ed25519")
    ∷ (codes "X-Signature-Ed25519-Sha512", codes "X-Signature-Ed25519-SHA512")
    ∷ (codes "X-Signature-Ed25519-Blake2b", codes "X-Signature-Ed25519-BLAKE2b")
    ∷ (codes "X-Frontend-Pubkey", codes "X-Frontend-PubKey")
    ∷ (codes "X-Encrypted-Ip", codes "X-Encrypted-IP")
    ∷ (codes "X-I2p-Desthash", codes "X-I2P-DestHash")
    ∷ []

-- `commonHeadersList`.
abbrev pub common_headers_list : List Bytes
common_headers_list =
    codes "Also-Control"
    ∷ codes "Approved"
    ∷ codes "Archive"
    ∷ codes "Article-Names"
    ∷ codes "Article-Updates"
    ∷ codes "Bcc"
    ∷ codes "Bytes"
    ∷ codes "Cancel-Key"
    ∷ codes "Cancel-Lock"
    ∷ codes "Cc"
    ∷ codes "Comments"
    ∷ codes "Content-Description"
    ∷ codes "Content-Disposition"
    ∷ codes "Content-Language"
    ∷ codes "Content-Transfer-Encoding"
    ∷ codes "Content-Type"
    ∷ codes "Control"
    ∷ codes "Date"
    ∷ codes "Date-Received"
    ∷ codes "Distribution"
    ∷ codes "Expires"
    ∷ codes "Face"
    ∷ codes "Followup-To"
    ∷ codes "From"
    ∷ codes "Importance"
    ∷ codes "In-Reply-To"
    ∷ codes "Injection-Date"
    ∷ codes "Injection-Info"
    ∷ codes "Keywords"
    ∷ codes "Lines"
    ∷ codes "Newsgroups"
    ∷ codes "Organization"
    ∷ codes "Path"
    ∷ codes "Posting-Version"
    ∷ codes "Received"
    ∷ codes "References"
    ∷ codes "Relay-Version"
    ∷ codes "Return-Path"
    ∷ codes "Reply-To"
    ∷ codes "See-Also"
    ∷ codes "Sender"
    ∷ codes "Subject"
    ∷ codes "Summary"
    ∷ codes "Supersedes"
    ∷ codes "To"
    ∷ codes "User-Agent"
    ∷ codes "Xref"
    ∷ codes "X-Antivirus"
    ∷ codes "X-Antivirus-Status"
    ∷ codes "X-Complaints-To"
    ∷ codes "X-Complaints-Info"
    ∷ codes "X-Face"
    ∷ codes "X-Mailer"
    ∷ codes "X-Mozilla-News-Host"
    ∷ codes "X-Newsreader"
    ∷ codes "X-Notice"
    ∷ codes "X-Original-Bytes"
    ∷ codes "X-Priority"
    ∷ codes "X-Received"
    ∷ codes "X-Received-Bytes"
    ∷ codes "X-Trace"
    ∷ codes "X-Frontend-Signature"
    ∷ codes "X-Tor-Poster"
    ∷ codes "X-Sage"
    ∷ []

abbrev pub self : Bytes → Bytes × Bytes
self s = (s, s)

-- `headerMap` behind `init`: the overrides, their values and the common names, which map to themselves.
unfoldable pub header_map : List (Bytes × Bytes)
header_map = overrides ++ map (λ e. self e.1) overrides ++ map self common_headers_list

unfoldable pub lookup : List (Bytes × Bytes) → Bytes → Option Bytes
lookup [] s = none
lookup ((k, v) ∷ es) s = if bytes_eq k s then some v else lookup es s

-- `maxCommonHdrLen`.
abbrev pub max_common_hdr_len : ℕ
max_common_hdr_len = 32

abbrev pub canonical_byte : Bool → ℕ → ℕ
canonical_byte true c = if within b'a' b'z' c then c - (b'a' - b'A') else c
canonical_byte false c = if within b'A' b'Z' c then c + (b'a' - b'A') else c

-- The loop of `canonicaliseSlice`, and of `FindCommonCanonicalKey`.
abbrev pub canonicalise_loop : Bool → Bytes → Bytes
canonicalise_loop upper [] = []
canonicalise_loop upper (c ∷ s) = canonical_byte upper c ∷ canonicalise_loop (c == b'-') s

unfoldable pub canonicalise_slice : Bytes → Bytes
canonicalise_slice b = canonicalise_loop true b

abbrev pub or_else : Option Bytes → Bytes → Bytes
or_else none s = s
or_else (some h) s = h

-- An empty string stands for a name that is not common.
unfoldable pub find_common_canonical_key : Bytes → Bytes
find_common_canonical_key s = elim (lookup header_map s) [
  | some y ↦ y
  | none ↦
      if ltb max_common_hdr_len (length s)
      then []
      else or_else (lookup header_map (canonicalise_slice s)) []
]

unfoldable pub unsafe_canonical_header : Bytes → Bytes
unsafe_canonical_header b = elim (lookup header_map b) [
  | some h ↦ h
  | none ↦ or_else (lookup header_map (canonicalise_slice b)) (canonicalise_slice b)
]

-- `unsafeMapCanonicalOriginalHeaders`: the canonical form, and the original one where the first is not sure.
abbrev pub with_original : Bytes → Bytes → Option Bytes → Bytes × Bytes
with_original b can (some h) = (h, [])
with_original b can none = if bytes_eq can b then (can, []) else (can, b)

unfoldable pub unsafe_map_canonical_original_headers : Bytes → Bytes × Bytes
unsafe_map_canonical_original_headers b = elim (lookup header_map b) [
  | some h ↦ (h, [])
  | none ↦ with_original b (canonicalise_slice b) (lookup header_map (canonicalise_slice b))
]
