-- ===== src/Nntp/Fixture.antt =====
-- A small server for the runs: its provider counts the calls and has every group that is asked for,
-- and its only user is bob, whose password is `pw`.
use nksrv.Base.{
  ℕ, suc, ◌≡◌, refl, sym, ap, ◌∙◌, true, false, Option, none, some, Bytes, codes, bytes_eq,
  if◌then◌else◌,
}
use nksrv.Nntp.Session.{UserPriv, UserInfo, Request, select_group, Answer, UserPass, Server}
use nksrv.Nntp.Session.Permission.{need, reading, KeepsGroup}

abbrev pub next_group : Request → Option Bytes → Option Bytes
next_group (select_group g) cur = some g
next_group _ cur = cur

abbrev pub only_reading : UserPriv
only_reading = record { allow_reading = true; allow_posting = false }

abbrev pub only_posting : UserPriv
only_posting = record { allow_reading = false; allow_posting = true }

abbrev pub bob : UserInfo
bob = record { priv = only_posting }

abbrev pub users : UserPass
users = record {
  by_name =
      λ name. if bytes_eq name (codes "bob") then (some bob, codes "bob") else (none, codes "x");
  check_pass = λ ch pass. bytes_eq pass (codes "pw");
}

abbrev pub small_server : Server
small_server = record {
  State = ℕ;
  Group = Bytes;
  supports = λ _. true;
  answer = λ r s g. some (record { ok = true; state = suc s; group = next_group r g });
  default_priv = only_reading;
  tls_priv = only_posting;
  has_tls_config = true;
  unsafe_pass = true;
  unsafe_early_user_reject = false;
  cert_fp_auto_auth = true;
  user_pass = some users;
  handshake = some none;
  write_ok = λ _ _. true;
  current_year = 2026;
}

next_group-keeps : (r : Request) (g : Option Bytes) → (need r ≡ reading → ⊥) → next_group r g ≡ g
next_group-keeps (select_group _) g n = absurd (n refl)
next_group-keeps _ g n = refl

answer_group : Option (Answer ℕ Bytes) → Option Bytes → Option Bytes
answer_group none g = g
answer_group (some a) g = a.group

pub small_server-KeepsGroup : KeepsGroup small_server
unfolding answer_group
small_server-KeepsGroup r s g a n e = sym (ap (λ o. answer_group o g) e) ∙ next_group-keeps r g n
