-- ===== src/MailTools/All.antt =====
-- What `ExtractAllValidReferences` gives.
use nksrv.Base.{
  ℕ, zero, suc, ◌≤◌, ◌<◌, ◌≡◌, sym, ap, append_assoc, append-nil, true, false, List, [], ◌∷◌, ◌++◌,
  Option, none, some, Bytes, ◌==◌, if◌then◌else◌, length, length-append, arith, Bool-cases, inl,
  inr,
}
use mathlib.Core.Path.{subst}
use nksrv.Nntp.Syntax.{valid_message_id}
use nksrv.MailTools.{
  next_valid_reference, with_reference, all_references_loop, extract_all_valid_references,
}
use nksrv.MailTools.Found.{IsFound, found, not_found, next_valid_reference-IsFound}

abbrev pub AllValid : List Bytes → Type 0
AllValid [] = Unit
AllValid (x ∷ xs) = (valid_message_id x ≡ true) × AllValid xs

-- The references that were there, and behind them valid ones.
pub data IsExtended (refs : List Bytes) : Option (List Bytes) → Type 0 where
  extended : (xs : List Bytes) → AllValid xs → IsExtended refs (some (refs ++ xs))

AllValid-length : (x : Bytes) → valid_message_id x ≡ true → 3 ≤ length x
unfolding valid_message_id
AllValid-length x h = ground (arith, h)

IsExtended-cons :
    (refs : List Bytes) (x : Bytes) (o : Option (List Bytes))
    → valid_message_id x ≡ true
    → IsExtended (refs ++ x ∷ []) o
    → IsExtended refs o
IsExtended-cons refs x _ v (extended xs h) =
    subst (λ l. IsExtended refs (some l)) (sym (append_assoc refs (x ∷ []) xs))
      (extended (x ∷ xs) (v, h))

all_references-IsExtended :
    (n : ℕ) (refs : List Bytes) (s : Bytes)
    → length s < n
    → IsExtended refs (all_references_loop n refs s)
unfolding all_references_loop
all_references-IsExtended zero refs s l = absurd (omega arith)
all_references-IsExtended (suc n) refs s l =
    go (next_valid_reference s) (next_valid_reference-IsFound s)
      (λ r t h. all_references-IsExtended n r t h)
  where
    go :
        (o : Option (Bytes × Bytes))
        → IsFound s o
        → ((r : List Bytes) (t : Bytes) → length t < n → IsExtended r (all_references_loop n r t))
        → IsExtended refs (elim o [
          | none ↦ none
          | some t ↦
              if length t.1 == 0
              then some (with_reference refs t.0)
              else all_references_loop n (with_reference refs t.0) t.1
        ])
    go _ not_found k = subst (λ r. IsExtended refs (some r)) (append-nil refs) (extended [] tt)
    go _ (found front ref rest v h) k =
        let v' = AllValid-length ref v in
        let shorter : length rest < n =
          omega (
            arith,
            ap length h,
            length-append {0} front (ref ++ rest),
            length-append {0} ref rest,
          ) in
        let e : (length ref == 0) ≡ false = ground (arith, v') in
        elim (Bool-cases (length rest == 0)) [
          | inl z ↦ rw (e, z) (extended (ref ∷ []) (v, tt))
          | inr z ↦ rw (e, z) (IsExtended-cons refs ref _ v (k (refs ++ ref ∷ []) rest shorter))
        ]

-- `ExtractAllValidReferences` comes back on every string, and what it appends are valid message identifiers.
pub extract_all_valid_references-IsExtended :
    (refs : List Bytes) (s : Bytes) → IsExtended refs (extract_all_valid_references refs s)
unfolding extract_all_valid_references
extract_all_valid_references-IsExtended refs s =
    all_references-IsExtended (suc (length s)) refs s (omega arith)
