-- ===== src/MailTools/Found.antt =====
-- Where what `NextValidReference` finds stands in the string.
use nksrv.Base.{
  ℕ, zero, suc, ◌≤◌, ◌<◌, ◌≡◌, refl, sym, ap, ◌∙◌, Bool, true, false, not, ◌&&◌, ◌||◌, [], ◌∷◌,
  ◌++◌, append_assoc, Option, some, Bytes, leb, ◌==◌, length, length-append, arith, Bool-cases, inl,
  inr,
}
use nksrv.Ascii.{is_ws}
use nksrv.Nntp.Syntax.{valid_message_id}
use nksrv.MailTools.{skip_comment, cut_reference, next_reference_loop, next_valid_reference}

-- A valid identifier with what stands in front and behind it in the string, or nothing.
pub data IsFound (s : Bytes) : Option (Bytes × Bytes) → Type 0 where
  found :
      (front ref rest : Bytes)
      → valid_message_id ref ≡ true
      → s ≡ front ++ (ref ++ rest)
      → IsFound s (some (ref, rest))
  not_found : IsFound s (some ([], []))

IsFound-behind :
    (s t front : Bytes) (o : Option (Bytes × Bytes)) → s ≡ front ++ t → IsFound t o → IsFound s o
IsFound-behind s t front _ e (found f ref rest v h) =
    found (front ++ f) ref rest v
      (e ∙ ap (λ l. front ++ l) h ∙ sym (append_assoc front f (ref ++ rest)))
IsFound-behind s t front _ e not_found = not_found

-- A part that is passed.
pub record IsSuffix (s t : Bytes) : Type 0 where
  pub front : Bytes
  pub split : s ≡ front ++ t

IsSuffix-cons : (c : ℕ) (s t : Bytes) → IsSuffix s t → IsSuffix (c ∷ s) t
IsSuffix-cons c s t h = record { front = c ∷ h.front; split = ap (λ l. c ∷ l) h.split }

pub skip_comment-IsSuffix : (s : Bytes) (n : ℕ) (q : Bool) → IsSuffix s (skip_comment n q s)
unfolding skip_comment
skip_comment-IsSuffix [] n q = record { front = []; split = refl }
skip_comment-IsSuffix (c ∷ s) n q = elim (Bool-cases ((c == b')' && not q) && leb n 1)) [
  | inl e ↦ rw (skip_comment, e) (record { front = c ∷ []; split = refl })
  | inr e ↦ rw (skip_comment, e) (IsSuffix-cons c s _ (skip_comment-IsSuffix s _ (c == b'\\')))
]

pub cut_reference-append : (s : Bytes) → s ≡ (cut_reference s).0 ++ (cut_reference s).1
unfolding cut_reference
cut_reference-append [] = refl
cut_reference-append (c ∷ s) = elim (Bool-cases (is_ws c || c == b'(')) [
  | inl e ↦ rw (cut_reference, e) refl
  | inr e ↦ rw (cut_reference, e) (ap (λ l. c ∷ l) (cut_reference-append s))
]

pub IsSuffix-length : (s t : Bytes) → IsSuffix s t → length t ≤ length s
IsSuffix-length s t h = omega (arith, ap length h.split, length-append {0} h.front t)

next_reference-IsFound : (n : ℕ) (s : Bytes) → length s < n → IsFound s (next_reference_loop n s)
unfolding next_reference_loop
next_reference-IsFound zero s l = absurd (omega arith)
next_reference-IsFound (suc n) [] l = not_found
next_reference-IsFound (suc n) (c ∷ s) l =
    let t = cut_reference s in
    let k = skip_comment-IsSuffix s 1 false in
    let k' = IsSuffix-length s _ k in
    let w : IsSuffix s t.1 = record { front = t.0; split = cut_reference-append s } in
    let w' = IsSuffix-length s t.1 w in
    elim (Bool-cases (is_ws c)) [
      | inl e ↦
          rw (next_reference_loop, e)
            (IsFound-behind (c ∷ s) s (c ∷ []) _ refl (next_reference-IsFound n s (omega arith)))
      | inr e ↦ elim (Bool-cases (c == b'(')) [
        | inl p ↦
            rw (next_reference_loop, e, p)
              (IsFound-behind (c ∷ s) (skip_comment 1 false s) (c ∷ k.front) _
                (ap (λ l. c ∷ l) k.split)
                (next_reference-IsFound n (skip_comment 1 false s) (omega arith)))
        | inr p ↦ elim (Bool-cases (valid_message_id (c ∷ t.0))) [
          | inl v ↦
              rw (next_reference_loop, e, p, v)
                (found [] (c ∷ t.0) t.1 v (ap (λ l. c ∷ l) (cut_reference-append s)))
          | inr v ↦
              rw (next_reference_loop, e, p, v)
                (IsFound-behind (c ∷ s) t.1 (c ∷ t.0) _ (ap (λ l. c ∷ l) (cut_reference-append s))
                  (next_reference-IsFound n t.1 (omega arith)))
        ]
      ]
    ]

-- `NextValidReference` comes back on every string, with a valid message identifier that stands in the string in front of
-- the rest that it returns, or with nothing.
pub next_valid_reference-IsFound : (s : Bytes) → IsFound s (next_valid_reference s)
unfolding next_valid_reference
next_valid_reference-IsFound s = next_reference-IsFound (suc (length s)) s (omega arith)
