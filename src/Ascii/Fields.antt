-- ===== src/Ascii/Fields.antt =====
-- The fields of a line, against splitting at every space and dropping the empty pieces.
use nksrv.Base.{
  ℕ, ◌≡◌, refl, sym, ap, ◌∙◌, List, [], ◌∷◌, ◌++◌, append_assoc, append-nil, Bytes, if◌then◌else◌,
  Bool-cases, inl, inr, none, some,
}
use nksrv.Ascii.{is_ws, fields_loop, iterate_fields}

-- Put bytes in front of the first piece.
abbrev pub prepend : Bytes → List Bytes → List Bytes
prepend p [] = p ∷ []
prepend p (q ∷ qs) = (p ++ q) ∷ qs

-- The pieces of a text between its spaces, the empty ones too.
unfoldable pub split_ws : Bytes → List Bytes
split_ws [] = [] ∷ []
split_ws (c ∷ s) = if is_ws c then [] ∷ split_ws s else prepend (c ∷ []) (split_ws s)

unfoldable pub drop_empty : List Bytes → List Bytes
drop_empty [] = []
drop_empty ([] ∷ ps) = drop_empty ps
drop_empty ((c ∷ p) ∷ ps) = (c ∷ p) ∷ drop_empty ps

prepend-prepend : (p q : Bytes) (ps : List Bytes) → prepend p (prepend q ps) ≡ prepend (p ++ q) ps
prepend-prepend p q [] = refl
prepend-prepend p q (r ∷ ps) = ap (λ t. t ∷ ps) (sym (append_assoc p q r))

mutual
  unfolding fields_loop split_ws drop_empty

  skip_lem : (s : Bytes) → fields_loop none s ≡ drop_empty (split_ws s)
  skip_lem [] = refl
  skip_lem (c ∷ s) = elim (Bool-cases (is_ws c)) [
    | inl w ↦ rw w (skip_lem s)
    | inr n ↦ rw n (inside_lem s c [])
  ]

  inside_lem :
      (s : Bytes) (c : ℕ) (cur : Bytes)
      → fields_loop (some (c ∷ cur)) s ≡ drop_empty (prepend (c ∷ cur) (split_ws s))
  inside_lem [] c cur = rw append-nil
  inside_lem (d ∷ s) c cur = elim (Bool-cases (is_ws d)) [
    | inl w ↦ rw w (rw append-nil (ap (λ t. (c ∷ cur) ∷ t) (skip_lem s)))
    | inr n ↦ rw n (
        inside_lem s c (cur ++ d ∷ [])
        ∙ ap drop_empty (sym (prepend-prepend (c ∷ cur) (d ∷ []) (split_ws s))))
  ]

-- `IterateFields` hands out the non-empty pieces between spaces, in order.
pub iterate_fields_lem : (s : Bytes) → iterate_fields s ≡ drop_empty (split_ws s)
unfolding iterate_fields
iterate_fields_lem s = skip_lem s
