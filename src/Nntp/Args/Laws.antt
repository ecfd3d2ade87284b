-- ===== src/Nntp/Args/Laws.antt =====
-- The arguments of a line against the fields of `IterateFields`.
use nksrv.Base.{
  ℕ, ◌≤◌, ◌<◌, ◌≡◌, refl, sym, ap, ◌∙◌, false, List, [], ◌∷◌, ◌++◌, append_assoc, append-nil, none,
  some, Bytes, leb, length, length-append, arith, ◌≢◌, inl, inr, Bool-cases,
}
use nksrv.Ascii.{is_ws, fields_loop, iterate_fields}
use nksrv.Nntp.Args.{Parsed, all_args, extra_args, args_loop, parse_args}

-- What a parse of a line with the fields `fs` may be: all of them as arguments, and no more than
-- the command takes; or as many as it takes, with a rest of the line that holds the others, of
-- which there is one.
abbrev pub Accounts : ℕ → List Bytes → Parsed → Type 0
Accounts maxargs fs (all_args got) = (got ≡ fs) × (length got ≤ maxargs)
Accounts maxargs fs (extra_args got rest) =
    (length got ≡ maxargs) × (fs ≡ got ++ iterate_fields rest) × (iterate_fields rest ≢ [])

fields_loop-ne-nil : (cur s : Bytes) → fields_loop (some cur) s ≢ []
unfolding fields_loop
fields_loop-ne-nil cur [] = λ e. cc
fields_loop-ne-nil cur (c ∷ s) = elim (Bool-cases (is_ws c)) [
  | inl w ↦ rw w (λ e. cc)
  | inr n ↦ rw n (fields_loop-ne-nil (cur ++ c ∷ []) s)
]

iterate_fields-word :
    (c : ℕ) (s : Bytes) → is_ws c ≡ false → iterate_fields (c ∷ s) ≡ fields_loop (some (c ∷ [])) s
unfolding iterate_fields
iterate_fields-word c s n = rw n

mutual
  unfolding args_loop fields_loop

  skip-Accounts :
      (m : ℕ) (args : List Bytes) (s : Bytes)
      → length args ≤ m
      → Accounts m (args ++ fields_loop none s) (args_loop m args none s)
  skip-Accounts m args [] fits = (sym (append-nil args), fits)
  skip-Accounts m args (c ∷ s) fits = elim (Bool-cases (is_ws c)) [
    | inl w ↦ rw w (skip-Accounts m args s fits)
    | inr n ↦ elim (Bool-cases (leb m (length args))) [
      | inl full ↦
          rw (n, full)
            (
              ground arith,
              ap (λ t. args ++ t) (sym (iterate_fields-word c s n)),
              λ e. fields_loop-ne-nil (c ∷ []) s (sym (iterate_fields-word c s n) ∙ e),
            )
      | inr room ↦ rw (n, room) (word-Accounts m args (c ∷ []) s (ground arith))
    ]
  ]

  word-Accounts :
      (m : ℕ) (args : List Bytes) (cur s : Bytes)
      → length args < m
      → Accounts m (args ++ fields_loop (some cur) s) (args_loop m args (some cur) s)
  word-Accounts m args cur [] fits = (refl, omega (arith, length-append {0} args (cur ∷ [])))
  word-Accounts m args cur (c ∷ s) fits = elim (Bool-cases (is_ws c)) [
    | inl w ↦
        rw (w, ← append_assoc args (cur ∷ []) (fields_loop none s))
          (skip-Accounts m (args ++ cur ∷ []) s (omega (arith, length-append {0} args (cur ∷ []))))
    | inr n ↦ rw n (word-Accounts m args (cur ++ c ∷ []) s fits)
  ]

-- A command line is cut into the fields that `IterateFields` gives: either all of them become
-- arguments, no more than the command takes, or exactly as many as it takes, and the rest of the
-- line that is handed on holds the others.
pub parse_args-Accounts : (m : ℕ) (s : Bytes) → Accounts m (iterate_fields s) (parse_args m s)
unfolding parse_args iterate_fields
parse_args-Accounts m s = skip-Accounts m [] s (omega arith)
