-- ===== src/Nntp/Wildmat/Compile.antt =====
-- `CompileWildmat` piece by piece.
use nksrv.Base.{
  ℕ, ◌≡◌, refl, sym, ap, append-nil, Option, none, some, ◌∙◌, Bool, true, false, List, [], ◌∷◌,
  ◌++◌, map, append_assoc, Bytes, ◌==◌, if◌then◌else◌, arith, All, Bool-cases, inl, inr, ◌⊎◌,
}
use mathlib.Core.Path.{subst}
use nksrv.Nntp.Wildmat.{Piece, Atom, read_regexp, push, translate, compile_loop, compile_wildmat}
use nksrv.Nntp.Wildmat.Scanning.{split_comma}
use nksrv.Nntp.Wildmat.Regexp.{translated, pattern_atoms, IsAscii, ReadBack-translated}

-- Whether a piece holds no `!`.
unfoldable pub positive : Bytes → Bool
positive [] = true
positive (c ∷ p) = if c == b'!' then false else positive p

unfoldable pub piece_of : Bytes → Piece
unfolding translated positive
piece_of p = record { re = b'^' ∷ (translated p ++ b'$' ∷ []); result = positive p }

append-bang : (p : Bytes) → translated (p ++ b'!' ∷ []) ≡ translated p
unfolding translated
append-bang [] = refl
append-bang (c ∷ p) = elim (Bool-cases (c == b'!')) [
  | inl e ↦ rw e (append-bang p)
  | inr n ↦ rw n (ap (λ t. translate c ++ t) (append-bang p))
]

append-write :
    (p : Bytes) (c : ℕ)
    → (c == b'!') ≡ false
    → translated (p ++ c ∷ []) ≡ translated p ++ translate c
unfolding translated
append-write [] c n = rw n (append-nil (translate c))
append-write (d ∷ p) c n = elim (Bool-cases (d == b'!')) [
  | inl e ↦ rw e (append-write p c n)
  | inr m ↦ rw m (
      ap (λ t. translate d ++ t) (append-write p c n)
      ∙ sym (append_assoc (translate d) (translated p) (translate c)))
]

positive-bang : (p : Bytes) → positive (p ++ b'!' ∷ []) ≡ false
unfolding positive
positive-bang [] = refl
positive-bang (c ∷ p) = elim (Bool-cases (c == b'!')) [
  | inl e ↦ rw e refl
  | inr n ↦ rw n (positive-bang p)
]

positive-write : (p : Bytes) (c : ℕ) → (c == b'!') ≡ false → positive (p ++ c ∷ []) ≡ positive p
unfolding positive
positive-write [] c n = rw n refl
positive-write (d ∷ p) c n = elim (Bool-cases (d == b'!')) [
  | inl e ↦ rw e refl
  | inr m ↦ rw m (positive-write p c n)
]

-- One stretch behind the other is compiled.
unfoldable pub push_all : List Piece → List Bytes → Option (List Piece)
push_all w [] = some w
push_all w (p ∷ ps) = elim (push w (b'^' ∷ translated p) (positive p)) [
  | none ↦ none
  | some w' ↦ push_all w' ps
]

push_all-single : (o : Option (List Piece)) → o ≡ elim o [ none ↦ none | some w' ↦ some w' ]
push_all-single none = refl
push_all-single (some w) = refl

elim_ext :
    (o : Option (List Piece)) (f g : List Piece → Option (List Piece))
    → ((w : List Piece) → f w ≡ g w)
    → elim o as (λ _. Option (List Piece)) [ none ↦ none | some w ↦ f w ]
      ≡ elim o [ none ↦ none | some w ↦ g w ]
elim_ext none f g h = refl
elim_ext (some w) f g h = h w

-- The loop in the middle of a stretch, of which `p` is over.
compile_loop_lem :
    (x p : Bytes) (w : List Piece)
    → compile_loop (b'^' ∷ translated p) (positive p) w x
      ≡ push_all w ((p ++ (split_comma x).0) ∷ (split_comma x).1)
unfolding compile_loop split_comma push_all translated positive
compile_loop_lem [] p w =
    rw (append-nil p) (push_all-single (push w (b'^' ∷ translated p) (positive p)))
compile_loop_lem (c ∷ x) p w = elim (Bool-cases (c == b',')) [
  | inl e ↦
      rw (e, append-nil p)
        (elim_ext (push w (b'^' ∷ translated p) (positive p)) _ _ (λ w'. compile_loop_lem x [] w'))
  | inr n ↦ elim (Bool-cases (c == b'!')) [
    | inl e ↦
        let ec : c ≡ b'!' = ground arith in
        rw ec (
          ap (λ t. compile_loop (b'^' ∷ t) false w x) (sym (append-bang p))
          ∙ ap (λ r. compile_loop (b'^' ∷ translated (p ++ b'!' ∷ [])) r w x)
              (sym (positive-bang p))
          ∙ compile_loop_lem x (p ++ b'!' ∷ []) w
          ∙ ap (λ t. push_all w (t ∷ (split_comma x).1))
              (append_assoc p (b'!' ∷ []) (split_comma x).0))
    | inr m ↦
        rw (n, m)
          (ap (λ t. compile_loop (b'^' ∷ t) (positive p) w x) (sym (append-write p c m))
            ∙ ap (λ r. compile_loop (b'^' ∷ translated (p ++ c ∷ [])) r w x)
                (sym (positive-write p c m))
            ∙ compile_loop_lem x (p ++ c ∷ []) w
            ∙ ap (λ t. push_all w (t ∷ (split_comma x).1))
                (append_assoc p (c ∷ []) (split_comma x).0))
  ]
]

-- The piece of a stretch is pushed where its bytes are all ASCII, and else there is a panic.
push-piece_of :
    (w : List Piece) (p : Bytes)
    → (IsAscii p
        × (push w (b'^' ∷ translated p) (positive p) ≡ some (w ++ piece_of p ∷ []))
        × (read_regexp (piece_of p).re ≡ some (pattern_atoms p)))
      ⊎ ((IsAscii p → ⊥) × (push w (b'^' ∷ translated p) (positive p) ≡ none))
unfolding push read_regexp piece_of
push-piece_of w p = elim (ReadBack-translated p) [
  | inl (h, e) ↦ inl (h, rw (push, e) refl, e)
  | inr (h, e) ↦ inr (h, rw (push, e) refl)
]

-- What a piece is, whatever the text of its expression.
abbrev pub meaning : Piece → Option (List Atom) × Bool
meaning q = (read_regexp q.re, q.result)

abbrev pub stretch_meaning : Bytes → Option (List Atom) × Bool
stretch_meaning p = (some (pattern_atoms p), positive p)

meanings :
    (p : Bytes) (ps : List Bytes)
    → read_regexp (piece_of p).re ≡ some (pattern_atoms p)
    → map meaning (map piece_of ps) ≡ map stretch_meaning ps
    → map meaning (map piece_of (p ∷ ps)) ≡ map stretch_meaning (p ∷ ps)
unfolding piece_of
meanings p ps m ms = rw (m, ms) refl

pub push_all-cases :
    (ps : List Bytes) (w : List Piece)
    → (All IsAscii ps
        × (push_all w ps ≡ some (w ++ map piece_of ps))
        × (map meaning (map piece_of ps) ≡ map stretch_meaning ps))
      ⊎ ((All IsAscii ps → ⊥) × (push_all w ps ≡ none))
unfolding push_all
push_all-cases [] w = inl (tt, ap (λ t. some t) (sym (append-nil w)), refl)
push_all-cases (p ∷ ps) w = elim (push-piece_of w p) [
  | inr (n, e) ↦ inr (λ h. n h.0, rw (push_all, e) refl)
  | inl (l, e, m) ↦ elim (push_all-cases ps (w ++ piece_of p ∷ [])) [
    | inr (n, f) ↦ inr (λ h. n h.1, rw (push_all, e) f)
    | inl (ls, f, ms) ↦ inl (
      (l, ls),
      rw (push_all, e) (f ∙ ap (λ t. some t) (append_assoc w (piece_of p ∷ []) (map piece_of ps))),
      meanings p ps m ms,
    )
  ]
]

-- The stretches of a text between its commas.
abbrev pub stretches : Bytes → List Bytes
stretches x = (split_comma x).0 ∷ (split_comma x).1

stretches-IsAscii : (x : Bytes) → IsAscii x → All IsAscii (stretches x)
unfolding split_comma
stretches-IsAscii [] h = (tt, tt)
stretches-IsAscii (c ∷ x) (l, h) = elim (Bool-cases (c == b',')) [
  | inl e ↦ rw e (tt, stretches-IsAscii x h)
  | inr n ↦ (let (a, b) = stretches-IsAscii x h in rw n ((l, a), b))
]

IsAscii-stretches : (x : Bytes) → All IsAscii (stretches x) → IsAscii x
unfolding split_comma
IsAscii-stretches [] h = tt
IsAscii-stretches (c ∷ x) h = elim (Bool-cases (c == b',')) [
  | inl e ↦ (let t = rw e at h in (ground (arith, e), IsAscii-stretches x t.1))
  | inr n ↦ (let t = rw n at h in (t.0.0, IsAscii-stretches x (t.0.1, t.1)))
]

-- The pieces of an ASCII text, one for each stretch; the panic of another text.
pub data IsCompiled (x : Bytes) : Option (List Piece) → Type 0 where
  compiled :
      (w : List Piece)
      → IsAscii x
      → map meaning w ≡ map stretch_meaning (stretches x)
      → IsCompiled x (some w)
  panics : (IsAscii x → ⊥) → IsCompiled x none

pub compile_wildmat-push_all : (x : Bytes) → compile_wildmat x ≡ push_all [] (stretches x)
unfolding compile_wildmat translated positive
compile_wildmat-push_all x = compile_loop_lem x [] []

-- `CompileWildmat` panics on a text with a byte of 0x80 or more. Of every other text it makes one
-- piece for each stretch between commas, in order: its expression, as `regexp` reads it, is any
-- character for each `?`, any number of them for each `*`, and itself for each other byte that is
-- no `!`, and its result is whether the stretch holds no `!`.
pub compile_wildmat_lem : (x : Bytes) → IsCompiled x (compile_wildmat x)
compile_wildmat_lem x =
    subst (λ o. IsCompiled x o) (sym (compile_wildmat-push_all x))
      (elim (push_all-cases (stretches x) []) [
        | inl (h, e, m) ↦
            subst (λ o. IsCompiled x o) (sym e)
              (compiled (map piece_of (stretches x)) (IsAscii-stretches x h) m)
        | inr (n, e) ↦ subst (λ o. IsCompiled x o) (sym e) (panics (λ h. n (stretches-IsAscii x h)))
      ])
