-- ===== src/Nntp/Wildmat/Grammar.antt =====
-- `ValidWildmat` against the grammar of RFC 3977.
use mathlib.Core.Path.{subst}
use nksrv.Base.{
  ℕ, ◌≡◌, refl, ap, sym, ◌↔◌, ◌⊎◌, inl, inr, true, List, [], ◌∷◌, Bytes, ◌==◌, arith, All,
  Bool-cases,
}
use nksrv.Utf8.{utf8_valid}
use nksrv.Nntp.Syntax.{is_exact}
use nksrv.Nntp.Syntax.Laws.{IsExact, is_exact-IsExact, IsExact-is_exact}
use nksrv.Nntp.Wildmat.{is_item, valid_wildmat}
use nksrv.Nntp.Wildmat.Scanning.{split_comma, AllItems, IsPattern, IsPiece, valid_wildmat_lem}

-- `wildmat-exact` or `wildmat-wild` of RFC 3977.
abbrev pub IsItem : ℕ → Type 0
IsItem c = IsExact c ⊎ ((c ≡ b'*') ⊎ (c ≡ b'?'))

-- `wildmat-pattern` of RFC 3977: one item or more.
abbrev pub IsWildmatPattern : Bytes → Type 0
IsWildmatPattern [] = ⊥
IsWildmatPattern (c ∷ p) = All IsItem (c ∷ p)

-- What follows each comma: a pattern, behind an optional `!`.
abbrev pub IsLater : Bytes → Type 0
IsLater p = IsWildmatPattern p ⊎ ((q : Bytes) × (p ≡ b'!' ∷ q) × IsWildmatPattern q)

-- `wildmat` of RFC 3977: a pattern, which has no `!`, and any number of later ones.
pub record IsWildmat (x : Bytes) : Type 0 where
  pub first : IsWildmatPattern (split_comma x).0
  pub later : All IsLater (split_comma x).1

is_item-IsItem : (c : ℕ) → is_item c ≡ true → IsItem c
is_item-IsItem c h = elim (Bool-cases (is_exact c)) [
  | inl e ↦ inl (is_exact-IsExact c e)
  | inr n ↦ elim (Bool-cases (c == b'*')) [
    | inl e ↦ inr (inl (ground arith))
    | inr m ↦ inr (inr (ground arith))
  ]
]

IsItem-is_item : (c : ℕ) → IsItem c → is_item c ≡ true
IsItem-is_item c (inl e) = (let h = IsExact-is_exact c e in ground arith)
IsItem-is_item c (inr (inl e)) = rw e refl
IsItem-is_item c (inr (inr e)) = rw e refl

AllItems-All : (p : Bytes) → AllItems p → All IsItem p
AllItems-All [] h = tt
AllItems-All (c ∷ p) (e, h) = (is_item-IsItem c e, AllItems-All p h)

All-AllItems : (p : Bytes) → All IsItem p → AllItems p
All-AllItems [] h = tt
All-AllItems (c ∷ p) (e, h) = (IsItem-is_item c e, All-AllItems p h)

IsPattern-IsWildmatPattern : (p : Bytes) → IsPattern p → IsWildmatPattern p
IsPattern-IsWildmatPattern [] h = h
IsPattern-IsWildmatPattern (c ∷ p) h = AllItems-All (c ∷ p) h

IsWildmatPattern-IsPattern : (p : Bytes) → IsWildmatPattern p → IsPattern p
IsWildmatPattern-IsPattern [] h = h
IsWildmatPattern-IsPattern (c ∷ p) h = All-AllItems (c ∷ p) h

IsPiece-IsLater : (p : Bytes) → IsPiece p → IsLater p
IsPiece-IsLater [] h = absurd h
IsPiece-IsLater (c ∷ p) (inl h) = inl (IsPattern-IsWildmatPattern (c ∷ p) h)
IsPiece-IsLater (c ∷ p) (inr (e, h)) = inr (p, ap (λ d. d ∷ p) e, IsPattern-IsWildmatPattern p h)

IsPiece-bang : (q : Bytes) → IsWildmatPattern q → IsPiece (b'!' ∷ q)
IsPiece-bang q h = inr (refl, IsWildmatPattern-IsPattern q h)

IsPiece-plain : (p : Bytes) → IsWildmatPattern p → IsPiece p
IsPiece-plain [] h = h
IsPiece-plain (c ∷ p) h = inl (IsWildmatPattern-IsPattern (c ∷ p) h)

IsLater-IsPiece : (p : Bytes) → IsLater p → IsPiece p
IsLater-IsPiece p (inl h) = IsPiece-plain p h
IsLater-IsPiece p (inr (q, e, h)) = subst (λ t. IsPiece t) (sym e) (IsPiece-bang q h)

All-IsLater : (ps : List Bytes) → All IsPiece ps → All IsLater ps
All-IsLater [] h = tt
All-IsLater (p ∷ ps) (e, h) = (IsPiece-IsLater p e, All-IsLater ps h)

All-IsPiece : (ps : List Bytes) → All IsLater ps → All IsPiece ps
All-IsPiece [] h = tt
All-IsPiece (p ∷ ps) (e, h) = (IsLater-IsPiece p e, All-IsPiece ps h)

split_comma-bang :
    (x p : Bytes)
    → (split_comma x).0 ≡ b'!' ∷ p
    → (y : Bytes) × (x ≡ b'!' ∷ y)
      × ((split_comma y).0 ≡ p)
      × ((split_comma y).1 ≡ (split_comma x).1)
unfolding split_comma
split_comma-bang [] p e = cc
split_comma-bang (c ∷ x) p e = elim (Bool-cases (c == b',')) [
  | inl t ↦ (let f = rw t at e in cc)
  | inr n ↦
      let f : c ∷ (split_comma x).0 ≡ b'!' ∷ p = rw n at e in
      (x, ap (λ d. d ∷ x) (ground (arith, f)), ground (arith, f), rw n refl)
]

-- A wildmat as the program takes it.
abbrev pub IsTaken : Bytes → Type 0
IsTaken x = IsWildmat x ⊎ ((y : Bytes) × (x ≡ b'!' ∷ y) × IsWildmat y)

IsPiece-IsTaken :
    (x : Bytes) → IsPiece (split_comma x).0 → All IsPiece (split_comma x).1 → IsTaken x
IsPiece-IsTaken x p ps = elim (IsPiece-IsLater (split_comma x).0 p) [
  | inl f ↦ inl (record { first = f; later = All-IsLater _ ps })
  | inr t ↦
      let (q, e, f) = t in
      let (y, ex, e0, e1) = split_comma-bang x q e in
      inr (y, ex, record { first = rw e0 f; later = rw e1 (All-IsLater (split_comma x).1 ps) })
]

IsTaken-Pieces : (x : Bytes) → IsTaken x → IsPiece (split_comma x).0 × All IsPiece (split_comma x).1
unfolding split_comma
IsTaken-Pieces x (inl w) = (IsLater-IsPiece (split_comma x).0 (inl w.first), All-IsPiece _ w.later)
IsTaken-Pieces x (inr (y, e, w)) =
    rw e (inr (refl, IsWildmatPattern-IsPattern (split_comma y).0 w.first), All-IsPiece _ w.later)

-- `ValidWildmat` takes exactly the valid UTF-8 texts that are a `wildmat` of RFC 3977, or a `!` and
-- such a wildmat: the grammar, also as wildmat.go quotes it, has no `!` in front of the first
-- pattern.
pub valid_wildmat_iff :
    (x : Bytes)
    → (valid_wildmat x ≡ true)
      ↔ (utf8_valid x ≡ true) × (IsWildmat x ⊎ ((y : Bytes) × (x ≡ b'!' ∷ y) × IsWildmat y))
valid_wildmat_iff x = (
  λ h. let (p, ps, valid) = (valid_wildmat_lem x).0 h in (valid, IsPiece-IsTaken x p ps),
  λ (valid, t). let (p, ps) = IsTaken-Pieces x t in (valid_wildmat_lem x).1 (p, ps, valid),
)
