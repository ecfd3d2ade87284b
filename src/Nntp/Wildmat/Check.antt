-- ===== src/Nntp/Wildmat/Check.antt =====
-- Which piece of a wildmat decides.
use nksrv.Base.{
  ◌≡◌, refl, ap, Bool, true, false, List, [], ◌∷◌, ◌++◌, Bytes, All, Bool-cases, inl, inr, ◌⊎◌,
}
use nksrv.Nntp.Wildmat.{Piece, check_loop, check}

module _ (matches : Bytes → Bytes → Bool) (s : Bytes) where
  -- No piece matches.
  abbrev pub NoMatch : List Piece → Type 0
  NoMatch = All (λ p. matches p.re s ≡ false)

  -- The last piece that matches stands between `before` and `after`.
  pub record Decides (w : List Piece) (p : Piece) : Type 0 where
    pub before : List Piece
    pub after : List Piece
    pub splits : w ≡ before ++ p ∷ after
    pub hit : matches p.re s ≡ true
    pub last : NoMatch after

  Decides-cons : {w : List Piece} {p : Piece} (q : Piece) → Decides w p → Decides (q ∷ w) p
  Decides-cons q d = record {
    before = q ∷ d.before;
    after = d.after;
    splits = ap (λ t. q ∷ t) d.splits;
    hit = d.hit;
    last = d.last;
  }

  check_loop_lem :
      (r : Bool) (w : List Piece)
      → (NoMatch w × (check_loop matches r w s ≡ r))
        ⊎ ((p : Piece) × Decides w p × (check_loop matches r w s ≡ p.result))
  unfolding check_loop
  check_loop_lem r [] = inl (tt, refl)
  check_loop_lem r (q ∷ w) = elim (Bool-cases (matches q.re s)) [
    | inl hit ↦ elim (check_loop_lem q.result w) [
      | inl (none_later, e) ↦ inr (
        q,
        record { before = []; after = w; splits = refl; hit = hit; last = none_later },
        rw hit e,
      )
      | inr (p, d, e) ↦ inr (p, Decides-cons q d, rw hit e)
    ]
    | inr miss ↦ elim (check_loop_lem r w) [
      | inl (none_later, e) ↦ inl ((miss, none_later), rw miss e)
      | inr (p, d, e) ↦ inr (p, Decides-cons q d, rw miss e)
    ]
  ]

  -- The last piece whose expression matches decides, and where none matches the name is refused.
  pub check_lem :
      (w : List Piece)
      → (NoMatch w × (check matches w s ≡ false))
        ⊎ ((p : Piece) × Decides w p × (check matches w s ≡ p.result))
  unfolding check
  check_lem w = check_loop_lem false w
