-- ===== src/BackRefs/Twins.antt =====
-- No back-reference stands twice in a row.
use nksrv.Base.{ℕ, ◌≡◌, false, List, [], ◌∷◌, ◌++◌, Bytes, Bool-cases, inl, inr}
use nksrv.BackRefs.{
  Reference, PostInfo, ref_eq, last_is, add_back, index_of, process_back_references,
}
use nksrv.BackRefs.Referrers.{backs, add_all, referrers, process_back_references-referrers}

abbrev pub NoTwins : List Reference → Type 0
NoTwins [] = Unit
NoTwins (a ∷ []) = Unit
NoTwins (a ∷ b ∷ bs) = (ref_eq a b ≡ false) × NoTwins (b ∷ bs)

NoTwins-append :
    (bs : List Reference) (r : Reference)
    → NoTwins bs
    → last_is r bs ≡ false
    → NoTwins (bs ++ r ∷ [])
NoTwins-append [] r h l = tt
NoTwins-append (a ∷ []) r h l = (l, tt)
NoTwins-append (a ∷ b ∷ bs) r (h, hs) l = (h, NoTwins-append (b ∷ bs) r hs l)

NoTwins-add_back : (r : Reference) (bs : List Reference) → NoTwins bs → NoTwins (add_back r bs)
unfolding add_back
NoTwins-add_back r bs h = elim (Bool-cases (last_is r bs)) [
  | inl e ↦ rw (add_back, e) h
  | inr e ↦ rw (add_back, e) (NoTwins-append bs r h e)
]

NoTwins-add_all : (rs bs : List Reference) → NoTwins bs → NoTwins (add_all rs bs)
NoTwins-add_all [] bs h = h
NoTwins-add_all (r ∷ rs) bs h = NoTwins-add_all rs (add_back r bs) (NoTwins-add_back r bs h)

-- Where no back-reference of a post stands twice in a row, this is so behind the call too.
pub process_back_references-NoTwins :
    (bn tid : Bytes) (ps : List PostInfo) (k : ℕ)
    → NoTwins (backs k ps)
    → NoTwins (backs k (process_back_references bn tid ps))
process_back_references-NoTwins bn tid ps k h =
    rw (process_back_references-referrers bn tid ps k)
      (NoTwins-add_all (referrers bn tid (index_of ps) k 0 ps) (backs k ps) h)
