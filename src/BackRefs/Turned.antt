-- ===== src/BackRefs/Turned.antt =====
-- The back-references of a post against the references of the thread, turned around.
use nksrv.Base.{
  ℕ, zero, suc, ◌≡◌, ◌≢◌, ◌⊎◌, refl, sym, ap, ◌∙◌, true, false, ◌||◌, List, [], ◌∷◌, ◌++◌, none,
  some, Bytes, ◌==◌, bytes_eq, bytes_eq_iff, arith, Bool-cases, Option-cases, inl, inr, All,
}
use mathlib.Core.Option.{some-injective}
use mathlib.Core.Path.{subst}
use nksrv.BackRefs.{
  Reference, PostInfo, index_of, is_nil, is_here, ref_eq, last_is, add_back, target,
  process_back_references,
}
use nksrv.BackRefs.Referrers.{
  backs, add_all, is_at, refers, referrers, process_back_references-referrers,
}

-- The post at place `k` has the ID, and no later one has it.
abbrev pub IsLast : List PostInfo → ℕ → Bytes → Type 0
IsLast [] k s = ⊥
IsLast (p ∷ ps) zero s = (p.id ≡ s) × All (λ q. q.id ≢ s) ps
IsLast (p ∷ ps) (suc k) s = IsLast ps k s

-- A reference of the post at place `i` is to the post at place `k`, another one of the thread.
pub record Refers (bn tid : Bytes) (ps : List PostInfo) (k i : ℕ) (r : Reference) : Type 0 where
  pub board : (r.board ≡ []) ⊎ (r.board ≡ bn)
  pub thread : (r.thread ≡ []) ⊎ (r.thread ≡ tid)
  pub post : r.post ≢ []
  pub named : IsLast ps k r.post
  pub other : k ≢ i

module _ (bn tid : Bytes) (ps : List PostInfo) (k : ℕ) where
  -- For each reference of a post that is to the post at place `k`, one to the post that has it.
  pub data TurnedReferences (i : ℕ) (id : Bytes) : List Reference → List Reference → Type 0 where
    no_reference : TurnedReferences i id [] []
    turned :
        (r : Reference) (rs bs : List Reference)
        → Refers bn tid ps k i r
        → TurnedReferences i id rs bs
        → TurnedReferences i id (r ∷ rs) (record { board = []; thread = []; post = id } ∷ bs)
    left :
        (r : Reference) (rs bs : List Reference)
        → (Refers bn tid ps k i r → ⊥)
        → TurnedReferences i id rs bs
        → TurnedReferences i id (r ∷ rs) bs

  -- These of all posts from a place on, in order.
  pub data TurnedPosts : ℕ → List PostInfo → List Reference → Type 0 where
    no_post : (i : ℕ) → TurnedPosts i [] []
    post :
        (i : ℕ) (p : PostInfo) (todo : List PostInfo) (bs cs : List Reference)
        → TurnedReferences i p.id p.references bs
        → TurnedPosts (suc i) todo cs
        → TurnedPosts i (p ∷ todo) (bs ++ cs)

-- A reference is the last one of a list.
abbrev pub EndsIn : List Reference → Reference → Type 0
EndsIn bs r = (cs : List Reference) × (bs ≡ cs ++ r ∷ [])

-- A list behind the addition of others, where one that the list ends in by then is left out.
pub data Collapsed : List Reference → List Reference → List Reference → Type 0 where
  all_added : (bs : List Reference) → Collapsed bs [] bs
  added :
      (bs rs out : List Reference) (r : Reference)
      → (EndsIn bs r → ⊥)
      → Collapsed (bs ++ r ∷ []) rs out
      → Collapsed bs (r ∷ rs) out
  double :
      (bs rs out : List Reference) (r : Reference)
      → EndsIn bs r
      → Collapsed bs rs out
      → Collapsed bs (r ∷ rs) out

ref_eq_sound : (a b : Reference) → ref_eq a b ≡ true → a ≡ b
ref_eq_sound a b h =
    let e = (bytes_eq_iff a.board b.board).0 (ground (arith, h)) in
    let f = (bytes_eq_iff a.thread b.thread).0 (ground (arith, h)) in
    let g = (bytes_eq_iff a.post b.post).0 (ground (arith, h)) in cc (e, f, g)

ref_eq_refl : (a : Reference) → ref_eq a a ≡ true
ref_eq_refl a =
    rw
      (
        (bytes_eq_iff a.board a.board).1 refl,
        (bytes_eq_iff a.thread a.thread).1 refl,
        (bytes_eq_iff a.post a.post).1 refl,
      )
      refl

last_is-EndsIn : (bs : List Reference) (r : Reference) → last_is r bs ≡ true → EndsIn bs r
last_is-EndsIn [] r h = absurd (ground (arith, h))
last_is-EndsIn (b ∷ []) r h = ([], ap (λ t. t ∷ []) (ref_eq_sound b r h))
last_is-EndsIn (a ∷ b ∷ bs) r h =
    let (cs, e) = last_is-EndsIn (b ∷ bs) r h in (a ∷ cs, ap (λ t. a ∷ t) e)

last_is-append : (cs : List Reference) (r : Reference) → last_is r (cs ++ r ∷ []) ≡ true
last_is-append [] r = ref_eq_refl r
last_is-append (c ∷ []) r = ref_eq_refl r
last_is-append (c ∷ d ∷ cs) r = last_is-append (d ∷ cs) r

Collapsed-add_all : (rs bs : List Reference) → Collapsed bs rs (add_all rs bs)
unfolding add_back
Collapsed-add_all [] bs = all_added bs
Collapsed-add_all (r ∷ rs) bs = elim (Bool-cases (last_is r bs)) [
  | inl e ↦ rw (add_back, e) (double bs rs _ r (last_is-EndsIn bs r e) (Collapsed-add_all rs bs))
  | inr e ↦
      rw (add_back, e)
        (added bs rs _ r (λ (cs, f). (let g = rw f at e in cc (last_is-append cs r, g)))
          (Collapsed-add_all rs (bs ++ r ∷ [])))
]

index_of-none : (ps : List PostInfo) (s : Bytes) → index_of ps s ≡ none → All (λ q. q.id ≢ s) ps
unfolding index_of
index_of-none [] s h = tt
index_of-none (p ∷ ps) s h = elim (Option-cases (index_of ps s)) [
  | inr (i, f) ↦ (let c = rw f at h in absurd (ground arith))
  | inl f ↦ elim (Bool-cases (bytes_eq p.id s)) [
    | inl b ↦ (let c = rw (f, b) at h in absurd (ground arith))
    | inr b ↦ (λ e. cc ((bytes_eq_iff p.id s).1 e, b), index_of-none ps s f)
  ]
]

All-index_of : (ps : List PostInfo) (s : Bytes) → All (λ q. q.id ≢ s) ps → index_of ps s ≡ none
unfolding index_of
All-index_of [] s h = refl
All-index_of (p ∷ ps) s (n, h) = elim (Bool-cases (bytes_eq p.id s)) [
  | inl b ↦ absurd (n ((bytes_eq_iff p.id s).0 b))
  | inr b ↦ rw (All-index_of ps s h, b) refl
]

index_of-IsLast : (ps : List PostInfo) (s : Bytes) (k : ℕ) → index_of ps s ≡ some k → IsLast ps k s
unfolding index_of
index_of-IsLast [] s k h = absurd (ground arith)
index_of-IsLast (p ∷ ps) s k h = elim (Option-cases (index_of ps s)) [
  | inr (i, f) ↦
      let q : suc i ≡ k = some-injective (suc i) k (rw f at h) in
      rw (sym q) (index_of-IsLast ps s i f)
  | inl f ↦ elim (Bool-cases (bytes_eq p.id s)) [
    | inl b ↦
        let q : 0 ≡ k = some-injective 0 k (rw (f, b) at h) in
        rw (sym q) ((bytes_eq_iff p.id s).0 b, index_of-none ps s f)
    | inr b ↦ (let c = rw (f, b) at h in absurd (ground arith))
  ]
]

IsLast-index_of : (ps : List PostInfo) (s : Bytes) (k : ℕ) → IsLast ps k s → index_of ps s ≡ some k
unfolding index_of
IsLast-index_of [] s k h = absurd h
IsLast-index_of (p ∷ ps) s zero (e, h) = rw (All-index_of ps s h, (bytes_eq_iff p.id s).1 e) refl
IsLast-index_of (p ∷ ps) s (suc k) h = rw (IsLast-index_of ps s k h) refl

module _ (bn tid : Bytes) (ps : List PostInfo) (k : ℕ) where
  is_nil-true : (s : Bytes) → is_nil s ≡ true → s ≡ []
  is_nil-true [] h = refl
  is_nil-true (c ∷ s) h = cc

  is_nil-false : (s : Bytes) → is_nil s ≡ false → s ≢ []
  is_nil-false [] h = cc
  is_nil-false (c ∷ s) h = λ e. cc

  nil-or : (s t : Bytes) → (is_nil s || bytes_eq s t) ≡ true → (s ≡ []) ⊎ (s ≡ t)
  nil-or [] t h = inl refl
  nil-or (c ∷ s) t h = inr ((bytes_eq_iff (c ∷ s) t).0 h)

  or-nil : (s t : Bytes) → (s ≡ []) ⊎ (s ≡ t) → (is_nil s || bytes_eq s t) ≡ true
  or-nil [] t h = refl
  or-nil (c ∷ s) t (inl e) = cc
  or-nil (c ∷ s) t (inr e) = (bytes_eq_iff (c ∷ s) t).1 e

  -- The test of the code holds exactly of the references to the post at place `k`.
  is_at-Refers :
      (i : ℕ) (r : Reference)
      → is_at k (target bn tid (index_of ps) i r) ≡ true
      → Refers bn tid ps k i r
  unfolding target
  is_at-Refers i r h = elim (Bool-cases (is_here bn tid r)) [
    | inr f ↦ (let c = rw f at h in absurd (ground arith))
    | inl f ↦ elim (Option-cases (index_of ps r.post)) [
      | inl e ↦ (let c = rw (f, e) at h in absurd (ground arith))
      | inr (j, e) ↦ elim (Bool-cases (j == i)) [
        | inl b ↦ (let c = rw (f, e, b) at h in absurd (ground arith))
        | inr b ↦
            let c : (j == k) ≡ true = rw (f, e, b) at h in
            let q : j ≡ k = ground (arith, c) in
            record {
              board = nil-or r.board bn (ground (arith, f));
              thread = nil-or r.thread tid (ground (arith, f));
              post = is_nil-false r.post (ground (arith, f));
              named = index_of-IsLast ps r.post k (e ∙ ap (λ t. some t) q);
              other = λ o. ground (arith, b, q, o);
            }
      ]
    ]
  ]

  Refers-is_at :
      (i : ℕ) (r : Reference)
      → Refers bn tid ps k i r
      → is_at k (target bn tid (index_of ps) i r) ≡ true
  unfolding target
  Refers-is_at i r h =
      let a = or-nil r.board bn h.board in
      let b = or-nil r.thread tid h.thread in
      let c : is_nil r.post ≡ false = not_nil r.post h.post in
      let d : (k == i) ≡ false = other h.other in
      rw (target, a, b, c, IsLast-index_of ps r.post k h.named, d) ==-refl
    where
      not_nil : (s : Bytes) → s ≢ [] → is_nil s ≡ false
      not_nil [] n = absurd (n refl)
      not_nil (c ∷ s) n = refl

      other : k ≢ i → (k == i) ≡ false
      other n = ground arith

      ==-refl : (k == k) ≡ true
      ==-refl = ground arith

  TurnedReferences-refers :
      (i : ℕ) (id : Bytes) (rs : List Reference)
      → TurnedReferences bn tid ps k i id rs (refers bn tid (index_of ps) k i id rs)
  TurnedReferences-refers i id [] = no_reference
  TurnedReferences-refers i id (r ∷ rs) =
      elim (Bool-cases (is_at k (target bn tid (index_of ps) i r))) [
        | inl e ↦ rw e (turned r rs _ (is_at-Refers i r e) (TurnedReferences-refers i id rs))
        | inr e ↦
            rw e (left r rs _ (λ h. cc (Refers-is_at i r h, e)) (TurnedReferences-refers i id rs))
      ]

  TurnedPosts-referrers :
      (i : ℕ) (todo : List PostInfo)
      → TurnedPosts bn tid ps k i todo (referrers bn tid (index_of ps) k i todo)
  TurnedPosts-referrers i [] = no_post i
  TurnedPosts-referrers i (p ∷ todo) =
      post i p todo _ _ (TurnedReferences-refers i p.id p.references)
        (TurnedPosts-referrers (suc i) todo)

-- Behind the back-references that it had, a post of a thread has one to the post of each reference
-- to it, in the order of the posts and of their references, but one that the list ends in by then
-- is left out. A reference is to it where it has no other board or thread and names a post, the
-- post is the last one with the ID that it names, and the reference stands in another post.
pub process_back_references-Collapsed :
    (bn tid : Bytes) (ps : List PostInfo) (k : ℕ)
    → (bs : List Reference) × TurnedPosts bn tid ps k 0 ps bs
      × Collapsed (backs k ps) bs (backs k (process_back_references bn tid ps))
process_back_references-Collapsed bn tid ps k =
    let bs = referrers bn tid (index_of ps) k 0 ps in
    (
      bs,
      TurnedPosts-referrers bn tid ps k 0 ps,
      subst (λ t. Collapsed (backs k ps) bs t) (sym (process_back_references-referrers bn tid ps k))
          (Collapsed-add_all bs (backs k ps)),
    )
