-- ===== src/BackRefs/Referrers.antt =====
-- The back-references of a post against the posts that refer to it.
use nksrv.Base.{
  ℕ, zero, suc, ◌<◌, ◌≡◌, refl, sym, ap, ◌∙◌, Bool, true, false, List, [], ◌∷◌, ◌++◌, Option, none,
  some, Bytes, ◌==◌, if◌then◌else◌, bytes_eq, length, arith, Bool-cases, Option-cases, inl, inr,
}
use mathlib.Core.Option.{some-injective}
use nksrv.BackRefs.{
  Reference, PostInfo, index_of, is_here, back_to, add_back, modify_at, target, put_back, procrefs,
  process_loop, process_back_references,
}

-- The back-references of the post at a place.
abbrev pub backs : ℕ → List PostInfo → List Reference
backs k [] = []
backs zero (p ∷ ps) = p.back_references
backs (suc k) (p ∷ ps) = backs k ps

-- One back-reference behind the other is added by `add_back`.
abbrev pub add_all : List Reference → List Reference → List Reference
add_all [] bs = bs
add_all (r ∷ rs) bs = add_all rs (add_back r bs)

abbrev pub is_at : ℕ → Option ℕ → Bool
is_at k none = false
is_at k (some j) = j == k

module _ (bn tid : Bytes) (m : Bytes → Option ℕ) (k : ℕ) where
  -- For each reference of a post to the post at place `k`, the post that has it.
  abbrev pub refers : ℕ → Bytes → List Reference → List Reference
  refers i id [] = []
  refers i id (r ∷ rs) =
      if is_at k (target bn tid m i r) then back_to id ∷ refers i id rs else refers i id rs

  abbrev pub referrers : ℕ → List PostInfo → List Reference
  referrers i [] = []
  referrers i (p ∷ ps) = refers i p.id p.references ++ referrers (suc i) ps

suc-==-suc : (j k : ℕ) → (suc j == suc k) ≡ (j == k)
suc-==-suc j k = ground arith

backs-modify_at :
    (k j : ℕ) (f : List Reference → List Reference) (ps : List PostInfo)
    → j < length ps
    → backs k (modify_at j f ps) ≡ (if j == k then f (backs k ps) else backs k ps)
backs-modify_at k j f [] h = absurd (omega arith)
backs-modify_at zero zero f (p ∷ ps) h = refl
backs-modify_at (suc k) zero f (p ∷ ps) h =
    let e : (zero == suc k) ≡ false = ground arith in rw e refl
backs-modify_at zero (suc j) f (p ∷ ps) h =
    let e : (suc j == zero) ≡ false = ground arith in rw e refl
backs-modify_at (suc k) (suc j) f (p ∷ ps) h =
    rw (suc-==-suc j k) (backs-modify_at k j f ps (omega arith))

length-modify_at :
    (j : ℕ) (f : List Reference → List Reference) (ps : List PostInfo)
    → length (modify_at j f ps) ≡ length ps
length-modify_at j f [] = refl
length-modify_at zero f (p ∷ ps) = refl
length-modify_at (suc j) f (p ∷ ps) = ap suc (length-modify_at j f ps)

add_all-append : (xs ys bs : List Reference) → add_all (xs ++ ys) bs ≡ add_all ys (add_all xs bs)
add_all-append [] ys bs = refl
add_all-append (x ∷ xs) ys bs = add_all-append xs ys (add_back x bs)

index_of-bound : (ps : List PostInfo) (s : Bytes) (j : ℕ) → index_of ps s ≡ some j → j < length ps
unfolding index_of
index_of-bound [] s j e = absurd (ground arith)
index_of-bound (p ∷ ps) s j e = elim (Option-cases (index_of ps s)) [
  | inr (i, f) ↦
      let b = index_of-bound ps s i f in
      let q : suc i ≡ j = some-injective (suc i) j (rw f at e) in omega (arith, b, q)
  | inl f ↦ elim (Bool-cases (bytes_eq p.id s)) [
    | inl b ↦ let q : 0 ≡ j = some-injective 0 j (rw (f, b) at e) in omega (arith, q)
    | inr b ↦ (let c = rw (f, b) at e in absurd (ground arith))
  ]
]

abbrev put_if : Bool → Bytes → List Reference → List Reference
put_if true id bs = add_back (back_to id) bs
put_if false id bs = bs

module _ (bn tid : Bytes) (m : Bytes → Option ℕ) (n : ℕ) where
  -- The map leads to posts of the thread.
  abbrev IsInside : Type 0
  IsInside = (s : Bytes) (j : ℕ) → m s ≡ some j → j < n

  target-inside : (i : ℕ) (r : Reference) (j : ℕ) → IsInside → target bn tid m i r ≡ some j → j < n
  unfolding target
  target-inside i r j inside e = elim (Bool-cases (is_here bn tid r)) [
    | inr h ↦ (let c = rw (target, h) at e in absurd (ground arith))
    | inl h ↦ elim (Option-cases (m r.post)) [
      | inl f ↦ (let c = rw (target, h, f) at e in absurd (ground arith))
      | inr (j', f) ↦ elim (Bool-cases (j' == i)) [
        | inl b ↦ (let c = rw (target, h, f, b) at e in absurd (ground arith))
        | inr b ↦
            let q : j' ≡ j = some-injective j' j (rw (target, h, f, b) at e) in
            let l = inside r.post j' f in omega (arith, q, l)
      ]
    ]
  ]

  length-put_back :
      (id : Bytes) (o : Option ℕ) (ps : List PostInfo)
      → length (put_back bn tid m id o ps) ≡ length ps
  length-put_back id none ps = refl
  length-put_back id (some j) ps = length-modify_at j (add_back (back_to id)) ps

  backs-put_back :
      (k : ℕ) (id : Bytes) (o : Option ℕ) (ps : List PostInfo)
      → ((j : ℕ) → o ≡ some j → j < length ps)
      → backs k (put_back bn tid m id o ps) ≡ put_if (is_at k o) id (backs k ps)
  backs-put_back k id none ps h = refl
  backs-put_back k id (some j) ps h =
      backs-modify_at k j (add_back (back_to id)) ps (h j refl) ∙ if-put (j == k)
    where
      if-put :
          (b : Bool)
          → (if b then add_back (back_to id) (backs k ps) else backs k ps)
            ≡ put_if b id (backs k ps)
      if-put true = refl
      if-put false = refl

  -- What `procrefs` and the loop do to one post.
  record Adds (ps ps' : List PostInfo) (k : ℕ) (rs : List Reference) : Type 0 where
    same_length : length ps' ≡ length ps
    added : backs k ps' ≡ add_all rs (backs k ps)

  Adds-procrefs :
      (k i : ℕ) (id : Bytes) (rs : List Reference) (ps : List PostInfo)
      → IsInside
      → length ps ≡ n
      → Adds ps (procrefs bn tid m i id rs ps) k (refers bn tid m k i id rs)
  unfolding procrefs
  Adds-procrefs k i id [] ps inside l = record { same_length = refl; added = refl }
  Adds-procrefs k i id (r ∷ rs) ps inside l =
      let o = target bn tid m i r in
      let ps1 = put_back bn tid m id o ps in
      let l1 = length-put_back id o ps in
      let b = backs-put_back k id o ps (λ j e. rw l (target-inside i r j inside e)) in
      let rest = Adds-procrefs k i id rs ps1 inside (l1 ∙ l) in
      record {
        same_length = rest.same_length ∙ l1;
        added = rest.added ∙ ap (add_all (refers bn tid m k i id rs)) b ∙ put (is_at k o);
      }
    where
      put :
          (t : Bool)
          → add_all (refers bn tid m k i id rs) (put_if t id (backs k ps))
            ≡ add_all
                (if t then back_to id ∷ refers bn tid m k i id rs else refers bn tid m k i id rs)
                (backs k ps)
      put true = refl
      put false = refl

  Adds-process_loop :
      (k i : ℕ) (todo ps : List PostInfo)
      → IsInside
      → length ps ≡ n
      → Adds ps (process_loop bn tid m i todo ps) k (referrers bn tid m k i todo)
  unfolding process_loop
  Adds-process_loop k i [] ps inside l = record { same_length = refl; added = refl }
  Adds-process_loop k i (p ∷ todo) ps inside l =
      let a = Adds-procrefs k i p.id p.references ps inside l in
      let b =
        Adds-process_loop k (suc i) todo (procrefs bn tid m i p.id p.references ps) inside
          (a.same_length ∙ l) in
      record {
        same_length = b.same_length ∙ a.same_length;
        added =
            b.added
            ∙ ap (add_all (referrers bn tid m k (suc i) todo)) a.added
            ∙ sym (
                add_all-append (refers bn tid m k i p.id p.references)
                  (referrers bn tid m k (suc i) todo) (backs k ps));
      }

-- The loop adds to the back-references of a post what `referrers` collects, one behind the other.
pub process_back_references-referrers :
    (bn tid : Bytes) (ps : List PostInfo) (k : ℕ)
    → backs k (process_back_references bn tid ps)
      ≡ add_all (referrers bn tid (index_of ps) k 0 ps) (backs k ps)
unfolding process_back_references
process_back_references-referrers bn tid ps k =
    (Adds-process_loop bn tid (index_of ps) (length ps) k 0 ps ps (index_of-bound ps) refl).added
