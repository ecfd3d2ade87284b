-- ===== src/BackRefs.antt =====
-- src/nksrv/lib/app/webib0/processbackrefs.go: what the posts of a thread refer to is turned around. The
-- posts are a list, with the opening one in front; a pointer to one is its place in the list.
pub mod Referrers
pub mod Turned
pub mod Twins
mod Tests
use nksrv.Base.{
  ℕ, zero, suc, ◌+◌, Bool, true, false, not, ◌&&◌, ◌||◌, List, [], ◌∷◌, ◌++◌, Option, none, some,
  Bytes, ◌==◌, if◌then◌else◌, bytes_eq, length,
}

-- `IBReference`, and `IBBackReference`, which holds one.
pub record Reference : Type 0 where
  pub board : Bytes
  pub thread : Bytes
  pub post : Bytes

-- `IBPostInfo`, as far as references go.
pub record PostInfo : Type 0 where
  pub id : Bytes
  pub references : List Reference
  pub back_references : List Reference

-- The map `m` of the posts by their ID: of two posts with one ID the later one.
unfoldable pub index_of : List PostInfo → Bytes → Option ℕ
index_of [] s = none
index_of (p ∷ ps) s = elim (index_of ps s) [
  | some i ↦ some (suc i)
  | none ↦ if bytes_eq p.id s then some 0 else none
]

abbrev pub is_nil : Bytes → Bool
is_nil [] = true
is_nil (c ∷ s) = false

-- Whether a reference is to a post of this thread.
abbrev pub is_here : Bytes → Bytes → Reference → Bool
is_here bn tid r =
    (is_nil r.board || bytes_eq r.board bn)
    && (is_nil r.thread || bytes_eq r.thread tid)
    && not (is_nil r.post)

abbrev pub ref_eq : Reference → Reference → Bool
ref_eq a b = bytes_eq a.board b.board && bytes_eq a.thread b.thread && bytes_eq a.post b.post

abbrev pub last_is : Reference → List Reference → Bool
last_is br [] = false
last_is br (b ∷ []) = ref_eq b br
last_is br (_ ∷ b ∷ bs) = last_is br (b ∷ bs)

-- `IBBackReference{IBReference{Post: ii.ID}}`.
abbrev pub back_to : Bytes → Reference
back_to id = record { board = []; thread = []; post = id }

-- A back-reference is added, unless it is the last one.
unfoldable pub add_back : Reference → List Reference → List Reference
add_back br bs = if last_is br bs then bs else bs ++ br ∷ []

abbrev pub modify_at : ℕ → (List Reference → List Reference) → List PostInfo → List PostInfo
modify_at i f [] = []
modify_at zero f (p ∷ ps) = record p { back_references = f p.back_references } ∷ ps
modify_at (suc i) f (p ∷ ps) = p ∷ modify_at i f ps

module _ (bn tid : Bytes) (m : Bytes → Option ℕ) where
  -- The post that a reference of the post at a place is turned around at, if there is one.
  unfoldable pub target : ℕ → Reference → Option ℕ
  target i rr =
      if is_here bn tid rr
      then elim (m rr.post) [ none ↦ none | some j ↦ if j == i then none else some j ]
      else none

  abbrev pub put_back : Bytes → Option ℕ → List PostInfo → List PostInfo
  put_back id none ps = ps
  put_back id (some j) ps = modify_at j (add_back (back_to id)) ps

  -- `procrefs`, on the ID and the references of the post at a place.
  unfoldable pub procrefs : ℕ → Bytes → List Reference → List PostInfo → List PostInfo
  procrefs i id [] ps = ps
  procrefs i id (r ∷ rs) ps = procrefs i id rs (put_back id (target i r) ps)

  -- `procrefs` for each post from a place on: IDs and references stay as they are.
  unfoldable pub process_loop : ℕ → List PostInfo → List PostInfo → List PostInfo
  process_loop i [] ps = ps
  process_loop i (p ∷ todo) ps = process_loop (suc i) todo (procrefs i p.id p.references ps)

unfoldable pub process_back_references : Bytes → Bytes → List PostInfo → List PostInfo
process_back_references bn tid ps = process_loop bn tid (index_of ps) 0 ps ps
