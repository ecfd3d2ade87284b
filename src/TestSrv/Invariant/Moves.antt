-- ===== src/TestSrv/Invariant/Moves.antt =====
-- The methods of src/nksrv/lib/nntp/testsrv/testsrv.go that select a group or move in it.
use nksrv.Base.{
  ℕ, ◌≡◌, refl, List, [], ◌∷◌, reverse, Option, none, some, Bytes, All, ◌⊎◌, inl, inr, Option-cases,
  Bool-cases, bytes_eq, ◌==◌, arith,
}
use mathlib.Core.Path.{subst}
use nksrv.Base.Int.{ℤ}
use nksrv.Nntp.Session.{ArticleKind}
use nksrv.TestSrv.Data.{
  Article, Group, Srv, article_at, lookup, GroupState, Sent, no_next, no_prev, Res,
}
use nksrv.TestSrv.Articles.{read_name, by_num, get_article_by_num}
use nksrv.TestSrv.Groups.{
  select_group, list_selected, new_group_state, select_and_list_group, first_number, first_above,
  first_below, moved, move, select_move, select_next_article, select_prev_article,
}

-- The group has an article of this number.
abbrev pub Has : Group → ℕ → Type 0
Has g n = (a : Article) × (article_at g.articles n ≡ some a)

-- Each number of the list of a group is that of an article.
abbrev pub IsListed : Group → Type 0
IsListed g = All (Has g) g.articles_sort

abbrev pub IsReady : Srv → Type 0
IsReady s1 = All (λ e. IsListed e.1) s1.groups

abbrev pub IsCurrent : ℕ → Option Group → Type 0
IsCurrent n none = n ≡ 0
IsCurrent n (some g) = IsListed g × ((n ≡ 0) ⊎ Has g n)

-- The current number is 0 or that of an article of the selected group.
abbrev pub IsSound : Option GroupState → Type 0
IsSound none = Unit
IsSound (some gs) = IsCurrent gs.number gs.g

-- A method panics, or leaves a sound state.
abbrev pub Sound : Option Res → Type 0
Sound none = Unit
Sound (some r) = IsSound r.gs

IsListed-lookup :
    (es : List (Bytes × Group)) (s : Bytes) (g : Group)
    → All (λ e. IsListed e.1) es
    → lookup es s ≡ some g
    → IsListed g
IsListed-lookup [] s g h e = absurd (ground arith)
IsListed-lookup ((k, g') ∷ es) s g (l, h) e = elim (Bool-cases (bytes_eq k s)) [
  | inl b ↦ subst (λ o. elim o [ none ↦ Unit | some g0 ↦ IsListed g0 ]) (rw b at e) l
  | inr b ↦ IsListed-lookup es s g h (rw b at e)
]

IsCurrent-first : (g : Group) → IsListed g → IsCurrent (first_number g.articles_sort) (some g)
IsCurrent-first g l = (l, first g.articles_sort l)
  where
    first : (ns : List ℕ) → All (Has g) ns → (first_number ns ≡ 0) ⊎ Has g (first_number ns)
    first [] h = inl refl
    first (n ∷ ns) (h, _) = inr h

pub Sound-select_group :
    (s1 : Srv) (gs : Option GroupState) (group : Bytes)
    → IsReady s1
    → IsSound gs
    → Sound (select_group s1 gs group)
unfolding select_group
Sound-select_group s1 gs group ready h = elim (Option-cases (lookup s1.groups group)) [
  | inl e ↦ rw (select_group, e) h
  | inr (g, e) ↦
      rw (select_group, e) (IsCurrent-first g (IsListed-lookup s1.groups group g ready e))
]

Sound-list_selected :
    (s1 : Srv) (gs : GroupState) (name : Bytes) (rmin rmax : ℤ)
    → IsReady s1
    → IsSound (some gs)
    → Sound (list_selected gs rmin rmax (lookup s1.groups name))
Sound-list_selected s1 gs name rmin rmax ready h = elim (Option-cases (lookup s1.groups name)) [
  | inl e ↦ rw e h
  | inr (g, e) ↦ rw e (IsCurrent-first g (IsListed-lookup s1.groups name g ready e))
]

pub Sound-select_and_list_group :
    (s1 : Srv) (now : Bytes → Bytes) (gs : Option GroupState) (name : Bytes) (rmin rmax : ℤ)
    → IsReady s1
    → IsSound gs
    → Sound (select_and_list_group s1 now gs name rmin rmax)
unfolding select_and_list_group
Sound-select_and_list_group s1 now none [] rmin rmax ready h = tt
Sound-select_and_list_group s1 now none (c ∷ name) rmin rmax ready h =
    Sound-list_selected s1 new_group_state (c ∷ name) rmin rmax ready refl
Sound-select_and_list_group s1 now (some gs) [] rmin rmax ready h =
    Sound-list_selected s1 gs (read_name now gs.group) rmin rmax ready h
Sound-select_and_list_group s1 now (some gs) (c ∷ name) rmin rmax ready h =
    Sound-list_selected s1 gs (c ∷ name) rmin rmax ready h

-- A number that has an article becomes the current one.
Sound-by_num_in :
    (kind : ArticleKind) (gs : GroupState) (n : ℕ) (o : Option Group)
    → gs.g ≡ o
    → IsCurrent gs.number o
    → Sound (by_num kind gs n (elim o [ none ↦ none | some g ↦ some (article_at g.articles n) ]))
Sound-by_num_in kind gs n none e h = tt
Sound-by_num_in kind gs n (some g) e h = elim (Option-cases (article_at g.articles n)) [
  | inl f ↦ rw (f, e) h
  | inr (a, f) ↦ rw (f, e) (h.0, inr (a, f))
]

pub Sound-by_num :
    (kind : ArticleKind) (gs : Option GroupState) (n : ℕ)
    → IsSound gs
    → Sound (get_article_by_num kind gs n)
unfolding get_article_by_num
Sound-by_num kind none n h = tt
Sound-by_num kind (some gs) n h = Sound-by_num_in kind gs n gs.g refl h

Sound-moved :
    (gs : GroupState) (g : Group) (otherwise : Sent) (n : Option ℕ)
    → gs.g ≡ some g
    → IsCurrent gs.number (some g)
    → Sound (moved gs g otherwise n)
Sound-moved gs g otherwise none e h = rw e h
Sound-moved gs g otherwise (some n) e h = elim (Option-cases (article_at g.articles n)) [
  | inl f ↦ rw f tt
  | inr (a, f) ↦ rw (f, e) (h.0, inr (a, f))
]

Sound-move_in :
    (find : ℕ → List ℕ → Option ℕ) (otherwise : Sent) (gs : GroupState) (o : Option Group)
    → gs.g ≡ o
    → IsCurrent gs.number o
    → Sound (move find otherwise gs o)
Sound-move_in find otherwise gs none e h = tt
Sound-move_in find otherwise gs (some g) e h =
    Sound-moved gs g otherwise (find gs.number g.articles_sort) e h

Sound-move :
    (find : ℕ → List ℕ → Option ℕ) (otherwise : Sent) (gs : Option GroupState)
    → IsSound gs
    → Sound (select_move find otherwise gs)
Sound-move find otherwise none h = tt
Sound-move find otherwise (some gs) h = elim (Bool-cases (gs.number == 0)) [
  | inl e ↦ rw (select_move, e) h
  | inr e ↦ rw (select_move, e) (Sound-move_in find otherwise gs gs.g refl h)
]

pub Sound-next : (gs : Option GroupState) → IsSound gs → Sound (select_next_article gs)
unfolding select_next_article
Sound-next gs h = Sound-move first_above no_next gs h

pub Sound-prev : (gs : Option GroupState) → IsSound gs → Sound (select_prev_article gs)
unfolding select_prev_article
Sound-prev gs h = Sound-move (λ x ns. first_below x (reverse ns)) no_prev gs h
