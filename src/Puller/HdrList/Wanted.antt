-- ===== src/Puller/HdrList/Wanted.antt =====
-- The articles that `eatHdrOutput` lists were asked for, and it leaves the connection behind the list.
use mathlib.Core.Path.{subst}
use nksrv.Base.{
  ℕ, ◌+◌, ◌^◌, ◌%◌, ◌≤◌, ◌<◌, ◌≡◌, sym, refl, ap, ◌∙◌, true, false, List, [], ◌∷◌, ◌++◌, Option,
  none, some, leb, length, length-append, arith, Bool-cases, inl, inr,
}
use nksrv.BufReader.Stream.{Item}
use nksrv.DotReader.{Dot, new_dot}
use nksrv.DotReader.Scan.{DotErr, article_end}
use nksrv.DotReader.Scan.Ending.{ending, discard-rest}
use nksrv.Puller.Lines.{Try, ok, err, dot_line_byte, HdrLine, parse_hdr_line}
use nksrv.Puller.Lists.{Fault, LoopEnd, lines_loop, enough}
use nksrv.Puller.Lists.Behind.{Returns, returns, Leaves, lines_loop-Returns}
use nksrv.Puller.Slices.{is_negative}
use nksrv.Puller.Todo.{TodoArticle}
use nksrv.Puller.HdrList.{
  max_list_size, is_unwanted, add_article, hdr_line, after_hdr, eaten_of, eat_hdr_output,
}

-- A number of a slice; one with an open end is taken for `max_list_size` numbers.
pub data IsAsked (r_begin r_end id : ℕ) : Type 0 where
  closed : is_negative r_end ≡ false → r_begin ≤ id → id ≤ r_end → IsAsked r_begin r_end id
  open_ended :
      is_negative r_end ≡ true
      → r_begin ≤ id
      → id < r_begin + max_list_size
      → IsAsked r_begin r_end id

is_unwanted-IsAsked :
    (r_begin r_end id : ℕ)
    → r_begin < 2 ^ 63
    → is_unwanted r_begin r_end id ≡ false
    → IsAsked r_begin r_end id
unfolding is_unwanted
is_unwanted-IsAsked r_begin r_end id h e =
    let m : (r_begin + max_list_size) % 2 ^ 64 ≡ r_begin + max_list_size = omega (arith, h) in
    let l : r_begin ≤ id = ground (arith, e) in
    elim (Bool-cases (is_negative r_end)) [
      | inl x ↦ open_ended x l (ground (arith, e, x, m))
      | inr x ↦ closed x l (ground (arith, e, x))
    ]

-- All articles of a list were asked for.
abbrev pub AllAsked : ℕ → ℕ → List TodoArticle → Type 0
AllAsked r_begin r_end [] = Unit
AllAsked r_begin r_end (a ∷ todo) = IsAsked r_begin r_end a.id × AllAsked r_begin r_end todo

AllAsked-add :
    (r_begin r_end : ℕ) (todo : List TodoArticle) (a : TodoArticle)
    → AllAsked r_begin r_end todo
    → IsAsked r_begin r_end a.id
    → AllAsked r_begin r_end (todo ++ a ∷ [])
AllAsked-add r_begin r_end [] a w h = (h, tt)
AllAsked-add r_begin r_end (b ∷ todo) a w h = (w.0, AllAsked-add r_begin r_end todo a w.1 h)

-- A list for a slice.
pub record IsTodo (r_begin r_end : ℕ) (todo : List TodoArticle) : Type 0 where
  pub asked : AllAsked r_begin r_end todo
  pub bounded : length todo ≤ max_list_size

pub add_article-IsTodo :
    (r_begin r_end : ℕ) (a : TodoArticle) (todo : List TodoArticle)
    → r_begin < 2 ^ 63
    → IsTodo r_begin r_end todo
    → IsTodo r_begin r_end (add_article r_begin r_end a todo)
unfolding add_article
add_article-IsTodo r_begin r_end a todo h i = elim (Bool-cases (is_unwanted r_begin r_end a.id)) [
  | inl e ↦ rw e i
  | inr e ↦ elim (Bool-cases (leb max_list_size (length todo))) [
    | inl x ↦ rw (e, x) i
    | inr x ↦
        let l : length todo < max_list_size = ground (arith, x) in
        rw (e, x)
          (record {
            asked =
                AllAsked-add r_begin r_end todo a i.asked
                  (is_unwanted-IsAsked r_begin r_end a.id h e);
            bounded = omega (arith, l, length-append {0} todo (a ∷ []));
          })
  ]
]

hdr_line-IsTodo :
    (r_begin r_end : ℕ) (t : Try HdrLine) (todo : List TodoArticle)
    → r_begin < 2 ^ 63
    → IsTodo r_begin r_end todo
    → IsTodo r_begin r_end (hdr_line r_begin r_end t todo).1
hdr_line-IsTodo r_begin r_end (err e) todo b i = i
hdr_line-IsTodo r_begin r_end (ok h) todo b i = add_article-IsTodo r_begin r_end _ todo b i

eat_hdr_loop :
    (r_begin r_end : ℕ) (is : List Item)
    → r_begin < 2 ^ 63
    → Returns
        (λ r. Leaves (ending new_dot is) r × IsTodo r_begin r_end r.out)
        (lines_loop dot_line_byte []
          (λ line. hdr_line r_begin r_end (parse_hdr_line line))
          (enough is)
          new_dot
          is
          [])
eat_hdr_loop r_begin r_end is h =
    lines_loop-Returns dot_line_byte [] (λ line. hdr_line r_begin r_end (parse_hdr_line line))
      (IsTodo r_begin r_end)
      (λ line todo. hdr_line-IsTodo r_begin r_end (parse_hdr_line line) todo h) (enough is) new_dot
      is [] (omega arith) (record { asked = tt; bounded = omega arith })

eaten_of-IsTodo :
    (r_begin r_end : ℕ) (t : DotErr × List Item) (after : List Item)
    (o : Option (LoopEnd (List TodoArticle)))
    → t ≡ (article_end, after)
    → Returns (λ r. Leaves t r × IsTodo r_begin r_end r.out) o
    → Returns (λ x. IsTodo r_begin r_end x.todo × (x.rest ≡ after)) (eaten_of o)
eaten_of-IsTodo r_begin r_end t after _ e (returns r p) = returns _ (go r.how r.dot r.rest p.0)
  where
    go :
        (how : Option Fault) (d : Dot) (is : List Item)
        → Leaves t (record { how = how; dot = d; rest = is; out = r.out })
        → (IsTodo r_begin r_end
            (after_hdr (record { how = how; dot = d; rest = is; out = r.out })).todo)
          × ((after_hdr (record { how = how; dot = d; rest = is; out = r.out })).rest ≡ after)
    go none d is l = (p.1, ap (λ u. u.1) (l.1 ∙ e))
    go (some x) d is l = (p.1, discard-rest d is after (l.0 (ap (λ u. u.0) e) ∙ e))

-- Behind a list that ends properly `eatHdrOutput` comes back with the connection behind the list. Whatever the list
-- holds, the articles that it takes from it were asked for, and they are 2048 at most.
pub eat_hdr_output-IsTodo :
    (r_begin r_end : ℕ) (is after : List Item)
    → r_begin < 2 ^ 63
    → ending new_dot is ≡ (article_end, after)
    → Returns
        (λ x. IsTodo r_begin r_end x.todo × (x.rest ≡ after))
        (eat_hdr_output r_begin r_end is)
unfolding eat_hdr_output
eat_hdr_output-IsTodo r_begin r_end is after h e =
    eaten_of-IsTodo r_begin r_end (ending new_dot is) after _ e (eat_hdr_loop r_begin r_end is h)

-- Whatever the other server sends, `eatHdrOutput` comes back, with 2048 articles at most that were all
-- asked for.
pub eat_hdr_output-HasTodo :
    (r_begin r_end : ℕ) (is : List Item)
    → r_begin < 2 ^ 63
    → Returns (λ x. IsTodo r_begin r_end x.todo) (eat_hdr_output r_begin r_end is)
unfolding eat_hdr_output
eat_hdr_output-HasTodo r_begin r_end is h = go _ (eat_hdr_loop r_begin r_end is h)
  where
    todo_of : (r : LoopEnd (List TodoArticle)) → (after_hdr r).todo ≡ r.out
    todo_of r = how r.how
      where
        how : (w : Option Fault) → (after_hdr (record r { how = w })).todo ≡ r.out
        how none = refl
        how (some e) = refl

    go :
        (o : Option (LoopEnd (List TodoArticle)))
        → Returns (λ r. Leaves (ending new_dot is) r × IsTodo r_begin r_end r.out) o
        → Returns (λ x. IsTodo r_begin r_end x.todo) (eaten_of o)
    go _ (returns r p) = returns _ (subst (IsTodo r_begin r_end) (sym (todo_of r)) p.1)
