-- ===== src/Puller/OverList/Wanted.antt =====
-- The articles that `eatOverOutput` lists were asked for, and it leaves the connection behind the list.
use nksrv.Base.{
  ℕ, zero, suc, ◌^◌, ◌<◌, ◌≡◌, refl, Bool, true, false, List, [], Option, none, some, arith,
}
use nksrv.BufReader.Stream.{Item}
use nksrv.DotReader.{Dot, new_dot}
use nksrv.DotReader.Scan.{article_end}
use nksrv.DotReader.Scan.Ending.{ending, size}
use nksrv.Puller.Lists.Behind.{Returns, returns}
use nksrv.Puller.Todo.{TodoArticle}
use nksrv.Puller.HdrList.{Eaten}
use nksrv.Puller.HdrList.Wanted.{IsTodo, add_article-IsTodo}
use nksrv.Puller.OverList.{
  OverErr, at_eof, other_err, OverLine, get_over_line_info, after_over, over_loop, eat_over_output,
}
use nksrv.Puller.OverList.Ends.{LeavesLess, IsLess, get_over_line_info-IsLess}
use nksrv.Puller.OverList.Line.{Proper, IsNext, IsFine, get_over_line_info-IsFine}

-- What the call comes to.
abbrev pub IsEaten : ℕ → ℕ → List Item → Eaten → Type 0
IsEaten r_begin r_end after x = (IsTodo r_begin r_end x.todo × (x.rest ≡ after)) × (x.fails ≡ false)

module _ (r_begin r_end : ℕ) (h : r_begin < 2 ^ 63) (after : List Item) where
  after_over-IsEaten :
      (n : ℕ) (l : OverLine) (todo : List TodoArticle) (again : List TodoArticle → Option Eaten)
      → IsFine after n l
      → IsTodo r_begin r_end todo
      → ((todo' : List TodoArticle)
          → IsTodo r_begin r_end todo'
          → size l.dot l.rest < n
          → Returns (IsEaten r_begin r_end after) (again todo'))
      → Returns (IsEaten r_begin r_end after) (after_over r_begin r_end l todo again)
  after_over-IsEaten n l todo again f i k = go l.err l.fatal f.next f.soft
    where
      go :
          (err : Option OverErr) (fatal : Bool)
          → IsNext after n err l.dot l.rest
          → fatal ≡ false
          → Returns
              (IsEaten r_begin r_end after)
              (after_over r_begin r_end (record l { err = err; fatal = fatal }) todo again)
      go none fatal m s = k _ (add_article-IsTodo r_begin r_end _ todo h i) m
      go (some at_eof) fatal e s = returns _ ((i, e), refl)
      go (some other_err) true m s = absurd (ground arith)
      go (some other_err) false m s = k todo i m

  over_loop-IsEaten :
      (n : ℕ) (d : Dot) (is : List Item) (todo : List TodoArticle)
      → Proper after d is
      → size d is < n
      → IsTodo r_begin r_end todo
      → Returns (IsEaten r_begin r_end after) (over_loop r_begin r_end n d is todo)
  unfolding over_loop
  over_loop-IsEaten zero d is todo p l i = absurd (omega arith)
  over_loop-IsEaten (suc n) d is todo p l i =
      let x = get_over_line_info d is in
      let f = get_over_line_info-IsFine after d is p in
      after_over-IsEaten (size d is) x todo (over_loop r_begin r_end n x.dot x.rest) f i
        λ todo' i' m. over_loop-IsEaten n x.dot x.rest todo' f.behind (omega arith) i'

-- Behind a list that ends properly `eatOverOutput` comes back without an error, whatever its lines are, and with the
-- connection behind the list. The articles that it takes from the list were asked for, and they are 2048 at most.
pub eat_over_output-IsEaten :
    (r_begin r_end : ℕ) (is after : List Item)
    → r_begin < 2 ^ 63
    → ending new_dot is ≡ (article_end, after)
    → Returns (IsEaten r_begin r_end after) (eat_over_output r_begin r_end is)
unfolding eat_over_output
eat_over_output-IsEaten r_begin r_end is after h p =
    over_loop-IsEaten r_begin r_end h after (suc (size new_dot is)) new_dot is [] p (omega arith)
      (record { asked = tt; bounded = omega arith })

-- A list of articles that were asked for.
abbrev pub HasTodo : ℕ → ℕ → Eaten → Type 0
HasTodo r_begin r_end x = IsTodo r_begin r_end x.todo

module _ (r_begin r_end : ℕ) (h : r_begin < 2 ^ 63) where
  after_over-HasTodo :
      (n : ℕ) (l : OverLine) (todo : List TodoArticle) (again : List TodoArticle → Option Eaten)
      → IsLess n l
      → IsTodo r_begin r_end todo
      → ((todo' : List TodoArticle)
          → IsTodo r_begin r_end todo'
          → size l.dot l.rest < n
          → Returns (HasTodo r_begin r_end) (again todo'))
      → Returns (HasTodo r_begin r_end) (after_over r_begin r_end l todo again)
  after_over-HasTodo n l todo again f i k = go l.err l.fatal f
    where
      go :
          (err : Option OverErr) (fatal : Bool)
          → LeavesLess n err fatal l.dot l.rest
          → Returns
              (HasTodo r_begin r_end)
              (after_over r_begin r_end (record l { err = err; fatal = fatal }) todo again)
      go none fatal m = k _ (add_article-IsTodo r_begin r_end _ todo h i) m
      go (some at_eof) fatal m = returns _ i
      go (some other_err) true m = returns _ i
      go (some other_err) false m = k todo i m

  over_loop-HasTodo :
      (n : ℕ) (d : Dot) (is : List Item) (todo : List TodoArticle)
      → size d is < n
      → IsTodo r_begin r_end todo
      → Returns (HasTodo r_begin r_end) (over_loop r_begin r_end n d is todo)
  unfolding over_loop
  over_loop-HasTodo zero d is todo l i = absurd (omega arith)
  over_loop-HasTodo (suc n) d is todo l i =
      let x = get_over_line_info d is in
      after_over-HasTodo (size d is) x todo (over_loop r_begin r_end n x.dot x.rest)
        (get_over_line_info-IsLess d is) i
        λ todo' i' m. over_loop-HasTodo n x.dot x.rest todo' (omega arith) i'

-- Whatever the other server sends, `eatOverOutput` comes back, with 2048 articles at most that were all
-- asked for.
pub eat_over_output-HasTodo :
    (r_begin r_end : ℕ) (is : List Item)
    → r_begin < 2 ^ 63
    → Returns (HasTodo r_begin r_end) (eat_over_output r_begin r_end is)
unfolding eat_over_output
eat_over_output-HasTodo r_begin r_end is h =
    over_loop-HasTodo r_begin r_end h (suc (size new_dot is)) new_dot is [] (omega arith)
      (record { asked = tt; bounded = omega arith })
