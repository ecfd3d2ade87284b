-- ===== src/Puller/OverList/Line.antt =====
-- `getOverLineInfo` stays inside of the list, and reads a line of it.
use nksrv.Base.{
  ℕ, zero, suc, ◌≤◌, ◌<◌, ◌≡◌, refl, ap, ◌∙◌, Bool, true, false, not, ◌||◌, List, [], ◌∷◌, Option,
  none, some, Bytes, ◌==◌, if◌then◌else◌, length, arith, Bool-cases, inl, inr,
}
use nksrv.Ascii.{trim_ws}
use nksrv.BufReader.Stream.{Item, byte, error}
use nksrv.Nntp.Syntax.{is_number_slice, stoi, valid_message_id}
use nksrv.MailTools.{extract_first_valid_reference}
use nksrv.DotReader.{Dot, is_eof}
use nksrv.DotReader.Scan.{
  article_end, cut_off, broken_off, Verdict, ScanEnd, answered, stopped, scan,
}
use nksrv.DotReader.Scan.Ending.{ending, size, KeepsEnding, KeepsEnding-scan}
use nksrv.Puller.Lists.Behind.{ending-eof}
use nksrv.Puller.OverList.{
  OverErr, at_eof, other_err, Pos, FieldRead, field, lost, Field, FieldEnd, last_field, next_field,
  too_long, field_byte, field_of, eat_field, ignore_byte, ignored_of, ignore_field, OverLine,
  drain_byte, drained, leave, with_field, over_ref, over_msgid, over_skip, over_number,
  get_over_line_info,
}

-- The list ends properly, in front of a place.
abbrev pub Proper : List Item → Dot → List Item → Type 0
Proper after d is = ending d is ≡ (article_end, after)

abbrev Went : {S A : Type 0} → List Item → ℕ → ScanEnd S A → Dot → List Item → Type 0
Went after n (answered a) d is = Proper after d is × (size d is < n)
Went after n (stopped s e) d is =
    (e ≡ article_end)
    × ((Proper after d is × (size d is ≤ n)) × ((is ≡ after) × (is_eof d.state ≡ true)))

module _ {S A : Type 0} where
  -- A loop over bytes in a proper list.
  scan-Went :
      (f : S → ℕ → Verdict S A) (s : S) (after : List Item) (d : Dot) (is : List Item)
      → Proper after d is
      → Went after (size d is) (scan f s d is).how (scan f s d is).dot (scan f s d is).rest
  scan-Went f s after d is p =
      go (scan f s d is).how (scan f s d is).dot (scan f s d is).rest (KeepsEnding-scan f s d is)
    where
      go :
          (how : ScanEnd S A) (d' : Dot) (is' : List Item)
          → KeepsEnding (ending d is) (size d is) (record { how = how; dot = d'; rest = is' })
          → Went after (size d is) how d' is'
      go (answered a) d' is' k = (k.0 ∙ p, k.1)
      go (stopped s' e) d' is' k = (
        ap (λ t. t.0) (k.0 ∙ p),
        (
          (
            ending-eof d' is' (k.1.0 (ap (λ t. t.0) p)) ∙ ap (λ t. (article_end, t.1)) (k.0 ∙ p),
            k.1.1,
          ),
          (ap (λ t. t.1) (k.0 ∙ p), k.1.0 (ap (λ t. t.0) p)),
        ),
      )

  scan-end :
      (f : S → ℕ → Verdict S A) (s : S) (d : Dot) (is : List Item)
      → is_eof d.state ≡ true
      → scan f s d is ≡ record { how = stopped s article_end; dot = d; rest = is }
  unfolding scan
  scan-end f s d [] h = rw (scan, h) refl
  scan-end f s d (byte c ∷ is) h = rw (scan, h) refl
  scan-end f s d (error e ∷ is) h = rw (scan, h) refl

-- A position in a proper list, with less than so much to read.
abbrev In : List Item → ℕ → Pos → Type 0
In after n p = Proper after p.dot p.rest × (size p.dot p.rest < n)

-- The end of the list.
abbrev AtEnd : List Item → Pos → Type 0
AtEnd after p = Proper after p.dot p.rest × ((p.rest ≡ after) × (is_eof p.dot.state ≡ true))

-- A field, an error of the line, or the end of the list.
abbrev IsRead : List Item → ℕ → FieldRead × Pos → Type 0
IsRead after n (field f, p) = In after n p
IsRead after n (lost other_err false, p) = In after n p
IsRead after n (lost other_err true, p) = ⊥
IsRead after n (lost at_eof false, p) = AtEnd after p
IsRead after n (lost at_eof true, p) = ⊥

-- The end of the list, or less to read.
abbrev pub IsNext : List Item → ℕ → Option OverErr → Dot → List Item → Type 0
IsNext after n (some at_eof) d is = is ≡ after
IsNext after n (some other_err) d is = size d is < n
IsNext after n none d is = size d is < n

abbrev IsInside : Option OverErr → Type 0
IsInside (some at_eof) = ⊥
IsInside e = Unit

-- What a line comes to.
pub record IsFine (after : List Item) (n : ℕ) (l : OverLine) : Type 0 where
  pub behind : Proper after l.dot l.rest
  pub next : IsNext after n l.err l.dot l.rest
  pub soft : l.fatal ≡ false

module _ (after : List Item) (n : ℕ) where
  field_of-IsRead :
      (how : ScanEnd Field FieldEnd) (d : Dot) (is : List Item)
      → Went after n how d is
      → IsRead after n (field_of how d is)
  field_of-IsRead (answered (last_field f)) d is w = w
  field_of-IsRead (answered (next_field f)) d is w = w
  field_of-IsRead (answered (too_long f)) d is w = w
  field_of-IsRead (stopped f article_end) d is w = (w.1.0.0, w.1.1)
  field_of-IsRead (stopped f cut_off) d is w = absurd (ground (arith, w.0))
  field_of-IsRead (stopped f (broken_off e)) d is w = absurd (ground (arith, w.0))

  ignored_of-IsRead :
      (i : ℕ) (how : ScanEnd (Unit {0}) Bool) (d : Dot) (is : List Item)
      → Went after n how d is
      → IsRead after n (ignored_of i how d is)
  ignored_of-IsRead i (answered b) d is w = w
  ignored_of-IsRead i (stopped u article_end) d is w = (w.1.0.0, w.1.1)
  ignored_of-IsRead i (stopped u cut_off) d is w = absurd (ground (arith, w.0))
  ignored_of-IsRead i (stopped u (broken_off e)) d is w = absurd (ground (arith, w.0))

  Went-in :
      {S A : Type 0} (m : ℕ) (how : ScanEnd S A) (d : Dot) (is : List Item)
      → m ≤ n
      → Went after m how d is
      → Went after n how d is
  Went-in m (answered a) d is l w = (w.0, omega (arith, w.1))
  Went-in m (stopped s e) d is l w = (w.0, ((w.1.0.0, omega (arith, w.1.0.1)), w.1.1))

  -- A field is read behind another one.
  eat_field-IsRead : (p : Pos) → In after n p → IsRead after n (eat_field p)
  eat_field-IsRead p i = elim (Bool-cases p.no_more) [
    | inl e ↦ rw e i
    | inr e ↦ rw e (
        field_of-IsRead _ _ _ (
          Went-in (size p.dot p.rest) _ _ _ (omega (arith, i.1))
            (scan-Went field_byte (record { used = p.used; bytes = [] }) after p.dot p.rest i.0)))
  ]

  ignore_field-IsRead : (p : Pos) → In after n p → IsRead after n (ignore_field p)
  ignore_field-IsRead p i = elim (Bool-cases p.no_more) [
    | inl e ↦ rw e i
    | inr e ↦ rw e (
        ignored_of-IsRead p.used _ _ _ (
          Went-in (size p.dot p.rest) _ _ _ (omega (arith, i.1))
            (scan-Went ignore_byte tt after p.dot p.rest i.0)))
  ]

  IsFine-if :
      (b : Bool) (x y : OverLine)
      → IsFine after n x
      → IsFine after n y
      → IsFine after n (if b then x else y)
  IsFine-if true x y h k = h
  IsFine-if false x y h k = k

  IsNext-inside :
      (e : Option OverErr) (d : Dot) (is : List Item)
      → IsInside e
      → size d is < n
      → IsNext after n e d is
  IsNext-inside none d is i h = h
  IsNext-inside (some other_err) d is i h = h
  IsNext-inside (some at_eof) d is i h = absurd i

  -- The deferred loop, behind a return inside of the list.
  drained-IsFine :
      (l : OverLine) (e : Option OverErr) (m : ℕ) (how : ScanEnd (Unit {0}) (Unit {0})) (d : Dot)
      (is : List Item)
      → IsInside e
      → m < n
      → Went after m how d is
      → IsFine after n (drained (record l { err = e; fatal = false }) how d is)
  drained-IsFine l none m (answered u) d is i h w = record {
    behind = w.0;
    next = omega (arith, h, w.1);
    soft = refl;
  }
  drained-IsFine l (some other_err) m (answered u) d is i h w = record {
    behind = w.0;
    next = omega (arith, h, w.1);
    soft = refl;
  }
  drained-IsFine l none m (stopped u article_end) d is i h w = record {
    behind = w.1.0.0;
    next = w.1.1.0;
    soft = refl;
  }
  drained-IsFine l (some other_err) m (stopped u article_end) d is i h w = record {
    behind = w.1.0.0;
    next = omega (arith, h, w.1.0.1);
    soft = refl;
  }
  drained-IsFine l (some at_eof) m how d is i h w = absurd i
  drained-IsFine l e m (stopped u cut_off) d is i h w = absurd (ground (arith, w.0))
  drained-IsFine l e m (stopped u (broken_off x)) d is i h w = absurd (ground (arith, w.0))

  abbrev left_with : ℕ → Bytes → Bytes → Option OverErr → Pos → OverLine
  left_with id msgid ref err p = record {
    id = id;
    msgid = msgid;
    ref = ref;
    err = err;
    fatal = false;
    dot = p.dot;
    rest = p.rest;
  }

  leave-IsFine :
      (id : ℕ) (msgid ref : Bytes) (err : Option OverErr) (p : Pos)
      → IsInside err
      → In after n p
      → IsFine after n (leave id msgid ref err false p)
  unfolding leave
  leave-IsFine id msgid ref err p e i =
      IsFine-if p.no_more _ _
        (record { behind = i.0; next = IsNext-inside err p.dot p.rest e i.1; soft = refl })
        (drained-IsFine (left_with id msgid ref err p) err (size p.dot p.rest) _ _ _ e i.1
          (scan-Went drain_byte tt after p.dot p.rest i.0))

  leave-end :
      (id : ℕ) (msgid ref : Bytes) (p : Pos)
      → AtEnd after p
      → IsFine after n (leave id msgid ref (some at_eof) false p)
  unfolding leave
  leave-end id msgid ref p i =
      IsFine-if p.no_more _ _ (record { behind = i.0; next = i.1.0; soft = refl })
        (rw (scan-end drain_byte tt p.dot p.rest i.1.1)
          (record { behind = i.0; next = i.1.0; soft = refl }))

  with_field-IsFine :
      (id : ℕ) (msgid : Bytes) (t : FieldRead × Pos) (k : Bytes → Pos → OverLine)
      → IsRead after n t
      → ((f : Bytes) (p : Pos) → In after n p → IsFine after n (k f p))
      → IsFine after n (with_field id msgid t k)
  with_field-IsFine id msgid (field f, p) k r h = h f p r
  with_field-IsFine id msgid (lost other_err false, p) k r h =
      leave-IsFine id msgid [] (some other_err) p tt r
  with_field-IsFine id msgid (lost at_eof false, p) k r h = leave-end id msgid [] p r
  with_field-IsFine id msgid (lost other_err true, p) k r h = absurd r
  with_field-IsFine id msgid (lost at_eof true, p) k r h = absurd r

  over_msgid-IsFine :
      (id : ℕ) (f : Bytes) (p : Pos) → In after n p → IsFine after n (over_msgid id f p)
  over_msgid-IsFine id f p i = elim (Bool-cases (valid_message_id (trim_ws f))) [
    | inr v ↦ rw v (leave-IsFine id (trim_ws f) [] (some other_err) p tt i)
    | inl v ↦ rw v (
        with_field-IsFine id (trim_ws f) (eat_field p) (over_ref id (trim_ws f))
          (eat_field-IsRead p i)
          λ x p' i'. leave-IsFine id (trim_ws f) (extract_first_valid_reference x) none p' tt i')
  ]

  over_skip-IsFine : (k id : ℕ) (p : Pos) → In after n p → IsFine after n (over_skip k id p)
  unfolding over_skip
  over_skip-IsFine zero id p i =
      with_field-IsFine id [] (eat_field p) (over_msgid id) (eat_field-IsRead p i)
        (over_msgid-IsFine id)
  over_skip-IsFine (suc k) id p i =
      with_field-IsFine id [] (ignore_field p) _ (ignore_field-IsRead p i) λ f p' i'.
        elim (Bool-cases p'.no_more) [
          | inl e ↦ rw (over_skip, e) (leave-IsFine id [] [] (some other_err) p' tt i')
          | inr e ↦ rw (over_skip, e) (over_skip-IsFine k id p' i')
        ]

  over_number-IsFine : (f : Bytes) (p : Pos) → In after n p → IsFine after n (over_number f p)
  over_number-IsFine f p i = IsFine-if p.no_more _ _ (leave-IsFine 0 [] [] none p tt i) (
      IsFine-if (length (trim_ws f) == 0 || not (is_number_slice (trim_ws f))) _ _
        (leave-IsFine 0 [] [] (some other_err) p tt i) (over_skip-IsFine 3 (stoi (trim_ws f)) p i))

-- In a list that ends properly a line is read without a fatal error, the end of the list does not change, and
-- but for the end of the list something is read.
pub get_over_line_info-IsFine :
    (after : List Item) (d : Dot) (is : List Item)
    → Proper after d is
    → IsFine after (size d is) (get_over_line_info d is)
unfolding get_over_line_info
get_over_line_info-IsFine after d is p =
    with_field-IsFine after (size d is) 0 []
      (eat_field (record { used = 0; no_more = false; dot = d; rest = is })) over_number
      (field_of-IsRead after (size d is) _ _ _
        (scan-Went field_byte (record { used = 0; bytes = [] }) after d is p))
      (over_number-IsFine after (size d is))
