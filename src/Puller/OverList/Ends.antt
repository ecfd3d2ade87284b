-- ===== src/Puller/OverList/Ends.antt =====
-- `getOverLineInfo` reads something, whatever comes, or its caller stops.
use nksrv.Base.{
  ℕ, zero, suc, ◌≤◌, ◌<◌, Bool, true, false, not, ◌||◌, List, [], Option, none, some, Bytes, ◌==◌,
  if◌then◌else◌, length, arith, Bool-cases, inl, inr,
}
use nksrv.Ascii.{trim_ws}
use nksrv.BufReader.Stream.{Item}
use nksrv.Nntp.Syntax.{is_number_slice, stoi, valid_message_id}
use nksrv.MailTools.{extract_first_valid_reference}
use nksrv.DotReader.{Dot}
use nksrv.DotReader.Scan.{
  article_end, cut_off, broken_off, Verdict, ScanEnd, answered, stopped, scan,
}
use nksrv.DotReader.Scan.Ending.{ending, size, KeepsEnding, KeepsEnding-scan}
use nksrv.Puller.OverList.{
  OverErr, at_eof, other_err, Pos, FieldRead, field, lost, Field, FieldEnd, last_field, next_field,
  too_long, field_byte, field_of, eat_field, ignore_byte, ignored_of, ignore_field, OverLine,
  drain_byte, drained, leave, with_field, over_ref, over_msgid, over_skip, over_number,
  get_over_line_info,
}

-- What a loop over bytes leaves to read.
abbrev Leaves : {S A : Type 0} → ℕ → ScanEnd S A → Dot → List Item → Type 0
Leaves n (answered a) d is = size d is < n
Leaves n (stopped s e) d is = size d is ≤ n

module _ {S A : Type 0} where
  scan-Leaves :
      (f : S → ℕ → Verdict S A) (s : S) (d : Dot) (is : List Item)
      → Leaves (size d is) (scan f s d is).how (scan f s d is).dot (scan f s d is).rest
  scan-Leaves f s d is =
      go (scan f s d is).how (scan f s d is).dot (scan f s d is).rest (KeepsEnding-scan f s d is)
    where
      go :
          (how : ScanEnd S A) (d' : Dot) (is' : List Item)
          → KeepsEnding (ending d is) (size d is) (record { how = how; dot = d'; rest = is' })
          → Leaves (size d is) how d' is'
      go (answered a) d' is' k = k.1
      go (stopped s' e) d' is' k = k.1.1

-- Where the caller goes on, there is less to read.
abbrev pub LeavesLess : ℕ → Option OverErr → Bool → Dot → List Item → Type 0
LeavesLess n none fatal d is = size d is < n
LeavesLess n (some at_eof) fatal d is = Unit
LeavesLess n (some other_err) true d is = Unit
LeavesLess n (some other_err) false d is = size d is < n

abbrev pub IsLess : ℕ → OverLine → Type 0
IsLess n l = LeavesLess n l.err l.fatal l.dot l.rest

abbrev ReadsLess : ℕ → FieldRead × Pos → Type 0
ReadsLess n (field f, p) = size p.dot p.rest < n
ReadsLess n (lost e fatal, p) = LeavesLess n (some e) fatal p.dot p.rest

module _ (n : ℕ) where
  field_of-ReadsLess :
      (m : ℕ) (how : ScanEnd Field FieldEnd) (d : Dot) (is : List Item)
      → m ≤ n
      → Leaves m how d is
      → ReadsLess n (field_of how d is)
  field_of-ReadsLess m (answered (last_field f)) d is l w = omega (arith, w)
  field_of-ReadsLess m (answered (next_field f)) d is l w = omega (arith, w)
  field_of-ReadsLess m (answered (too_long f)) d is l w = omega (arith, w)
  field_of-ReadsLess m (stopped f article_end) d is l w = tt
  field_of-ReadsLess m (stopped f cut_off) d is l w = tt
  field_of-ReadsLess m (stopped f (broken_off e)) d is l w = tt

  ignored_of-ReadsLess :
      (i m : ℕ) (how : ScanEnd (Unit {0}) Bool) (d : Dot) (is : List Item)
      → m ≤ n
      → Leaves m how d is
      → ReadsLess n (ignored_of i how d is)
  ignored_of-ReadsLess i m (answered b) d is l w = omega (arith, w)
  ignored_of-ReadsLess i m (stopped u article_end) d is l w = tt
  ignored_of-ReadsLess i m (stopped u cut_off) d is l w = tt
  ignored_of-ReadsLess i m (stopped u (broken_off e)) d is l w = tt

  eat_field-ReadsLess : (p : Pos) → size p.dot p.rest < n → ReadsLess n (eat_field p)
  eat_field-ReadsLess p h = elim (Bool-cases p.no_more) [
    | inl e ↦ rw e h
    | inr e ↦ rw e (
        field_of-ReadsLess (size p.dot p.rest) _ _ _ (omega (arith, h))
          (scan-Leaves field_byte (record { used = p.used; bytes = [] }) p.dot p.rest))
  ]

  ignore_field-ReadsLess : (p : Pos) → size p.dot p.rest < n → ReadsLess n (ignore_field p)
  ignore_field-ReadsLess p h = elim (Bool-cases p.no_more) [
    | inl e ↦ rw e h
    | inr e ↦ rw e (
        ignored_of-ReadsLess p.used (size p.dot p.rest) _ _ _ (omega (arith, h))
          (scan-Leaves ignore_byte tt p.dot p.rest))
  ]

  -- The deferred loop.
  drained-IsLess :
      (l : OverLine) (e : Option OverErr) (fatal : Bool) (d0 d : Dot) (is0 is : List Item)
      (how : ScanEnd (Unit {0}) (Unit {0}))
      → LeavesLess n e fatal d0 is0
      → Leaves (size d0 is0) how d is
      → IsLess n (drained (record l { err = e; fatal = fatal }) how d is)
  drained-IsLess l none fatal d0 d is0 is (answered u) h w = omega (arith, h, w)
  drained-IsLess l (some at_eof) fatal d0 d is0 is (answered u) h w = tt
  drained-IsLess l (some other_err) true d0 d is0 is (answered u) h w = tt
  drained-IsLess l (some other_err) false d0 d is0 is (answered u) h w = omega (arith, h, w)
  drained-IsLess l none fatal d0 d is0 is (stopped u article_end) h w = tt
  drained-IsLess l none true d0 d is0 is (stopped u cut_off) h w = tt
  drained-IsLess l none false d0 d is0 is (stopped u cut_off) h w = tt
  drained-IsLess l none true d0 d is0 is (stopped u (broken_off x)) h w = tt
  drained-IsLess l none false d0 d is0 is (stopped u (broken_off x)) h w = tt
  drained-IsLess l (some at_eof) fatal d0 d is0 is (stopped u e) h w = tt
  drained-IsLess l (some other_err) true d0 d is0 is (stopped u e) h w = tt
  drained-IsLess l (some other_err) false d0 d is0 is (stopped u article_end) h w =
      omega (arith, h, w)
  drained-IsLess l (some other_err) false d0 d is0 is (stopped u cut_off) h w = tt
  drained-IsLess l (some other_err) false d0 d is0 is (stopped u (broken_off x)) h w = tt

  IsLess-if : (b : Bool) (x y : OverLine) → IsLess n x → IsLess n y → IsLess n (if b then x else y)
  IsLess-if true x y h k = h
  IsLess-if false x y h k = k

  leave-IsLess :
      (id : ℕ) (msgid ref : Bytes) (err : Option OverErr) (fatal : Bool) (p : Pos)
      → LeavesLess n err fatal p.dot p.rest
      → IsLess n (leave id msgid ref err fatal p)
  unfolding leave
  leave-IsLess id msgid ref err fatal p h =
      let l : OverLine = record {
        id = id;
        msgid = msgid;
        ref = ref;
        err = err;
        fatal = fatal;
        dot = p.dot;
        rest = p.rest;
      } in
      IsLess-if p.no_more l _ h
        (drained-IsLess l err fatal p.dot _ p.rest _ _ h (scan-Leaves drain_byte tt p.dot p.rest))

  with_field-IsLess :
      (id : ℕ) (msgid : Bytes) (t : FieldRead × Pos) (k : Bytes → Pos → OverLine)
      → ReadsLess n t
      → ((f : Bytes) (p : Pos) → size p.dot p.rest < n → IsLess n (k f p))
      → IsLess n (with_field id msgid t k)
  with_field-IsLess id msgid (field f, p) k r h = h f p r
  with_field-IsLess id msgid (lost e fatal, p) k r h = leave-IsLess id msgid [] (some e) fatal p r

  over_msgid-IsLess :
      (id : ℕ) (f : Bytes) (p : Pos) → size p.dot p.rest < n → IsLess n (over_msgid id f p)
  over_msgid-IsLess id f p h =
      IsLess-if (not (valid_message_id (trim_ws f))) _ _
        (leave-IsLess id (trim_ws f) [] (some other_err) false p h)
        (with_field-IsLess id (trim_ws f) (eat_field p) (over_ref id (trim_ws f))
          (eat_field-ReadsLess p h)
          λ x p' h'. leave-IsLess id (trim_ws f) (extract_first_valid_reference x) none false p' h')

  over_skip-IsLess : (k id : ℕ) (p : Pos) → size p.dot p.rest < n → IsLess n (over_skip k id p)
  unfolding over_skip
  over_skip-IsLess zero id p h =
      with_field-IsLess id [] (eat_field p) (over_msgid id) (eat_field-ReadsLess p h)
        (over_msgid-IsLess id)
  over_skip-IsLess (suc k) id p h =
      with_field-IsLess id [] (ignore_field p) _ (ignore_field-ReadsLess p h) λ f p' h'.
        elim (Bool-cases p'.no_more) [
          | inl e ↦ rw (over_skip, e) (leave-IsLess id [] [] (some other_err) false p' h')
          | inr e ↦ rw (over_skip, e) (over_skip-IsLess k id p' h')
        ]

  over_number-IsLess : (f : Bytes) (p : Pos) → size p.dot p.rest < n → IsLess n (over_number f p)
  over_number-IsLess f p h = IsLess-if p.no_more _ _ (leave-IsLess 0 [] [] none false p h) (
      IsLess-if (length (trim_ws f) == 0 || not (is_number_slice (trim_ws f))) _ _
        (leave-IsLess 0 [] [] (some other_err) false p h)
        (over_skip-IsLess 3 (stoi (trim_ws f)) p h))

-- Whatever comes, a line of which the caller does not stop leaves less to read.
pub get_over_line_info-IsLess :
    (d : Dot) (is : List Item) → IsLess (size d is) (get_over_line_info d is)
unfolding get_over_line_info
get_over_line_info-IsLess d is =
    with_field-IsLess (size d is) 0 []
      (eat_field (record { used = 0; no_more = false; dot = d; rest = is })) over_number
      (field_of-ReadsLess (size d is) (size d is) _ _ _ (omega arith)
        (scan-Leaves field_byte (record { used = 0; bytes = [] }) d is))
      (over_number-IsLess (size d is))
