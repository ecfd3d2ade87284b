-- ===== src/BufReader/Until/Laws.antt =====
-- `ReadUntil` against taking items one by one.
use mathlib.Core.Path.{subst}
use nksrv.Base.{
  append-nil, ℕ, zero, suc, ◌+◌, ◌-◌, ◌≤◌, ◌<◌, ◌≡◌, refl, sym, ap, ◌∙◌, Bool, true, false, List,
  [], ◌∷◌, ◌++◌, map, Option, none, some, Bytes, leb, ◌==◌, if◌then◌else◌, length, arith, ==_iff,
}
use nksrv.BufReader.{Chunk, Buffer, BufReader, fill}
use nksrv.BufReader.Slice.{slice, slice-empty, slice-split, slice-drop, length-slice}
use nksrv.BufReader.Stream.{
  Item, byte, err_items, items, stream, IsSound, fill-IsSound, stream-fill,
}
use nksrv.BufReader.Until.{
  not_found, UntilResult, index_byte, written, Rest, until_err, until_copy, clamp, until_round,
  until_end, until_loop, read_until,
}
use nksrv.BufReader.Until.Items.{Upto, ahead, upto, expect, upto-window, Below, index_byte-Below}

-- A result that is what the items say, on a reader that stands for the rest of them.
pub record Gives (res : UntilResult) (t : Upto) : Type 0 where
  pub written : res.bytes ≡ t.bytes
  pub how : res.how ≡ t.how
  pub rest : stream res.reader ≡ t.rest
  pub sound : IsSound res.reader

Gives-written :
    (bs : Bytes) (res : UntilResult) (t : Upto) → Gives res t → Gives (written bs res) (ahead bs t)
Gives-written bs res t g = record {
  written = ap (λ x. bs ++ x) g.written;
  how = g.how;
  rest = g.rest;
  sound = g.sound;
}

Gives-if :
    (b : Bool) (x y : UntilResult) (t : Upto)
    → (b ≡ true → Gives x t)
    → (b ≡ false → Gives y t)
    → Gives (if b then x else y) t
Gives-if true x y t hx hy = hx refl
Gives-if false x y t hx hy = hy refl

abbrev at : List Chunk → Buffer → BufReader
at u s = record { u = u; buf = s }

-- What is asked of the rest of the call: on a buffer that is used up, and with room left.
abbrev Continues : List Chunk → ℕ → Rest → Type 0
Continues u q more =
    (s : Buffer) (room : ℕ)
    → IsSound (at u s)
    → 0 < room
    → Gives (more s room) (upto room q (items u))

Gives-err :
    (u : List Chunk) (s : Buffer) (room q : ℕ) (e : Option _) (more : Rest)
    → s.r ≡ s.w
    → IsSound (at u s)
    → 0 < room
    → Continues u q more
    → Gives (until_err u s room e more) (upto room q (err_items e ++ items u))
unfolding upto
Gives-err u s room q none more same sound h k = k s room sound h
Gives-err u s zero q (some e) more same sound h k = absurd (omega arith)
Gives-err u s (suc room) q (some e) more same sound h k = record {
  written = refl;
  how = refl;
  rest = rw (same, slice-empty) refl;
  sound = record { ordered = sound.ordered; inside = sound.inside; fits = sound.fits };
}

clamp_lem :
    (s : Buffer) (room : ℕ)
    → s.r ≤ s.w
    → (s.r ≤ clamp s room)
      × (clamp s room ≤ s.w)
      × (clamp s room - s.r ≤ room)
      × (clamp s room - s.r < room → clamp s room ≡ s.w)
clamp_lem s room h = (ground arith, ground arith, ground arith, λ k. ground arith)

-- A call that has no room left.
Gives-full :
    (n q : ℕ) (win : Bytes) (is : List Item) (res : UntilResult)
    → n ≡ 0
    → res.bytes ≡ win
    → res.how ≡ not_found
    → stream res.reader ≡ is
    → IsSound res.reader
    → Gives res (ahead win (upto n q is))
unfolding upto
Gives-full zero q win is res z b h r sound = record {
  written = b ∙ sym (append-nil win);
  how = h;
  rest = r;
  sound = sound;
}
Gives-full (suc n) q win is res z b h r sound = absurd (omega arith)

-- The search in the window, by its outcome.
Gives-copy :
    (u : List Chunk) (s : Buffer) (room q x : ℕ) (o : Option ℕ) (more : Rest)
    → IsSound (at u s)
    → 0 < room
    → (s.r ≤ x) × (x ≤ s.w) × (x - s.r ≤ room) × (x - s.r < room → x ≡ s.w)
    → Below o (length (slice s.b s.r x))
    → Continues u q more
    → Gives
        (until_copy u s room (slice s.b s.r x) o more)
        (expect q (slice s.b x s.w) (err_items s.err) (items u) room (slice s.b s.r x) o)
unfolding upto
Gives-copy u s room q x (some i) more sound pos (lo, hi, fits, last) below k =
    let inner = sound.inside in
    let l = length-slice s.b s.r x lo (omega arith) in
    record {
      written = refl;
      how = refl;
      rest =
          ap (λ t. map byte t ++ err_items s.err ++ items u)
            (slice-drop s.b s.r (i + 1) x s.w (omega arith) hi inner);
      sound = record { ordered = omega arith; inside = inner; fits = sound.fits };
    }
Gives-copy u s room q x none more sound pos (lo, hi, fits, last) below k =
    let inner = sound.inside in
    let win = slice s.b s.r x in
    let l : length win ≡ x - s.r = length-slice s.b s.r x lo (omega arith) in
    let sound' : IsSound (at u (record s { r = s.r + length win })) = record {
      ordered = omega arith;
      inside = inner;
      fits = sound.fits;
    } in
    Gives-if (leb room (length win)) _ _ _
      (λ e.
        let n' : ℕ = room - length win in
        let is = map byte (slice s.b x s.w) ++ err_items s.err ++ items u in
        let s' : Buffer = record s { r = s.r + length win } in
        let z : n' ≡ 0 = ground arith in
        let at_x : s.r + length win ≡ x = omega arith in
        Gives-full n' q win is (record { bytes = win; how = not_found; reader = at u s' }) z refl
          refl (ap (λ r. map byte (slice s.b r s.w) ++ err_items s.err ++ items u) at_x) sound')
      (λ e.
        let short : length win < room = ground arith in
        let used : x ≡ s.w = last (omega arith) in
        let empty : slice s.b x s.w ≡ [] = ap (λ t. slice s.b t s.w) used ∙ slice-empty s.b s.w in
        Gives-written win _ _ (
          rw empty (
            Gives-err u (record s { r = s.r + length win }) (room - length win) q s.err more
              (omega arith) sound' (omega arith) k)))

Gives-round :
    (u : List Chunk) (s : Buffer) (room q : ℕ) (more : Rest)
    → IsSound (at u s)
    → 0 < room
    → Continues u q more
    → Gives (until_round u s room q more) (upto room q (stream (at u s)))
Gives-round u s room q more sound pos k =
    Gives-if (s.r == s.w) _ _ _
      (λ e.
        let same = (==_iff s.r s.w).0 e in
        let empty : slice s.b s.r s.w ≡ [] = ap (slice s.b s.r) (sym same) ∙ slice-empty s.b s.r in
        rw empty (Gives-err u s room q s.err more same sound pos k))
      (λ e.
        let x = clamp s room in
        let (lo, hi, fits, last) = clamp_lem s room sound.ordered in
        let inner = sound.inside in
        let win = slice s.b s.r x in
        let after = slice s.b x s.w in
        let l : length win ≤ room = omega (arith, length-slice s.b s.r x lo (omega arith)) in
        let parts : slice s.b s.r s.w ≡ win ++ after = slice-split s.b s.r x s.w lo hi in
        let seen =
          ap (λ t. upto room q (map byte t ++ err_items s.err ++ items u)) parts
          ∙ upto-window q after (err_items s.err) (items u) room win l in
        subst (λ t. Gives (until_copy u s room win (index_byte q win) more) t) (sym seen)
          (Gives-copy u s room q x (index_byte q win) more sound pos (lo, hi, fits, last)
            (index_byte-Below q win) k))

Gives-end : (q : ℕ) → Continues [] q until_end
unfolding upto
Gives-end q s zero sound pos = absurd (omega arith)
Gives-end q s (suc room) sound pos = record {
  written = refl;
  how = refl;
  rest = rw (slice-empty s.b 0) refl;
  sound = record { ordered = omega arith; inside = omega arith; fits = tt };
}

until_loop-Gives :
    (u : List Chunk) (s : Buffer) (room q : ℕ)
    → IsSound (at u s)
    → 0 < room
    → Gives (until_loop u s room q) (upto room q (stream (at u s)))
unfolding until_loop
until_loop-Gives [] s room q sound pos = Gives-round [] s room q until_end sound pos (Gives-end q)
until_loop-Gives (c ∷ u) s room q sound pos =
    Gives-round (c ∷ u) s room q (λ t left. until_loop u (fill c t) left q) sound pos
      λ t left sound' pos'.
        rw⁻¹ (stream-fill c u t)
          (until_loop-Gives u (fill c t) left q (fill-IsSound c u t sound') pos')

-- On a reader whose indices are in order, `ReadUntil` into a buffer that is not empty hands out the
-- bytes to come up to the one that is sought, and no more than there is room for. It ends with
-- `ErrDelimNotFound` exactly where the room is used up before, and with the error of the reader
-- below where that comes first, and leaves a reader that stands for what follows.
pub read_until-Gives :
    (room q : ℕ) (br : BufReader)
    → IsSound br
    → 0 < room
    → Gives (read_until room q br) (upto room q (stream br))
unfolding read_until
read_until-Gives room q br sound pos = until_loop-Gives br.u br.buf room q sound pos
