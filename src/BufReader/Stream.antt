-- ===== src/BufReader/Stream.antt =====
-- The buffered reader against the sequence of bytes and errors that it stands for.
use nksrv.Base.{
  ℕ, suc, ◌-◌, ◌≤◌, ◌<◌, ◌≡◌, refl, sym, ap, ◌∙◌, Bool, true, false, List, [], ◌∷◌, ◌++◌, map,
  Option, none, ◌⊎◌, some, ◌==◌, if◌then◌else◌, length, get_or, set, drop, All, arith, inl, inr,
  ==_iff,
}
use nksrv.BufReader.{
  ReadErr, at_end, Chunk, Buffer, BufReader, fill, ByteResult, got, err_read, byte_err, byte_round,
  byte_end, byte_loop, read_byte, unread_byte,
}
use nksrv.BufReader.Slice.{
  slice, slice-empty, slice-next, slice-set, slice-append, length-set, length-overwrite,
}

pub data Item : Type 0 where
  byte : ℕ → Item
  error : ReadErr → Item

abbrev pub err_items : Option ReadErr → List Item
err_items none = []
err_items (some e) = error e ∷ []

abbrev pub items : List Chunk → List Item
items [] = []
items (c ∷ u) = map byte c.bytes ++ err_items c.err ++ items u

-- What is buffered, the error that waits behind it, and what the reader below still gives.
abbrev pub stream : BufReader → List Item
stream br = map byte (slice br.buf.b br.buf.r br.buf.w) ++ err_items br.buf.err ++ items br.u

-- Taking one item; behind the last one the input is at its end.
abbrev pub next : List Item → ByteResult × List Item
next [] = (err_read at_end, [])
next (byte c ∷ is) = (got c, is)
next (error e ∷ is) = (err_read e, is)

-- The indices are in order and in the buffer, and no call of the reader below gives more than the
-- buffer holds.
pub record IsSound (br : BufReader) : Type 0 where
  pub ordered : br.buf.r ≤ br.buf.w
  pub inside : br.buf.w ≤ length br.buf.b
  pub fits : All (λ c. length c.bytes ≤ length br.buf.b) br.u

-- A result that is what the items say, on a reader that stands for the rest of them.
pub record Takes (res : ByteResult × BufReader) (is : List Item) : Type 0 where
  pub result : res.0 ≡ (next is).0
  pub rest : stream res.1 ≡ (next is).1
  pub sound : IsSound res.1

Takes-err :
    (u : List Chunk) (s : Buffer) (e : Option ReadErr) (more : Buffer → ByteResult × BufReader)
    → s.r ≡ s.w
    → IsSound (record { u = u; buf = s })
    → Takes (more s) (items u)
    → Takes (byte_err u s e more) (err_items e ++ items u)
Takes-err u s none more same sound h = h
Takes-err u s (some e) more same sound h = record {
  result = refl;
  rest = rw (same, slice-empty) refl;
  sound = record { ordered = sound.ordered; inside = sound.inside; fits = sound.fits };
}

Takes-if :
    (b : Bool) (x y : ByteResult × BufReader) (is : List Item)
    → (b ≡ true → Takes x is)
    → (b ≡ false → Takes y is)
    → Takes (if b then x else y) is
Takes-if true x y is hx hy = hx refl
Takes-if false x y is hx hy = hy refl

Takes-buffered :
    (u : List Chunk) (s : Buffer)
    → IsSound (record { u = u; buf = s })
    → s.r < s.w
    → Takes
        (got (get_or s.b s.r 0), record { u = u; buf = record s { r = suc s.r } })
        (stream (record { u = u; buf = s }))
Takes-buffered u s sound less = rw (slice-next s.b s.r s.w less sound.inside) (record {
  result = refl;
  rest = refl;
  sound = record { ordered = omega arith; inside = sound.inside; fits = sound.fits };
})

Takes-round :
    (u : List Chunk) (s : Buffer) (more : Buffer → ByteResult × BufReader)
    → IsSound (record { u = u; buf = s })
    → Takes (more s) (items u)
    → Takes (byte_round u s more) (stream (record { u = u; buf = s }))
Takes-round u s more sound h =
    Takes-if (s.r == s.w) _ _ _
      (λ e.
        let same = (==_iff s.r s.w).0 e in
        let empty : slice s.b s.r s.w ≡ [] = ap (slice s.b s.r) (sym same) ∙ slice-empty s.b s.r in
        rw empty (Takes-err u s s.err more same sound h))
      (λ e. let above = sound.ordered in Takes-buffered u s sound (ground arith))

pub fill-IsSound :
    (c : Chunk) (u : List Chunk) (s : Buffer)
    → IsSound (record { u = c ∷ u; buf = s })
    → IsSound (record { u = u; buf = fill c s })
fill-IsSound c u s sound =
    let (first, later) = sound.fits in
    let same = length-overwrite c.bytes s.b first in
    record { ordered = omega arith; inside = omega arith; fits = rw same later }

pub stream-fill :
    (c : Chunk) (u : List Chunk) (s : Buffer)
    → stream (record { u = u; buf = fill c s }) ≡ items (c ∷ u)
stream-fill c u s = rw (slice-append c.bytes (drop (length c.bytes) s.b)) refl

byte_loop-Takes :
    (u : List Chunk) (s : Buffer)
    → IsSound (record { u = u; buf = s })
    → Takes (byte_loop u s) (stream (record { u = u; buf = s }))
unfolding byte_loop
byte_loop-Takes [] s sound = Takes-round [] s byte_end sound (record {
  result = refl;
  rest = rw (slice-empty s.b 0) refl;
  sound = record { ordered = omega arith; inside = omega arith; fits = tt };
})
byte_loop-Takes (c ∷ u) s sound =
    Takes-round (c ∷ u) s (λ t. byte_loop u (fill c t)) sound
      (rw⁻¹ (stream-fill c u s) (byte_loop-Takes u (fill c s) (fill-IsSound c u s sound)))

-- On a reader whose indices are in order, `ReadByte` takes the next item, be it a byte or an error,
-- of what is buffered and still to come, and leaves a reader that stands for the rest.
pub read_byte-Takes : (br : BufReader) → IsSound br → Takes (read_byte br) (stream br)
unfolding read_byte
read_byte-Takes br sound = byte_loop-Takes br.u br.buf sound

-- What comes of putting a byte back.
abbrev pub PutsBack : ℕ → BufReader → Type 0
PutsBack c br =
    (br' : BufReader) × (unread_byte c br ≡ some br')
    × (stream br' ≡ byte c ∷ stream br)
    × IsSound br'

unread_inside : (c : ℕ) (br : BufReader) → IsSound br → 0 < br.buf.r → PutsBack c br
unfolding unread_byte
unread_inside c br sound h =
    let s = br.buf in
    let above = sound.ordered in
    let inner = sound.inside in
    let i : ℕ = s.r - 1 in
    let e : suc i ≡ s.r = omega arith in
    let t : (s.r == 0) ≡ false = ground arith in
    let same = length-set s.b i c in
    (
      record br { buf = record s { r = i; b = set s.b i c } },
      rw t refl,
      rw (slice-set s.b i s.w c (omega arith) inner)
          (ap (λ k. byte c ∷ map byte (slice s.b k s.w) ++ err_items s.err ++ items br.u) e),
      record { ordered = omega arith; inside = omega arith; fits = rw same sound.fits },
    )

unread_empty :
    (c : ℕ) (br : BufReader) → IsSound br → 0 < length br.buf.b → br.buf.w ≡ 0 → PutsBack c br
unfolding unread_byte
unread_empty c br sound room h =
    let s = br.buf in
    let above = sound.ordered in
    let start : s.r ≡ 0 = omega arith in
    let t : (s.r == 0) ≡ true = ground arith in
    let t' : (s.w == 0) ≡ true = ground arith in
    let same = length-set s.b 0 c in
    (
      record br { buf = record s { w = 1; b = set s.b 0 c } },
      rw (t, t') refl,
      ap (λ k. map byte (slice (set s.b 0 c) k 1) ++ err_items s.err ++ items br.u) start
          ∙ ap (λ x. map byte x ++ err_items s.err ++ items br.u)
              (slice-set s.b 0 1 c (omega arith) (omega arith))
          ∙ ap (λ x. byte c ∷ map byte x ++ err_items s.err ++ items br.u)
              (slice-empty s.b 1 ∙ sym (slice-empty s.b 0))
          ∙ ap (λ k. byte c ∷ map byte (slice s.b k 0) ++ err_items s.err ++ items br.u) (sym start)
          ∙ ap (λ k. byte c ∷ map byte (slice s.b s.r k) ++ err_items s.err ++ items br.u) (sym h),
      record { ordered = omega arith; inside = omega arith; fits = rw same sound.fits },
    )

-- `UnreadByte` on a reader whose indices are in order and whose buffer has room puts the byte in
-- front of all that is still to come, wherever something was read from the buffer or the buffer is
-- empty, and the reader stays in order.
pub unread_byte-PutsBack :
    (c : ℕ) (br : BufReader)
    → IsSound br
    → 0 < length br.buf.b
    → (0 < br.buf.r) ⊎ (br.buf.w ≡ 0)
    → PutsBack c br
unread_byte-PutsBack c br sound room (inl h) = unread_inside c br sound h
unread_byte-PutsBack c br sound room (inr h) = unread_empty c br sound room h
