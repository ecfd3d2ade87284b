-- ===== src/BufReader/Until.antt =====
-- `ReadUntil` of src/nksrv/lib/utils/text/bufreader/bufreader.go.
pub mod Items
pub mod Laws
use nksrv.Base.{
  ℕ, zero, suc, ◌+◌, ◌-◌, Bool, List, [], ◌∷◌, ◌++◌, Option, none, some, Bytes, ltb, leb, ◌==◌,
  if◌then◌else◌, length, take,
}
use nksrv.BufReader.{ReadErr, at_end, Chunk, Buffer, BufReader, fill, fill_end}
use nksrv.BufReader.Slice.{slice}

-- How the call ends: the byte is found, `ErrDelimNotFound`, or an error of the reader below.
pub data UntilEnd : Type 0 where
  found not_found : UntilEnd
  broken : ReadErr → UntilEnd

-- What is written to `p`, how the call ends, and the reader behind it.
pub record UntilResult : Type 0 where
  pub bytes : Bytes
  pub how : UntilEnd
  pub reader : BufReader

-- `bytes.IndexByte`.
unfoldable pub index_byte : ℕ → Bytes → Option ℕ
index_byte q [] = none
index_byte q (c ∷ s) =
    if c == q then some 0 else elim (index_byte q s) [ none ↦ none | some i ↦ some (suc i) ]

abbrev pub written : Bytes → UntilResult → UntilResult
written bs r = record r { bytes = bs ++ r.bytes }

-- The rest of a call on a buffer, with room for some bytes.
abbrev pub Rest : Type 0
Rest = Buffer → ℕ → UntilResult

-- The buffer is used up: a waiting error is returned, or the buffer is filled and the call goes on.
abbrev pub until_err : List Chunk → Buffer → ℕ → Option ReadErr → Rest → UntilResult
until_err u s room none more = more s room
until_err u s room (some e) more = record {
  bytes = [];
  how = broken e;
  reader = record { u = u; buf = record s { err = none } };
}

-- What is behind the search in `r.b[r.r:x]`. Where the byte is not found and there is room left, the
-- buffer was searched to its end.
abbrev pub until_copy : List Chunk → Buffer → ℕ → Bytes → Option ℕ → Rest → UntilResult
until_copy u s room window (some i) more = record {
  bytes = take (i + 1) window;
  how = found;
  reader = record { u = u; buf = record s { r = s.r + (i + 1) } };
}
until_copy u s room window none more =
    let s' = record s { r = s.r + length window } in
    if leb room (length window)
    then record { bytes = window; how = not_found; reader = record { u = u; buf = s' } }
    else written window (until_err u s' (room - length window) s.err more)

-- `x` after the clamp.
abbrev pub clamp : Buffer → ℕ → ℕ
clamp s room = if ltb room (s.w - s.r) then s.r + room else s.w

abbrev pub until_round : List Chunk → Buffer → ℕ → ℕ → Rest → UntilResult
until_round u s room q more =
    let window = slice s.b s.r (clamp s room) in
    if s.r == s.w
    then until_err u s room s.err more
    else until_copy u s room window (index_byte q window) more

-- Behind the end of the input there is always an error to report.
abbrev pub until_end : Rest
until_end s room = record {
  bytes = [];
  how = broken at_end;
  reader = record { u = []; buf = record (fill_end s) { err = none } };
}

unfoldable pub until_loop : List Chunk → Buffer → ℕ → ℕ → UntilResult
unfolding index_byte
until_loop [] s room q = until_round [] s room q until_end
until_loop (c ∷ u) s room q =
    until_round (c ∷ u) s room q (λ t left. until_loop u (fill c t) left q)

-- `ReadUntil(p, q)` with `room` the length of `p`.
unfoldable pub read_until : ℕ → ℕ → BufReader → UntilResult
unfolding until_loop
read_until room q br = until_loop br.u br.buf room q
