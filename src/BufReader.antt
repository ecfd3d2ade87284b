-- ===== src/BufReader.antt =====
-- src/nksrv/lib/utils/text/bufreader/bufreader.go: `ReadByte` and `UnreadByte`; `ReadUntil` stands in
-- BufReader/Until. The reader below is what its next calls come back with, in order: some bytes, and perhaps an error;
-- behind them it is at the end of the input. A call never gives more bytes than it has room for.
pub mod Slice
pub mod Stream
pub mod Until
mod Tests
use nksrv.Base.{
  ℕ, zero, suc, ◌+◌, ◌-◌, Bool, true, false, not, List, [], ◌∷◌, ◌++◌, Option, none, some, Bytes,
  ltb, ◌==◌, if◌then◌else◌, length, get_or, set, take, drop,
}

-- `io.EOF`, and any other error.
pub data ReadErr : Type 0 where
  at_end : ReadErr
  failed : ℕ → ReadErr

-- What one call of the reader below comes back with.
pub record Chunk : Type 0 where
  pub bytes : Bytes
  pub err : Option ReadErr

-- `BufReader`, without the reader below.
pub record Buffer : Type 0 where
  pub b : Bytes
  pub w : ℕ
  pub r : ℕ
  pub err : Option ReadErr

pub record BufReader : Type 0 where
  pub u : List Chunk
  pub buf : Buffer

unfoldable pub new_buf_reader : List Chunk → Bytes → BufReader
new_buf_reader u b = record { u = u; buf = record { b = b; w = 0; r = 0; err = none } }

-- `SetReader`: the buffer stays.
unfoldable pub set_reader : List Chunk → BufReader → BufReader
set_reader u br = record br { u = u }

-- `x, r.err = r.u.Read(r.b)`, and the whole buffer is new.
abbrev pub fill : Chunk → Buffer → Buffer
fill c s = record {
  b = c.bytes ++ drop (length c.bytes) s.b;
  w = length c.bytes;
  r = 0;
  err = c.err;
}

-- The end of the input.
abbrev pub fill_end : Buffer → Buffer
fill_end s = record s { w = 0; r = 0; err = some at_end }

-- A byte, or an error.
pub data ByteResult : Type 0 where
  got : ℕ → ByteResult
  err_read : ReadErr → ByteResult

-- A round of the loop of `ReadByte`; `more` fills the buffer.
abbrev pub byte_err :
    List Chunk
    → Buffer
    → Option ReadErr
    → (Buffer → ByteResult × BufReader)
    → ByteResult × BufReader
byte_err u s (some e) more = (err_read e, record { u = u; buf = record s { err = none } })
byte_err u s none more = more s

abbrev pub byte_round :
    List Chunk → Buffer → (Buffer → ByteResult × BufReader) → ByteResult × BufReader
byte_round u s more =
    if s.r == s.w
    then byte_err u s s.err more
    else (got (get_or s.b s.r 0), record { u = u; buf = record s { r = suc s.r } })

-- Behind the end of the input there is always an error to report.
abbrev pub byte_end : Buffer → ByteResult × BufReader
byte_end s = (err_read at_end, record { u = []; buf = record (fill_end s) { err = none } })

unfoldable pub byte_loop : List Chunk → Buffer → ByteResult × BufReader
byte_loop [] s = byte_round [] s byte_end
byte_loop (c ∷ u) s = byte_round (c ∷ u) s (λ t. byte_loop u (fill c t))

unfoldable pub read_byte : BufReader → ByteResult × BufReader
unfolding byte_loop
read_byte br = byte_loop br.u br.buf

-- `UnreadByte`; none is `errInvalidUnread`.
unfoldable pub unread_byte : ℕ → BufReader → Option BufReader
unread_byte c br =
    let s = br.buf in
    if not (s.r == 0)
    then some (record br { buf = record s { r = s.r - 1; b = set s.b (s.r - 1) c } })
    else if s.w == 0
    then some (record br { buf = record s { w = 1; b = set s.b 0 c } })
    else none
