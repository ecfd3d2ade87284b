-- ===== src/DotReader.antt =====
-- src/nksrv/lib/utils/text/bufreader/dotreader.go: the reader of an article, which takes off the
-- dots of the transfer. The buffered reader below it is the list of the bytes that are still to come,
-- behind which it is at the end of the input; `UnreadByte` puts the byte just read back.
pub mod Fuel
pub mod RoundTrip
pub mod Scan
mod Tests
use nksrv.Base.{
  ℕ, zero, suc, ◌+◌, ◌*◌, Bool, true, false, not, List, [], ◌∷◌, Option, none, some, Bytes, ◌==◌,
  if◌then◌else◌, length,
}

pub data DotState : Type 0 where
  begin_line dot non_begin dot_cr cr eof : DotState

abbrev pub is_eof : DotState → Bool
is_eof eof = true
is_eof _ = false

-- `DotReader`, without the reader.
pub record Dot : Type 0 where
  pub state : DotState
  pub badnl : Bool

abbrev pub new_dot : Dot
new_dot = record { state = begin_line; badnl = false }

-- What `process` does: the next state, the byte that is handed out, if there is one, and whether
-- the byte that was read is put back.
pub record Step : Type 0 where
  pub next : Dot
  pub out : Option ℕ
  pub back : Bool

abbrev pub skip : DotState → Bool → Step
skip s badnl = record { next = record { state = s; badnl = badnl }; out = none; back = false }

abbrev pub emit : ℕ → DotState → Bool → Step
emit c s badnl = record { next = record { state = s; badnl = badnl }; out = some c; back = false }

-- A carriage return without a line feed: it is handed out, and the byte behind it is put back.
abbrev pub lone_cr : Step
lone_cr = record {
  next = record { state = non_begin; badnl = true };
  out = some b'\r';
  back = true;
}

abbrev pub process_in : DotState → Bool → ℕ → Step
process_in begin_line badnl c =
    if c == b'.'
    then skip dot badnl
    else if c == b'\r'
    then skip cr badnl
    else if not (c == b'\n')
    then emit c non_begin badnl
    else emit c begin_line true
process_in dot badnl c =
    if c == b'\r'
    then skip dot_cr badnl
    else if c == b'\n'
    then skip eof true
    else emit c non_begin badnl
process_in non_begin badnl c =
    if c == b'\r'
    then skip cr badnl
    else if c == b'\n'
    then emit c begin_line true
    else emit c non_begin badnl
process_in dot_cr badnl c = if c == b'\n' then skip eof badnl else lone_cr
process_in cr badnl c = if c == b'\n' then emit c begin_line badnl else lone_cr
process_in eof badnl c = emit c eof badnl

unfoldable pub process : Dot → ℕ → Step
process d c = process_in d.state d.badnl c

pub data ReadError : Type 0 where
  io_eof unexpected_eof : ReadError

-- What a call of `Read` leaves and comes back with.
pub record ReadResult : Type 0 where
  pub dot_reader : Dot
  pub rest : Bytes
  pub bytes : Bytes
  pub err : Option ReadError

abbrev pub stop : Dot → Bytes → Option ReadError → Option ReadResult
stop d input err = some (record { dot_reader = d; rest = input; bytes = []; err = err })

-- The check behind the loop.
abbrev pub full : Dot → Bytes → Option ReadResult
full d input = stop d input (if is_eof d.state then some io_eof else none)

abbrev pub with_byte : ℕ → Option ReadResult → Option ReadResult
with_byte c none = none
with_byte c (some r) = some (record r { bytes = c ∷ r.bytes })

-- The rest of a round, behind `process`, with room for one byte and `l` more.
abbrev pub handed_out :
    (ℕ → Dot → Bytes → Option ReadResult) → ℕ → Dot → Option ℕ → Bytes → Option ReadResult
handed_out again l d none input = again (suc l) d input
handed_out again l d (some c) input = with_byte c (again l d input)

abbrev pub take_byte : (ℕ → Dot → Bytes → Option ReadResult) → ℕ → Dot → Bytes → Option ReadResult
take_byte again l d [] = stop d [] (some unexpected_eof)
take_byte again l d (c ∷ input) =
    let st = process d c in handed_out again l st.next st.out (if st.back then c ∷ input else input)

-- The loop of `Read`, with room for `l` more bytes. None is the end of the fuel.
unfoldable pub read_loop : ℕ → ℕ → Dot → Bytes → Option ReadResult
read_loop zero l d input = none
read_loop (suc fuel) zero d input = full d input
read_loop (suc fuel) (suc l) d input = elim (is_eof d.state) [
  | true ↦ full d input
  | false ↦ take_byte (λ k d' i. read_loop fuel k d' i) l d input
]

-- `Read` into `l` bytes. A byte is processed at most twice.
unfoldable pub read : ℕ → Dot → Bytes → Option ReadResult
unfolding read_loop
read l d input = read_loop (2 * length input + 2) l d input
