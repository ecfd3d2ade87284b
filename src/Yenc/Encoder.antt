-- ===== src/Yenc/Encoder.antt =====
-- src/nksrv/lib/utils/yenc/enc.go: the encoder, on any writer. Bytes are below 256, and their sums wrap.
use nksrv.Base.{
  ℕ, suc, ◌+◌, ◌%◌, Bool, true, false, ◌&&◌, ◌||◌, [], ◌∷◌, ◌++◌, Option, none, some, Bytes, leb,
  ◌==◌, if◌then◌else◌, length, drop,
}
use nksrv.Sink.{Sink, Written}

-- `lineLength`.
abbrev pub line_length : ℕ
line_length = 990

-- `c += 42`.
abbrev pub shift : ℕ → ℕ
shift c = (c + 42) % 256

-- The test of the bytes that are escaped, behind so many bytes of a line.
abbrev pub is_critical : ℕ → ℕ → Bool
is_critical bufi c = c == 0 || c == b'\r' || c == b'\n' || c == b'=' || bufi == 0 && c == b'.'

abbrev pub escaped : ℕ → Bool → Bytes
escaped c true = b'=' ∷ (c + 64) % 256 ∷ []
escaped c false = c ∷ []

-- What a byte is put to the buffer as.
unfoldable pub encode_byte : ℕ → ℕ → Bytes
encode_byte bufi c = escaped (shift c) (is_critical bufi (shift c))

abbrev pub crlf : Bytes
crlf = b'\r' ∷ b'\n' ∷ []

-- A byte is put to the buffer, and the line ended where it is long enough.
unfoldable pub put_byte : Bytes → ℕ → Bytes
put_byte buf c =
    let buf' = buf ++ encode_byte (length buf) c in
    if leb line_length (length buf') then buf' ++ crlf else buf'

-- `e.buf[e.bufi-1] != '\n'`, and the line end that is put there.
abbrev pub last_is : ℕ → Bytes → Bool
last_is q [] = false
last_is q (c ∷ []) = c == q
last_is q (_ ∷ c ∷ s) = last_is q (c ∷ s)

abbrev pub close_line : Bytes → Bytes
close_line buf = if last_is b'\n' buf then buf else buf ++ crlf

module _ (S : Sink) where
  open S use {State}

  -- `YEncoder`: the part of the buffer that is in use, and the writer.
  pub record YEncoder : Type 0 where
    pub buf : Bytes
    pub w : State

  -- `Write` and `Close` come back with a count and an error, or panic.
  pub data Result : Type 0 where
    returned : ℕ → Option ℕ → YEncoder → Result
    panicked : YEncoder → Result

  -- The buffer is written: `n` bytes of the input are done. What is not taken stays in the buffer.
  abbrev pub flushed : ℕ → Bytes → Written State → (YEncoder → Result) → Result
  flushed n buf wr more = elim wr.err [
    | some e ↦ returned n (some e) (record { buf = drop wr.count buf; w = wr.sink })
    | none ↦
        if wr.count == length buf
        then more (record { buf = []; w = wr.sink })
        else panicked (record { buf = buf; w = wr.sink })
  ]

  unfoldable pub flush : ℕ → YEncoder → (YEncoder → Result) → Result
  flush n e more = flushed n e.buf (S.write e.buf e.w) more

  -- The loop of `Write`, behind `i` bytes.
  unfoldable pub write_loop : ℕ → Bytes → YEncoder → Result
  write_loop i [] e = returned i none e
  write_loop i (c ∷ b) e =
      let put =
        λ (e' : YEncoder). write_loop (suc i) b (record { buf = put_byte e'.buf c; w = e'.w }) in
      if leb line_length (length e.buf) then flush i e put else put e

  unfoldable pub write : Bytes → YEncoder → Result
  write b e = write_loop 0 b e

  -- `Close`.
  unfoldable pub close : YEncoder → Result
  close e =
      if length e.buf == 0
      then returned 0 none e
      else flush 0 (record { buf = close_line e.buf; w = e.w }) (λ e'. returned 0 none e')

  abbrev pub new_encoder : State → YEncoder
  new_encoder w = record { buf = []; w = w }
