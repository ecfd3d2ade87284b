-- ===== src/Yenc/Decoder.antt =====
-- src/nksrv/lib/utils/yenc/dec.go: the decoder. The buffered reader below it is the sequence of the
-- bytes and errors to come, and `upto` what its `ReadUntil` takes of them.
use nksrv.Base.{
  ℕ, zero, suc, ◌+◌, ◌*◌, ◌-◌, ◌%◌, Bool, true, false, List, [], ◌∷◌, ◌++◌, Option, none, some,
  Bytes, leb, ◌==◌, if◌then◌else◌, length, take, drop, replicate, ◌&&◌,
}
use nksrv.BufReader.{ReadErr, at_end}
use nksrv.BufReader.Stream.{Item}
use nksrv.BufReader.Until.{UntilEnd, found, not_found, broken}
use nksrv.BufReader.Until.Items.{Upto, upto}
use nksrv.Sink.{Sink, Written}

-- An error of the reader, `ErrDelimNotFound` of `ReadUntil`, `errUnterminatedEscape`, or an error of
-- the writer.
pub data DecodeErr : Type 0 where
  of_reader : ReadErr → DecodeErr
  delim_not_found unterminated_escape : DecodeErr
  of_writer : ℕ → DecodeErr

-- `YDecoder`, with what is still to come from its reader.
pub record YDecoder : Type 0 where
  pub br : List Item
  pub line : Bytes
  pub linex : ℕ
  pub linelen : ℕ

abbrev pub line_size : ℕ
line_size = 1000

abbrev pub new_decoder : List Item → YDecoder
new_decoder is = record { br = is; line = replicate line_size 0; linex = 0; linelen = 0 }

abbrev pub reader_err : UntilEnd → Option DecodeErr
reader_err found = none
reader_err not_found = some delim_not_found
reader_err (broken e) = some (of_reader e)

-- `if n > 0 && d.line[n-1] == q { n-- }`.
abbrev pub strip : ℕ → Bytes → Bytes
strip q [] = []
strip q (c ∷ []) = if c == q then [] else c ∷ []
strip q (c ∷ d ∷ s) = c ∷ strip q (d ∷ s)

-- The loop over a line: what it is decoded to, and whether it ends inside of an escape.
abbrev pub decode_loop : Bool → Bytes → Bytes × Bool
decode_loop esc [] = ([], esc)
decode_loop true (c ∷ s) = let t = decode_loop false s in ((c + 192 + 214) % 256 ∷ t.0, t.1)
decode_loop false (c ∷ s) =
    if c == b'='
    then decode_loop true s
    else let t = decode_loop false s in ((c + 214) % 256 ∷ t.0, t.1)

-- `d.line[0] == '=' && d.line[1] == 'y'`, whatever part of the array the line takes.
abbrev pub is_keyword : Bytes → Bool
is_keyword (c ∷ d ∷ s) = c == b'=' && d == b'y'
is_keyword _ = false

-- The front of the array is written to.
abbrev pub overwrite : Bytes → Bytes → Bytes
overwrite bs line = bs ++ drop (length bs) line

abbrev pub escape_err : Option DecodeErr → Bool → Option DecodeErr
escape_err none true = some unterminated_escape
escape_err e _ = e

abbrev pub decode_line : YDecoder → Bytes × Bool → Option DecodeErr → YDecoder × Option DecodeErr
decode_line d t e =
    (record d { line = overwrite t.0 d.line; linex = 0; linelen = length t.0 }, escape_err e t.1)

-- `fetch`.
abbrev pub fetch_line : YDecoder → Upto → YDecoder × Option DecodeErr
fetch_line d t =
    let d' = record d { br = t.rest; line = overwrite t.bytes d.line } in
    if is_keyword d'.line
    then (d', reader_err t.how)
    else decode_line d' (decode_loop false (strip b'\r' (strip b'\n' t.bytes))) (reader_err t.how)

unfoldable pub fetch : YDecoder → YDecoder × Option DecodeErr
fetch d = fetch_line d (upto line_size b'\n' d.br)

-- The part of the line that is not handed out yet.
abbrev pub left : YDecoder → Bytes
left d = take (d.linelen - d.linex) (drop d.linex d.line)

-- What `Read` comes back with.
pub record ReadResult : Type 0 where
  pub bytes : Bytes
  pub err : Option DecodeErr
  pub decoder : YDecoder

-- `Read` into `l` bytes. None is the end of the fuel.
unfoldable pub read_loop : ℕ → ℕ → YDecoder → Option DecodeErr → Option ReadResult
read_loop zero l d err = none
read_loop (suc fuel) l d err = elim (d.linex == d.linelen) [
  | false ↦
      let n = if leb l (length (left d)) then l else length (left d) in
      some
        (record { bytes = take n (left d); err = err; decoder = record d { linex = d.linex + n } })
  | true ↦ elim err [
    | some e ↦ some (record { bytes = []; err = some e; decoder = d })
    | none ↦ let t = fetch d in read_loop fuel l t.0 t.1
  ]
]

-- Each call of `fetch` takes an item or fails.
unfoldable pub read : ℕ → YDecoder → Option ReadResult
read l d = read_loop (length d.br + 3) l d none

module _ (S : Sink) where
  -- What `WriteTo` comes back with.
  pub record WriteToResult : Type 0 where
    pub n : ℕ
    pub err : Option DecodeErr
    pub decoder : YDecoder
    pub w : S.State

  abbrev pub no_eof : DecodeErr → Option DecodeErr
  no_eof (of_reader at_end) = none
  no_eof e = some e

  -- `if err == nil || err == io.EOF { err = we }`.
  abbrev pub writer_err : Option DecodeErr → ℕ → Option DecodeErr
  writer_err none we = some (of_writer we)
  writer_err (some (of_reader at_end)) we = some (of_writer we)
  writer_err e we = e

  -- Behind a write: the writer's error, or the next round.
  abbrev pub after_write :
      YDecoder
      → ℕ
      → Option DecodeErr
      → Written S.State
      → (YDecoder → ℕ → S.State → Option WriteToResult)
      → Option WriteToResult
  after_write d n err wr again =
      let d' = record d { linex = d.linex + wr.count } in
      elim wr.err [
        | none ↦ again d' (n + wr.count) wr.sink
        | some we ↦
            some (record { n = n + wr.count; err = writer_err err we; decoder = d'; w = wr.sink })
      ]

  -- A round of either loop of `WriteTo`. None is the end of the fuel.
  unfoldable pub write_to_loop :
      ℕ → YDecoder → ℕ → Option DecodeErr → S.State → Option WriteToResult
  write_to_loop zero d n err w = none
  write_to_loop (suc fuel) d n err w = elim (d.linex == d.linelen) [
    | false ↦ after_write d n err (S.write (left d) w) (λ d' n' w'. write_to_loop fuel d' n' err w')
    | true ↦ elim err [
      | some e ↦ some (record { n = 0; err = no_eof e; decoder = d; w = w })
      | none ↦ let t = fetch d in write_to_loop fuel t.0 n t.1 w
    ]
  ]

  unfoldable pub write_to : YDecoder → S.State → Option WriteToResult
  write_to d w = write_to_loop (2 * length d.br + 4) d 0 none w
