-- ===== src/Ascii/UnixText.antt =====
-- src/nksrv/lib/utils/text/asciiutils/unixtextreader.go: the reader that strips every carriage
-- return and sees to it that a text ends with a line feed.
pub mod Laws
use nksrv.Base.{
  ℕ, zero, suc, Bool, true, false, not, List, [], ◌∷◌, ◌++◌, Bytes, ltb, ◌==◌, if◌then◌else◌,
  length,
}

-- `sNL`, `sText` and `sEOF`.
pub data TextState : Type 0 where
  s_nl s_text s_eof : TextState

abbrev pub after : ℕ → TextState
after c = if not (c == b'\n') then s_text else s_nl

-- The two loops: what is left of the bytes that were read, and the state behind them. The first
-- loop runs up to the first carriage return, and the second also copies.
unfoldable pub copy_loop : TextState → Bytes → Bytes × TextState
copy_loop s [] = ([], s)
copy_loop s (c ∷ b) =
    let skipped = copy_loop s b in
    let (o, s') = copy_loop (after c) b in if c == b'\r' then skipped else (c ∷ o, s')

-- What a call of `Read` gives: the bytes, whether it reports `io.EOF`, and the state behind it.
pub record TextRead : Type 0 where
  pub bytes : Bytes
  pub ended : Bool
  pub state : TextState

-- The end of `Read`: the text is at its end, and its last line has to be ended.
abbrev pub end_line : ℕ → Bytes → TextRead
end_line room o =
    if ltb (length o) room
    then record { bytes = o ++ b'\n' ∷ []; ended = true; state = s_nl }
    else record { bytes = o; ended = false; state = s_eof }

abbrev pub finish : ℕ → Bool → Bytes × TextState → TextRead
finish room false (o, s) = record { bytes = o; ended = false; state = s }
finish room true (o, s_nl) = record { bytes = o; ended = true; state = s_nl }
finish room true (o, s_text) = end_line room o
finish room true (o, s_eof) = end_line room o

-- `Read` into `room` bytes, where the reader below gives `b`, and the end of the text or not. It is
-- not asked in the state `sEOF`, and not for no bytes.
unfoldable pub text_read : TextState → ℕ → Bytes → Bool → TextRead
unfolding copy_loop
text_read s zero b e = record { bytes = []; ended = false; state = s }
text_read s_eof (suc room) b e = record { bytes = b'\n' ∷ []; ended = true; state = s_nl }
text_read s_nl (suc room) b e = finish (suc room) e (copy_loop s_nl b)
text_read s_text (suc room) b e = finish (suc room) e (copy_loop s_text b)
