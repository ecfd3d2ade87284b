-- ===== src/DotReader/RoundTrip.antt =====
-- Reading what a client sends: the lines of an article, each ended by CR LF, with a dot doubled at
-- the start of a line, and a line with a dot alone at the end.
use nksrv.Base.{
  ℕ, zero, suc, ◌<◌, ◌≡◌, refl, true, false, List, [], ◌∷◌, ◌++◌, Option, some, Bytes, ◌==◌,
  if◌then◌else◌, length, All, arith, append_assoc, Bool-cases, inl, inr,
}
use nksrv.DotReader.{
  DotState, begin_line, non_begin, eof, Dot, process, io_eof, new_dot, ReadResult, read_loop, read,
}

abbrev pub IsLine : Bytes → Type 0
IsLine = All (λ c. (c ≡ b'\r' → ⊥) × (c ≡ b'\n' → ⊥))

abbrev pub stuff : Bytes → Bytes
stuff [] = []
stuff (c ∷ s) = if c == b'.' then b'.' ∷ c ∷ s else c ∷ s

unfoldable pub dot_encode : List Bytes → Bytes
dot_encode [] = b'.' ∷ b'\r' ∷ b'\n' ∷ []
dot_encode (line ∷ ls) = stuff line ++ b'\r' ∷ b'\n' ∷ dot_encode ls

-- The same lines, each ended by LF.
unfoldable pub plain : List Bytes → Bytes
plain [] = []
plain (line ∷ ls) = line ++ b'\n' ∷ plain ls

-- The reader in a state, with nothing wrong so far.
abbrev at : DotState → Dot
at s = record { state = s; badnl = false }

abbrev finished : Bytes → Bytes → Option ReadResult
finished bytes rest =
    some (record { dot_reader = at eof; rest = rest; bytes = bytes; err = some io_eof })

-- What every fuel and room that is large enough comes to.
abbrev Reads : DotState → Bytes → Bytes → Bytes → Type 0
Reads s input bytes rest =
    (fuel l : ℕ)
    → length input < fuel
    → length bytes < l
    → read_loop fuel l (at s) input ≡ finished bytes rest

Reads-end : (rest : Bytes) → Reads begin_line (b'.' ∷ b'\r' ∷ b'\n' ∷ rest) [] rest
unfolding read_loop process
Reads-end rest zero l hf hl = absurd (omega arith)
Reads-end rest (suc zero) l hf hl = absurd (omega arith)
Reads-end rest (suc (suc zero)) l hf hl = absurd (omega arith)
Reads-end rest (suc (suc (suc zero))) l hf hl = absurd (omega arith)
Reads-end rest (suc (suc (suc (suc fuel)))) zero hf hl = absurd (omega arith)
Reads-end rest (suc (suc (suc (suc fuel)))) (suc l) hf hl = refl

-- The end of a line.
Reads-crlf :
    (input bytes rest : Bytes)
    → Reads begin_line input bytes rest
    → Reads non_begin (b'\r' ∷ b'\n' ∷ input) (b'\n' ∷ bytes) rest
unfolding read_loop process
Reads-crlf input bytes rest h zero l hf hl = absurd (omega arith)
Reads-crlf input bytes rest h (suc zero) l hf hl = absurd (omega arith)
Reads-crlf input bytes rest h (suc (suc fuel)) zero hf hl = absurd (omega arith)
Reads-crlf input bytes rest h (suc (suc fuel)) (suc l) hf hl =
    rw (h fuel l (omega arith) (omega arith)) refl

Reads-empty :
    (input bytes rest : Bytes)
    → Reads begin_line input bytes rest
    → Reads begin_line (b'\r' ∷ b'\n' ∷ input) (b'\n' ∷ bytes) rest
unfolding read_loop process
Reads-empty input bytes rest h zero l hf hl = absurd (omega arith)
Reads-empty input bytes rest h (suc zero) l hf hl = absurd (omega arith)
Reads-empty input bytes rest h (suc (suc fuel)) zero hf hl = absurd (omega arith)
Reads-empty input bytes rest h (suc (suc fuel)) (suc l) hf hl =
    rw (h fuel l (omega arith) (omega arith)) refl

-- A byte inside of a line.
Reads-inside :
    (c : ℕ) (input bytes rest : Bytes)
    → (c ≡ b'\r' → ⊥) × (c ≡ b'\n' → ⊥)
    → Reads non_begin input bytes rest
    → Reads non_begin (c ∷ input) (c ∷ bytes) rest
unfolding read_loop process
Reads-inside c input bytes rest n h zero l hf hl = absurd (omega arith)
Reads-inside c input bytes rest n h (suc fuel) zero hf hl = absurd (omega arith)
Reads-inside c input bytes rest n h (suc fuel) (suc l) hf hl =
    let ncr : (c == b'\r') ≡ false = ground arith in
    let nlf : (c == b'\n') ≡ false = ground arith in
    rw (ncr, nlf) (rw (h fuel l (omega arith) (omega arith)) refl)

-- The first byte of a line that is no dot.
Reads-first :
    (c : ℕ) (input bytes rest : Bytes)
    → (c == b'.') ≡ false
    → (c ≡ b'\r' → ⊥) × (c ≡ b'\n' → ⊥)
    → Reads non_begin input bytes rest
    → Reads begin_line (c ∷ input) (c ∷ bytes) rest
unfolding read_loop process
Reads-first c input bytes rest d n h zero l hf hl = absurd (omega arith)
Reads-first c input bytes rest d n h (suc fuel) zero hf hl = absurd (omega arith)
Reads-first c input bytes rest d n h (suc fuel) (suc l) hf hl =
    let ncr : (c == b'\r') ≡ false = ground arith in
    let nlf : (c == b'\n') ≡ false = ground arith in
    rw (d, ncr, nlf) (rw (h fuel l (omega arith) (omega arith)) refl)

-- A line that begins with a dot, which was doubled.
Reads-dots :
    (c : ℕ) (input bytes rest : Bytes)
    → (c == b'.') ≡ true
    → (c ≡ b'\r' → ⊥) × (c ≡ b'\n' → ⊥)
    → Reads non_begin input bytes rest
    → Reads begin_line (b'.' ∷ c ∷ input) (c ∷ bytes) rest
unfolding read_loop process
Reads-dots c input bytes rest d n h zero l hf hl = absurd (omega arith)
Reads-dots c input bytes rest d n h (suc zero) l hf hl = absurd (omega arith)
Reads-dots c input bytes rest d n h (suc (suc fuel)) zero hf hl = absurd (omega arith)
Reads-dots c input bytes rest d n h (suc (suc fuel)) (suc l) hf hl =
    let ncr : (c == b'\r') ≡ false = ground arith in
    let nlf : (c == b'\n') ≡ false = ground arith in
    rw (ncr, nlf) (rw (h fuel l (omega arith) (omega arith)) refl)

Reads-tail :
    (line input bytes rest : Bytes)
    → IsLine line
    → Reads begin_line input bytes rest
    → Reads non_begin (line ++ b'\r' ∷ b'\n' ∷ input) (line ++ b'\n' ∷ bytes) rest
Reads-tail [] input bytes rest n h = Reads-crlf input bytes rest h
Reads-tail (c ∷ line) input bytes rest (nc, n) h =
    Reads-inside c _ _ rest nc (Reads-tail line input bytes rest n h)

Reads-line :
    (line input bytes rest : Bytes)
    → IsLine line
    → Reads begin_line input bytes rest
    → Reads begin_line (stuff line ++ b'\r' ∷ b'\n' ∷ input) (line ++ b'\n' ∷ bytes) rest
Reads-line [] input bytes rest n h = Reads-empty input bytes rest h
Reads-line (c ∷ line) input bytes rest (nc, n) h = elim (Bool-cases (c == b'.')) [
  | inl d ↦ rw d (Reads-dots c _ _ rest d nc (Reads-tail line input bytes rest n h))
  | inr d ↦ rw d (Reads-first c _ _ rest d nc (Reads-tail line input bytes rest n h))
]

Reads-encoded :
    (ls : List Bytes) (rest : Bytes)
    → All IsLine ls
    → Reads begin_line (dot_encode ls ++ rest) (plain ls) rest
unfolding dot_encode plain
Reads-encoded [] rest n = Reads-end rest
Reads-encoded (line ∷ ls) rest (nl, n) =
    rw append_assoc
      (Reads-line line (dot_encode ls ++ rest) (plain ls) rest nl (Reads-encoded ls rest n))

-- Lines that hold no CR and no LF, sent with CR LF behind each, a dot doubled at the start of a line
-- and a line with a dot alone at the end, are read back as they are, each ended by LF, into any
-- buffer with room for more than they need. The reader is then at its end without a wrong line end,
-- and what stands behind the article is left for the next command.
pub read-dot_encode :
    (ls : List Bytes) (rest : Bytes) (l : ℕ)
    → All IsLine ls
    → length (plain ls) < l
    → read l new_dot (dot_encode ls ++ rest)
      ≡ some (record {
        dot_reader = record { state = eof; badnl = false };
        rest = rest;
        bytes = plain ls;
        err = some io_eof;
      })
unfolding read
read-dot_encode ls rest l n room = Reads-encoded ls rest n _ l (omega arith) room
