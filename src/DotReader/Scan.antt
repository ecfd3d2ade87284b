-- ===== src/DotReader/Scan.antt =====
-- `ReadByte` and `Discard` of src/nksrv/lib/utils/text/bufreader/dotreader.go, and the loops that call
-- `ReadByte`: a loop is what it makes of each byte that is handed out. The buffered reader below is the
-- sequence of bytes and errors to come; a byte that is put back is processed again at once.
pub mod Ending
use nksrv.Base.{
  ℕ, zero, suc, Bool, true, false, List, [], ◌∷◌, Option, none, some, Bytes, if◌then◌else◌,
}
use nksrv.BufReader.{ReadErr, at_end, failed}
use nksrv.BufReader.Stream.{Item, byte, error}
use nksrv.DotReader.{Dot, is_eof, Step, process}

-- `io.EOF` behind the article, `io.ErrUnexpectedEOF` inside of it, or an error of the reader.
pub data DotErr : Type 0 where
  article_end cut_off : DotErr
  broken_off : ℕ → DotErr

abbrev pub dot_err : ReadErr → DotErr
dot_err at_end = cut_off
dot_err (failed e) = broken_off e

-- What a loop makes of a byte: it goes on with a state, or has an answer.
pub data Verdict (S A : Type 0) : Type 0 where
  more : S → Verdict S A
  answer : A → Verdict S A

-- How a loop ends: with an answer, or in a state with an error of `ReadByte`.
pub data ScanEnd (S A : Type 0) : Type 0 where
  answered : A → ScanEnd S A
  stopped : S → DotErr → ScanEnd S A

pub record Scan (S A : Type 0) : Type 0 where
  pub how : ScanEnd S A
  pub dot : Dot
  pub rest : List Item

module _ {S A : Type 0} (f : S → ℕ → Verdict S A) where
  abbrev stop : S → DotErr → Dot → List Item → Scan S A
  stop s e d is = record { how = stopped s e; dot = d; rest = is }

  -- A byte is handed out, with the reader behind it; the loop goes on from there.
  abbrev handed : S → ℕ → Dot → List Item → (S → Scan S A) → Scan S A
  handed s b d is again = elim (f s b) [
    | more s' ↦ again s'
    | answer a ↦ record { how = answered a; dot = d; rest = is }
  ]

  abbrev out_of : S → Option ℕ → Dot → List Item → (S → Scan S A) → Scan S A
  out_of s none d is again = again s
  out_of s (some b) d is again = handed s b d is again

  unfoldable pub scan : S → Dot → List Item → Scan S A
  scan s d [] = elim (is_eof d.state) [
    | true ↦ stop s article_end d []
    | false ↦ stop s cut_off d []
  ]
  scan s d (error e ∷ is) = elim (is_eof d.state) [
    | true ↦ stop s article_end d (error e ∷ is)
    | false ↦ stop s (dot_err e) d is
  ]
  scan s d (byte c ∷ is) = elim (is_eof d.state) [
    | true ↦ stop s article_end d (byte c ∷ is)
    | false ↦
        let st = process d c in
        let st2 = process st.next c in
        elim st.back [
          | false ↦ out_of s st.out st.next is (λ s'. scan s' st.next is)
          | true ↦
              out_of s st.out st.next (byte c ∷ is)
                λ s'. out_of s' st2.out st2.next is (λ s''. scan s'' st2.next is)
        ]
  ]

-- `ReadByte`.
unfoldable pub read_byte : Dot → List Item → Scan (Unit {0}) ℕ
read_byte d is = scan (λ _ b. answer b) tt d is

-- `Discard` of everything, a loop without an answer: the state is the number of bytes.
unfoldable pub discard : Dot → List Item → Scan ℕ ⊥
discard d is = scan (λ n b. more (suc n)) 0 d is
