-- ===== src/DotReader/Tests.antt =====
-- Runs of the reader of articles.
use nksrv.Base.{◌≡◌, refl, true, false, ◌∷◌, [], ◌++◌, List, map, some, Bytes, codes, arith}
use nksrv.DotReader.{
  eof, cr, Dot, new_dot, io_eof, unexpected_eof, ReadResult, process, read_loop, read,
}
use nksrv.BufReader.Stream.{Item, byte}
use nksrv.DotReader.Scan.{answer, scan, read_byte, discard}
use nksrv.DotReader.Scan.Ending.{ending, size, KeepsEnding, KeepsEnding-scan}
use nksrv.DotReader.Fuel.{read-Ends}
use nksrv.DotReader.RoundTrip.{dot_encode, plain, read-dot_encode}

abbrev two_lines : List Bytes
two_lines = codes "Hello" ∷ codes ".sig" ∷ []

read-dot_encode_example :
    read 20 new_dot (dot_encode two_lines ++ codes "QUIT")
    ≡ some (record {
      dot_reader = record { state = eof; badnl = false };
      rest = codes "QUIT";
      bytes = plain two_lines;
      err = some io_eof;
    })
unfolding plain
read-dot_encode_example = read-dot_encode two_lines (codes "QUIT") 20 (ground arith) (omega arith)

read-Ends_example : (r : ReadResult) × (read 20 new_dot (b'.' ∷ b'\r' ∷ codes "abc") ≡ some r)
read-Ends_example = read-Ends 20 new_dot (b'.' ∷ b'\r' ∷ codes "abc")

-- A carriage return behind a dot is handed out, and the input ends too early.
read_runs :
    read 20 new_dot (b'.' ∷ b'\r' ∷ codes "abc")
    ≡ some (record {
      dot_reader = record new_dot { state = nksrv.DotReader.non_begin; badnl = true };
      rest = [];
      bytes = b'\r' ∷ codes "abc";
      err = some unexpected_eof;
    })
unfolding read process
read_runs = refl

abbrev sent_items : List Item
sent_items = map byte (codes "a\r\n.\r\n" ++ codes "200")

KeepsEnding-scan_example :
    KeepsEnding (ending new_dot sent_items) (size new_dot sent_items) (read_byte new_dot sent_items)
unfolding read_byte
KeepsEnding-scan_example = KeepsEnding-scan (λ u b. answer b) tt new_dot sent_items

discard_test : (discard new_dot sent_items).rest ≡ map byte (codes "200")
unfolding discard scan process
discard_test = refl
