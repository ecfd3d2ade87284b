-- ===== src/BufReader/Tests.antt =====
-- Runs of the buffered reader.
use nksrv.Base.{◌≡◌, refl, [], ◌∷◌, some, none, codes, arith}
use nksrv.BufReader.{BufReader, failed, got, read_byte}
use nksrv.BufReader.Stream.{Takes, stream, read_byte-Takes}
use nksrv.BufReader.Until.{not_found, read_until}
use nksrv.BufReader.Until.Items.{upto}
use nksrv.BufReader.Until.Laws.{Gives, read_until-Gives}

-- Two bytes and an error, on a buffer of four bytes.
abbrev small : BufReader
small = record {
  u = record { bytes = codes "ab"; err = some (failed 5) } ∷ [];
  buf = record { b = 0 ∷ 0 ∷ 0 ∷ 0 ∷ []; w = 0; r = 0; err = none };
}

-- The same after a byte was read.
abbrev used : BufReader
used = record {
  u = [];
  buf = record { b = b'a' ∷ b'b' ∷ 0 ∷ 0 ∷ []; w = 2; r = 1; err = some (failed 5) };
}

read_byte-Takes_example : Takes (read_byte small) (stream small)
read_byte-Takes_example =
    read_byte-Takes small
      (record { ordered = omega arith; inside = omega arith; fits = (omega arith, tt) })

read_byte_runs : read_byte small ≡ (got b'a', used)
unfolding read_byte
read_byte_runs = refl

read_until-Gives_example : Gives (read_until 512 b'b' small) (upto 512 b'b' (stream small))
read_until-Gives_example =
    read_until-Gives 512 b'b' small
      (record { ordered = omega arith; inside = omega arith; fits = (omega arith, tt) })
      (omega arith)

read_until_runs :
    ((read_until 512 b'b' small).bytes ≡ codes "ab") × ((read_until 1 b'b' small).how ≡ not_found)
unfolding read_until
read_until_runs = (refl, refl)
