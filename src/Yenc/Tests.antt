-- ===== src/Yenc/Tests.antt =====
-- Runs of the encoder and of the decoder, and the theorems about them at them.
use nksrv.Base.{◌≡◌, refl, List, [], ◌∷◌, ◌++◌, none, some, Bytes, codes, map, arith}
use nksrv.BufReader.Stream.{byte}
use nksrv.Sink.{buffer, buffer-Collects}
use nksrv.Yenc.Encoder.{
  encode_byte, put_byte, flush, write_loop, write, close, new_encoder, returned,
}
use nksrv.Yenc.Stream.{stream, encode_all, join, Returns, Wrote, encode_all-stream}
use nksrv.Yenc.Decoder.{
  new_decoder, unterminated_escape, fetch, read_loop, read, write_to_loop, write_to,
}
use nksrv.Yenc.RoundTrip.{Decodes, RoundTrips, write_to-encode_all}
use nksrv.BufReader.Until.Items.{upto}

-- A dot, a line feed, an escape character and others, in two blocks.
abbrev blocks : List Bytes
blocks = (4 ∷ 224 ∷ 4 ∷ []) ∷ (19 ∷ 0 ∷ 255 ∷ []) ∷ []

encoded :
    encode_all buffer blocks (new_encoder buffer [])
    ≡ returned 0 none (record {
      buf = [];
      w = b'=' ∷ 110 ∷ b'=' ∷ 74 ∷ b'.' ∷ b'=' ∷ 125 ∷ 42 ∷ 41 ∷ b'\r' ∷ b'\n' ∷ [];
    })
unfolding encode_all encode_byte put_byte flush write_loop write close
encoded = refl

-- A line that begins with `=y` is left out.
keyword_skipped : Decodes buffer buffer-Collects (65 ∷ 66 ∷ []) (
    write_to buffer
      (new_decoder (map byte (codes "=ybegin" ++ b'\n' ∷ codes "kl" ++ b'\n' ∷ [])))
      [])
unfolding write_to write_to_loop fetch upto
keyword_skipped = (refl, refl)

-- A line that ends inside of an escape.
escape_open :
    elim (read 9 (new_decoder (map byte (codes "k=" ++ b'\n' ∷ [])))) [
      | none ↦ none
      | some r ↦ r.err
    ]
    ≡ some unterminated_escape
unfolding read read_loop fetch upto
escape_open = refl

encode_all-stream_example :
    Returns buffer buffer-Collects
      (Wrote buffer buffer-Collects (stream 0 (join blocks)))
      (encode_all buffer blocks (new_encoder buffer []))
encode_all-stream_example = encode_all-stream buffer buffer-Collects blocks []

write_to-encode_all_example :
    RoundTrips buffer buffer-Collects buffer buffer-Collects
      (join blocks)
      (codes "x")
      (encode_all buffer blocks (new_encoder buffer []))
write_to-encode_all_example =
    write_to-encode_all buffer buffer-Collects buffer buffer-Collects blocks [] (codes "x")
      (omega arith, (omega arith, (omega arith, (omega arith, (omega arith, (omega arith, tt))))))
      refl
