-- ===== src/Yenc/RoundTrip.antt =====
-- What the encoder of src/nksrv/lib/utils/yenc/enc.go writes, read by the decoder of dec.go.
pub mod Lines
use nksrv.Base.{
  ℕ, zero, leb, length-map, suc, ◌+◌, ◌*◌, ◌-◌, ◌≤◌, ◌<◌, ◌≡◌, refl, sym, ap, ◌∙◌, Bool, true,
  false, List, [], ◌∷◌, ◌++◌, Option, none, some, Bytes, map, ◌==◌, if◌then◌else◌, length, take,
  drop, append_assoc, append-nil, length-append, All, arith, Bool-cases, inl, inr,
}
use nksrv.BufReader.{at_end}
use nksrv.BufReader.Stream.{Item, byte}
use nksrv.BufReader.Until.{found, broken}
use nksrv.BufReader.Until.Items.{Upto, upto}
use nksrv.Sink.{Sink, Collects}
use nksrv.Yenc.Encoder.{
  line_length, encode_byte, YEncoder, Result, returned, panicked, crlf, new_encoder,
}
use nksrv.Yenc.Stream.{stream, same, encode_all, join, Returns, encode_all-stream}
use nksrv.Yenc.Decoder.{
  line_size, YDecoder, DecodeErr, new_decoder, of_reader, strip, decode_loop, is_keyword, overwrite,
  decode_line, fetch_line, fetch, left, WriteToResult, write_to_loop, write_to,
}
use nksrv.Yenc.RoundTrip.Lines.{
  cut, length-encode_byte, IsCut, IsBytes, IsCut-cut, stream-cut, keyword-cut, plain-cut, upto-line,
  strip-end,
}

-- A line is handed out whole.
left-overwrite : (p line : Bytes) → take (length p) (p ++ line) ≡ p
left-overwrite [] line = refl
left-overwrite (c ∷ p) line = ap (λ t. c ∷ t) (left-overwrite p line)

-- The decoder behind a `fetch` of the first line.
abbrev fetched : YDecoder → ℕ → Bytes → YDecoder
fetched d c b =
    let t = cut 0 (c ∷ b) in
    record {
      br = map byte (stream 0 t.after);
      line = overwrite t.plain (overwrite (t.text ++ crlf) d.line);
      linex = 0;
      linelen = length t.plain;
    }

fetch-cut :
    (d : YDecoder) (c : ℕ) (b : Bytes)
    → IsBytes (c ∷ b)
    → d.br ≡ map byte (stream 0 (c ∷ b))
    → fetch d ≡ (fetched d c b, none)
unfolding fetch
fetch-cut d c b i h =
    let t = cut 0 (c ∷ b) in
    let ok = IsCut-cut 0 (c ∷ b) (omega arith) i in
    let s : strip b'\r' (strip b'\n' (t.text ++ crlf)) ≡ t.text =
      ap (λ x. strip b'\r' (strip b'\n' x)) (sym (append_assoc t.text (b'\r' ∷ []) (b'\n' ∷ [])))
      ∙ ap (strip b'\r') (strip-end b'\n' (t.text ++ b'\r' ∷ []))
      ∙ strip-end b'\r' t.text in
    let k : is_keyword (overwrite (t.text ++ crlf) d.line) ≡ false =
      ap is_keyword (append_assoc t.text crlf _) ∙ keyword-cut 0 c b _ in
    let u : upto line_size b'\n' d.br
        ≡ record { bytes = t.text ++ crlf; how = found; rest = map byte (stream 0 t.after) } =
      ap (upto line_size b'\n') (h ∙ ap (map byte) (stream-cut 0 (c ∷ b) (omega arith)))
      ∙ upto-line line_size t.text (stream 0 t.after) ok.is_text (omega (arith, ok.short)) in
    rw u (rw (k, s, ok.decodes) refl)

-- At the end of the input nothing is decoded.
fetch-end :
    (d : YDecoder)
    → d.br ≡ []
    → d.linex ≡ d.linelen
    → ((fetch d).0.linex ≡ (fetch d).0.linelen) × ((fetch d).1 ≡ some (of_reader at_end))
unfolding fetch upto
fetch-end d h e = elim (Bool-cases (is_keyword d.line)) [
  | inl k ↦ rw h (rw k (e, refl))
  | inr k ↦ rw h (rw k (refl, refl))
]

stream-empty : map byte (stream 0 []) ≡ []
unfolding stream
stream-empty = refl

module _ (T : Sink) (D : Collects T) where
  -- `WriteTo` ends without an error, and so much is written.
  abbrev pub Decodes : Bytes → Option (WriteToResult T) → Type 0
  Decodes out none = ⊥
  Decodes out (some r) = (r.err ≡ none) × (D.taken r.w ≡ out)

  round-fetch :
      (fuel n : ℕ) (d : YDecoder) (w : T.State)
      → d.linex ≡ d.linelen
      → write_to_loop T (suc fuel) d n none w ≡ write_to_loop T fuel (fetch d).0 n (fetch d).1 w
  unfolding write_to_loop
  round-fetch fuel n d w e =
      let s : (d.linex == d.linelen) ≡ true = ground arith in rw (write_to_loop, s) refl

  Decodes-end :
      (fuel n : ℕ) (t : YDecoder × Option DecodeErr) (w : T.State)
      → t.0.linex ≡ t.0.linelen
      → t.1 ≡ some (of_reader at_end)
      → Decodes (D.taken w) (write_to_loop T (suc fuel) t.0 n t.1 w)
  unfolding write_to_loop
  Decodes-end fuel n t w e h =
      let s : (t.0.linex == t.0.linelen) ≡ true = ground arith in
      rw (write_to_loop, s, h) (refl, refl)

  round-write :
      (fuel n : ℕ) (d : YDecoder) (w : T.State)
      → (d.linex == d.linelen) ≡ false
      → write_to_loop T (suc fuel) d n none w
        ≡ write_to_loop T fuel
            (record d { linex = d.linex + length (left d) })
            (n + length (left d))
            none
            (T.write (left d) w).sink
  unfolding write_to_loop
  round-write fuel n d w e = rw (write_to_loop, e, D.no_err (left d) w, D.count (left d) w) refl

  Decodes-loop :
      (fuel : ℕ) (b : Bytes) (d : YDecoder) (n : ℕ) (w : T.State)
      → IsBytes b
      → d.br ≡ map byte (stream 0 b)
      → d.linex ≡ d.linelen
      → 2 * length b + 2 ≤ fuel
      → Decodes (D.taken w ++ b) (write_to_loop T fuel d n none w)
  Decodes-loop zero b d n w i h e f = absurd (omega arith)
  Decodes-loop (suc zero) b d n w i h e f = absurd (omega arith)
  Decodes-loop (suc (suc fuel)) [] d n w i h e f =
      let t = fetch-end d (h ∙ stream-empty) e in
      rw (round-fetch (suc fuel) n d w e, append-nil (D.taken w))
        (Decodes-end fuel n (fetch d) w t.0 t.1)
  Decodes-loop (suc (suc fuel)) (c ∷ b) d n w i h e f =
      let t = cut 0 (c ∷ b) in
      let ok = IsCut-cut 0 (c ∷ b) (omega arith) i in
      let d' = fetched d c b in
      let l : left d' ≡ t.plain =
        ap (λ k. take k (t.plain ++ drop (length t.plain) (overwrite (t.text ++ crlf) d.line)))
          (omega arith)
        ∙ left-overwrite t.plain (drop (length t.plain) (overwrite (t.text ++ crlf) d.line)) in
      let pos = plain-cut 0 c b in
      let len = length-append {0} t.plain t.after in
      let r =
        Decodes-loop fuel t.after (record d' { linex = 0 + length (left d') })
          (n + length (left d')) (T.write (left d') w).sink ok.bytes_after refl
          (omega (arith, ap length l)) (omega (arith, pos, len, ap length ok.parts)) in
      let q : D.taken (T.write (left d') w).sink ++ t.after ≡ D.taken w ++ c ∷ b =
        ap (λ x. x ++ t.after) (D.appends (left d') w ∙ ap (λ x. D.taken w ++ x) l)
        ∙ append_assoc (D.taken w) t.plain t.after
        ∙ ap (λ x. D.taken w ++ x) ok.parts in
      rw
        (
          round-fetch (suc fuel) n d w e,
          fetch-cut d c b i h,
          round-write fuel n d' w (ground arith),
        )
        (rw q at r)

length-stream : (k : ℕ) (b : Bytes) → length b ≤ length (stream k b)
unfolding stream
length-stream k [] = omega arith
length-stream k (c ∷ b) =
    let e = encode_byte k c in
    let l = length-encode_byte k c in
    elim (Bool-cases (leb line_length (k + length e))) [
      | inl f ↦ rw f (
          omega (
            arith,
            l.1,
            length-stream 0 b,
            length-append {0} (e ++ crlf) (stream 0 b),
            length-append {0} e crlf,
          ))
      | inr f ↦ rw f (
          omega (
            arith,
            l.1,
            length-stream (k + length e) b,
            length-append {0} e (stream (k + length e) b),
          ))
    ]

module _ (S : Sink) (C : Collects S) (T : Sink) (D : Collects T) where
  -- The encoder returns without an error, and `WriteTo` of a decoder on what it wrote ends without an error, and
  -- writes these bytes.
  abbrev pub RoundTrips : Bytes → T.State → Result S → Type 0
  RoundTrips b t =
      Returns S C
        λ e. Decodes T D (D.taken t ++ b) (write_to T (new_decoder (map byte (C.taken e.w))) t)

  Returns-map :
      (P Q : YEncoder S → Type 0) (res : Result S)
      → ((e : YEncoder S) → P e → Q e)
      → Returns S C P res
      → Returns S C Q res
  Returns-map P Q (returned n none e) f h = f e h
  Returns-map P Q (returned n (some err) e) f h = h
  Returns-map P Q (panicked e) f h = h

  decode_encoded :
      (b out : Bytes) (t : T.State)
      → IsBytes b
      → out ≡ stream 0 b
      → Decodes T D (D.taken t ++ b) (write_to T (new_decoder (map byte out)) t)
  unfolding write_to
  decode_encoded b out t i h =
      Decodes-loop T D _ b (new_decoder (map byte out)) 0 t i (ap (map byte) h) refl
        (omega (arith, length-stream 0 b, ap length h, length-map {0, 0} out byte))

  -- Bytes that are given to `Write` in any blocks, with `Close` behind them, are what `WriteTo` of the decoder gives,
  -- if the writers of both take all and do not fail, and the encoder's had taken nothing before.
  pub write_to-encode_all :
      (bs : List Bytes) (w : S.State) (t : T.State)
      → IsBytes (join bs)
      → C.taken w ≡ []
      → RoundTrips (join bs) t (encode_all S bs (new_encoder S w))
  write_to-encode_all bs w t i h =
      Returns-map _ _ (encode_all S bs (new_encoder S w))
        (λ e r.
          decode_encoded (join bs) (C.taken e.w) t i
            (r.taken ∙ ap (λ x. x ++ stream 0 (join bs)) h))
        (encode_all-stream S C bs w)
