-- ===== src/Yenc/RoundTrip/Lines.antt =====
-- One encoded line, and what the decoder's `fetch` makes of it.
use nksrv.Base.{
  ℕ, zero, suc, ◌+◌, ◌%◌, ◌≤◌, ◌<◌, ◌≡◌, refl, sym, ap, ◌∙◌, Bool, false, [], ◌∷◌, ◌++◌, Bytes, map,
  leb, ◌==◌, if◌then◌else◌, length, append_assoc, append-nil, length-append, All, All-append, arith,
  Bool-cases, inl, inr,
}
use nksrv.BufReader.Stream.{byte}
use nksrv.BufReader.Until.{found}
use nksrv.BufReader.Until.Items.{upto}
use nksrv.Yenc.Encoder.{line_length, encode_byte, is_critical, shift, crlf}
use nksrv.Yenc.Stream.{stream, same}
use nksrv.Yenc.Decoder.{strip, decode_loop, is_keyword}

-- The rest of a line: its text without the line end, the bytes it stands for, and the bytes behind it.
pub record Cut : Type 0 where
  pub text : Bytes
  pub plain : Bytes
  pub after : Bytes

unfoldable pub cut : ℕ → Bytes → Cut
cut k [] = record { text = []; plain = []; after = [] }
cut k (c ∷ b) =
    let e = encode_byte k c in
    let t = cut (k + length e) b in
    if leb line_length (k + length e)
    then record { text = e; plain = c ∷ []; after = b }
    else record { text = e ++ t.text; plain = c ∷ t.plain; after = t.after }

-- No byte of a line is one of a line end.
abbrev pub IsText : Bytes → Type 0
IsText = All (λ c. ((c == b'\n') ≡ false) × ((c == b'\r') ≡ false))

abbrev pub IsBytes : Bytes → Type 0
IsBytes = All (λ c. c < 256)

-- What a line says of the bytes behind `k` bytes of it.
pub record IsCut (k : ℕ) (b : Bytes) (t : Cut) : Type 0 where
  pub parts : t.plain ++ t.after ≡ b
  pub is_text : IsText t.text
  pub short : k + length t.text ≤ 991
  pub bytes_after : IsBytes t.after
  pub decodes : decode_loop false t.text ≡ (t.plain, false)

IsText-encode_byte : (k c : ℕ) → IsText (encode_byte k c)
unfolding encode_byte
IsText-encode_byte k c = elim (Bool-cases (is_critical k (shift c))) [
  | inl e ↦ rw e ((refl, refl), ((ground arith, ground arith), tt))
  | inr e ↦ rw e ((ground arith, ground arith), tt)
]

decode-encode_byte :
    (k c : ℕ) (s : Bytes)
    → c < 256
    → decode_loop false (encode_byte k c ++ s) ≡ (let t = decode_loop false s in (c ∷ t.0, t.1))
unfolding encode_byte
decode-encode_byte k c s h = elim (Bool-cases (is_critical k (shift c))) [
  | inl e ↦ let v : ((shift c + 64) % 256 + 192 + 214) % 256 ≡ c = omega arith in rw e (rw v refl)
  | inr e ↦
      let v : (shift c + 214) % 256 ≡ c = omega arith in
      let n : (shift c == b'=') ≡ false = ground arith in rw (e, n) (rw v refl)
]

pub length-encode_byte : (k c : ℕ) → (length (encode_byte k c) ≤ 2) × (1 ≤ length (encode_byte k c))
unfolding encode_byte
length-encode_byte k c = elim (Bool-cases (is_critical k (shift c))) [
  | inl e ↦ rw e (omega arith, omega arith)
  | inr e ↦ rw e (omega arith, omega arith)
]

pub IsCut-cut : (k : ℕ) (b : Bytes) → k < line_length → IsBytes b → IsCut k b (cut k b)
unfolding cut
IsCut-cut k [] h i = record {
  parts = refl;
  is_text = tt;
  short = omega arith;
  bytes_after = tt;
  decodes = refl;
}
IsCut-cut k (c ∷ b) h (ic, i) =
    let e = encode_byte k c in
    let l = length-encode_byte k c in
    elim (Bool-cases (leb line_length (k + length e))) [
      | inl f ↦ rw f (record {
        parts = refl;
        is_text = IsText-encode_byte k c;
        short = omega (arith, l.0);
        bytes_after = i;
        decodes = ap (decode_loop false) (sym (append-nil e)) ∙ decode-encode_byte k c [] ic;
      })
      | inr f ↦
          let r = IsCut-cut (k + length e) b (ground arith) i in
          let t = (cut (k + length e) b) in
          rw f (record {
            parts = ap (λ p. c ∷ p) r.parts;
            is_text = All-append _ e t.text (IsText-encode_byte k c) r.is_text;
            short = omega (arith, r.short, length-append {0} e t.text);
            bytes_after = r.bytes_after;
            decodes =
                decode-encode_byte k c t.text ic
                ∙ ap (λ (p : Bytes × Bool). (c ∷ p.0, p.1)) r.decodes;
          })
    ]

pub stream-cut :
    (k : ℕ) (b : Bytes)
    → 0 < k + length b
    → (let t = cut k b in stream k b ≡ t.text ++ (crlf ++ stream 0 t.after))
unfolding stream cut
stream-cut k [] h = let n : (k == 0) ≡ false = ground arith in rw n refl
stream-cut k (c ∷ b) h =
    let e = encode_byte k c in
    let l = length-encode_byte k c in
    elim (Bool-cases (leb line_length (k + length e))) [
      | inl f ↦ rw f (append_assoc e crlf (stream 0 b))
      | inr f ↦
          let t = cut (k + length e) b in
          rw f (
            ap (λ s. e ++ s) (stream-cut (k + length e) b (omega (arith, l.1)))
            ∙ sym (append_assoc e t.text (crlf ++ stream 0 t.after)))
    ]

keyword-encode_byte : (k c : ℕ) (s : Bytes) → is_keyword (encode_byte k c ++ s) ≡ false
unfolding encode_byte
keyword-encode_byte k c s = elim (Bool-cases (is_critical k (shift c))) [
  | inl e ↦ rw e (ground arith)
  | inr e ↦ rw e (plain s (ground arith))
]
  where
    plain : (s : Bytes) → (shift c == b'=') ≡ false → is_keyword (shift c ∷ s) ≡ false
    plain [] n = refl
    plain (d ∷ s) n = rw n refl

pub keyword-cut : (k c : ℕ) (b s : Bytes) → is_keyword ((cut k (c ∷ b)).text ++ s) ≡ false
unfolding cut
keyword-cut k c b s =
    let e = encode_byte k c in
    elim (Bool-cases (leb line_length (k + length e))) [
      | inl f ↦ rw f (keyword-encode_byte k c s)
      | inr f ↦
          let t = cut (k + length e) b in
          rw f (rw append_assoc (keyword-encode_byte k c (t.text ++ s)))
    ]

pub plain-cut : (k c : ℕ) (b : Bytes) → 1 ≤ length (cut k (c ∷ b)).plain
unfolding cut
plain-cut k c b = elim (Bool-cases (leb line_length (k + length (encode_byte k c)))) [
  | inl f ↦ rw f (omega arith)
  | inr f ↦ rw f (omega arith)
]

-- `ReadUntil` takes a line with its end, where there is room for it.
pub upto-line :
    (room : ℕ) (text rest : Bytes)
    → IsText text
    → length text + 2 ≤ room
    → upto room b'\n' (map byte (text ++ (crlf ++ rest)))
      ≡ record { bytes = text ++ crlf; how = found; rest = map byte rest }
unfolding upto
upto-line zero text rest i h = absurd (omega arith)
upto-line (suc zero) text rest i h = absurd (omega arith)
upto-line (suc (suc room)) [] rest i h = refl
upto-line (suc (suc room)) (c ∷ text) rest ((n, _), i) h =
    rw n (rw (upto-line (suc room) text rest i (omega arith)) refl)

pub strip-end : (q : ℕ) (s : Bytes) → strip q (s ++ q ∷ []) ≡ s
strip-end q [] = rw (same q) refl
strip-end q (c ∷ []) = rw (same q) refl
strip-end q (c ∷ d ∷ s) = ap (λ t. c ∷ t) (strip-end q (d ∷ s))
