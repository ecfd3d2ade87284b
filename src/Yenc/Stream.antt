-- ===== src/Yenc/Stream.antt =====
-- What the encoder of src/nksrv/lib/utils/yenc/enc.go writes in all, described without its buffer.
use nksrv.Base.{
  ℕ, suc, ◌+◌, ◌%◌, ◌≡◌, refl, sym, ap, ◌∙◌, true, false, List, [], ◌∷◌, ◌++◌, none, some, Bytes,
  leb, ◌==◌, if◌then◌else◌, length, append_assoc, append-nil, length-append, arith, Bool-cases, inl,
  inr,
}
use nksrv.Sink.{Sink, Collects}
use nksrv.Yenc.Encoder.{
  line_length, encode_byte, is_critical, escaped, shift, crlf, put_byte, last_is, close_line,
  YEncoder, Result, returned, panicked, flush, write_loop, write, close, new_encoder,
}

-- The output behind `k` bytes of a line: each line is ended as soon as it has the length, and the last one
-- where it is not empty.
unfoldable pub stream : ℕ → Bytes → Bytes
stream k [] = if k == 0 then [] else crlf
stream k (c ∷ b) =
    let e = encode_byte k c in
    let ended = e ++ crlf ++ stream 0 b in
    let open_line = e ++ stream (k + length e) b in
    if leb line_length (k + length e) then ended else open_line

-- `Write` for each block, up to an error, and `Close`.
unfoldable pub encode_all : (S : Sink) → List Bytes → YEncoder S → Result S
encode_all S [] e = close S e
encode_all S (b ∷ bs) e = elim (write S b e) [
  | returned n none e' ↦ encode_all S bs e'
  | returned n (some err) e' ↦ returned n (some err) e'
  | panicked e' ↦ panicked e'
]

abbrev pub join : List Bytes → Bytes
join [] = []
join (b ∷ bs) = b ++ join bs

-- How far the line has come: a full buffer holds an ended line.
abbrev col : Bytes → ℕ
col buf = if leb line_length (length buf) then 0 else length buf

abbrev IsLined : Bytes → Type 0
IsLined buf = last_is b'\n' buf ≡ leb line_length (length buf)

last_is-append : (q c : ℕ) (xs ys : Bytes) → last_is q (xs ++ c ∷ ys) ≡ last_is q (c ∷ ys)
last_is-append q c [] ys = refl
last_is-append q c (x ∷ []) ys = refl
last_is-append q c (x ∷ y ∷ xs) ys = last_is-append q c (y ∷ xs) ys

-- No byte of a line is a line feed or a carriage return.
pub critical-not_lf : (k d : ℕ) → is_critical k d ≡ true → ((d + 64) % 256 == b'\n') ≡ false
critical-not_lf k d h = ground arith

pub plain-not_lf : (k d : ℕ) → is_critical k d ≡ false → (d == b'\n') ≡ false
plain-not_lf k d h = ground arith

escaped-last : (k d : ℕ) (xs : Bytes) → last_is b'\n' (xs ++ escaped d (is_critical k d)) ≡ false
escaped-last k d xs = elim (Bool-cases (is_critical k d)) [
  | inl e ↦ rw e (last_is-append b'\n' b'=' xs ((d + 64) % 256 ∷ []) ∙ critical-not_lf k d e)
  | inr e ↦ rw e (last_is-append b'\n' d xs [] ∙ plain-not_lf k d e)
]

pub same : (n : ℕ) → (n == n) ≡ true
same n = ground arith

leb-longer : (n : ℕ) (xs ys : Bytes) → leb n (length xs) ≡ true → leb n (length (xs ++ ys)) ≡ true
leb-longer n xs ys h = let e = length-append {0} xs ys in ground arith

put_byte-IsLined : (buf : Bytes) (c : ℕ) → IsLined (put_byte buf c)
unfolding put_byte encode_byte
put_byte-IsLined buf c =
    let buf' = buf ++ encode_byte (length buf) c in
    elim (Bool-cases (leb line_length (length buf'))) [
      | inl e ↦
          rw e (
            last_is-append b'\n' b'\r' buf' (b'\n' ∷ []) ∙ sym (leb-longer line_length buf' crlf e))
      | inr e ↦ rw e (escaped-last (length buf) (shift c) buf ∙ sym e)
    ]

-- A byte that is put leaves what is to be written in all as it is.
put_byte-stream :
    (buf : Bytes) (c : ℕ) (b : Bytes)
    → put_byte buf c ++ stream (col (put_byte buf c)) b ≡ buf ++ stream (length buf) (c ∷ b)
unfolding put_byte stream
put_byte-stream buf c b =
    let e = encode_byte (length buf) c in
    let n = length-append {0} buf e in
    elim (Bool-cases (leb line_length (length (buf ++ e)))) [
      | inl l ↦
          rw (l, sym (ap (leb line_length) n) ∙ l, leb-longer line_length (buf ++ e) crlf l)
            (simp append_assoc)
      | inr l ↦
          rw (l, sym (ap (leb line_length) n) ∙ l)
            (rw l (rw n (append_assoc buf e (stream (length buf + length e) b))))
    ]

-- A full buffer is an ended line, and an encoder that holds one is as good as one with an empty line.
module _ (S : Sink) (C : Collects S) where
  -- All that will have been written, if this is what is still to come.
  abbrev total : YEncoder S → Bytes → Bytes
  total e b = C.taken e.w ++ (e.buf ++ stream (col e.buf) b)

  -- A call that returns without an error and leaves an encoder with the property.
  abbrev pub Returns : (YEncoder S → Type 0) → Result S → Type 0
  Returns P (returned n none e) = P e
  Returns P (returned n (some err) e) = ⊥
  Returns P (panicked e) = ⊥

  record Leaves (out : Bytes → Bytes) (e : YEncoder S) : Type 0 where
    lined : IsLined e.buf
    same : (b : Bytes) → total e b ≡ out b

  Returns-flush :
      (P : YEncoder S → Type 0) (n : ℕ) (e : YEncoder S) (more : YEncoder S → Result S)
      → ((w : S.State)
          → C.taken w ≡ C.taken e.w ++ e.buf
          → Returns P (more (record { buf = []; w = w })))
      → Returns P (flush S n e more)
  unfolding flush
  Returns-flush P n e more h =
      rw (C.no_err e.buf e.w, C.count e.buf e.w, same (length e.buf)) (h _ (C.appends e.buf e.w))

  Leaves-put :
      (out : Bytes → Bytes) (e : YEncoder S) (c : ℕ)
      → leb line_length (length e.buf) ≡ false
      → Leaves out e
      → Leaves (λ b. out (c ∷ b)) (record { buf = put_byte e.buf c; w = e.w })
  Leaves-put out e c h l = record {
    lined = put_byte-IsLined e.buf c;
    same = λ b.
        ap (λ t. C.taken e.w ++ t) (put_byte-stream e.buf c b)
        ∙ ap (λ t. C.taken e.w ++ (e.buf ++ stream (if t then 0 else length e.buf) (c ∷ b))) (sym h)
        ∙ l.same (c ∷ b);
  }

  Leaves-empty :
      (out : Bytes → Bytes) (e : YEncoder S) (w : S.State)
      → leb line_length (length e.buf) ≡ true
      → Leaves out e
      → C.taken w ≡ C.taken e.w ++ e.buf
      → Leaves out (record { buf = []; w = w })
  Leaves-empty out e w h l t = record {
    lined = refl;
    same = λ b.
        ap (λ t. t ++ stream 0 b) t
        ∙ append_assoc (C.taken e.w) e.buf (stream 0 b)
        ∙ ap (λ t. C.taken e.w ++ (e.buf ++ stream (if t then 0 else length e.buf) b)) (sym h)
        ∙ l.same b;
  }

  Leaves-write :
      (i : ℕ) (b : Bytes) (out : Bytes → Bytes) (e : YEncoder S)
      → Leaves out e
      → Returns (Leaves (λ r. out (b ++ r))) (write_loop S i b e)
  unfolding write_loop
  Leaves-write i [] out e l = l
  Leaves-write i (c ∷ b) out e l = elim (Bool-cases (leb line_length (length e.buf))) [
    | inl h ↦ rw h (
        Returns-flush (Leaves (λ r. out (c ∷ (b ++ r)))) i e _ λ w t.
          Leaves-write (suc i) b (λ r. out (c ∷ r)) _
            (Leaves-put out _ c refl (Leaves-empty out e w h l t)))
    | inr h ↦ rw h (Leaves-write (suc i) b (λ r. out (c ∷ r)) _ (Leaves-put out e c h l))
  ]

  close_line-stream :
      (buf : Bytes)
      → (length buf == 0) ≡ false
      → IsLined buf
      → buf ++ stream (col buf) [] ≡ close_line buf
  unfolding stream
  close_line-stream buf n l = elim (Bool-cases (leb line_length (length buf))) [
    | inl h ↦ rw (h, l ∙ h) (append-nil buf)
    | inr h ↦ rw (h, n, l ∙ h) refl
  ]

  length-zero : (b : Bytes) → (length b == 0) ≡ true → b ≡ []
  length-zero [] h = refl
  length-zero (c ∷ b) h = absurd (ground arith)

  Returns-then :
      (P Q : YEncoder S → Type 0) (res : Result S) (f : YEncoder S → Result S)
      → Returns P res
      → ((e : YEncoder S) → P e → Returns Q (f e))
      → Returns Q (elim res [
        | returned n none e ↦ f e
        | returned n (some err) e ↦ returned n (some err) e
        | panicked e ↦ panicked e
      ])
  Returns-then P Q (returned n none e) f h k = k e h
  Returns-then P Q (returned n (some err) e) f h k = h
  Returns-then P Q (panicked e) f h k = h

  -- The buffer is empty, and so much is written.
  pub record Wrote (out : Bytes) (e : YEncoder S) : Type 0 where
    pub empty : e.buf ≡ []
    pub taken : C.taken e.w ≡ out

  Wrote-close :
      (out : Bytes → Bytes) (e : YEncoder S) → Leaves out e → Returns (Wrote (out [])) (close S e)
  unfolding close stream
  Wrote-close out e l = elim (Bool-cases (length e.buf == 0)) [
    | inl h ↦ rw h (record {
      empty = length-zero e.buf h;
      taken =
          sym (append-nil (C.taken e.w))
          ∙ sym (ap (λ t. C.taken e.w ++ (t ++ stream (col t) [])) (length-zero e.buf h))
          ∙ l.same [];
    })
    | inr h ↦ rw h (
        Returns-flush (Wrote (out [])) 0 _ _ λ w t. record {
          empty = refl;
          taken =
              t ∙ ap (λ b. C.taken e.w ++ b) (sym (close_line-stream e.buf h l.lined)) ∙ l.same [];
        })
  ]

  Wrote-all :
      (bs : List Bytes) (out : Bytes → Bytes) (e : YEncoder S)
      → Leaves out e
      → Returns (Wrote (out (join bs))) (encode_all S bs e)
  unfolding encode_all write
  Wrote-all [] out e l = Wrote-close out e l
  Wrote-all (b ∷ bs) out e l =
      Returns-then (Leaves (λ r. out (b ++ r))) (Wrote (out (join (b ∷ bs)))) (write S b e)
        (λ e'. encode_all S bs e') (Leaves-write 0 b out e l)
        λ e' l'. (Wrote-all bs (λ r. out (b ++ r)) e' l')

  -- Over a writer that takes all and does not fail, `Write` and `Close` return without an error and leave an empty
  -- buffer, and what is written is the lines of the format, however the bytes are cut into blocks.
  pub encode_all-stream :
      (bs : List Bytes) (w : S.State)
      → Returns (Wrote (C.taken w ++ stream 0 (join bs))) (encode_all S bs (new_encoder S w))
  encode_all-stream bs w =
      Wrote-all bs (λ b. C.taken w ++ stream 0 b) (new_encoder S w)
        (record { lined = refl; same = λ b. refl })
