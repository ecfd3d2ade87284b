-- ===== src/Ascii/UnixText/Laws.antt =====
-- What comes of reading a whole text.
use nksrv.Base.{
  ℕ, zero, suc, ◌<◌, ◌≡◌, refl, sym, ap, ◌∙◌, true, false, List, [], ◌∷◌, ◌++◌, append_assoc, Bytes,
  ltb, ◌==◌, if◌then◌else◌, length, All, arith, Bool-cases, inl, inr,
}
use nksrv.Ascii.UnixText.{
  TextState, s_nl, s_text, s_eof, after, copy_loop, TextRead, finish, text_read,
}

-- A text without its carriage returns.
unfoldable pub strip_cr : Bytes → Bytes
strip_cr [] = []
strip_cr (c ∷ b) = if c == b'\r' then strip_cr b else c ∷ strip_cr b

-- A text that is not empty ends with a line feed.
unfoldable pub end_with_nl : Bytes → Bytes
end_with_nl [] = []
end_with_nl (c ∷ []) = if c == b'\n' then c ∷ [] else c ∷ b'\n' ∷ []
end_with_nl (c ∷ d ∷ b) = c ∷ end_with_nl (d ∷ b)

-- A call with its room and the bytes that the reader below gives.
pub record TextCall : Type 0 where
  pub room : ℕ
  pub given : Bytes

abbrev pub all_given : List TextCall → Bytes
all_given [] = []
all_given (c ∷ cs) = c.given ++ all_given cs

abbrev pub HasRoom : TextCall → Type 0
HasRoom c = 0 < c.room

-- One more call, where the end was not yet reported.
abbrev pub last_call : TextRead → Bytes
last_call r = if r.ended then r.bytes else r.bytes ++ (text_read r.state 1 [] true).bytes

-- All that is read: the calls, of which the last one meets the end of the text, and one more where
-- there was no room for a line feed.
abbrev pub read_text : TextState → List TextCall → TextCall → Bytes
read_text s [] last = last_call (text_read s last.room last.given true)
read_text s (c ∷ cs) last =
    let r = text_read s c.room c.given false in r.bytes ++ read_text r.state cs last

-- The state behind some bytes.
abbrev behind : TextState → Bytes → TextState
behind s [] = s
behind s (c ∷ o) = behind (after c) o

abbrev closed : TextState → Bytes → Bytes
closed s_nl o = o
closed _ o = o ++ b'\n' ∷ []

copy_loop_lem : (s : TextState) (b : Bytes) → copy_loop s b ≡ (strip_cr b, behind s (strip_cr b))
unfolding copy_loop strip_cr
copy_loop_lem s [] = refl
copy_loop_lem s (c ∷ b) = elim (Bool-cases (c == b'\r')) [
  | inl e ↦ rw e (copy_loop_lem s b)
  | inr e ↦ rw e (rw (copy_loop_lem (after c) b) refl)
]

behind-append : (s : TextState) (a b : Bytes) → behind s (a ++ b) ≡ behind (behind s a) b
behind-append s [] b = refl
behind-append s (c ∷ a) b = behind-append (after c) a b

strip_cr-append : (a b : Bytes) → strip_cr (a ++ b) ≡ strip_cr a ++ strip_cr b
unfolding strip_cr
strip_cr-append [] b = refl
strip_cr-append (c ∷ a) b = elim (Bool-cases (c == b'\r')) [
  | inl e ↦ rw e (strip_cr-append a b)
  | inr e ↦ rw e (ap (c ∷◌) (strip_cr-append a b))
]

-- The two states between calls.
abbrev IsOpen : TextState → Type 0
IsOpen s_nl = Unit
IsOpen s_text = Unit
IsOpen s_eof = ⊥

IsOpen-after : (c : ℕ) → IsOpen (after c)
IsOpen-after c = elim (Bool-cases (c == b'\n')) [ inl e ↦ rw e tt | inr e ↦ rw e tt ]

IsOpen-behind : (s : TextState) (o : Bytes) → IsOpen s → IsOpen (behind s o)
IsOpen-behind s [] h = h
IsOpen-behind s (c ∷ o) h = IsOpen-behind (after c) o (IsOpen-after c)

closed-append : (s : TextState) (a b : Bytes) → a ++ closed s b ≡ closed s (a ++ b)
closed-append s_nl a b = refl
closed-append s_text a b = sym (append_assoc a b (b'\n' ∷ []))
closed-append s_eof a b = sym (append_assoc a b (b'\n' ∷ []))

-- A call that does not meet the end of the text.
text_read-open :
    (s : TextState) (room : ℕ) (b : Bytes)
    → IsOpen s
    → 0 < room
    → text_read s room b false
      ≡ record { bytes = strip_cr b; ended = false; state = behind s (strip_cr b) }
unfolding text_read
text_read-open s zero b h r = absurd (omega arith)
text_read-open s_nl (suc room) b h r = ap (finish (suc room) false) (copy_loop_lem s_nl b)
text_read-open s_text (suc room) b h r = ap (finish (suc room) false) (copy_loop_lem s_text b)
text_read-open s_eof (suc room) b h r = absurd h

last_call-finish :
    (room : ℕ) (o : Bytes) (s : TextState)
    → IsOpen s
    → last_call (finish (suc room) true (o, s)) ≡ closed s o
unfolding text_read
last_call-finish room o s_nl h = refl
last_call-finish room o s_text h = elim (Bool-cases (ltb (length o) (suc room))) [
  | inl e ↦ rw e refl
  | inr e ↦ rw e refl
]
last_call-finish room o s_eof h = absurd h

last_call-text_read :
    (s : TextState) (room : ℕ) (b : Bytes)
    → IsOpen s
    → 0 < room
    → last_call (text_read s room b true) ≡ closed (behind s (strip_cr b)) (strip_cr b)
unfolding text_read
last_call-text_read s zero b h r = absurd (omega arith)
last_call-text_read s_nl (suc room) b h r =
    ap (λ p. last_call (finish (suc room) true p)) (copy_loop_lem s_nl b)
    ∙ last_call-finish room (strip_cr b) _ (IsOpen-behind s_nl (strip_cr b) h)
last_call-text_read s_text (suc room) b h r =
    ap (λ p. last_call (finish (suc room) true p)) (copy_loop_lem s_text b)
    ∙ last_call-finish room (strip_cr b) _ (IsOpen-behind s_text (strip_cr b) h)
last_call-text_read s_eof (suc room) b h r = absurd h

read_text-closed :
    (s : TextState) (cs : List TextCall) (last : TextCall)
    → IsOpen s
    → All HasRoom cs
    → HasRoom last
    → read_text s cs last
      ≡ closed
          (behind s (strip_cr (all_given cs ++ last.given)))
          (strip_cr (all_given cs ++ last.given))
read_text-closed s [] last h hs hl = last_call-text_read s last.room last.given h hl
read_text-closed s (c ∷ cs) last h (hc, hs) hl =
    let a = strip_cr c.given in
    let b = strip_cr (all_given cs ++ last.given) in
    let whole : strip_cr (c.given ++ all_given cs ++ last.given) ≡ a ++ b =
      ap strip_cr (append_assoc c.given (all_given cs) last.given)
      ∙ strip_cr-append c.given (all_given cs ++ last.given) in
    ap (λ r. r.bytes ++ read_text r.state cs last) (text_read-open s c.room c.given h hc)
    ∙ ap (λ t. a ++ t) (read_text-closed (behind s a) cs last (IsOpen-behind s a h) hs hl)
    ∙ closed-append (behind (behind s a) b) a b
    ∙ ap (λ t. closed t (a ++ b)) (sym (behind-append s a b))
    ∙ ap (λ t. closed (behind s t) t) (sym whole)

closed-end_with_nl :
    (s : TextState) (c : ℕ) (o : Bytes) → closed (behind s (c ∷ o)) (c ∷ o) ≡ end_with_nl (c ∷ o)
unfolding end_with_nl
closed-end_with_nl s c [] = elim (Bool-cases (c == b'\n')) [ inl e ↦ rw e refl | inr e ↦ rw e refl ]
closed-end_with_nl s c (d ∷ o) =
    sym (closed-append (behind (after c) (d ∷ o)) (c ∷ []) (d ∷ o))
    ∙ ap (c ∷◌) (closed-end_with_nl (after c) d o)

closed-new : (o : Bytes) → closed (behind s_nl o) o ≡ end_with_nl o
unfolding end_with_nl
closed-new [] = refl
closed-new (c ∷ o) = closed-end_with_nl s_nl c o

-- A text read through a `UnixTextReader`, in calls that all have room for a byte, comes out without
-- its carriage returns, and with a line feed at its end if it is not empty, however the reader below
-- cuts it into pieces.
pub read_text-end_with_nl :
    (cs : List TextCall) (last : TextCall)
    → All HasRoom cs
    → HasRoom last
    → read_text s_nl cs last ≡ end_with_nl (strip_cr (all_given cs ++ last.given))
read_text-end_with_nl cs last hs hl =
    read_text-closed s_nl cs last tt hs hl ∙ closed-new (strip_cr (all_given cs ++ last.given))
