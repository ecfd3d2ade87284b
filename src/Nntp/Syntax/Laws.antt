-- ===== src/Nntp/Syntax/Laws.antt =====
-- What the tests of servutil.go accept.
use nksrv.Base.{
  ℕ, zero, suc, ◌+◌, ◌-◌, ◌*◌, ◌%◌, ◌^◌, ◌≤◌, ◌<◌, ◌≡◌, ◌⊎◌, ◌≢◌, refl, ap, ◌↔◌, Bool, true, false,
  not, ◌||◌, inl, inr, [], ◌∷◌, ◌++◌, map, Option, none, some, Bytes, leb, if◌then◌else◌, length,
  get_or, take, length-append, arith, All, Bool-cases,
}
use nksrv.Ascii.{is_ws, is_printable_ascii}
use nksrv.Utf8.{utf8_valid, ascii-utf8_valid}
use nksrv.Nntp.Syntax.{
  upper, parse_keyword, cut_message_id, valid_message_id, is_exact, max_group_name_length,
  full_group_loop, full_group_end, full_valid_group_slice, stoi_loop, stoi,
}
use nksrv.Nntp.Range.Laws.{IsDigit, value}

-- A byte that may stand in a message identifier: printable ASCII, no space, and not `>`.
abbrev pub IsIdByte : ℕ → Type 0
IsIdByte c = (32 < c) × (c < 127) × (c ≢ b'>')

is_printable_ascii_iff : (s : Bytes) → (is_printable_ascii s b'>' ≡ true) ↔ All IsIdByte s
unfolding is_printable_ascii
is_printable_ascii_iff [] = (λ h. tt, λ h. refl)
is_printable_ascii_iff (c ∷ s) =
    let ih = is_printable_ascii_iff s in (λ h. ground (arith, ih), λ h. ground (arith, ih))

take-append : (xs ys : Bytes) → take (length xs) (xs ++ ys) ≡ xs
take-append [] ys = refl
take-append (x ∷ xs) ys = ap (λ t. x ∷ t) (take-append xs ys)

get_or-append : (xs : Bytes) (y : ℕ) → get_or (xs ++ y ∷ []) (length xs) 0 ≡ y
get_or-append [] y = refl
get_or-append (x ∷ xs) y = get_or-append xs y

-- A list is all but its last element, and the last.
take-concat : (n : ℕ) (xs : Bytes) → length xs ≡ suc n → xs ≡ take n xs ++ get_or xs n 0 ∷ []
take-concat n [] e = absurd (omega arith)
take-concat zero (x ∷ []) e = refl
take-concat zero (x ∷ y ∷ xs) e = absurd (omega arith)
take-concat (suc n) (x ∷ xs) e = ap (λ t. x ∷ t) (take-concat n xs (omega arith))

length-take_lt : (n : ℕ) (xs : Bytes) → length xs ≡ suc n → length (take n xs) ≡ n
length-take_lt n [] e = absurd (omega arith)
length-take_lt zero (x ∷ xs) e = refl
length-take_lt (suc n) (x ∷ xs) e = ap suc (length-take_lt n xs (omega arith))

-- `<core>`, with a core of 1 to 248 bytes of printable ASCII without `>`.
abbrev pub IsMessageId : Bytes → Bytes → Type 0
IsMessageId id core =
    (id ≡ b'<' ∷ (core ++ b'>' ∷ [])) × (1 ≤ length core) × (length core ≤ 248) × All IsIdByte core

-- The conjuncts of `ValidMessageID`.
valid_message_id_parts :
    (id : Bytes)
    → (valid_message_id id ≡ true)
      ↔ (3 ≤ length id)
        × (get_or id 0 0 ≡ b'<')
        × (get_or id (length id - 1) 0 ≡ b'>')
        × (length id ≤ 250)
        × (is_printable_ascii (cut_message_id id) b'>' ≡ true)
unfolding valid_message_id
valid_message_id_parts id = (λ h. ground arith, λ h. ground arith)

-- An identifier that `ValidMessageID` takes is `<core>`, where the core is what `CutMessageID`
-- gives, holds 1 to 248 bytes, and is printable ASCII without `>`.
pub valid_message_id_sound :
    (id : Bytes) → valid_message_id id ≡ true → IsMessageId id (cut_message_id id)
unfolding cut_message_id
valid_message_id_sound [] h = absurd (omega (arith, (valid_message_id_parts []).0 h))
valid_message_id_sound (c ∷ id) h =
    let (l, first, last, u, p) = (valid_message_id_parts (c ∷ id)).0 h in
    let n = length id - 1 in
    let e : length id ≡ suc n = omega arith in
    let cut : suc (length id) - 2 ≡ n = omega arith in
    let index : suc (length id) - 1 ≡ suc n = omega arith in
    let split = take-concat n id e in
    let last' : get_or id n 0 ≡ b'>' = rw index at last in
    rw cut (
      cc (split, first, last'),
      omega (arith, length-take_lt n id e),
      omega (arith, length-take_lt n id e),
      (is_printable_ascii_iff _).0 (rw cut at p),
    )

cut_core : (core : Bytes) → cut_message_id (b'<' ∷ (core ++ b'>' ∷ [])) ≡ core
unfolding cut_message_id
cut_core core =
    let e : suc (length (core ++ b'>' ∷ [])) - 2 ≡ length core =
      omega (arith, length-append {0} core (b'>' ∷ [])) in
    rw e (take-append core (b'>' ∷ []))

at_end :
    (core : Bytes)
    → get_or (b'<' ∷ (core ++ b'>' ∷ [])) (suc (length (core ++ b'>' ∷ [])) - 1) 0 ≡ b'>'
at_end core =
    let e : suc (length (core ++ b'>' ∷ [])) - 1 ≡ suc (length core) =
      omega (arith, length-append {0} core (b'>' ∷ [])) in
    rw e (get_or-append core b'>')

-- Every `<core>` of that form is taken, and `CutMessageID` gives the core back.
pub valid_message_id_complete :
    (id core : Bytes)
    → IsMessageId id core
    → (valid_message_id id ≡ true) × (cut_message_id id ≡ core)
valid_message_id_complete id core (e, lo, hi, p) = rw e (
  (valid_message_id_parts (b'<' ∷ (core ++ b'>' ∷ []))).1 (
    omega (arith, length-append {0} core (b'>' ∷ [])),
    refl,
    at_end core,
    omega (arith, length-append {0} core (b'>' ∷ [])),
    rw (cut_core core) ((is_printable_ascii_iff core).1 p),
  ),
  cut_core core,
)

stoi_loop-value :
    (n : ℕ) (s : Bytes) → All IsDigit s → stoi_loop (n % 2 ^ 64) s ≡ value n s % 2 ^ 64
unfolding stoi_loop value
stoi_loop-value n [] d = refl
stoi_loop-value n (c ∷ s) (dc, d) =
    let e : (n % 2 ^ 64 * 10 + (c + 256 - b'0') % 256) % 2 ^ 64 ≡ (n * 10 + (c - b'0')) % 2 ^ 64 =
      omega arith in
    rw e (stoi_loop-value (n * 10 + (c - b'0')) s d)

-- `stoi` and `stoi64` give the value of the digits modulo 2^64: a longer number wraps around.
pub stoi-value : (s : Bytes) → All IsDigit s → stoi s ≡ value 0 s % 2 ^ 64
unfolding stoi
stoi-value s d = stoi_loop-value 0 s d

full_group_loop_sound :
    (u v : Bool) (s : Bytes)
    → full_group_loop u s ≡ some v
    → All (λ c. is_exact c ≡ true) s × (v ≡ false → (u ≡ false) × All (λ c. c < 0x80) s)
unfolding full_group_loop
full_group_loop_sound u v [] h = (tt, λ e. (ground arith, tt))
full_group_loop_sound u v (c ∷ s) h = elim (Bool-cases (is_exact c)) [
  | inl e ↦
      let (exact, low) = full_group_loop_sound (if leb 0x80 c then true else u) v s (rw e at h) in
      ((e, exact), λ f. let (a, b) = low f in (ground arith, (ground arith, b)))
  | inr n ↦ cc (rw n at h)
]

full_group_loop_complete :
    (u : Bool) (s : Bytes)
    → All (λ c. is_exact c ≡ true) s
    → (v : Bool) × (full_group_loop u s ≡ some v)
unfolding full_group_loop
full_group_loop_complete u [] h = (u, refl)
full_group_loop_complete u (c ∷ s) (e, h) =
    rw e (full_group_loop_complete (if leb 0x80 c then true else u) s h)

or_true : (v : Bool) → (not v || true) ≡ true
or_true true = refl
or_true false = refl

full_group_end_iff :
    (s : Bytes)
    → (full_group_end s (full_group_loop false s) ≡ true)
      ↔ All (λ c. is_exact c ≡ true) s × (utf8_valid s ≡ true)
unfolding full_group_end
full_group_end_iff s = (sound (full_group_loop false s) refl, complete)
  where
    sound :
        (r : Option Bool)
        → full_group_loop false s ≡ r
        → full_group_end s r ≡ true
        → All (λ c. is_exact c ≡ true) s × (utf8_valid s ≡ true)
    sound none e h = cc
    sound (some true) e h = ((full_group_loop_sound false true s e).0, h)
    sound (some false) e h =
        let (exact, low) = full_group_loop_sound false false s e in
        (exact, ascii-utf8_valid s (low refl).1)

    complete :
        All (λ c. is_exact c ≡ true) s × (utf8_valid s ≡ true)
        → full_group_end s (full_group_loop false s) ≡ true
    complete (exact, valid) =
        let (v, e) = full_group_loop_complete false s exact in
        rw (e, full_group_end, valid) (or_true v)

full_valid_lem :
    (s : Bytes)
    → (full_valid_group_slice s ≡ true)
      ↔ (length s ≤ max_group_name_length) × All (λ c. is_exact c ≡ true) s × (utf8_valid s ≡ true)
unfolding full_valid_group_slice
full_valid_lem s =
    let e = full_group_end_iff s in
    (
      λ h. (ground arith, (e.0 (ground arith)).0, (e.0 (ground arith)).1),
      λ (l, exact, valid). let t = e.1 (exact, valid) in ground arith,
    )

full_valid-nil : full_valid_group_slice [] ≡ true
full_valid-nil = (full_valid_lem []).1 (omega arith, tt, ascii-utf8_valid [] tt)

-- `wildmat-exact` of RFC 3977: no control byte, no space, and none of `! * , ? [ \ ]`.
abbrev pub IsExact : ℕ → Type 0
IsExact c =
    (b' ' < c)
    × (c ≢ 0x7f)
    × (c ≢ b'!')
    × (c ≢ b'*')
    × (c ≢ b',')
    × (c ≢ b'?')
    × (c ≢ b'[')
    × (c ≢ b'\\')
    × (c ≢ b']')

pub is_exact-IsExact : (c : ℕ) → is_exact c ≡ true → IsExact c
is_exact-IsExact c h = (
  ground arith,
  λ e. ground arith,
  λ e. ground arith,
  λ e. ground arith,
  λ e. ground arith,
  λ e. ground arith,
  λ e. ground arith,
  λ e. ground arith,
  λ e. ground arith,
)

pub IsExact-is_exact : (c : ℕ) → IsExact c → is_exact c ≡ true
IsExact-is_exact c h = elim (Bool-cases (is_exact c)) [
  | inl e ↦ e
  | inr e ↦ absurd (ground (arith, e, h))
]

-- `newsgroup-name` of RFC 3977, 1*wildmat-exact in UTF-8, with the program's bound on its length.
pub record IsGroupName (s : Bytes) : Type 0 where
  pub nonempty : s ≢ []
  pub bounded : length s ≤ 450
  pub exact : All IsExact s
  pub text : utf8_valid s ≡ true

All-IsExact : (s : Bytes) → All (λ c. is_exact c ≡ true) s → All IsExact s
All-IsExact [] h = tt
All-IsExact (c ∷ s) (e, h) = (is_exact-IsExact c e, All-IsExact s h)

All-is_exact : (s : Bytes) → All IsExact s → All (λ c. is_exact c ≡ true) s
All-is_exact [] h = tt
All-is_exact (c ∷ s) (e, h) = (IsExact-is_exact c e, All-is_exact s h)

-- `FullValidGroupSlice` takes the empty name, which `newsgroup-name` of RFC 3977 does not have, and
-- else exactly the names of that grammar of at most 450 bytes: valid UTF-8 without a control byte,
-- a space, or one of `! * , ? [ \ ]`.
pub full_valid_group_slice_iff :
    (s : Bytes) → (full_valid_group_slice s ≡ true) ↔ ((s ≡ []) ⊎ IsGroupName s)
full_valid_group_slice_iff [] = (λ h. inl refl, λ h. full_valid-nil)
full_valid_group_slice_iff (c ∷ s) = (sound, complete)
  where
    sound : full_valid_group_slice (c ∷ s) ≡ true → ((c ∷ s) ≡ []) ⊎ IsGroupName (c ∷ s)
    sound h =
        let t = (full_valid_lem (c ∷ s)).0 h in
        inr (record {
          nonempty = λ e. cc;
          bounded = t.0;
          exact = All-IsExact (c ∷ s) t.1;
          text = t.2;
        })

    complete : ((c ∷ s) ≡ []) ⊎ IsGroupName (c ∷ s) → full_valid_group_slice (c ∷ s) ≡ true
    complete (inl e) = cc
    complete (inr n) = (full_valid_lem (c ∷ s)).1 (n.bounded, All-is_exact (c ∷ s) n.exact, n.text)

-- A word of a command line: bytes that are no spaces.
abbrev pub IsWord : Bytes → Type 0
IsWord = All (λ c. is_ws c ≡ false)

-- What may follow a word: nothing, or a space.
abbrev pub StartsBlank : Bytes → Type 0
StartsBlank [] = Unit
StartsBlank (c ∷ s) = is_ws c ≡ true

-- `parseKeyword` puts the first word in capitals and returns its length, and leaves the rest.
pub parse_keyword_lem :
    (word rest : Bytes)
    → IsWord word
    → StartsBlank rest
    → parse_keyword (word ++ rest) ≡ (map upper word ++ rest, length word)
unfolding parse_keyword
parse_keyword_lem [] [] w r = refl
parse_keyword_lem [] (c ∷ rest) w r = rw r refl
parse_keyword_lem (c ∷ word) rest (n, w) r = rw (n, parse_keyword_lem word rest w r) refl
