-- ===== src/BufReader/Slice.antt =====
-- The part of a buffer between two indices.
use nksrv.Base.{
  ℕ, zero, suc, ◌-◌, ◌≤◌, ◌<◌, ◌≡◌, refl, sym, ap, ◌∙◌, ◌+◌, [], ◌∷◌, ◌++◌, Bytes, length, get_or,
  set, drop, arith, length-append,
}

-- `b[r:w]`.
abbrev pub slice : Bytes → ℕ → ℕ → Bytes
slice [] r w = []
slice (c ∷ b) zero zero = []
slice (c ∷ b) zero (suc w) = c ∷ slice b zero w
slice (c ∷ b) (suc r) zero = []
slice (c ∷ b) (suc r) (suc w) = slice b r w

pub slice-empty : (b : Bytes) (r : ℕ) → slice b r r ≡ []
slice-empty [] r = refl
slice-empty (c ∷ b) zero = refl
slice-empty (c ∷ b) (suc r) = slice-empty b r

pub slice-next :
    (b : Bytes) (r w : ℕ) → r < w → w ≤ length b → slice b r w ≡ get_or b r 0 ∷ slice b (suc r) w
slice-next [] r w h k = absurd (omega arith)
slice-next (c ∷ b) zero zero h k = absurd (omega arith)
slice-next (c ∷ []) zero (suc w) h k = refl
slice-next (c ∷ d ∷ b) zero (suc w) h k = refl
slice-next (c ∷ b) (suc r) zero h k = absurd (omega arith)
slice-next (c ∷ b) (suc r) (suc w) h k = slice-next b r w (omega arith) (omega arith)

pub slice-set :
    (b : Bytes) (r w c : ℕ) → r < w → w ≤ length b → slice (set b r c) r w ≡ c ∷ slice b (suc r) w
slice-set [] r w c h k = absurd (omega arith)
slice-set (d ∷ b) zero zero c h k = absurd (omega arith)
slice-set (d ∷ b) zero (suc w) c h k = refl
slice-set (d ∷ b) (suc r) zero c h k = absurd (omega arith)
slice-set (d ∷ b) (suc r) (suc w) c h k = slice-set b r w c (omega arith) (omega arith)

pub length-set : (b : Bytes) (i c : ℕ) → length (set b i c) ≡ length b
length-set [] i c = refl
length-set (d ∷ b) zero c = refl
length-set (d ∷ b) (suc i) c = ap suc (length-set b i c)

pub slice-append : (xs ys : Bytes) → slice (xs ++ ys) 0 (length xs) ≡ xs
slice-append [] ys = slice-empty ys 0
slice-append (x ∷ xs) ys = ap (x ∷◌) (slice-append xs ys)

length-drop : (n : ℕ) (xs : Bytes) → length (drop n xs) ≡ length xs - n
length-drop zero xs = omega arith
length-drop (suc n) [] = omega arith
length-drop (suc n) (x ∷ xs) = omega (arith, length-drop n xs)

-- Overwriting the start of a buffer keeps its size.
pub length-overwrite :
    (xs b : Bytes) → length xs ≤ length b → length (xs ++ drop (length xs) b) ≡ length b
length-overwrite xs b h =
    omega (arith, length-append {0} xs (drop (length xs) b), length-drop (length xs) b)

pub slice-split : (b : Bytes) (r x w : ℕ) → r ≤ x → x ≤ w → slice b r w ≡ slice b r x ++ slice b x w
slice-split [] r x w h k = refl
slice-split (c ∷ b) zero zero w h k = refl
slice-split (c ∷ b) zero (suc x) zero h k = absurd (omega arith)
slice-split (c ∷ b) zero (suc x) (suc w) h k =
    ap (c ∷◌) (slice-split b zero x w (omega arith) (omega arith))
slice-split (c ∷ b) (suc r) zero w h k = absurd (omega arith)
slice-split (c ∷ b) (suc r) (suc x) zero h k = absurd (omega arith)
slice-split (c ∷ b) (suc r) (suc x) (suc w) h k = slice-split b r x w (omega arith) (omega arith)

pub length-slice : (b : Bytes) (r w : ℕ) → r ≤ w → w ≤ length b → length (slice b r w) ≡ w - r
length-slice [] r w h k = omega arith
length-slice (c ∷ b) zero zero h k = refl
length-slice (c ∷ b) zero (suc w) h k =
    omega (arith, length-slice b zero w (omega arith) (omega arith))
length-slice (c ∷ b) (suc r) zero h k = absurd (omega arith)
length-slice (c ∷ b) (suc r) (suc w) h k =
    omega (arith, length-slice b r w (omega arith) (omega arith))

drop-length : (xs ys : Bytes) → drop (length xs) (xs ++ ys) ≡ ys
drop-length [] ys = refl
drop-length (x ∷ xs) ys = drop-length xs ys

-- What stands behind the first `j` bytes of a slice.
pub slice-drop :
    (b : Bytes) (r j x w : ℕ)
    → r + j ≤ x
    → x ≤ w
    → w ≤ length b
    → slice b (r + j) w ≡ drop j (slice b r x) ++ slice b x w
slice-drop b r j x w h k l =
    let n : length (slice b r (r + j)) ≡ j =
      length-slice b r (r + j) (omega arith) (omega arith) ∙ omega arith in
    slice-split b (r + j) x w h k
    ∙ ap (λ t. t ++ slice b x w)
        (sym (drop-length (slice b r (r + j)) (slice b (r + j) x))
          ∙ ap (λ m. drop m (slice b r (r + j) ++ slice b (r + j) x)) n
          ∙ ap (drop j) (sym (slice-split b r (r + j) x (omega arith) h)))
