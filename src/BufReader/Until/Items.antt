-- ===== src/BufReader/Until/Items.antt =====
-- `ReadUntil` on a sequence of items, and a search in a window of bytes.
use nksrv.Base.{
  ℕ, zero, suc, ◌+◌, ◌-◌, ◌≤◌, ◌<◌, ◌≡◌, refl, ap, ◌∙◌, List, [], ◌∷◌, ◌++◌, map, Option, none,
  some, Bytes, ◌==◌, if◌then◌else◌, length, take, drop, arith, Bool-cases, inl, inr,
}
use nksrv.BufReader.{at_end}
use nksrv.BufReader.Stream.{Item, byte, error}
use nksrv.BufReader.Until.{UntilEnd, found, not_found, broken, index_byte}

-- What a call comes to on a sequence of items.
pub record Upto : Type 0 where
  pub bytes : Bytes
  pub how : UntilEnd
  pub rest : List Item

abbrev pub ahead : Bytes → Upto → Upto
ahead bs t = record t { bytes = bs ++ t.bytes }

-- Items are taken until the byte came, the room is used up, or there is an error.
unfoldable pub upto : ℕ → ℕ → List Item → Upto
upto zero q is = record { bytes = []; how = not_found; rest = is }
upto (suc n) q [] = record { bytes = []; how = broken at_end; rest = [] }
upto (suc n) q (error e ∷ is) = record { bytes = []; how = broken e; rest = is }
upto (suc n) q (byte c ∷ is) =
    if c == q
    then record { bytes = c ∷ []; how = found; rest = is }
    else ahead (c ∷ []) (upto n q is)

module _ (q : ℕ) (after : Bytes) (t1 t2 : List Item) where
  -- What the search in a window says of the items.
  abbrev pub expect : ℕ → Bytes → Option ℕ → Upto
  expect room win (some i) = record {
    bytes = take (i + 1) win;
    how = found;
    rest = map byte (drop (i + 1) win ++ after) ++ t1 ++ t2;
  }
  expect room win none = ahead win (upto (room - length win) q (map byte after ++ t1 ++ t2))

  expect-next :
      (c room : ℕ) (win : Bytes) (o : Option ℕ)
      → ahead (c ∷ []) (expect room win o)
        ≡ expect (suc room) (c ∷ win) (elim o [ none ↦ none | some i ↦ some (suc i) ])
  expect-next c room win none =
      ap (λ k. ahead (c ∷ win) (upto k q (map byte after ++ t1 ++ t2))) (omega arith)
  expect-next c room win (some i) =
      let e : suc (i + 1) ≡ suc i + 1 = omega arith in
      ap
        (λ k. record {
          bytes = take k (c ∷ win);
          how = found;
          rest = map byte (drop k (c ∷ win) ++ after) ++ t1 ++ t2;
        })
        e

  pub upto-window :
      (room : ℕ) (win : Bytes)
      → length win ≤ room
      → upto room q (map byte (win ++ after) ++ t1 ++ t2) ≡ expect room win (index_byte q win)
  unfolding upto index_byte
  upto-window room [] h = ap (λ k. upto k q (map byte after ++ t1 ++ t2)) (omega arith)
  upto-window zero (c ∷ win) h = absurd (omega arith)
  upto-window (suc room) (c ∷ win) h = elim (Bool-cases (c == q)) [
    | inl e ↦ rw e refl
    | inr e ↦ rw e (
        ap (ahead (c ∷ [])) (upto-window room win (omega arith))
        ∙ expect-next c room win (index_byte q win))
  ]

abbrev pub Below : Option ℕ → ℕ → Type 0
Below none n = Unit
Below (some i) n = i < n

Below-next :
    (o : Option ℕ) (n : ℕ)
    → Below o n
    → Below (elim o [ none ↦ none | some i ↦ some (suc i) ]) (suc n)
Below-next none n h = tt
Below-next (some i) n h = omega arith

pub index_byte-Below : (q : ℕ) (win : Bytes) → Below (index_byte q win) (length win)
unfolding index_byte
index_byte-Below q [] = tt
index_byte-Below q (c ∷ win) = elim (Bool-cases (c == q)) [
  | inl e ↦ rw e (omega arith)
  | inr e ↦ rw e (Below-next (index_byte q win) (length win) (index_byte-Below q win))
]
