-- ===== src/DotReader/Fuel.antt =====
-- A call of `Read` comes to an end, whatever is sent.
use nksrv.Base.{
  ℕ, zero, suc, ◌+◌, ◌*◌, ◌<◌, ◌≡◌, refl, Bool, true, false, [], ◌∷◌, Option, none, some, Bytes,
  if◌then◌else◌, length, arith,
}
use nksrv.DotReader.{
  DotState, begin_line, dot, non_begin, dot_cr, cr, eof, is_eof, Dot, Step, process_in, process,
  ReadResult, with_byte, handed_out, take_byte, read_loop, read,
}

-- A byte may be put back in these states, and not in the state that follows.
abbrev pending : DotState → ℕ
pending cr = 1
pending dot_cr = 1
pending _ = 0

abbrev measure : Dot → Bytes → ℕ
measure d i = 2 * length i + pending d.state

abbrev left : Step → ℕ → Bytes → Bytes
left st c i = if st.back then c ∷ i else i

process_in-measure :
    (s : DotState) (badnl : Bool) (c : ℕ) (i : Bytes)
    → is_eof s ≡ false
    → measure (process_in s badnl c).next (left (process_in s badnl c) c i)
      < 2 * suc (length i) + pending s
process_in-measure begin_line b c i n = ground arith
process_in-measure dot b c i n = ground arith
process_in-measure non_begin b c i n = ground arith
process_in-measure dot_cr b c i n = ground arith
process_in-measure cr b c i n = ground arith
process_in-measure eof b c i n = cc

abbrev Ends : Option ReadResult → Type 0
Ends o = (r : ReadResult) × (o ≡ some r)

Ends-with_byte : (c : ℕ) (o : Option ReadResult) → Ends o → Ends (with_byte c o)
Ends-with_byte c o (r, e) = (record r { bytes = c ∷ r.bytes }, rw e refl)

Ends-handed_out :
    (again : ℕ → Dot → Bytes → Option ReadResult) (l : ℕ) (d : Dot) (out : Option ℕ) (i : Bytes)
    → ((k : ℕ) → Ends (again k d i))
    → Ends (handed_out again l d out i)
Ends-handed_out again l d none i h = h (suc l)
Ends-handed_out again l d (some c) i h = Ends-with_byte c _ (h l)

Ends-take_byte :
    (again : ℕ → Dot → Bytes → Option ReadResult) (l : ℕ) (d : Dot) (i : Bytes)
    → is_eof d.state ≡ false
    → ((k : ℕ) (d' : Dot) (i' : Bytes) → measure d' i' < measure d i → Ends (again k d' i'))
    → Ends (take_byte again l d i)
unfolding process
Ends-take_byte again l d [] n h = (_, refl)
Ends-take_byte again l d (c ∷ i) n h =
    Ends-handed_out again l _ _ _ (λ k. h k _ _ (process_in-measure d.state d.badnl c i n))

-- The rest of the loop, once it is known whether the article is at its end.
Ends-tested :
    (b : Bool) (o o' : Option ReadResult)
    → Ends o
    → (b ≡ false → Ends o')
    → Ends (elim b [ true ↦ o | false ↦ o' ])
Ends-tested true o o' h h' = h
Ends-tested false o o' h h' = h' refl

Ends-read_loop :
    (fuel l : ℕ) (d : Dot) (i : Bytes) → measure d i < fuel → Ends (read_loop fuel l d i)
unfolding read_loop
Ends-read_loop zero l d i h = absurd (omega arith)
Ends-read_loop (suc fuel) zero d i h = (_, refl)
Ends-read_loop (suc fuel) (suc l) d i h =
    Ends-tested (is_eof d.state) _ _ (_, refl)
      λ n.
        Ends-take_byte (λ k d' i'. read_loop fuel k d' i') l d i n
          λ k d' i' less. Ends-read_loop fuel k d' i' (omega arith)

pending_small : (s : DotState) → pending s < 2
pending_small begin_line = omega arith
pending_small dot = omega arith
pending_small non_begin = omega arith
pending_small dot_cr = omega arith
pending_small cr = omega arith
pending_small eof = omega arith

-- In every state and on every input `Read` comes back, within the fuel of the model.
pub read-Ends : (l : ℕ) (d : Dot) (i : Bytes) → (r : ReadResult) × (read l d i ≡ some r)
unfolding read
read-Ends l d i = Ends-read_loop (2 * length i + 2) l d i (omega (arith, pending_small d.state))
