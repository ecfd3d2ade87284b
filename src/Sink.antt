-- ===== src/Sink.antt =====
-- `io.Writer` of Go's library, which the writers of the repository stand on: a parameter.
use nksrv.Base.{ℕ, ◌≡◌, refl, Option, none, ◌++◌, Bytes, length}

-- What `Write` comes back with: how many bytes were taken, and the error.
pub record Written (State : Type 0) : Type 0 where
  pub sink : State
  pub count : ℕ
  pub err : Option ℕ

pub record Sink : Type 1 where
  pub State : Type 0
  pub write : Bytes → State → Written State

-- A writer that takes all it is given and never fails, and the bytes it has taken so far.
pub record Collects (S : Sink) : Type 0 where
  pub taken : S.State → Bytes
  pub count : (b : Bytes) (s : S.State) → (S.write b s).count ≡ length b
  pub no_err : (b : Bytes) (s : S.State) → (S.write b s).err ≡ none
  pub appends : (b : Bytes) (s : S.State) → taken (S.write b s).sink ≡ taken s ++ b

-- `bytes.Buffer`, as far as it is written to.
abbrev pub buffer : Sink
buffer = record {
  State = Bytes;
  write = λ b s. record { sink = s ++ b; count = length b; err = none };
}

abbrev pub buffer-Collects : Collects buffer
buffer-Collects = record {
  taken = λ s. s;
  count = λ b s. refl;
  no_err = λ b s. refl;
  appends = λ b s. refl;
}
