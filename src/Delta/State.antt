-- ===== src/Delta/State.antt =====
-- The baselines that both ends of a connection keep, and actions over them.
use mcpd.Base.{Bool, false, List, [], Option, none, if◌then◌else◌}
use mcpd.Base.Int.{ℤ, eq_ℤ}
use mcpd.Wire.{Bytes, Result, ok, err, and_then, M}

-- A std::unordered_map as a function; the code never walks over one.
abbrev pub update {ℓ} : {A : Type ℓ} → (ℤ → A) → ℤ → A → ℤ → A
update f k v j = if eq_ℤ k j then v else f j

pub record TemporalPartitionState : Type 0 where
  pub alpha_by_constraint : ℤ → Option ℤ
  pub label_by_constraint : ℤ → Option ℤ
  pub label_order : List ℤ
  pub labels_initialized : Bool

abbrev pub blank_partition : TemporalPartitionState
blank_partition = record {
  alpha_by_constraint = λ c. none;
  label_by_constraint = λ c. none;
  label_order = [];
  labels_initialized = false;
}

-- `partitions` is only used through operator[], which makes a missing entry a blank one, clear and
-- erase: a missing entry and a blank one are the same to the code.
pub record TemporalSolveCodecState : Type 0 where
  pub partitions : ℤ → TemporalPartitionState

unfoldable pub reset : TemporalSolveCodecState → TemporalSolveCodecState
reset state = record state { partitions = λ id. blank_partition }

unfoldable pub reset_partition : TemporalSolveCodecState → ℤ → TemporalSolveCodecState
reset_partition state partition_id = record state {
  partitions = update state.partitions partition_id blank_partition;
}

-- A call that changes a partition's baseline and may throw; what it changed stays changed.
abbrev pub P : Type 0 → Type 0
P A = TemporalPartitionState → Result A × TemporalPartitionState

-- A call that also reads or writes bytes. A null `state` is refused by the sources; their callers
-- pass the address of a member or a local, so the model has the state itself.
abbrev pub T : Type 0 → Type 0
T A = TemporalSolveCodecState → Bytes → Result (A × Bytes) × TemporalSolveCodecState

abbrev pub resume :
    {A B : Type 0}
    → (A → T B)
    → Result (A × Bytes) × TemporalSolveCodecState
    → Result (B × Bytes) × TemporalSolveCodecState
resume f (ok (a, bytes), state) = f a state bytes
resume f (err e, state) = (err e, state)

infixl 5 ◌>>=◌ ◌>>◌
unfoldable pub ◌>>=◌ : {A B : Type 0} → T A → (A → T B) → T B
◌>>=◌ m f state bytes = resume f (m state bytes)

abbrev pub ◌>>◌ : {A B : Type 0} → T A → T B → T B
m >> n = m >>= λ _. n

-- A call that leaves the baselines alone.
unfoldable pub plain : {A : Type 0} → M A → T A
plain m state bytes = (m bytes, state)

unfoldable pub return : {A : Type 0} → A → T A
return a state bytes = (ok (a, bytes), state)

abbrev pub with_bytes : {A : Type 0} → Bytes → A → Result (A × Bytes)
with_bytes bytes a = ok (a, bytes)

-- `auto &partition_state = state->partitions[partition_id]`, then the call.
unfoldable pub on_partition : {A : Type 0} → ℤ → P A → T A
on_partition partition_id call state bytes =
    let (r, p) = call (state.partitions partition_id) in
    (
      and_then r (with_bytes bytes),
      record state { partitions = update state.partitions partition_id p },
    )
