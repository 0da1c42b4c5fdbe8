-- ===== src/Yrs.antt =====
-- The parts of the `yrs` crate (a dependency) that the program calls, as an interface.
pub mod Crdt
pub mod Unnoticed
use hocuspocus_rs.Prelude.{ℕ, Bool, List, Bytes, Result}

-- The messages of `yrs::sync`, over its state vectors.
pub data SyncMessage (S : Type 0) : Type 0 where
  sync_step1 : S → SyncMessage S
  sync_step2 : Bytes → SyncMessage S
  update : Bytes → SyncMessage S

-- What a write transaction leaves: the answer of `apply_update`, the document, and
-- `encode_update_v1` of the transaction.
pub record Applied (D : Type 0) : Type 0 where
  pub result : Result Bytes (Unit {0})
  pub doc : D
  pub change : Bytes

pub record Yrs : Type 1 where
  pub Doc : Type 0
  pub StateVector : Type 0
  pub Update : Type 0
  pub Awareness : Type 0
  pub AwarenessUpdate : Type 0
  pub state_vector : Doc → StateVector
  -- `StateVector::default()`
  pub empty_state_vector : StateVector
  -- `encode_diff_v1`
  pub encode_diff : Doc → StateVector → Bytes
  -- `encode_state_as_update_v1`, which adds the updates that wait for others
  pub encode_state_as_update : Doc → StateVector → Bytes
  pub decode_update : Bytes → Result Bytes Update
  -- the document, the transaction's origin and the update
  pub apply_update : Doc → Bytes → Update → Applied Doc
  pub decode_sync : Bytes → Result Bytes (SyncMessage StateVector)
  pub encode_sync : SyncMessage StateVector → Bytes
  pub new_awareness : Awareness
  -- `awareness.iter().next().is_some()`
  pub has_states : Awareness → Bool
  pub awareness_update : Awareness → Result Bytes AwarenessUpdate
  pub update_with_clients : List ℕ → Awareness → Result Bytes AwarenessUpdate
  pub encode_awareness : AwarenessUpdate → Bytes
  pub decode_awareness : Bytes → Result Bytes AwarenessUpdate
  -- the keys of `update.clients`
  pub clients : AwarenessUpdate → List ℕ
  pub apply_awareness : AwarenessUpdate → Bytes → Awareness → Result Bytes (Unit {0}) × Awareness
  pub remove_state : ℕ → Awareness → Awareness
