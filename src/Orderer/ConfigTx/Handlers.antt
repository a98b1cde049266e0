-- ===== src/Orderer/ConfigTx/Handlers.antt =====
-- The Handler interface of orderer/common/configtx/configtx.go, with what the manager relies on.
use fabric.Base.{ℕ, ◌≡◌, Bool, Option, none, some, Bytes, ◌⊎◌}

-- `chain_id` is `none` if it is nil.
pub record ChainHeader : Type 0 where
  pub chain_id : Option Bytes

pub record ConfigurationItem : Type 0 where
  pub header : Option ChainHeader
  pub item_type : ℕ
  pub last_modified : ℕ
  pub modification_policy : Bytes
  pub key : Bytes
  pub value : Bytes

-- A result of `none` is a panic; `propose_config` answers false with an error. `Panics` are the items
-- on which `propose_config` panics.
pub record Handler (S : Type 0) : Type 1 where
  pub begin_config : S → Option S
  pub rollback_config : S → S
  pub commit_config : S → Option S
  pub propose_config : ConfigurationItem → S → Option (Bool × S)
  pub IsIdle : S → Type 0
  pub IsOpen : S → S → Type 0
  pub Panics : ConfigurationItem → Type 0
  pub begin_idle : (s : S) → IsIdle s → (t : S) × (begin_config s ≡ some t) × IsOpen s t
  pub propose_open :
      (item : ConfigurationItem) (s t : S)
      → IsOpen s t
      → (Panics item × (propose_config item t ≡ none))
        ⊎ ((b : Bool) × (u : S) × (propose_config item t ≡ some (b, u))
            × ((r : S) → IsOpen r t → IsOpen r u))
  pub rollback_open : (s t : S) → IsOpen s t → rollback_config t ≡ s
  pub commit_open : (s t : S) → IsOpen s t → (u : S) × (commit_config t ≡ some u) × IsIdle u
