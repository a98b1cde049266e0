-- ===== src/Orderer/ConfigTx/Proposals.antt =====
-- orderer/common/configtx/bytes_handler.go and orderer/common/policies/policy.go: two handlers that
-- keep the accepted values and those of the proposal in progress.
pub mod Latest
use fabric.Base.{
  ℕ, ◌≡◌, refl, sym, ap, Option-cases, inl, inr, ◌⊎◌, Bool, true, false, if◌then◌else◌, ◌==◌,
  nat_eq, list_eq, Option, none, some, Bytes, List, [], ◌∷◌, Result, ok, err,
}
use fabric.Base.Assoc.{Assoc, lookup, insert}
use fabric.Orderer.ConfigTx.Handlers.{ConfigurationItem, Handler}

-- What a handler makes of an item: a value, an error or a panic.
pub data Read (V : Type 0) : Type 0 where
  panics refuses : Read V
  reads : V → Read V

abbrev pub value_in : {V : Type 0} → Read V → Option V
value_in panics = none
value_in refuses = none
value_in (reads value) = some value

-- A nil map is `none`.
pub record Proposals (V : Type 0) : Type 0 where
  pub config : Assoc Bytes V
  pub proposed : Option (Assoc Bytes V)

module _ {V : Type 0} where
  abbrev pub begin_config : Proposals V → Option (Proposals V)
  begin_config h = elim h.proposed [ none ↦ some (record h { proposed = some [] }) | some p ↦ none ]

  abbrev pub rollback_config : Proposals V → Proposals V
  rollback_config h = record h { proposed = none }

  abbrev pub commit_config : Proposals V → Option (Proposals V)
  commit_config h = elim h.proposed [
    | none ↦ none
    | some p ↦ some (record { config = p; proposed = none })
  ]

  -- a write to the map of the proposal, which panics if that is nil
  abbrev pub propose_value : Bytes → V → Proposals V → Option (Bool × Proposals V)
  propose_value key value h = elim h.proposed [
    | none ↦ none
    | some p ↦ some (true, record h { proposed = some (insert key value p) })
  ]

  abbrev pub get_value : Bytes → Proposals V → Option V
  get_value id h = lookup id h.config

  -- No proposal is in progress.
  abbrev pub Idle : Proposals V → Type 0
  Idle s = s.proposed ≡ none

  -- The second is the first with a proposal in progress.
  abbrev pub Open : Proposals V → Proposals V → Type 0
  Open s t =
      (s.proposed ≡ none) × (t.config ≡ s.config) × ((p : Assoc Bytes V) × (t.proposed ≡ some p))

  abbrev pub propose_read : Bytes → Read V → Proposals V → Option (Bool × Proposals V)
  propose_read key panics h = none
  propose_read key refuses h = some (false, h)
  propose_read key (reads value) h = propose_value key value h

  -- A handler that proposes by way of `propose_value`, or refuses and changes nothing, or panics.
  abbrev pub value_of :
      (ConfigurationItem → Read V) → ConfigurationItem → Proposals V → Option (Bool × Proposals V)
  value_of read item h = propose_read item.key (read item) h

  pub propose_read-Open :
      (key : Bytes) (o : Read V) (s t : Proposals V)
      → Open s t
      → ((o ≡ panics) × (propose_read key o t ≡ none))
        ⊎ ((b : Bool) × (u : Proposals V) × (propose_read key o t ≡ some (b, u))
            × ((r : Proposals V) → Open r t → Open r u))
  propose_read-Open key panics s t h = inl (refl, refl)
  propose_read-Open key refuses s t h = inr (false, t, refl, λ r k. k)
  propose_read-Open key (reads value) s t (idle, same, (p, e)) = inr (
    true,
    record t { proposed = some (insert key value p) },
    rw e refl,
    λ r (h, k, q). (h, k, (insert key value p, refl)),
  )

  pub rollback-Open : (s t : Proposals V) → Open s t → rollback_config t ≡ s
  rollback-Open s t (idle, same, (p, e)) = rw (same, ← idle) refl

  -- What the manager of the configuration relies on holds of such a handler.
  abbrev pub proposals_handler : (ConfigurationItem → Read V) → Handler (Proposals V)
  proposals_handler read = record {
    begin_config = begin_config;
    rollback_config = rollback_config;
    commit_config = commit_config;
    propose_config = value_of read;
    IsIdle = Idle;
    IsOpen = Open;
    Panics = λ item. read item ≡ panics;
    begin_idle = λ s h. (record s { proposed = some [] }, rw h refl, (h, refl, ([], refl)));
    propose_open = λ item s t h. propose_read-Open item.key (read item) s t h;
    rollback_open = rollback-Open;
    commit_open = λ s t (h, k, (p, e)). (record { config = p; proposed = none }, rw e refl, refl);
  }

-- `BytesHandler` takes every value.
abbrev pub bytes_handler : Handler (Proposals Bytes)
bytes_handler = proposals_handler (λ item. reads item.value)
