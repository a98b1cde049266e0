-- ===== src/Orderer/ConfigTx.antt =====
-- orderer/common/configtx/configtx.go: the manager of a chain's configuration.
pub mod Handlers
pub mod Checks
unfoldable pub use Checks.*
pub mod Proposals
pub mod Agreement
pub mod Evolution
pub mod Genesis
mod Samples
use fabric.Base.{
  ◌-◌, true, ◌&&◌, is_none, ℕ, ◌+◌, ◌%◌, ◌^◌, Bool, true, false, if◌then◌else◌, ltb, ◌==◌, ◌&&◌,
  nat_eq, list_eq, pair_eq, option_eq, is_none, not, Option, none, some, Bytes, List, [], ◌∷◌, map,
  Result, ok, err,
}
use fabric.Base.Assoc.{Assoc, lookup, insert}
use fabric.Base.Proc.{Proc, pure, lift, ◌>>=◌, ◌>>◌}
use fabric.Orderer.ConfigTx.Handlers.{ConfigurationItem, Handler}

-- `handlers` has the states of the handlers of all known types. No handler has two types, as in
-- orderer/main.go.
pub record ConfigurationManager (S : Type 0) : Type 0 where
  pub sequence : ℕ
  pub chain_id : Bytes
  pub configuration : ConfigMap
  pub handlers : Assoc ℕ S

abbrev pub next_sequence : ℕ → ℕ
next_sequence n = (n + 1) % 2 ^ 64

-- a nil slice, to `bytes.Equal`
abbrev or_empty : Option Bytes → Bytes
or_empty none = []
or_empty (some b) = b

has_all {ℓ} : {S : Type ℓ} → List ℕ → Assoc ℕ S → Bool
has_all [] handlers = true
has_all (t ∷ known) handlers = not (is_none (lookup t handlers)) && has_all known handlers

module _ {S : Type 0} (handler : ℕ → Handler S) where
  unfoldable pub begin_handlers : Assoc ℕ S → Option (Assoc ℕ S)
  begin_handlers [] = some []
  begin_handlers ((t, s) ∷ hs) =
      let rest = begin_handlers hs in
      elim ((handler t).begin_config s) [
        | none ↦ none
        | some u ↦ elim rest [ none ↦ none | some us ↦ some ((t, u) ∷ us) ]
      ]

  unfoldable pub rollback_handlers : Assoc ℕ S → Assoc ℕ S
  rollback_handlers [] = []
  rollback_handlers ((t, s) ∷ hs) = (t, (handler t).rollback_config s) ∷ rollback_handlers hs

  unfoldable pub commit_handlers : Assoc ℕ S → Option (Assoc ℕ S)
  commit_handlers [] = some []
  commit_handlers ((t, s) ∷ hs) =
      let rest = commit_handlers hs in
      elim ((handler t).commit_config s) [
        | none ↦ none
        | some u ↦ elim rest [ none ↦ none | some us ↦ some ((t, u) ∷ us) ]
      ]

  -- A type without a handler has a nil handler.
  unfoldable pub propose : ConfigurationItem → Proc (Assoc ℕ S) Failure (Unit {0})
  propose config hs = elim (lookup config.item_type hs) [
    | none ↦ (err panicked, hs)
    | some s ↦ elim ((handler config.item_type).propose_config config s) [
      | none ↦ (err panicked, hs)
      | some r ↦
          (if r.0 then ok tt else err (refused handler_refused), insert config.item_type r.1 hs)
    ]
  ]

  -- `get_policy` is the policies' manager, whose policies do not change during a proposal.
  module _ (read_item : Bytes → Option ConfigurationItem) (read_creator : Bytes → Option Bytes)
      (get_policy : Assoc ℕ S → Bytes → Option Policy) where
    default_policy : Assoc ℕ S → Policy
    default_policy hs = elim (get_policy hs default_modification_policy_id) [
      | none ↦ accept_all_policy
      | some policy ↦ policy
    ]

    policy_for : Assoc ℕ S → Option ConfigurationItem → Option Policy
    unfolding default_policy
    policy_for hs none = some (default_policy hs)
    policy_for hs (some old) = get_policy hs old.modification_policy

    -- the checks of an entry that come before its handler
    check_item :
        ConfigurationManager S
        → ℕ
        → SignedConfigurationItem
        → ConfigurationItem
        → Result Refusal (Unit {0})
    unfolding policy_for read_creators check_policy check_modified
    check_item cm seq entry config =
        let old = lookup (config.item_type, config.key) cm.configuration in
        elim (read_creators read_item read_creator entry.signatures) [
          | err e ↦ err e
          | ok identities ↦
              elim (check_policy read_item read_creator (policy_for cm.handlers old) entry
                identities) [ err e ↦ err e | ok u ↦ check_modified old config seq ]
        ]

    -- one round of the loop over the entries
    unfoldable pub process_item :
        ConfigurationManager S
        → ℕ
        → SignedConfigurationItem
        → ConfigMap
        → Proc (Assoc ℕ S) Failure ConfigMap
    unfolding check_item
    process_item cm seq entry new hs = elim (read_item entry.configuration_item) [
      | none ↦ (err (refused bad_item), hs)
      | some config ↦ elim (check_item cm seq entry config) [
        | err e ↦ (err (refused e), hs)
        | ok u ↦ (propose config >> pure (insert (config.item_type, config.key) config new)) hs
      ]
    ]

    unfoldable pub process_items :
        ConfigurationManager S
        → ℕ
        → List SignedConfigurationItem
        → ConfigMap
        → Proc (Assoc ℕ S) Failure ConfigMap
    process_items cm seq [] new = pure new
    process_items cm seq (entry ∷ items) new = do
      new' ← process_item cm seq entry new
      process_items cm seq items new'

    unfoldable pub process_config :
        ConfigurationManager S → List SignedConfigurationItem → Proc (Assoc ℕ S) Failure ConfigMap
    unfolding process_items kept_or_refused
    process_config cm items hs = elim (compute_chain_id_and_sequence read_item read_creator items) [
      | err e ↦ (err (refused e), hs)
      | ok (chain_id, seq) ↦
          if not (seq == next_sequence cm.sequence)
          then (err (refused sequence_jumped), hs)
          else if not (or_empty chain_id == cm.chain_id)
          then (err (refused wrong_chain), hs)
          else (process_items cm seq items [] >>= λ new.
                lift (kept_or_refused cm.configuration new))
              hs
    ]

    after_validate :
        ConfigurationManager S
        → Result Failure ConfigMap × Assoc ℕ S
        → Result Failure (Unit {0}) × ConfigurationManager S
    after_validate cm (ok new, hs) = (ok tt, record cm { handlers = rollback_handlers hs })
    after_validate cm (err panicked, hs) = (err panicked, record cm { handlers = hs })
    after_validate cm (err (refused e), hs) =
        (err (refused e), record cm { handlers = rollback_handlers hs })

    unfoldable pub validate :
        List SignedConfigurationItem → Proc (ConfigurationManager S) Failure (Unit {0})
    unfolding after_validate
    validate items cm = elim (begin_handlers cm.handlers) [
      | none ↦ (err panicked, cm)
      | some hs ↦ after_validate cm (process_config (record cm { handlers = hs }) items hs)
    ]

    after_apply :
        ConfigurationManager S
        → Result Failure ConfigMap × Assoc ℕ S
        → Result Failure (Unit {0}) × ConfigurationManager S
    after_apply cm (ok new, hs) =
        let applied : ConfigurationManager S = record cm {
          configuration = new;
          sequence = next_sequence cm.sequence;
          handlers = hs;
        } in
        elim (commit_handlers hs) [
          | none ↦ (err panicked, applied)
          | some committed ↦ (ok tt, record applied { handlers = committed })
        ]
    after_apply cm (err panicked, hs) = (err panicked, record cm { handlers = hs })
    after_apply cm (err (refused e), hs) =
        (err (refused e), record cm { handlers = rollback_handlers hs })

    unfoldable pub apply_config :
        List SignedConfigurationItem → Proc (ConfigurationManager S) Failure (Unit {0})
    unfolding after_apply
    apply_config items cm = elim (begin_handlers cm.handlers) [
      | none ↦ (err panicked, cm)
      | some hs ↦ after_apply cm (process_config (record cm { handlers = hs }) items hs)
    ]

    started :
        Result Failure (Unit {0}) × ConfigurationManager S → Result Failure (ConfigurationManager S)
    started (ok u, cm) = ok cm
    started (err e, cm) = err e

    -- `known` are the types that the generated code names.
    unfoldable pub new_configuration_manager :
        List ℕ → List SignedConfigurationItem → Assoc ℕ S → Result Failure (ConfigurationManager S)
    unfolding started has_all
    new_configuration_manager known items handlers =
        if has_all known handlers
        then elim (compute_chain_id_and_sequence read_item read_creator items) [
          | err e ↦ err (refused e)
          | ok (chain_id, seq) ↦ started (
              apply_config items (record {
                sequence = (seq + (2 ^ 64 - 1)) % 2 ^ 64;
                chain_id = or_empty chain_id;
                configuration = [];
                handlers = handlers;
              }))
        ]
        else err (refused no_handler)
