-- ===== src/Orderer/ConfigTx/Samples.antt =====
-- A small chain, with the theorems of the configuration applied to it.
use fabric.Base.{
  pos, ◌%◌, ◌^◌, ◌<◌, arith, ℕ, ◌≡◌, refl, Option, none, some, Bytes, List, [], ◌∷◌, ok, nat_eq,
  list_eq,
}
use fabric.Base.Proc.{Proc}
use fabric.Orderer.Filter.{Envelope, Action, reconfigure}
use fabric.Orderer.ConfigFilter.{Payload, apply_rule, Foretells, apply_rule-Foretells}
use fabric.Base.Assoc.{Assoc}
use fabric.Orderer.ConfigTx.Handlers.{ConfigurationItem, Handler}
use fabric.Orderer.ConfigTx.Proposals.{Read, reads, Proposals, bytes_handler, get_value}
use fabric.Orderer.ConfigTx.Proposals.Latest.{last_value, get_value-commit}
use fabric.Orderer.ConfigTx.{
  Failure, rollback_handlers, SignedConfigurationItem, ConfigurationManager, Policy, validate,
  apply_config, new_configuration_manager, process_config, process_items, process_item,
  check_modified, propose, all_kept, begin_handlers, commit_handlers, compute_chain_id_and_sequence,
}
use fabric.Orderer.ConfigTx.Genesis.{IsStart, new_configuration_manager-IsStart}
use fabric.Orderer.ConfigTx.Agreement.{Agree, validate-apply_config-Agree}

abbrev item : ℕ → Bytes → ConfigurationItem
item n value = record {
  header = some (record { chain_id = some (9 ∷ []) });
  item_type = 1;
  last_modified = n;
  modification_policy = [];
  key = 5 ∷ [];
  value = value;
}

-- The first byte is the sequence number, the others are the value.
abbrev read_item : Bytes → Option ConfigurationItem
read_item [] = none
read_item (n ∷ value) = some (item (n % 2 ^ 64) value)

abbrev read_creator : Bytes → Option Bytes
read_creator b = some b

abbrev get_policy : Assoc ℕ (Proposals Bytes) → Bytes → Option Policy
get_policy hs id = none

abbrev handler : ℕ → Handler (Proposals Bytes)
handler t = bytes_handler

abbrev idle : Proposals Bytes
idle = record { config = []; proposed = none }

abbrev chain : ConfigurationManager (Proposals Bytes)
chain = record { sequence = 3; chain_id = 9 ∷ []; configuration = []; handlers = (1, idle) ∷ [] }

abbrev update : List SignedConfigurationItem
update = record { configuration_item = 4 ∷ 7 ∷ []; signatures = [] } ∷ []

accepted : (apply_config handler read_item read_creator get_policy update chain).0 ≡ ok tt
unfolding apply_config process_config process_items process_item check_modified propose all_kept
    begin_handlers commit_handlers compute_chain_id_and_sequence
accepted = refl

validate-apply_config-Agree_example :
    Agree handler read_item read_creator get_policy chain update
      (validate handler read_item read_creator get_policy update chain)
      (apply_config handler read_item read_creator get_policy update chain)
validate-apply_config-Agree_example =
    validate-apply_config-Agree handler read_item read_creator get_policy chain update (refl, tt)

abbrev read_value : ConfigurationItem → Read Bytes
read_value i = reads i.value

abbrev two_items : List ConfigurationItem
two_items = item 4 (7 ∷ []) ∷ item 4 (8 ∷ []) ∷ []

abbrev opened : Proposals Bytes
opened = record idle { proposed = some [] }

abbrev one_in : Proposals Bytes
one_in = record idle { proposed = some ((5 ∷ [], 7 ∷ []) ∷ []) }

abbrev two_in : Proposals Bytes
two_in = record idle { proposed = some ((5 ∷ [], 8 ∷ []) ∷ []) }

abbrev done : Proposals Bytes
done = record { config = (5 ∷ [], 8 ∷ []) ∷ []; proposed = none }

get_value-commit_example : get_value (5 ∷ []) done ≡ last_value read_value (5 ∷ []) two_items none
get_value-commit_example =
    get_value-commit read_value two_items idle opened two_in done refl
      (one_in, refl, (two_in, refl, refl)) refl (5 ∷ [])

read_item-U64 :
    (b : Bytes) (i : ConfigurationItem) → read_item b ≡ some i → i.last_modified < 2 ^ 64
read_item-U64 [] i e = cc e
read_item-U64 (n ∷ value) i e = ground (arith, e)

abbrev first : ConfigurationManager (Proposals Bytes)
first = record {
  sequence = 4;
  chain_id = 9 ∷ [];
  configuration = ((1, 5 ∷ []), item 4 (7 ∷ [])) ∷ [];
  handlers = (1, record { config = (5 ∷ [], 7 ∷ []) ∷ []; proposed = none }) ∷ [];
}

made :
    new_configuration_manager handler read_item read_creator get_policy
      (1 ∷ [])
      update
      ((1, idle) ∷ [])
    ≡ ok first
unfolding new_configuration_manager apply_config process_config process_items process_item
    check_modified propose all_kept begin_handlers commit_handlers compute_chain_id_and_sequence
made = refl

new_configuration_manager-IsStart_example :
    IsStart handler read_item read_creator get_policy update first
new_configuration_manager-IsStart_example =
    new_configuration_manager-IsStart handler read_item read_creator get_policy read_item-U64
      (1 ∷ []) update ((1, idle) ∷ []) (refl, tt) first made

-- A payload is the data of a configuration of one item without signatures.
abbrev read_payload : Bytes → Option Payload
read_payload b = some (record { header_type = some (pos 1); payload_data = b })

abbrev read_envelope : Bytes → Option (List SignedConfigurationItem)
read_envelope b = some (record { configuration_item = b; signatures = [] } ∷ [])

abbrev config_message : Envelope
config_message = record { payload = some (4 ∷ 7 ∷ []); signature = [] }

abbrev filter : Envelope → Proc (ConfigurationManager (Proposals Bytes)) Failure Action
filter = apply_rule handler read_item read_creator get_policy read_payload read_envelope

passes : (filter config_message chain).0 ≡ ok reconfigure
unfolding apply_rule validate process_config process_items process_item check_modified propose
    all_kept begin_handlers rollback_handlers compute_chain_id_and_sequence
passes = refl

apply_rule-Foretells_example :
    Foretells handler read_item read_creator get_policy read_payload read_envelope chain
      (filter config_message chain)
      (apply_config handler read_item read_creator get_policy update chain)
apply_rule-Foretells_example =
    apply_rule-Foretells handler read_item read_creator get_policy read_payload read_envelope chain
      config_message update (refl, tt)
      (record { header_type = some (pos 1); payload_data = 4 ∷ 7 ∷ [] }, refl, refl, refl)
