-- ===== src/Orderer/ConfigTx/Checks.antt =====
-- orderer/common/configtx/configtx.go: the checks of an envelope and of its items.
use fabric.Base.{
  ℕ, Bool, true, false, if◌then◌else◌, ltb, ◌==◌, ◌&&◌, nat_eq, list_eq, pair_eq, option_eq,
  is_none, not, Option, none, some, Bytes, List, [], ◌∷◌, map, Result, ok, err,
}
use fabric.Base.Assoc.{Assoc, lookup}
use fabric.Orderer.ConfigTx.Handlers.{ConfigurationItem}

pub record ConfigurationSignature : Type 0 where
  pub signature_header : Bytes
  pub signature : Bytes

pub record SignedConfigurationItem : Type 0 where
  pub configuration_item : Bytes
  pub signatures : List ConfigurationSignature

pub data Refusal : Type 0 where
  empty_envelope bad_item no_header no_chain_id mismatched_chain_ids : Refusal
  sequence_jumped wrong_chain bad_signature_header policy_not_met : Refusal
  old_sequence handler_refused missing_key no_handler : Refusal

pub data Failure : Type 0 where
  panicked : Failure
  refused : Refusal → Failure

-- Headers, payload, identities and signatures.
abbrev pub Policy : Type 0
Policy = List Bytes → Bytes → List Bytes → List Bytes → Bool

abbrev pub accept_all_policy : Policy
accept_all_policy headers payload identities signatures = true

-- "DefaultModificationPolicy"
abbrev pub default_modification_policy_id : Bytes
default_modification_policy_id =
    68 ∷ 101 ∷ 102 ∷ 97 ∷ 117 ∷ 108 ∷ 116 ∷ 77 ∷ 111 ∷ 100 ∷ 105 ∷ 102 ∷ 105 ∷ 99 ∷ 97 ∷ 116 ∷ 105
    ∷ 111 ∷ 110 ∷ 80 ∷ 111 ∷ 108 ∷ 105 ∷ 99 ∷ 121 ∷ []

-- The map of maps is a map of pairs of a type and a key.
abbrev pub ConfigMap : Type 0
ConfigMap = Assoc (ℕ × Bytes) ConfigurationItem

unfoldable pub or_refuse : Bool → Refusal → Result Refusal (Unit {0})
or_refuse true e = ok tt
or_refuse false e = err e

same_chain : Option Bytes → Bytes → Bool
same_chain none chain_id = true
same_chain (some seen) chain_id = seen == chain_id

-- the checks of the header of an item, after the items before it
unfoldable pub header_chain_id : Option Bytes → ConfigurationItem → Result Refusal Bytes
unfolding same_chain
header_chain_id seen item = elim item.header [
  | none ↦ err no_header
  | some header ↦ elim header.chain_id [
    | none ↦ err no_chain_id
    | some chain_id ↦ if same_chain seen chain_id then ok chain_id else err mismatched_chain_ids
  ]
]

-- the test of an item against the one that it replaces
unfoldable pub check_modified :
    Option ConfigurationItem → ConfigurationItem → ℕ → Result Refusal (Unit {0})
unfolding or_refuse
check_modified none config seq = or_refuse (config.last_modified == seq) old_sequence
check_modified (some val) config seq =
    if (val.last_modified == config.last_modified) && (config.value == val.value)
    then ok tt
    else or_refuse (config.last_modified == seq) old_sequence

-- the loop that looks for the keys that were there
unfoldable pub all_kept : ConfigMap → ConfigMap → Bool
all_kept [] new = true
all_kept ((k, item) ∷ old) new = not (is_none (lookup k new)) && all_kept old new

unfoldable pub kept_or_refused : ConfigMap → ConfigMap → Result Failure ConfigMap
kept_or_refused old new = if all_kept old new then ok new else err (refused missing_key)

-- The generated readers of an item and of the creator in a signature header are parameters.
module _ (read_item : Bytes → Option ConfigurationItem) (read_creator : Bytes → Option Bytes) where
  unfoldable pub sequence_loop :
      List SignedConfigurationItem → Option Bytes → ℕ → Result Refusal (Option Bytes × ℕ)
  unfolding header_chain_id
  sequence_loop [] seen m = ok (seen, m)
  sequence_loop (signed ∷ items) seen m = elim (read_item signed.configuration_item) [
    | none ↦ err bad_item
    | some item ↦ elim (header_chain_id seen item) [
      | err e ↦ err e
      | ok chain_id ↦
          sequence_loop items (some chain_id)
            (if ltb m item.last_modified then item.last_modified else m)
    ]
  ]

  unfoldable pub compute_chain_id_and_sequence :
      List SignedConfigurationItem → Result Refusal (Option Bytes × ℕ)
  unfolding sequence_loop
  compute_chain_id_and_sequence [] = err empty_envelope
  compute_chain_id_and_sequence (item ∷ items) = sequence_loop (item ∷ items) none 0

  unfoldable pub read_creators : List ConfigurationSignature → Result Refusal (List Bytes)
  read_creators [] = ok []
  read_creators (s ∷ sigs) =
      let rest = read_creators sigs in
      elim (read_creator s.signature_header) [
        | none ↦ err bad_signature_header
        | some creator ↦ elim rest [ err e ↦ err e | ok creators ↦ ok (creator ∷ creators) ]
      ]

  -- `headers` gets the signatures and `signatures` the headers, as in the code.
  unfoldable pub check_policy :
      Option Policy → SignedConfigurationItem → List Bytes → Result Refusal (Unit {0})
  unfolding or_refuse
  check_policy none entry identities = err policy_not_met
  check_policy (some policy) entry identities =
      or_refuse
        (policy (map (λ s. s.signature) entry.signatures) entry.configuration_item identities
          (map (λ s. s.signature_header) entry.signatures))
        policy_not_met
