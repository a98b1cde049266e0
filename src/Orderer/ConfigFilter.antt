-- ===== src/Orderer/ConfigFilter.antt =====
-- orderer/common/broadcastfilter/configfilter/configfilter.go: the rule that lets valid
-- configurations pass.
use fabric.Base.{
  ℕ, ◌≡◌, refl, inl, inr, ◌⊎◌, Bool, true, false, if◌then◌else◌, ◌==◌, nat_eq, Option, none, some,
  Bytes, List, [], Result, ok, err, ℤ, pos, negsuc,
}
use fabric.Base.Assoc.{Assoc}
use fabric.Base.Proc.{Proc}
use fabric.Orderer.Filter.{Envelope, Action, reconfigure, reject, forward}
use fabric.Orderer.ConfigTx.Handlers.{ConfigurationItem, Handler}
use fabric.Orderer.ConfigTx.{
  SignedConfigurationItem, Failure, panicked, refused, Policy, ConfigurationManager, validate,
  apply_config,
}
use fabric.Orderer.ConfigTx.Agreement.{Agree, IsNext, validate-apply_config-Agree}
use fabric.Orderer.ConfigTx.Agreement.Open.{AllIdle}

-- What is read of a payload: the type of its chain header, if it has one, and its data.
pub record Payload : Type 0 where
  pub header_type : Option ℤ
  pub payload_data : Bytes

-- a nil payload is read as an empty one
abbrev payload_bytes : Envelope → Bytes
payload_bytes message = elim message.payload [ none ↦ [] | some b ↦ b ]

-- `HeaderType_CONFIGURATION_TRANSACTION`
abbrev is_configuration : Option ℤ → Bool
is_configuration none = false
is_configuration (some (pos n)) = n == 1
is_configuration (some (negsuc n)) = false

module _ {S : Type 0} (handler : ℕ → Handler S) (read_item : Bytes → Option ConfigurationItem)
    (read_creator : Bytes → Option Bytes) (get_policy : Assoc ℕ S → Bytes → Option Policy)
    (read_payload : Bytes → Option Payload)
    (read_envelope : Bytes → Option (List SignedConfigurationItem)) where
  -- the action, after `Validate`
  decided :
      Result Failure (Unit {0}) × ConfigurationManager S
      → Result Failure Action × ConfigurationManager S
  decided (ok u, cm) = (ok reconfigure, cm)
  decided (err panicked, cm) = (err panicked, cm)
  decided (err (refused e), cm) = (ok reject, cm)

  unfoldable pub apply_rule : Envelope → Proc (ConfigurationManager S) Failure Action
  unfolding decided
  apply_rule message cm = elim (read_payload (payload_bytes message)) [
    | none ↦ (ok forward, cm)
    | some p ↦
        if is_configuration p.header_type
        then elim (read_envelope p.payload_data) [
          | none ↦ (ok reject, cm)
          | some items ↦ decided (validate handler read_item read_creator get_policy items cm)
        ]
        else (ok forward, cm)
  ]

  -- The message holds a configuration of these items.
  abbrev pub HoldsConfig : Envelope → List SignedConfigurationItem → Type 0
  HoldsConfig message items =
      (p : Payload) × (read_payload (payload_bytes message) ≡ some p)
      × (is_configuration p.header_type ≡ true)
      × (read_envelope p.payload_data ≡ some items)

  -- The filter foretells what `Apply` would do.
  abbrev pub Foretells :
      ConfigurationManager S
      → Result Failure Action × ConfigurationManager S
      → Result Failure (Unit {0}) × ConfigurationManager S
      → Type 0
  Foretells cm filtered applied =
      ((filtered.0 ≡ err panicked) × (applied.0 ≡ err panicked))
      ⊎ ((filtered ≡ (ok reject, cm)) × (applied.1 ≡ cm))
      ⊎ ((filtered ≡ (ok reconfigure, cm))
          × (applied.0 ≡ ok tt)
          × IsNext handler read_item read_creator get_policy cm applied.1)

  decided-Foretells :
      (cm : ConfigurationManager S) (items : List SignedConfigurationItem)
      (validated applied : Result Failure (Unit {0}) × ConfigurationManager S)
      → Agree handler read_item read_creator get_policy cm items validated applied
      → Foretells cm (decided validated) applied
  decided-Foretells cm items (ok u, m) applied (inl (p, q, r)) = cc p
  decided-Foretells cm items (err x, m) applied (inl (p, q, r)) =
      let same : x ≡ panicked = cc p in rw same (unfold decided in inl (refl, q))
  decided-Foretells cm items validated applied (inr (inl (e, p, q))) =
      rw (p, q) (unfold decided in inr (inl (refl, refl)))
  decided-Foretells cm items validated applied (inr (inr (p, q, n))) =
      rw p (unfold decided in inr (inr (refl, q, n)))

  -- For a message that holds a configuration, with handlers that have no proposal: the filter and
  -- `Apply` both panic; or the filter rejects, leaves the manager as it is, and `Apply` would change
  -- nothing; or the filter answers that the message reconfigures, leaves the manager as it is, and
  -- `Apply` would accept the configuration as the next one.
  pub apply_rule-Foretells :
      (cm : ConfigurationManager S) (message : Envelope) (items : List SignedConfigurationItem)
      → AllIdle handler cm.handlers
      → HoldsConfig message items
      → Foretells cm
          (apply_rule message cm)
          (apply_config handler read_item read_creator get_policy items cm)
  unfolding apply_rule
  apply_rule-Foretells cm message items idle (p, e, f, g) =
      rw (apply_rule, e, f, g)
        (decided-Foretells cm items (validate handler read_item read_creator get_policy items cm)
          (apply_config handler read_item read_creator get_policy items cm)
          (validate-apply_config-Agree handler read_item read_creator get_policy cm items idle))
