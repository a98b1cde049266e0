-- ===== src/Orderer/ConfigTx/Evolution.antt =====
-- How a configuration may differ from the one before it.
use fabric.Base.{
  ℕ, ◌≡◌, refl, true, Bool-cases, Option-cases, inl, inr, ◌⊎◌, ◌==◌, ==_iff, nat_eq, list_eq,
  pair_eq, Option, none, some, Bytes, List, [], ◌∷◌, Result, ok, err, arith,
}
use fabric.Base.Assoc.{Assoc, lookup, insert, lookup-insert}
use fabric.Base.Proc.{resume_ok}
use fabric.Orderer.ConfigTx.Handlers.{ConfigurationItem, Handler}
use fabric.Orderer.ConfigTx.{
  SignedConfigurationItem, ConfigMap, Policy, check_modified, or_refuse, all_kept, check_item,
  propose, process_item, process_items, kept_or_refused, process_config, ConfigurationManager,
  next_sequence, compute_chain_id_and_sequence, or_empty, Refusal,
}

-- An item is as it was, or it was last modified now.
abbrev pub IsUpdate : ℕ → Option ConfigurationItem → ConfigurationItem → Type 0
IsUpdate seq none new = new.last_modified ≡ seq
IsUpdate seq (some old) new =
    ((old.last_modified ≡ new.last_modified) × (new.value ≡ old.value)) ⊎ (new.last_modified ≡ seq)

-- Each item of the new configuration is an update, and each key of the old one is there.
pub record Evolves (seq : ℕ) (old new : ConfigMap) : Type 0 where
  pub updated :
      (k : ℕ × Bytes) (w : ConfigurationItem)
      → lookup k new ≡ some w
      → IsUpdate seq (lookup k old) w
  pub kept :
      (k : ℕ × Bytes) (v : ConfigurationItem)
      → lookup k old ≡ some v
      → (w : ConfigurationItem) × (lookup k new ≡ some w)

abbrev AllUpdated : ℕ → ConfigMap → ConfigMap → Type 0
AllUpdated seq old new =
    (k : ℕ × Bytes) (w : ConfigurationItem) → lookup k new ≡ some w → IsUpdate seq (lookup k old) w

check_modified-IsUpdate :
    (old : Option ConfigurationItem) (config : ConfigurationItem) (seq : ℕ) (u : Unit {0})
    → check_modified old config seq ≡ ok u
    → IsUpdate seq old config
unfolding check_modified or_refuse
check_modified-IsUpdate none config seq u h = ground (arith, h)
check_modified-IsUpdate (some val) config seq u h =
    ground (arith, h, ==_iff config.value val.value, ==_iff val.last_modified config.last_modified)

kept_of_test :
    (old new : ConfigMap)
    → all_kept old new ≡ true
    → (k : ℕ × Bytes) (v : ConfigurationItem) → lookup k old ≡ some v
    → (w : ConfigurationItem) × (lookup k new ≡ some w)
unfolding all_kept
kept_of_test [] new h k v e = cc e
kept_of_test ((j, item) ∷ old) new h k v e = elim (Bool-cases (j == k)) [
  | inl same ↦ elim (Option-cases (lookup k new)) [
    | inl gone ↦ absurd (ground (arith, h, gone, (==_iff j k).0 same))
    | inr found ↦ found
  ]
  | inr other ↦ kept_of_test old new (ground (arith, h)) k v (ground (arith, e, other))
]

insert-AllUpdated :
    (seq : ℕ) (old new : ConfigMap) (k : ℕ × Bytes) (config : ConfigurationItem)
    → IsUpdate seq (lookup k old) config
    → AllUpdated seq old new
    → AllUpdated seq old (insert k config new)
insert-AllUpdated seq old new k config h all j w e = elim (Bool-cases (k == j)) [
  | inl same ↦
      let at_k = (==_iff k j).0 same in
      let is_config : config ≡ w = ground (arith, e, same, lookup-insert k j config new) in
      rw⁻¹ (is_config, at_k) h
  | inr other ↦ all j w (ground (arith, e, other, lookup-insert k j config new))
]

kept_or_refused-ok :
    (old mid new : ConfigMap)
    → kept_or_refused old mid ≡ ok new
    → (all_kept old mid ≡ true) × (mid ≡ new)
unfolding kept_or_refused
kept_or_refused-ok old mid new h = ground (arith, h)

module _ {S : Type 0} (handler : ℕ → Handler S) (read_item : Bytes → Option ConfigurationItem)
    (read_creator : Bytes → Option Bytes) (get_policy : Assoc ℕ S → Bytes → Option Policy)
    (cm : ConfigurationManager S) (seq : ℕ) where
  check_item-IsUpdate :
      (entry : SignedConfigurationItem) (config : ConfigurationItem) (u : Unit {0})
      → check_item handler read_item read_creator get_policy cm seq entry config ≡ ok u
      → IsUpdate seq (lookup (config.item_type, config.key) cm.configuration) config
  unfolding check_item
  check_item-IsUpdate entry config u h =
      let old = lookup (config.item_type, config.key) cm.configuration in
      ground (arith, h, check_modified-IsUpdate old config seq u)

  process_item-AllUpdated :
      (entry : SignedConfigurationItem) (new out : ConfigMap) (hs : Assoc ℕ S)
      → (process_item handler read_item read_creator get_policy cm seq entry new hs).0 ≡ ok out
      → AllUpdated seq cm.configuration new
      → AllUpdated seq cm.configuration out
  unfolding process_item
  process_item-AllUpdated entry new out hs h all = go (read_item entry.configuration_item) refl
    where
      proposed :
          (config : ConfigurationItem) (r : Result Refusal (Unit {0}))
          → read_item entry.configuration_item ≡ some config
          → check_item handler read_item read_creator get_policy cm seq entry config ≡ r
          → AllUpdated seq cm.configuration out
      proposed config (err x) e f = cc (rw (process_item, e, f) at h)
      proposed config (ok u) e f =
          let (v, g, k) =
            resume_ok (propose handler config hs) _ out (rw (process_item, e, f) at h) in
          let same : insert (config.item_type, config.key) config new ≡ out = cc k in
          rw⁻¹ same (
            insert-AllUpdated seq cm.configuration new (config.item_type, config.key) config
              (check_item-IsUpdate entry config u f) all)

      go :
          (found : Option ConfigurationItem)
          → read_item entry.configuration_item ≡ found
          → AllUpdated seq cm.configuration out
      go none e = cc (rw (process_item, e) at h)
      go (some config) e =
          proposed config (check_item handler read_item read_creator get_policy cm seq entry config)
            e refl

  process_items-AllUpdated :
      (items : List SignedConfigurationItem) (new out : ConfigMap) (hs : Assoc ℕ S)
      → (process_items handler read_item read_creator get_policy cm seq items new hs).0 ≡ ok out
      → AllUpdated seq cm.configuration new
      → AllUpdated seq cm.configuration out
  unfolding process_items
  process_items-AllUpdated [] new out hs h all = let same : new ≡ out = cc h in rw⁻¹ same all
  process_items-AllUpdated (entry ∷ items) new out hs h all =
      let first = process_item handler read_item read_creator get_policy cm seq entry new hs in
      let (mid, e, f) = resume_ok first _ out h in
      process_items-AllUpdated items mid out first.1 f
        (process_item-AllUpdated entry new mid hs e all)

module _ {S : Type 0} (handler : ℕ → Handler S) (read_item : Bytes → Option ConfigurationItem)
    (read_creator : Bytes → Option Bytes) (get_policy : Assoc ℕ S → Bytes → Option Policy) where
  -- A configuration that passes has the next sequence number and evolves from the current one.
  pub process_config-Evolves :
      (cm : ConfigurationManager S) (items : List SignedConfigurationItem) (hs : Assoc ℕ S)
      (new : ConfigMap)
      → (process_config handler read_item read_creator get_policy cm items hs).0 ≡ ok new
      → Evolves (next_sequence cm.sequence) cm.configuration new
  unfolding process_config
  process_config-Evolves cm items hs new h =
      go (compute_chain_id_and_sequence read_item read_creator items) refl
    where
      go :
          (r : Result Refusal (Option Bytes × ℕ))
          → compute_chain_id_and_sequence read_item read_creator items ≡ r
          → Evolves (next_sequence cm.sequence) cm.configuration new
      go (err x) e = cc (rw (process_config, e) at h)
      go (ok (chain_id, seq)) e = elim (Bool-cases (seq == next_sequence cm.sequence)) [
        | inr other ↦ cc (rw (process_config, e, other) at h)
        | inl same ↦ elim (Bool-cases (or_empty chain_id == cm.chain_id)) [
          | inr wrong ↦ cc (rw (process_config, e, same, wrong) at h)
          | inl right ↦
              let run =
                process_items handler read_item read_creator get_policy cm seq items [] hs in
              let (mid, f, g) = resume_ok run _ new (rw (process_config, e, same, right) at h) in
              let (kept, is_new) = kept_or_refused-ok cm.configuration mid new g in
              let updated =
                process_items-AllUpdated handler read_item read_creator get_policy cm seq items []
                  mid hs f (λ k w m. cc m) in
              rw⁻¹ ((==_iff seq (next_sequence cm.sequence)).0 same, is_new)
                (record { updated = updated; kept = kept_of_test cm.configuration mid kept })
        ]
      ]
