-- ===== src/Orderer/ConfigTx/Genesis.antt =====
-- The manager of a configuration that is read for the first time.
use fabric.Base.{
  ℕ, ◌+◌, ◌-◌, ◌%◌, ◌^◌, ◌<◌, ◌≡◌, refl, sym, ◌∙◌, ap, subst, true, Bool-cases, if◌then◌else◌, inl,
  inr, Option, none, some, Bytes, List, [], ◌∷◌, Result, ok, err, nat_eq, ltb, arith,
}
use fabric.Base.Assoc.{Assoc}
use fabric.Orderer.ConfigTx.Handlers.{ConfigurationItem, Handler}
use fabric.Orderer.ConfigTx.{
  SignedConfigurationItem, Failure, Refusal, Policy, ConfigurationManager, next_sequence,
  compute_chain_id_and_sequence, sequence_loop, header_chain_id, validate, apply_config, has_all,
  started, new_configuration_manager, or_empty,
}
use fabric.Orderer.ConfigTx.Evolution.{Evolves}
use fabric.Orderer.ConfigTx.Agreement.{IsNext, Agree, validate-apply_config-Agree}
use fabric.Orderer.ConfigTx.Agreement.Open.{AllIdle}

module _ {S : Type 0} (handler : ℕ → Handler S) (read_item : Bytes → Option ConfigurationItem)
    (read_creator : Bytes → Option Bytes) (get_policy : Assoc ℕ S → Bytes → Option Policy) where
  -- The manager has the chain and the number of the envelope, each item was last modified at that
  -- number, and the handlers are in order.
  abbrev pub IsStart : List SignedConfigurationItem → ConfigurationManager S → Type 0
  IsStart items cm =
      (chain_id : Option Bytes) × (seq : ℕ) × (compute_chain_id_and_sequence read_item read_creator
          items
        ≡ ok (chain_id, seq))
      × (cm.chain_id ≡ or_empty chain_id)
      × (cm.sequence ≡ seq)
      × Evolves cm.sequence [] cm.configuration
      × AllIdle handler cm.handlers

  applied_ok :
      (items : List SignedConfigurationItem) (empty cm : ConfigurationManager S)
      → AllIdle handler empty.handlers
      → started handler read_item read_creator get_policy
          (apply_config handler read_item read_creator get_policy items empty)
        ≡ ok cm
      → IsNext handler read_item read_creator get_policy empty cm
  unfolding started
  applied_ok items empty cm idle h =
      go (apply_config handler read_item read_creator get_policy items empty)
        (validate-apply_config-Agree handler read_item read_creator get_policy empty items idle) h
    where
      go :
          (out : Result Failure (Unit {0}) × ConfigurationManager S)
          → Agree handler read_item read_creator get_policy empty items
              (validate handler read_item read_creator get_policy items empty)
              out
          → started handler read_item read_creator get_policy out ≡ ok cm
          → IsNext handler read_item read_creator get_policy empty cm
      go (err x, m) agree e = cc e
      go (ok u, m) (inl (p, q, r)) e = cc q
      go (ok u, m) (inr (inl (x, p, q))) e = cc (ap (λ o. o.0) q)
      go (ok u, m) (inr (inr (p, q, following))) e = let same : m ≡ cm = cc e in rw⁻¹ same following

  wraps : (seq : ℕ) → seq < 2 ^ 64 → next_sequence ((seq + (2 ^ 64 - 1)) % 2 ^ 64) ≡ seq
  wraps seq h = omega arith

  -- The reader gives numbers of 64 bits.
  abbrev pub ReadsU64 : Type 0
  ReadsU64 =
      (b : Bytes) (item : ConfigurationItem) → read_item b ≡ some item → item.last_modified < 2 ^ 64

  sequence_loop-bound :
      ReadsU64
      → (items : List SignedConfigurationItem) (seen c : Option Bytes) (m n : ℕ) → m < 2 ^ 64
      → sequence_loop read_item read_creator items seen m ≡ ok (c, n)
      → n < 2 ^ 64
  unfolding sequence_loop
  sequence_loop-bound u64 [] seen c m n h e =
      let same : m ≡ n =
        ap (λ (r : Result Refusal (Option Bytes × ℕ)). elim r [ ok p ↦ p.1 | err x ↦ m ]) e in
      rw⁻¹ same h
  sequence_loop-bound u64 (signed ∷ items) seen c m n h e =
      go (read_item signed.configuration_item) refl (λ item b f k.
        sequence_loop-bound u64 items (some b) c
          (if ltb m item.last_modified then item.last_modified else m) n k f)
    where
      go :
          (found : Option ConfigurationItem)
          → read_item signed.configuration_item ≡ found
          → ((item : ConfigurationItem) (b : Bytes)
              → sequence_loop read_item read_creator items
                  (some b)
                  (if ltb m item.last_modified then item.last_modified else m)
                ≡ ok (c, n)
              → (if ltb m item.last_modified then item.last_modified else m) < 2 ^ 64
              → n < 2 ^ 64)
          → n < 2 ^ 64
      go none f later = cc (rw (sequence_loop, f) at e)
      go (some item) f later = checked (header_chain_id seen item) refl
        where
          checked : (r : Result Refusal Bytes) → header_chain_id seen item ≡ r → n < 2 ^ 64
          checked (err x) g = cc (rw (sequence_loop, f, g) at e)
          checked (ok b) g =
              later item b (rw (sequence_loop, f, g) at e)
                (ground (arith, h, u64 signed.configuration_item item f))

  compute-bound :
      ReadsU64
      → (items : List SignedConfigurationItem) (c : Option Bytes) (n : ℕ)
      → compute_chain_id_and_sequence read_item read_creator items ≡ ok (c, n)
      → n < 2 ^ 64
  unfolding compute_chain_id_and_sequence
  compute-bound u64 [] c n e = cc e
  compute-bound u64 (item ∷ items) c n e =
      sequence_loop-bound u64 (item ∷ items) none c 0 n (omega arith) e

  -- A manager that is made, from handlers that have no proposal and with a reader that gives numbers
  -- of 64 bits, has the chain and the sequence number that are computed from its envelope, although
  -- the code begins one below that number and 0 wraps; every item was last modified at that number,
  -- and the handlers have no proposal.
  pub new_configuration_manager-IsStart :
      ReadsU64
      → (known : List ℕ) (items : List SignedConfigurationItem) (handlers : Assoc ℕ S)
      → AllIdle handler handlers
      → (cm : ConfigurationManager S)
      → new_configuration_manager handler read_item read_creator get_policy known items handlers
        ≡ ok cm
      → IsStart items cm
  unfolding new_configuration_manager
  new_configuration_manager-IsStart u64 known items handlers idle cm h =
      elim (Bool-cases (has_all known handlers)) [
        | inr lacks ↦ cc (rw (new_configuration_manager, lacks) at h)
        | inl all ↦ go all (compute_chain_id_and_sequence read_item read_creator items) refl
      ]
    where
      go :
          has_all known handlers ≡ true
          → (r : Result Refusal (Option Bytes × ℕ))
          → compute_chain_id_and_sequence read_item read_creator items ≡ r
          → IsStart items cm
      go all (err x) e = cc (rw (new_configuration_manager, all, e) at h)
      go all (ok (chain_id, seq)) e =
          let empty : ConfigurationManager S = record {
            sequence = (seq + (2 ^ 64 - 1)) % 2 ^ 64;
            chain_id = or_empty chain_id;
            configuration = [];
            handlers = handlers;
          } in
          let following =
            applied_ok items empty cm idle (rw (new_configuration_manager, all, e) at h) in
          let number = following.sequence ∙ wraps seq (compute-bound u64 items chain_id seq e) in
          (
            chain_id,
            seq,
            e,
            following.chain_id,
            number,
            subst (λ n. Evolves n [] cm.configuration) (sym following.sequence) following.evolves,
            following.idle,
          )
