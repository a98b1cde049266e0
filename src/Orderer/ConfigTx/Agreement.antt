-- ===== src/Orderer/ConfigTx/Agreement.antt =====
-- Validating a configuration and applying it agree, and leave the handlers in order.
pub mod Open
use fabric.Base.{
  ℕ, ◌≡◌, refl, sym, ◌∙◌, ap, Bool, true, false, if◌then◌else◌, Bool-cases, Option-cases, inl, inr,
  ◌⊎◌, ◌==◌, not, nat_eq, list_eq, pair_eq, Option, none, some, Bytes, List, [], ◌∷◌, Result, ok,
  err,
}
use fabric.Base.Assoc.{Assoc, lookup, insert}
use fabric.Base.Proc.{Proc, pure, lift, resume, ◌>>=◌, ◌>>◌}
use fabric.Orderer.ConfigTx.Handlers.{ConfigurationItem, Handler}
use fabric.Orderer.ConfigTx.{
  SignedConfigurationItem, ConfigMap, Failure, panicked, refused, Refusal, Policy, check_item,
  propose, process_item, process_items, kept_or_refused, all_kept, process_config,
  ConfigurationManager, next_sequence, compute_chain_id_and_sequence, or_empty, begin_handlers,
  rollback_handlers, commit_handlers, after_validate, validate, after_apply, apply_config,
}
use fabric.Orderer.ConfigTx.Evolution.{Evolves, process_config-Evolves}
use Open.{
  AllIdle, AllOpen, begin_handlers-AllOpen, rollback_handlers-AllOpen, commit_handlers-AllIdle,
  propose-AllOpen,
}

module _ {S : Type 0} (handler : ℕ → Handler S) (read_item : Bytes → Option ConfigurationItem)
    (read_creator : Bytes → Option Bytes) (get_policy : Assoc ℕ S → Bytes → Option Policy) where
  -- Some entry is of a type that has no handler, or its handler panics on it.
  abbrev pub HasPanic : Assoc ℕ S → List SignedConfigurationItem → Type 0
  HasPanic hs [] = ⊥
  HasPanic hs (entry ∷ items) =
      ((config : ConfigurationItem) × (read_item entry.configuration_item ≡ some config)
        × ((lookup config.item_type hs ≡ none) ⊎ (handler config.item_type).Panics config))
      ⊎ HasPanic hs items

  -- The proposals stay open, and a panic has its reason.
  abbrev StaysOpen : Type 0 → Assoc ℕ S → Result Failure ConfigMap × Assoc ℕ S → Type 0
  StaysOpen Reason hs out = AllOpen handler hs out.1 × (out.0 ≡ err panicked → Reason)

  module _ (cm : ConfigurationManager S) (seq : ℕ) (hs : Assoc ℕ S) where
    inserted-StaysOpen :
        (Reason : Type 0) (new : ConfigMap) (out : Result Failure (Unit {0}) × Assoc ℕ S)
        → AllOpen handler hs out.1
        → (out.0 ≡ err panicked → Reason)
        → StaysOpen Reason hs (resume out (λ u. pure new))
    inserted-StaysOpen Reason new (ok u, us) h k = (h, λ p. cc p)
    inserted-StaysOpen Reason new (err x, us) h k = (h, λ p. k (cc p))

    process_item-StaysOpen :
        (Reason : Type 0) (entry : SignedConfigurationItem) (new : ConfigMap) (us : Assoc ℕ S)
        → ((config : ConfigurationItem)
            → read_item entry.configuration_item ≡ some config
            → (lookup config.item_type hs ≡ none) ⊎ (handler config.item_type).Panics config
            → Reason)
        → AllOpen handler hs us
        → StaysOpen Reason hs
            (process_item handler read_item read_creator get_policy cm seq entry new us)
    unfolding process_item
    process_item-StaysOpen Reason entry new us because h =
        go (read_item entry.configuration_item) refl
      where
        proposed :
            (config : ConfigurationItem) (r : Result Refusal (Unit {0}))
            → read_item entry.configuration_item ≡ some config
            → check_item handler read_item read_creator get_policy cm seq entry config ≡ r
            → StaysOpen Reason hs
                (process_item handler read_item read_creator get_policy cm seq entry new us)
        proposed config (err x) e f = rw (process_item, e, f) (h, λ p. cc p)
        proposed config (ok u) e f =
            let (open_after, unknown) = propose-AllOpen handler config hs us h in
            rw (process_item, e, f)
              (inserted-StaysOpen Reason (insert (config.item_type, config.key) config new)
                (propose handler config us) open_after (λ p. because config e (unknown p)))

        go :
            (found : Option ConfigurationItem)
            → read_item entry.configuration_item ≡ found
            → StaysOpen Reason hs
                (process_item handler read_item read_creator get_policy cm seq entry new us)
        go none e = rw (process_item, e) (h, λ p. cc p)
        go (some config) e =
            proposed config
              (check_item handler read_item read_creator get_policy cm seq entry config) e refl

    resume-StaysOpen :
        (Reason : Type 0) (first : Result Failure ConfigMap × Assoc ℕ S)
        (after : ConfigMap → Proc (Assoc ℕ S) Failure ConfigMap)
        → StaysOpen Reason hs first
        → ((out : ConfigMap) (v : Assoc ℕ S)
            → AllOpen handler hs v
            → StaysOpen Reason hs (after out v))
        → StaysOpen Reason hs (resume first after)
    resume-StaysOpen Reason (ok out, v) after (k, reason) later = later out v k
    resume-StaysOpen Reason (err x, v) after (k, reason) later = (k, λ p. reason (cc p))

    process_items-StaysOpen :
        (Reason : Type 0) (items : List SignedConfigurationItem) (new : ConfigMap) (us : Assoc ℕ S)
        → (HasPanic hs items → Reason)
        → AllOpen handler hs us
        → StaysOpen Reason hs
            (process_items handler read_item read_creator get_policy cm seq items new us)
    unfolding process_items
    process_items-StaysOpen Reason [] new us because h = (h, λ p. cc p)
    process_items-StaysOpen Reason (entry ∷ items) new us because h =
        resume-StaysOpen Reason
          (process_item handler read_item read_creator get_policy cm seq entry new us)
          (process_items handler read_item read_creator get_policy cm seq items)
          (process_item-StaysOpen Reason entry new us (λ c e m. because (inl (c, e, m))) h)
          (λ out v k. process_items-StaysOpen Reason items out v (λ u. because (inr u)) k)

    lift-StaysOpen :
        (Reason : Type 0) (old new : ConfigMap) (us : Assoc ℕ S)
        → AllOpen handler hs us
        → StaysOpen Reason hs (lift (kept_or_refused old new) us)
    unfolding kept_or_refused
    lift-StaysOpen Reason old new us h = elim (Bool-cases (all_kept old new)) [
      | inl e ↦ rw e (h, λ p. cc p)
      | inr e ↦ rw e (h, λ p. cc p)
    ]

  process_config-StaysOpen :
      (Reason : Type 0) (cm : ConfigurationManager S) (items : List SignedConfigurationItem)
      (hs us : Assoc ℕ S)
      → (HasPanic hs items → Reason)
      → AllOpen handler hs us
      → StaysOpen Reason hs (process_config handler read_item read_creator get_policy cm items us)
  unfolding process_config
  process_config-StaysOpen Reason cm items hs us because h =
      go (compute_chain_id_and_sequence read_item read_creator items) refl
    where
      go :
          (r : Result Refusal (Option Bytes × ℕ))
          → compute_chain_id_and_sequence read_item read_creator items ≡ r
          → StaysOpen Reason hs
              (process_config handler read_item read_creator get_policy cm items us)
      go (err x) e = rw (process_config, e) (h, λ p. cc p)
      go (ok (chain_id, seq)) e = elim (Bool-cases (seq == next_sequence cm.sequence)) [
        | inr other ↦ rw (process_config, e, other) (h, λ p. cc p)
        | inl same ↦ elim (Bool-cases (or_empty chain_id == cm.chain_id)) [
          | inr wrong ↦ rw (process_config, e, same, wrong) (h, λ p. cc p)
          | inl right ↦
              rw (process_config, e, same, right)
                (resume-StaysOpen cm seq hs Reason
                  (process_items handler read_item read_creator get_policy cm seq items [] us)
                  (λ new. lift (kept_or_refused cm.configuration new))
                  (process_items-StaysOpen cm seq hs Reason items [] us because h)
                  (λ new v k. lift-StaysOpen cm seq hs Reason cm.configuration new v k))
        ]
      ]

  -- The next configuration, under the next sequence number, with handlers that are in order.
  pub record IsNext (cm next : ConfigurationManager S) : Type 0 where
    pub sequence : next.sequence ≡ next_sequence cm.sequence
    pub chain_id : next.chain_id ≡ cm.chain_id
    pub evolves : Evolves (next_sequence cm.sequence) cm.configuration next.configuration
    pub idle : AllIdle handler next.handlers

  -- Both panic, and some entry's type has no handler or its handler panics on it; or both refuse, for the same reason, and
  -- change nothing; or both accept, validating changes nothing, and applying makes the next one.
  abbrev pub Agree :
      ConfigurationManager S
      → List SignedConfigurationItem
      → Result Failure (Unit {0}) × ConfigurationManager S
      → Result Failure (Unit {0}) × ConfigurationManager S
      → Type 0
  Agree cm items validated applied =
      ((validated.0 ≡ err panicked) × (applied.0 ≡ err panicked) × HasPanic cm.handlers items)
      ⊎ ((e : Refusal) × (validated ≡ (err (refused e), cm)) × (applied ≡ (err (refused e), cm)))
      ⊎ ((validated ≡ (ok tt, cm)) × (applied.0 ≡ ok tt) × IsNext cm applied.1)

  after_process-Agree :
      (cm : ConfigurationManager S) (items : List SignedConfigurationItem)
      (out : Result Failure ConfigMap × Assoc ℕ S)
      → StaysOpen (HasPanic cm.handlers items) cm.handlers out
      → ((new : ConfigMap)
          → out.0 ≡ ok new
          → Evolves (next_sequence cm.sequence) cm.configuration new)
      → Agree cm items
          (after_validate handler read_item read_creator get_policy cm out)
          (after_apply handler read_item read_creator get_policy cm out)
  unfolding after_validate after_apply
  after_process-Agree cm items (ok new, us) (h, reason) evolves =
      let (ws, e, idle) = commit_handlers-AllIdle handler cm.handlers us h in
      rw (after_apply, e, rollback_handlers-AllOpen handler cm.handlers us h)
        (inr (
          inr (
            refl,
            refl,
            record { sequence = refl; chain_id = refl; evolves = evolves new refl; idle = idle },
          )))
  after_process-Agree cm items (err panicked, us) (h, reason) evolves =
      inl (refl, refl, reason refl)
  after_process-Agree cm items (err (refused x), us) (h, reason) evolves =
      rw (rollback_handlers-AllOpen handler cm.handlers us h) (inr (inl (x, refl, refl)))

  -- With handlers that have no proposal, `Validate` and `Apply` agree. Both panic, only if an entry's
  -- type has no handler or its handler panics on the item; or both refuse, for the same reason, and
  -- change nothing; or both accept, `Validate` changes nothing, and `Apply` leaves the handlers with no proposal, moves to the next
  -- sequence number, keeps the chain and every key, and leaves each item as it was (its value and
  -- the number at which it was last modified) or last modified at the new number.
  pub validate-apply_config-Agree :
      (cm : ConfigurationManager S) (items : List SignedConfigurationItem)
      → AllIdle handler cm.handlers
      → Agree cm items
          (validate handler read_item read_creator get_policy items cm)
          (apply_config handler read_item read_creator get_policy items cm)
  unfolding validate apply_config
  validate-apply_config-Agree cm items idle =
      let (us, e, h) = begin_handlers-AllOpen handler cm.handlers idle in
      let begun : ConfigurationManager S = record cm { handlers = us } in
      rw (validate, apply_config, e)
        (after_process-Agree cm items
          (process_config handler read_item read_creator get_policy begun items us)
          (process_config-StaysOpen (HasPanic cm.handlers items) begun items cm.handlers us (λ u. u)
            h)
          (λ new f.
            process_config-Evolves handler read_item read_creator get_policy begun items us new f))
