-- ===== src/Orderer/ConfigTx/Proposals/Latest.antt =====
-- What a handler holds after a whole proposal.
use fabric.Base.{
  ◌≡◌, refl, sym, ◌∙◌, ap, Bool, true, if◌then◌else◌, ◌==◌, nat_eq, list_eq, Option, none, some,
  Bytes, List, [], ◌∷◌,
}
use fabric.Base.Assoc.{Assoc, lookup, insert, lookup-insert}
use fabric.Orderer.ConfigTx.Handlers.{ConfigurationItem}
use fabric.Orderer.ConfigTx.Proposals.{
  Read, panics, refuses, reads, value_in, Proposals, begin_config, commit_config, propose_read,
  value_of, get_value,
}

module _ {V : Type 0} (read : ConfigurationItem → Read V) where
  -- The calls of `ProposeConfig` for the items, none of which panics or refuses.
  abbrev pub AllProposed : List ConfigurationItem → Proposals V → Proposals V → Type 0
  AllProposed [] s t = s ≡ t
  AllProposed (item ∷ items) s t =
      (u : Proposals V) × (value_of read item s ≡ some (true, u)) × AllProposed items u t

  -- the value of the last item with the key, if there is one
  abbrev pub last_value : Bytes → List ConfigurationItem → Option V → Option V
  last_value id [] before = before
  last_value id (item ∷ items) before =
      last_value id items (if item.key == id then value_in (read item) else before)

  propose_read-some :
      (key : Bytes) (o : Read V) (s u : Proposals V) (p : Assoc Bytes V)
      → s.proposed ≡ some p
      → propose_read key o s ≡ some (true, u)
      → (v : V) × (value_in o ≡ some v) × (u.proposed ≡ some (insert key v p))
  propose_read-some key panics s u p e h = cc h
  propose_read-some key refuses s u p e h = cc h
  propose_read-some key (reads v) s u p e h =
      let now : some (insert key v p) ≡ u.proposed =
        ap (λ (o : Option (Bool × Proposals V)). elim o [ none ↦ none | some r ↦ r.1.proposed ])
          (rw e at h) in
      (v, refl, sym now)

  proposed-latest :
      (items : List ConfigurationItem) (s t : Proposals V) (p : Assoc Bytes V)
      → s.proposed ≡ some p
      → AllProposed items s t
      → (q : Assoc Bytes V) × (t.proposed ≡ some q)
        × ((id : Bytes) → lookup id q ≡ last_value id items (lookup id p))
  proposed-latest [] s t p e h = (p, rw⁻¹ h e, λ id. refl)
  proposed-latest (item ∷ items) s t p e (u, one, more) =
      let (v, f, g) = propose_read-some item.key (read item) s u p e one in
      let (q, k, l) = proposed-latest items u t (insert item.key v p) g more in
      (q, k, λ id. l id ∙ ap (last_value id items) (lookup-insert item.key id v p ∙ same id v f))
    where
      same :
          (id : Bytes) (v : V)
          → value_in (read item) ≡ some v
          → (if item.key == id then some v else lookup id p)
            ≡ (if item.key == id then value_in (read item) else lookup id p)
      same id v f = rw f refl

  -- A proposal that is begun, made of items that are all accepted, and committed leaves under each
  -- key the value of the last item with that key, and no value where there is none: what was there
  -- before the proposal is gone.
  pub get_value-commit :
      (items : List ConfigurationItem) (s begun t done : Proposals V)
      → begin_config s ≡ some begun
      → AllProposed items begun t
      → commit_config t ≡ some done
      → (id : Bytes) → get_value id done ≡ last_value id items none
  get_value-commit items s begun t done b a c id =
      let (q, k, l) = proposed-latest items begun t [] (begun_empty s.proposed refl) a in
      ap (lookup id) (committed q k) ∙ l id
    where
      begun_empty : (o : Option (Assoc Bytes V)) → s.proposed ≡ o → begun.proposed ≡ some []
      begun_empty none e = sym (
          ap (λ (o : Option (Proposals V)). elim o [ none ↦ none | some r ↦ r.proposed ])
            (rw (begin_config, e) at b))
      begun_empty (some p) e = cc (rw (begin_config, e) at b)

      committed : (q : Assoc Bytes V) → t.proposed ≡ some q → done.config ≡ q
      committed q k = sym (
          ap (λ (o : Option (Proposals V)). elim o [ none ↦ [] | some r ↦ r.config ])
            (rw (commit_config, k) at c))
