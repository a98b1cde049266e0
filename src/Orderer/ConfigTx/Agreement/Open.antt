-- ===== src/Orderer/ConfigTx/Agreement/Open.antt =====
-- Handlers in the middle of a proposal.
use fabric.Base.{
  ℕ, ◌≢◌, ◌≡◌, refl, sym, ◌∙◌, ap, subst, Bool, true, false, if◌then◌else◌, Bool-cases,
  Option-cases, inl, inr, ◌⊎◌, ◌==◌, ==_iff, nat_eq, none, some, [], ◌∷◌, Result, ok, err, arith,
}
use fabric.Base.Assoc.{Assoc, lookup, insert}
use fabric.Orderer.ConfigTx.Handlers.{ConfigurationItem, Handler}
use fabric.Orderer.ConfigTx.{
  begin_handlers, rollback_handlers, commit_handlers, propose, Failure, panicked, refused,
  handler_refused,
}

module _ {S : Type 0} (handler : ℕ → Handler S) where
  -- No handler has a proposal.
  abbrev pub AllIdle : Assoc ℕ S → Type 0
  AllIdle [] = Unit
  AllIdle ((t, s) ∷ hs) = (handler t).IsIdle s × AllIdle hs

  -- The second are the first, each with a proposal begun.
  abbrev pub AllOpen : Assoc ℕ S → Assoc ℕ S → Type 0
  AllOpen [] [] = Unit
  AllOpen [] (u ∷ us) = ⊥
  AllOpen (h ∷ hs) [] = ⊥
  AllOpen ((t, s) ∷ hs) ((t', u) ∷ us) = (t ≡ t') × (handler t).IsOpen s u × AllOpen hs us

  pub begin_handlers-AllOpen :
      (hs : Assoc ℕ S)
      → AllIdle hs
      → (us : Assoc ℕ S) × (begin_handlers handler hs ≡ some us) × AllOpen hs us
  unfolding begin_handlers
  begin_handlers-AllOpen [] h = ([], refl, tt)
  begin_handlers-AllOpen ((t, s) ∷ hs) (h, k) =
      let (u, e, open_u) = (handler t).begin_idle s h in
      let (us, f, open_us) = begin_handlers-AllOpen hs k in
      ((t, u) ∷ us, rw (begin_handlers, e, f) refl, (refl, open_u, open_us))

  pub rollback_handlers-AllOpen :
      (hs us : Assoc ℕ S) → AllOpen hs us → rollback_handlers handler us ≡ hs
  unfolding rollback_handlers
  rollback_handlers-AllOpen [] [] h = refl
  rollback_handlers-AllOpen [] (u ∷ us) h = absurd h
  rollback_handlers-AllOpen (s ∷ hs) [] h = absurd h
  rollback_handlers-AllOpen ((t, s) ∷ hs) ((t', u) ∷ us) (e, h, k) =
      rw (rollback_handlers-AllOpen hs us k)
        (rw⁻¹ e (ap (λ x. (t, x) ∷ hs) ((handler t).rollback_open s u h)))

  pub commit_handlers-AllIdle :
      (hs us : Assoc ℕ S)
      → AllOpen hs us
      → (ws : Assoc ℕ S) × (commit_handlers handler us ≡ some ws) × AllIdle ws
  unfolding commit_handlers
  commit_handlers-AllIdle [] [] h = ([], refl, tt)
  commit_handlers-AllIdle [] (u ∷ us) h = absurd h
  commit_handlers-AllIdle (s ∷ hs) [] h = absurd h
  commit_handlers-AllIdle ((t, s) ∷ hs) ((t', u) ∷ us) (same, h, k) =
      let (w, e, idle) = (handler t).commit_open s u h in
      let (ws, f, rest) = commit_handlers-AllIdle hs us k in
      rw⁻¹ same ((t, w) ∷ ws, rw (commit_handlers, e, f) refl, (idle, rest))

  -- what a proposal to the handler of one type does to the others
  at_type-AllOpen :
      (k : ℕ) (u v : S)
      → ((s : S) → (handler k).IsOpen s u → (handler k).IsOpen s v)
      → (hs us : Assoc ℕ S) → lookup k us ≡ some u
      → AllOpen hs us
      → AllOpen hs (insert k v us)
  at_type-AllOpen k u v step [] [] found h = cc found
  at_type-AllOpen k u v step [] (x ∷ us) found h = absurd h
  at_type-AllOpen k u v step (s ∷ hs) [] found h = absurd h
  at_type-AllOpen k u v step ((t, s) ∷ hs) ((t', x) ∷ us) found (e, h, rest) =
      elim (Bool-cases (t' == k)) [
        | inl same ↦
            let here : t ≡ k = e ∙ (==_iff t' k).0 same in
            let is_u : x ≡ u = ground (arith, found, same) in
            let open_v = step s (
              subst (λ j. (handler j).IsOpen s u) here
                (subst (λ y. (handler t).IsOpen s y) is_u h)) in
            rw same (here, subst (λ j. (handler j).IsOpen s v) (sym here) open_v, rest)
        | inr other ↦
            rw other (e, h, at_type-AllOpen k u v step hs us (ground (arith, found, other)) rest)
      ]

  lookup_open :
      (k : ℕ) (u : S) (hs us : Assoc ℕ S)
      → lookup k us ≡ some u
      → AllOpen hs us
      → (s : S) × (handler k).IsOpen s u
  lookup_open k u [] [] found h = cc found
  lookup_open k u [] (x ∷ us) found h = absurd h
  lookup_open k u (s ∷ hs) [] found h = absurd h
  lookup_open k u ((t, s) ∷ hs) ((t', x) ∷ us) found (e, h, rest) = elim (Bool-cases (t' == k)) [
    | inl same ↦
        let here : t ≡ k = e ∙ (==_iff t' k).0 same in
        let is_u : x ≡ u = ground (arith, found, same) in
        (s, subst (λ j. (handler j).IsOpen s u) here (subst (λ y. (handler t).IsOpen s y) is_u h))
    | inr other ↦ lookup_open k u hs us (ground (arith, found, other)) rest
  ]

  lookup-AllOpen :
      (k : ℕ) (hs us : Assoc ℕ S) → AllOpen hs us → lookup k us ≡ none → lookup k hs ≡ none
  lookup-AllOpen k [] [] h e = refl
  lookup-AllOpen k [] (u ∷ us) h e = absurd h
  lookup-AllOpen k (s ∷ hs) [] h e = absurd h
  lookup-AllOpen k ((t, s) ∷ hs) ((t', u) ∷ us) (same, h, rest) e =
      ground (arith, e, same, lookup-AllOpen k hs us rest)

  -- Proposals stay open whatever a handler answers, and what panics is a type without a handler or
  -- an item on which its handler panics.
  pub propose-AllOpen :
      (config : ConfigurationItem) (hs us : Assoc ℕ S)
      → AllOpen hs us
      → AllOpen hs (propose handler config us).1
        × ((propose handler config us).0 ≡ err panicked
            → (lookup config.item_type hs ≡ none) ⊎ (handler config.item_type).Panics config)
  unfolding propose
  propose-AllOpen config hs us open_us = elim (Option-cases (lookup config.item_type us)) [
    | inl missing ↦
        rw (propose, missing)
          (open_us, λ p. inl (lookup-AllOpen config.item_type hs us open_us missing))
    | inr (u, found) ↦
        let (s, open_u) = lookup_open config.item_type u hs us found open_us in
        elim ((handler config.item_type).propose_open config s u open_u) [
          | inl (reason, stopped) ↦ rw (propose, found, stopped) (open_us, λ p. inr reason)
          | inr (b, v, answer, stays) ↦
              rw (propose, found, answer)
                (
                  at_type-AllOpen config.item_type u v stays hs us found open_us,
                  λ p. absurd (answered b p),
                )
        ]
  ]
    where
      answered :
          (b : Bool)
          → ◌≢◌ {A = Result Failure (Unit {0})}
              (if b then ok tt else err (refused handler_refused))
              (err panicked)
      answered true = λ p. cc p
      answered false = λ p. cc p
