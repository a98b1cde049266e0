-- ===== src/Orderer/Filter.antt =====
-- orderer/common/broadcastfilter/filter.go: rules that decide what becomes of an envelope.
use fabric.Base.{
  ◌≡◌, ◌≢◌, ◌⊎◌, refl, sym, inl, inr, ap, Option, none, some, Bytes, List, [], ◌∷◌, ◌++◌, All,
}

-- A nil payload is `none`.
pub record Envelope : Type 0 where
  pub payload : Option Bytes
  pub signature : Bytes

pub data Action : Type 0 where
  accept reconfigure reject forward : Action

abbrev pub Rule : Type 0
Rule = Envelope → Action

unfoldable pub empty_reject_rule : Rule
empty_reject_rule message = elim message.payload [ none ↦ reject | some b ↦ forward ]

unfoldable pub accept_rule : Rule
accept_rule message = accept

-- one round of the loop of `RuleSet.Apply`, with the rest of it
decide_by : Action → Rule → Action × Option Rule → Action × Option Rule
decide_by accept rule rest = (accept, some rule)
decide_by reconfigure rule rest = (reconfigure, some rule)
decide_by reject rule rest = (reject, some rule)
decide_by forward rule rest = rest

unfoldable pub apply : List Rule → Envelope → Action × Option Rule
unfolding decide_by
apply [] message = (forward, none)
apply (rule ∷ rules) message = decide_by (rule message) rule (apply rules message)

-- The rule set forwards the message with no rule, and each rule does; or there is a first rule that
-- does not forward it, and the set answers with that rule and its action.
abbrev pub Decides : List Rule → Envelope → Action × Option Rule → Type 0
Decides rules message r =
    (All (λ (rule : Rule). rule message ≡ forward) rules × (r ≡ (forward, none)))
    ⊎ ((before : List Rule) × (rule : Rule) × (behind : List Rule) × (rules
          ≡ before ++ (rule ∷ behind))
        × All (λ (x : Rule). x message ≡ forward) before
        × (rule message ≢ forward)
        × (r ≡ (rule message, some rule)))

decide_by-first :
    (rule : Rule) (rules : List Rule) (message : Envelope) (a : Action)
    → rule message ≡ a
    → Decides rules message (apply rules message)
    → Decides (rule ∷ rules) message (decide_by a rule (apply rules message))
unfolding decide_by
decide_by-first rule rules message forward e (inl (all, r)) = inl ((e, all), r)
decide_by-first rule rules message forward e (inr (before, x, behind, split, all, stops, r)) =
    inr (rule ∷ before, x, behind, ap (◌∷◌ rule) split, (e, all), stops, r)
decide_by-first rule rules message accept e h =
    inr ([], rule, rules, refl, tt, λ f. cc (e, f), ap (λ a. (a, some rule)) (sym e))
decide_by-first rule rules message reconfigure e h =
    inr ([], rule, rules, refl, tt, λ f. cc (e, f), ap (λ a. (a, some rule)) (sym e))
decide_by-first rule rules message reject e h =
    inr ([], rule, rules, refl, tt, λ f. cc (e, f), ap (λ a. (a, some rule)) (sym e))

-- `apply` answers with the first rule that does not forward the message, and that rule's action; it
-- forwards, with no rule, exactly if every rule does.
pub apply-Decides :
    (rules : List Rule) (message : Envelope) → Decides rules message (apply rules message)
unfolding apply
apply-Decides [] message = inl (tt, refl)
apply-Decides (rule ∷ rules) message =
    decide_by-first rule rules message (rule message) refl (apply-Decides rules message)
