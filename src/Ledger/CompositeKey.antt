-- ===== src/Ledger/CompositeKey.antt =====
-- The keys of the store, in lockbasedtxmgmt/lockbased_txmgr.go: a namespace, a zero byte and a key.
use fabric.Base.{
  ℕ, Bytes, [], ◌∷◌, ◌++◌, ◌≡◌, refl, Option, none, some, false, if◌then◌else◌, ◌==◌, nat_eq, All,
  arith,
}

abbrev pub composite_key_sep : ℕ
composite_key_sep = 0

unfoldable pub construct_composite_key : Bytes → Bytes → Bytes
construct_composite_key ns key = ns ++ (composite_key_sep ∷ key)

-- `bytes.SplitN(compositeKey, sep, 2)`: what stands before the first separator and behind it. With
-- no separator there is one part only, and `split[1]` is out of range.
unfoldable pub split_composite_key : Bytes → Option (Bytes × Bytes)
split_composite_key [] = none
split_composite_key (c ∷ cs) =
    if c == composite_key_sep
    then some ([], cs)
    else elim (split_composite_key cs) [ none ↦ none | some r ↦ some (c ∷ r.0, r.1) ]

-- A namespace without the separator.
abbrev pub HasNoSep : Bytes → Type 0
HasNoSep ns = All (λ c. (c == composite_key_sep) ≡ false) ns

-- A composite key is taken apart into what it was made of, if the namespace has no zero byte.
pub split-construct :
    (ns key : Bytes)
    → HasNoSep ns
    → split_composite_key (construct_composite_key ns key) ≡ some (ns, key)
unfolding split_composite_key construct_composite_key
split-construct [] key h = refl
split-construct (c ∷ ns) key h = ground (arith, split-construct ns key h.1)

pub construct-injective :
    (ns ns' key key' : Bytes)
    → HasNoSep ns
    → HasNoSep ns'
    → construct_composite_key ns key ≡ construct_composite_key ns' key'
    → ◌≡◌ {A = Bytes × Bytes} (ns, key) (ns', key')
construct-injective ns ns' key key' h h' e =
    cc (split-construct ns key h, split-construct ns' key' h')
