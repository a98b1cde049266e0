-- ===== src/Orderer/RamLedger/Linked.antt =====
-- The retained blocks form a chain, and there are not too many.
use Prim.Native.Nat.{max}
use fabric.Base.{
  ℕ, ◌+◌, ◌^◌, ◌<◌, ◌≤◌, ◌≡◌, refl, sym, subst, ◌⊎◌, Bool-cases, Option-cases, inl, inr, ltb,
  Option, none, some, Bytes, List, [], ◌∷◌, ◌++◌, All, length, length-append, arith,
}
use fabric.Orderer.RamLedger.{
  Block, RamLedger, RamLedgerFactory, add_one, pre_genesis, new_chain, drop_oldest, append_block,
  next_block, append, new_ram_ledger, system_ledger, get_or_create, chain_id_of,
}

drop_oldest-length :
    (bs : List Block) (a : Block) → length (drop_oldest (bs ++ (a ∷ []))) ≡ length bs
drop_oldest-length [] a = refl
drop_oldest-length (b ∷ bs) a = omega (arith, length-append bs (a ∷ []))

All-append : (P : Block → Type 0) (xs ys : List Block) → All P xs → All P ys → All P (xs ++ ys)
All-append P [] ys h k = k
All-append P (x ∷ xs) ys (h, hs) k = (h, All-append P xs ys hs k)

drop_oldest-All :
    (P : Block → Type 0) (bs : List Block) (a : Block) (cs : List Block)
    → All P ((bs ++ (a ∷ [])) ++ cs)
    → All P (drop_oldest (bs ++ (a ∷ [])) ++ cs)
drop_oldest-All P [] a cs h = h.1
drop_oldest-All P (b ∷ bs) a cs h = h.1

module _ (hash : Block → Bytes) (hash_data : List Bytes → Bytes) where
  -- The second block is next in number and bears the hash of the first, unless they are the
  -- pre-genesis block and the genesis block that the chain was made with, if any.
  abbrev pub Follows : Option Block → Block → Block → Type 0
  Follows genesis a b =
      (b.number ≡ add_one a.number)
      × ((b.previous_hash ≡ hash a) ⊎ ((a ≡ pre_genesis) × (genesis ≡ some b)))

  -- The blocks of the list and the last one follow each other.
  abbrev pub Linked : Option Block → List Block → Block → Type 0
  Linked genesis [] b = Unit
  Linked genesis (a ∷ []) b = Follows genesis a b
  Linked genesis (a ∷ c ∷ bs) b = Follows genesis a c × Linked genesis (c ∷ bs) b

  pub record IsWf (genesis : Option Block) (rl : RamLedger) : Type 0 where
    pub linked : Linked genesis rl.before rl.newest
    pub numbers : All (λ b. b.number < 2 ^ 64) (rl.before ++ (rl.newest ∷ []))
    pub counted : rl.size ≡ length rl.before + 1
    pub bounded : rl.size ≤ max 1 rl.max_size

  pub data Reach (rl : RamLedger) : RamLedger → Type 0 where
    here : Reach rl rl
    next :
        {t : RamLedger} (messages metadata : List Bytes)
        → Reach rl t
        → Reach rl (append hash hash_data messages metadata t).1

  -- A chain as the factory makes it: by `GetOrCreate`, or by `New` with a genesis block.
  pub data IsMade (read_envelope : Bytes → Option Bytes) (read_payload : Bytes → Option Bytes)
      (max_size : ℕ) : Option Block → RamLedger → Type 0 where
    by_get_or_create : IsMade read_envelope read_payload max_size none (new_chain max_size)
    by_new :
        {genesis : Block} {rl : RamLedger} (rlf : RamLedgerFactory)
        → new_ram_ledger read_envelope read_payload max_size genesis ≡ some (rlf, rl)
        → IsMade read_envelope read_payload max_size (some genesis) rl

  module _ (genesis : Option Block) where
    Linked-append :
        (bs : List Block) (a b : Block)
        → Linked genesis bs a
        → Follows genesis a b
        → Linked genesis (bs ++ (a ∷ [])) b
    Linked-append [] a b h f = f
    Linked-append (c ∷ []) a b h f = (h, f)
    Linked-append (c ∷ d ∷ bs) a b (g, h) f = (g, Linked-append (d ∷ bs) a b h f)

    drop_oldest-Linked :
        (bs : List Block) (b : Block) → Linked genesis bs b → Linked genesis (drop_oldest bs) b
    drop_oldest-Linked [] b h = tt
    drop_oldest-Linked (a ∷ []) b h = tt
    drop_oldest-Linked (a ∷ c ∷ bs) b h = h.1

    append_block-IsWf :
        (rl : RamLedger) (b : Block)
        → Follows genesis rl.newest b
        → IsWf genesis rl
        → IsWf genesis (append_block rl b)
    unfolding append_block
    append_block-IsWf rl b f wf =
        let longer = Linked-append rl.before rl.newest b wf.linked f in
        let small : b.number < 2 ^ 64 = omega (arith, f.0) in
        let all =
          All-append (λ b. b.number < 2 ^ 64) (rl.before ++ (rl.newest ∷ [])) (b ∷ []) wf.numbers
            (small, tt) in
        elim (Bool-cases (ltb rl.max_size (rl.size + 1))) [
          | inl full ↦ rw full (record {
            linked = drop_oldest-Linked (rl.before ++ (rl.newest ∷ [])) b longer;
            numbers = drop_oldest-All (λ b. b.number < 2 ^ 64) rl.before rl.newest (b ∷ []) all;
            counted = omega (arith, wf.counted, drop_oldest-length rl.before rl.newest);
            bounded = wf.bounded;
          })
          | inr room ↦ rw room (record {
            linked = longer;
            numbers = all;
            counted = omega (arith, wf.counted, length-append rl.before (rl.newest ∷ []));
            bounded = ground (arith, room);
          })
        ]

    append-IsWf :
        (messages metadata : List Bytes) (rl : RamLedger)
        → IsWf genesis rl
        → IsWf genesis (append hash hash_data messages metadata rl).1
    unfolding append next_block
    append-IsWf messages metadata rl wf =
        append_block-IsWf rl (next_block hash hash_data rl messages metadata) (refl, inl refl) wf

  new_chain-IsWf : (genesis : Option Block) (max_size : ℕ) → IsWf genesis (new_chain max_size)
  new_chain-IsWf genesis max_size = record {
    linked = tt;
    numbers = (omega arith, tt);
    counted = refl;
    bounded = omega arith;
  }

  new_ram_ledger-chain :
      (read_envelope : Bytes → Option Bytes) (read_payload : Bytes → Option Bytes) (max_size : ℕ)
      (genesis : Block) (rlf : RamLedgerFactory) (rl : RamLedger)
      → new_ram_ledger read_envelope read_payload max_size genesis ≡ some (rlf, rl)
      → rl ≡ append_block (new_chain max_size) genesis
  unfolding new_ram_ledger system_ledger get_or_create
  new_ram_ledger-chain read_envelope read_payload max_size genesis rlf rl e =
      elim (Option-cases (chain_id_of read_envelope read_payload genesis.messages)) [
        | inl absent ↦ cc (rw (new_ram_ledger, absent) at e)
        | inr (chain_id, found) ↦ cc (rw (new_ram_ledger, found) at e)
      ]

  IsMade-IsWf :
      (read_envelope : Bytes → Option Bytes) (read_payload : Bytes → Option Bytes) (max_size : ℕ)
      {genesis : Option Block} {rl : RamLedger}
      → IsMade read_envelope read_payload max_size genesis rl
      → ((b : Block) → genesis ≡ some b → b.number ≡ 0)
      → IsWf genesis rl
  IsMade-IsWf read_envelope read_payload max_size by_get_or_create zeroth =
      new_chain-IsWf none max_size
  IsMade-IsWf read_envelope read_payload max_size (by_new {genesis} {rl} rlf e) zeroth =
      subst (IsWf (some genesis))
        (sym (new_ram_ledger-chain read_envelope read_payload max_size genesis rlf rl e))
        (append_block-IsWf (some genesis) (new_chain max_size) genesis
          (zeroth genesis refl, inr (refl, refl)) (new_chain-IsWf (some genesis) max_size))

  -- Take a chain that `GetOrCreate` makes, or that `New` makes with a genesis block of number 0, and
  -- any calls of `Append`. Each retained block has the number after that of the block before it,
  -- which wraps after the pre-genesis block, and bears its hash, except that the genesis block of
  -- `New` bears whatever it came with; the size counts the retained blocks, and is at most the
  -- greatest size (1 if that is 0).
  pub Reach_new-IsWf :
      (read_envelope : Bytes → Option Bytes) (read_payload : Bytes → Option Bytes) (max_size : ℕ)
      {genesis : Option Block} {made rl : RamLedger}
      → IsMade read_envelope read_payload max_size genesis made
      → ((b : Block) → genesis ≡ some b → b.number ≡ 0)
      → Reach made rl
      → IsWf genesis rl
  Reach_new-IsWf read_envelope read_payload max_size made zeroth here =
      IsMade-IsWf read_envelope read_payload max_size made zeroth
  Reach_new-IsWf read_envelope read_payload max_size {genesis} made zeroth
        (next {t} messages metadata r) =
      append-IsWf genesis messages metadata t
        (Reach_new-IsWf read_envelope read_payload max_size made zeroth r)
