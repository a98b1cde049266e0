-- ===== src/Orderer/RamLedger.antt =====
-- orderer/rawledger/ramledger/ramledger.go: a chain that keeps its last blocks in memory.
pub mod Linked
pub mod Cursors
mod Samples
use fabric.Base.{
  ℕ, ◌+◌, ◌-◌, ◌%◌, ◌^◌, Bool, true, false, if◌then◌else◌, ltb, ◌==◌, ◌||◌, nat_eq, list_eq, Option,
  none, some, Bytes, List, [], ◌∷◌, ◌++◌, map,
}
use fabric.Base.Assoc.{Assoc, lookup, insert}

pub record Block : Type 0 where
  pub number : ℕ
  pub previous_hash : Bytes
  pub data_hash : Bytes
  pub messages : List Bytes
  pub metadata : List Bytes

-- The list of blocks from the oldest on: those before the newest, oldest first, and the newest.
pub record RamLedger : Type 0 where
  pub max_size : ℕ
  pub size : ℕ
  pub before : List Block
  pub newest : Block

abbrev pub add_one : ℕ → ℕ
add_one n = (n + 1) % 2 ^ 64

-- the block of number `^uint64(0)`
abbrev pub pre_genesis : Block
pre_genesis = record {
  number = 2 ^ 64 - 1;
  previous_hash = [];
  data_hash = [];
  messages = [];
  metadata = [];
}

abbrev pub new_chain : ℕ → RamLedger
new_chain max_size = record { max_size = max_size; size = 1; before = []; newest = pre_genesis }

unfoldable pub height : RamLedger → ℕ
height rl = add_one rl.newest.number

-- `rl.oldest = rl.oldest.next`; there is a block behind the oldest after an append.
abbrev pub drop_oldest : List Block → List Block
drop_oldest [] = []
drop_oldest (b ∷ bs) = bs

unfoldable pub append_block : RamLedger → Block → RamLedger
append_block rl block =
    let kept = rl.before ++ (rl.newest ∷ []) in
    if ltb rl.max_size (rl.size + 1)
    then record rl { before = drop_oldest kept; newest = block }
    else record rl { before = kept; newest = block; size = rl.size + 1 }

-- The hashes of a block header and of the data are parameters.
module _ (hash : Block → Bytes) (hash_data : List Bytes → Bytes) where
  unfoldable pub next_block : RamLedger → List Bytes → List Bytes → Block
  next_block rl messages metadata = record {
    number = add_one rl.newest.number;
    previous_hash = hash rl.newest;
    data_hash = hash_data messages;
    messages = messages;
    metadata = metadata;
  }

  unfoldable pub append : List Bytes → List Bytes → RamLedger → Block × RamLedger
  append messages metadata rl =
      (next_block rl messages metadata, append_block rl (next_block rl messages metadata))

pub record RamLedgerFactory : Type 0 where
  pub max_size : ℕ
  pub ledgers : Assoc Bytes RamLedger

unfoldable pub get_or_create : Bytes → RamLedgerFactory → RamLedger × RamLedgerFactory
get_or_create chain_id rlf = elim (lookup chain_id rlf.ledgers) [
  | some l ↦ (l, rlf)
  | none ↦ (
    new_chain rlf.max_size,
    record rlf { ledgers = insert chain_id (new_chain rlf.max_size) rlf.ledgers },
  )
]

abbrev new_factory : ℕ → RamLedgerFactory
new_factory max_size = record { max_size = max_size; ledgers = [] }

-- The ledger of the map is the one that the genesis block is appended to.
system_ledger : Bytes → Block → RamLedger × RamLedgerFactory → RamLedgerFactory × RamLedger
unfolding append_block
system_ledger chain_id genesis (rl, rlf) = (
  record rlf { ledgers = insert chain_id (append_block rl genesis) rlf.ledgers },
  append_block rl genesis,
)

-- `read_envelope` reads the payload of an envelope, and `read_payload` the chain of a payload's
-- header. A block from which they read none stops the program.
module _ (read_envelope : Bytes → Option Bytes) (read_payload : Bytes → Option Bytes) where
  chain_id_of : List Bytes → Option Bytes
  chain_id_of [] = none
  chain_id_of (envelope ∷ messages) = elim (read_envelope envelope) [
    | none ↦ none
    | some payload ↦ read_payload payload
  ]

  -- `New`: the factory, and the ledger of the system chain
  unfoldable pub new_ram_ledger : ℕ → Block → Option (RamLedgerFactory × RamLedger)
  unfolding chain_id_of system_ledger get_or_create
  new_ram_ledger max_size genesis = elim (chain_id_of genesis.messages) [
    | none ↦ none
    | some chain_id ↦
        some (system_ledger chain_id genesis (get_or_create chain_id (new_factory max_size)))
  ]

abbrev pub chain_ids : RamLedgerFactory → List Bytes
chain_ids rlf = map (λ e. e.0) rlf.ledgers
