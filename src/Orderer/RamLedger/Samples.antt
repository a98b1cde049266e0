-- ===== src/Orderer/RamLedger/Samples.antt =====
-- Chains of at most two blocks, with the theorem of the ledger applied to it.
use fabric.Base.{some, ◌≡◌, refl, arith, Bytes, List, [], ◌∷◌}
use fabric.Orderer.RamLedger.{
  Block, RamLedger, new_chain, append, append_block, next_block, height, pre_genesis,
  new_ram_ledger, system_ledger, get_or_create, chain_id_of,
}
use fabric.Orderer.RamLedger.Cursors.{StartType, iterator}
use fabric.Orderer.RamLedger.Cursors.Seeking.{Answers, iterator-Answers}
use fabric.Orderer.RamLedger.Linked.{IsWf, IsMade, by_new, here, next, Reach_new-IsWf}

abbrev hash : Block → Bytes
hash b = b.number ∷ []

abbrev hash_data : List Bytes → Bytes
hash_data messages = []

abbrev appended : RamLedger → RamLedger
appended rl = (append hash hash_data ((1 ∷ []) ∷ []) [] rl).1

abbrev two : RamLedger
two = appended (appended (new_chain 2))

two_high : height two ≡ 2
unfolding height append append_block next_block
two_high = refl

-- a block 0 whose one envelope is its payload, which is its chain
abbrev genesis : Block
genesis = record {
  number = 0;
  previous_hash = [];
  data_hash = [];
  messages = (7 ∷ []) ∷ [];
  metadata = [];
}

abbrev system_chain : RamLedger
system_chain = record { max_size = 2; size = 2; before = pre_genesis ∷ []; newest = genesis }

system_chain-IsMade :
    IsMade hash hash_data (λ e. some e) (λ p. some p) 2 (some genesis) system_chain
unfolding new_ram_ledger system_ledger get_or_create append_block chain_id_of
system_chain-IsMade = by_new (record { max_size = 2; ledgers = (7 ∷ [], system_chain) ∷ [] }) refl

abbrev longer : RamLedger
longer = appended system_chain

longer-IsWf : IsWf hash hash_data (some genesis) longer
longer-IsWf =
    Reach_new-IsWf hash hash_data (λ e. some e) (λ p. some p) 2 system_chain-IsMade
      (λ b e. ground (arith, e)) (next ((1 ∷ []) ∷ []) [] here)

Reach_new-IsWf_example : IsWf hash hash_data (some genesis) longer
Reach_new-IsWf_example =
    Reach_new-IsWf hash hash_data (λ e. some e) (λ p. some p) 2 system_chain-IsMade
      (λ b e. ground (arith, e)) (next ((1 ∷ []) ∷ []) [] here)

iterator-Answers_example :
    Answers StartType.specified 1 longer (iterator StartType.specified 1 longer)
iterator-Answers_example =
    iterator-Answers hash hash_data (some genesis) StartType.specified 1 longer (omega arith)
      longer-IsWf
