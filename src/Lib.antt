-- ===== src/Lib.antt =====
-- Hyperledger Fabric: models of the parts of the peer and of the orderer that carry their logic,
-- with proofs of what makes them correct.
--
-- A transaction is simulated by an endorsing peer on its ledger, which records what it read and
-- wrote; the orderer filters envelopes, puts them in an order and cuts them into blocks; each peer
-- validates the transactions of a block against the versions that it has committed, and commits the
-- valid ones.
--
-- Base: shared names; Base/Tests (Boolean tests and equality as an instance), Base/Lists (lists
-- measured by native numbers), Base/Assoc (Go's maps as association lists), Base/Results and
-- Base/Proc (functions and methods that may fail).
--
-- Ledger: core/ledger/kvledger/txmgmt.
--   Ledger/Wire, Ledger/Database: what is used of github.com/golang/protobuf and of goleveldb
--     (through core/ledger/util/db), as records of operations and laws: parameters of the model.
--   Ledger/RwSet: rwset.go. Marshal and Unmarshal of each type; `loop_count` is the conversion of a
--     length to int.
--   Ledger/CompositeKey, Ledger/StoredValue, Ledger/TxMgr: lockbasedtxmgmt/lockbased_txmgr.go.
--     LockBasedTxMgr is the store and the update set; ValidateAndPrepare is `validate_and_prepare`,
--     validateTx `validate_tx`, addWriteSetToBatch `add_write_set_to_batch`, Commit `commit`.
--   Ledger/World: the specification, a map from namespaces and keys to versioned values on which
--     transactions run one after another.
--   Ledger/OrderedNumbers: core/ledger/util/util.go.
--   Ledger/Simulator: lockbased_tx_simulator.go and lockbased_query_executer.go.
--
-- Orderer: orderer/.
--   Orderer/Filter, Orderer/BlockCutter: common/broadcastfilter/filter.go and
--     common/blockcutter/blockcutter.go; Ordered is `ordered`, Cut `cut`.
--   Orderer/Solo: solo/consensus.go. One round of the loop is a step (`Step`): a message, on which
--     main does `on_message`, or the timer, on which it does `on_timer`.
--   Orderer/Cauthdsl: common/cauthdsl. `compile` gives functions, as in the code, in which `none` is
--     a panic; Orderer/Cauthdsl/Meaning says what a policy asks for.
--   Orderer/RamLedger: rawledger/ramledger/ramledger.go; New is `new_ram_ledger`, Append `append`,
--     the list of blocks is from the oldest on; Orderer/RamLedger/Cursors has the iterators, where
--     `lost` is the panic of a walk off the list.
--   Orderer/Policies: common/policies/policy.go; an item on which ProposeConfig panics (a signature
--     policy that is nil inside its envelope) is told apart from one that it refuses.
--   Orderer/ConfigFilter: common/broadcastfilter/configfilter/configfilter.go.
--   Orderer/ConfigTx: common/configtx. Validate is `validate`, Apply `apply_config`, processConfig
--     `process_config`, NewConfigurationManager `new_configuration_manager`. The manager meets its handlers by the interface of Orderer/ConfigTx/Handlers,
--     whose laws BytesHandler and the policies' manager fulfil (Orderer/ConfigTx/Proposals).
--
--   Orderer/Sbft: sbft/simplebft. A replica is the record Sbft of Orderer/Sbft/State, with what it
--     has done to its surroundings in `world`; a method is a function of the state that may panic
--     (`Crash`). Phases is request.go, preprepare.go, prepare.go, commit.go and execute.go,
--     Checkpoints checkpoint.go, Backlog backlog.go, Views and Changes viewchange.go and newview.go,
--     Xset xset.go, Merkle crypto.go, System batch.go, Connection connection.go, Replica simplebft.go, where
--     Receive is `receive` and New `new_sbft`. Sbft/Frame derives from the few assignments to `cur`
--     and `replicaState` what every handler keeps; Backlogs and Certificates apply it. Messages are
--     values: no message shares memory with the state, as if Send wrote it out at once. A Go map is
--     enumerated in the order of its list. `recall` is what LastBatch returns after Deliver. The
--     quorums n-f and f+1 are below 2^63.
--     The loop of processBacklog has as fuel one more than the messages that wait.
--
-- Gossip: gossip/state. Gossip/PayloadsBuffer is payloads_buffer.go, Gossip/Delivery the loop of
--   deliverPayloads in state.go, whose rounds interleave with the pushes of other goroutines, and
--   whose commits may fail.
--
-- Numbers: a uint64 is a native number, with its wrap-around written out (`% 2 ^ 64`), an int32
-- an integer of Base/Ints. Byte slices and strings are lists of numbers; a nil slice is `none` where the code tells it from an empty one.
-- Loops over slices and maps are recursions on lists; the two loops with fuel, of Merkle roots and
-- of backlogs in Orderer/Sbft, have enough. A panic is an error value.
--
-- Not modelled: logging, printers, opening and closing of files and databases, and the locks, which
-- make each method one step. A Go map is enumerated in some order: where the order can be seen it is
-- a parameter.
pub mod Base
pub mod Ledger
pub mod Orderer
pub mod Gossip
