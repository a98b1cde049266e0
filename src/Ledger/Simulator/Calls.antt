-- ===== src/Ledger/Simulator/Calls.antt =====
-- Simulations: the calls of a transaction, and what is recorded after them.
use fabric.Base.{
  ◌≡◌, ◌⊎◌, refl, false, nat_eq, list_eq, Option, none, some, Bytes, List, [], ◌∷◌, All, inl, inr,
}
use fabric.Base.Assoc.{insert}
use fabric.Ledger.Wire.{ProtoBuffer}
use fabric.Ledger.Database.{Database}
use fabric.Ledger.CompositeKey.{
  HasNoSep, construct_composite_key, split_composite_key, split-construct,
}
use fabric.Ledger.StoredValue.{decode_value}
use fabric.Ledger.World.{World}
use fabric.Ledger.TxMgr.Effect.{Holds}
use fabric.Ledger.Simulator.{
  LockBasedTxSimulator, holder, put_holder, set_state, get_state, new_tx_simulator, scan_next,
  record_read,
}
use fabric.Ledger.Simulator.View.{
  read_holder, write_holder, cache_of, state-get_state, state-set_state,
}
use fabric.Ledger.Simulator.Recorded.{
  IsRecorded, put_holder-IsRecorded, read-IsRecord, put_holder-finished, get_state-IsRecorded,
  set_state-IsRecorded,
}

-- The calls of a transaction on its simulator, in their order: `GetState`, `SetState` (which
-- `DeleteState` and `SetStateMultipleKeys` call), and `Next` of an iterator over a range of a
-- namespace, with the entries that it has left.
pub data Call : Type 0 where
  get : Bytes → Bytes → Call
  put : Bytes → Bytes → Option Bytes → Call
  next : Bytes → List (Bytes × Bytes) → Call

-- An entry of the store is of the namespace, and has the value and the version of the world.
abbrev pub IsEntry : ProtoBuffer → World → Bytes → Bytes × Bytes → Type 0
IsEntry p w ns e =
    (key : Bytes) × (e.0 ≡ construct_composite_key ns key) × (decode_value p e.1 ≡ w ns key)

-- No namespace has a zero byte, and an iterator meets entries of its own namespace only.
abbrev pub IsOwn : ProtoBuffer → World → Call → Type 0
IsOwn p w (get ns key) = HasNoSep ns
IsOwn p w (put ns key value) = HasNoSep ns
IsOwn p w (next ns left) = HasNoSep ns × All (IsEntry p w ns) left

module _ (p : ProtoBuffer) (d : Database) where
  open d use {Store}

  call_state : Store → LockBasedTxSimulator → Call → LockBasedTxSimulator
  call_state db s (get ns key) = (get_state p d db ns key s).1
  call_state db s (put ns key value) = (set_state ns key value s).1
  call_state db s (next ns left) = (scan_next p d ns left s).1

  unfoldable pub simulate : Store → LockBasedTxSimulator → List Call → LockBasedTxSimulator
  unfolding call_state
  simulate db s [] = s
  simulate db s (c ∷ cs) = simulate db (call_state db s c) cs

  -- Nothing is recorded, or what the world has at one key.
  abbrev IsNexted : World → Bytes → LockBasedTxSimulator → LockBasedTxSimulator → Type 0
  IsNexted w ns s t =
      (t ≡ s)
      ⊎ ((key : Bytes) × (t
            ≡ put_holder ns
                record (holder s ns) {
                  read_map = insert key (cache_of key (w ns key)) (holder s ns).read_map;
                }
                s))

  scan_next_cases :
      (w : World) (ns : Bytes) (left : List (Bytes × Bytes)) (s : LockBasedTxSimulator)
      → HasNoSep ns
      → All (IsEntry p w ns) left
      → IsNexted w ns s (scan_next p d ns left s).1
  unfolding scan_next record_read cache_of
  scan_next_cases w ns [] s names own = inl refl
  scan_next_cases w ns ((k, v) ∷ rest) s names ((key, e, value), own) =
      go (decode_value p v).value refl (scan_next_cases w ns rest s names own)
    where
      split : split_composite_key k ≡ some (ns, key)
      split = rw e (split-construct ns key names)

      go :
          (o : Option Bytes)
          → (decode_value p v).value ≡ o
          → IsNexted w ns s (scan_next p d ns rest s).1
          → IsNexted w ns s (scan_next p d ns ((k, v) ∷ rest) s).1
      go none h further = rw (scan_next, split, h) further
      go (some found) h further = rw (scan_next, split, h) (inr (key, rw value refl))

  call_state-finished :
      (db : Store) (w : World) (s : LockBasedTxSimulator) (c : Call)
      → s.finished ≡ false
      → IsOwn p w c
      → (call_state db s c).finished ≡ false
  unfolding call_state
  call_state-finished db w s (get ns key) running own =
      elim (state-get_state p d db s ns key running) [
        | inl e ↦ rw e (put_holder-finished s ns (holder s ns) running)
        | inr e ↦ rw e (
            put_holder-finished (put_holder ns (holder s ns) s) ns
              (read_holder p d db ns key (holder s ns))
              (put_holder-finished s ns (holder s ns) running))
      ]
  call_state-finished db w s (put ns key value) running own =
      rw (state-set_state p d s ns key value running) (
        put_holder-finished (put_holder ns (holder s ns) s) ns
          (write_holder key value (holder s ns)) (put_holder-finished s ns (holder s ns) running))
  call_state-finished db w s (next ns left) running (names, own) =
      elim (scan_next_cases w ns left s names own) [
        | inl e ↦ rw e running
        | inr (key, e) ↦ rw e (put_holder-finished s ns _ running)
      ]

  call_state-IsRecorded :
      (db : Store) (w : World) (s : LockBasedTxSimulator) (c : Call)
      → Holds p d db w
      → IsOwn p w c
      → s.finished ≡ false
      → IsRecorded w s
      → IsRecorded w (call_state db s c)
  unfolding call_state
  call_state-IsRecorded db w s (get ns key) holds names running r =
      get_state-IsRecorded p d db w holds s ns key names r running
  call_state-IsRecorded db w s (put ns key value) holds names running r =
      set_state-IsRecorded p d db w holds s ns key names r value running
  call_state-IsRecorded db w s (next ns left) holds (names, own) running r =
      elim (scan_next_cases w ns left s names own) [
        | inl e ↦ rw e r
        | inr (key, e) ↦ rw e (put_holder-IsRecorded w s ns _ names (read-IsRecord w s ns key r) r)
      ]

  simulate-IsRecorded :
      (db : Store) (w : World) (calls : List Call) (s : LockBasedTxSimulator)
      → Holds p d db w
      → All (IsOwn p w) calls
      → s.finished ≡ false
      → IsRecorded w s
      → IsRecorded w (simulate db s calls)
  unfolding simulate
  simulate-IsRecorded db w [] s holds names running r = r
  simulate-IsRecorded db w (c ∷ cs) s holds names running r =
      simulate-IsRecorded db w cs (call_state db s c) holds names.1
        (call_state-finished db w s c running names.0)
        (call_state-IsRecorded db w s c holds names.0 running r)

  pub simulate_new-IsRecorded :
      (db : Store) (w : World) (calls : List Call)
      → Holds p d db w
      → All (IsOwn p w) calls
      → IsRecorded w (simulate db new_tx_simulator calls)
  simulate_new-IsRecorded db w calls holds names =
      simulate-IsRecorded db w calls new_tx_simulator holds names refl tt
