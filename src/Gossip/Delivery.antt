-- ===== src/Gossip/Delivery.antt =====
-- gossip/state/state.go: the loop of `deliverPayloads` beside the goroutines that push.
pub mod Live
pub mod Sequence
use fabric.Base.{
  ℕ, suc, ◌≡◌, Bool, true, false, Option, none, some, Bytes, List, [], ◌∷◌, ◌++◌, Result, ok, err,
  if◌then◌else◌,
}
use fabric.Gossip.PayloadsBuffer.{Payload, PayloadsBuffer, new_payloads_buffer, push, pop}

-- `draining` while the loop collects the payloads; `commits` has the blocks that were handed to
-- `commitBlock`, each with whether the committer took it.
pub record StateProvider (Block : Type 0) : Type 0 where
  pub payloads : PayloadsBuffer
  pub draining : Bool
  pub commits : List (Block × Bool)

module _ {Block : Type 0} where
  abbrev pub new_state_provider : ℕ → StateProvider Block
  new_state_provider height = record {
    payloads = new_payloads_buffer height;
    draining = false;
    commits = [];
  }

  -- `AddPayload`, `queueNewMessage` and `handleStateResponse` push, whatever the deliverer does.
  unfoldable pub add_payload : Payload → StateProvider Block → StateProvider Block
  add_payload p s = record s { payloads = (push p s.payloads).1 }

  -- A goroutine that waits to send meets the loop, which waits to receive.
  unfoldable pub on_ready : ℕ → StateProvider Block → StateProvider Block
  on_ready left s = record s { payloads = record s.payloads { signals = left }; draining = true }

  -- The committer answers whether it has committed the block. The loop goes on if it has not.
  unfoldable pub commit_block : Bool → Block → StateProvider Block → StateProvider Block
  commit_block taken block s = record s { commits = s.commits ++ ((block, taken) ∷ []) }

  -- the blocks that are committed
  abbrev pub taken_of : List (Block × Bool) → List Block
  taken_of [] = []
  taken_of ((block, taken) ∷ commits) =
      let rest = taken_of commits in if taken then block ∷ rest else rest

  -- `read_block` is the generated reader of a block.
  module _ (read_block : Bytes → Option Block) where
    -- One round of the inner loop, with the committer's answer. A payload that holds no block is
    -- dropped.
    unfoldable pub deliver :
        Bool → StateProvider Block → Option Payload × PayloadsBuffer → StateProvider Block
    unfolding commit_block
    deliver taken s (none, b) = record s { payloads = b; draining = false }
    deliver taken s (some p, b) = elim (read_block p.contents) [
      | none ↦ record s { payloads = b }
      | some block ↦ commit_block taken block (record s { payloads = b })
    ]

    pub data Step : StateProvider Block → StateProvider Block → Type 0 where
      pushed : {s : StateProvider Block} (p : Payload) → Step s (add_payload p s)
      woken :
          {s : StateProvider Block} (left : ℕ)
          → s.draining ≡ false
          → s.payloads.signals ≡ suc left
          → Step s (on_ready left s)
      popped :
          {s : StateProvider Block} (taken : Bool)
          → s.draining ≡ true
          → Step s (deliver taken s (pop s.payloads))

    pub data Reach (s : StateProvider Block) : StateProvider Block → Type 0 where
      here : Reach s s
      next : {t u : StateProvider Block} → Reach s t → Step t u → Reach s u
