-- ===== src/Orderer/Solo.antt =====
-- orderer/solo/consensus.go: the loop of the consenter that orders alone.
pub mod Timer
pub mod History
use fabric.Base.{ℕ, ◌≡◌, Bool, true, false, if◌then◌else◌, not, ◌&&◌, List, [], ◌∷◌, ◌++◌}
use fabric.Orderer.Filter.{Envelope}
use fabric.Orderer.BlockCutter.{Context, Receiver, Batches, is_empty, ordered, cut, new_receiver}

-- The batches that were appended to the ledger, and whether `timer` is set.
pub record Consenter : Type 0 where
  pub cutter : Receiver
  pub ledger : Batches
  pub timer : Bool

abbrev pub new_plain_consenter : ℕ → Consenter
new_plain_consenter batch_size = record {
  cutter = new_receiver batch_size;
  ledger = [];
  timer = false;
}

append_batches : Consenter → (Batches × Bool) × Receiver → Consenter
append_batches s ((batches, ok), r) =
    if ok && (is_empty batches && not s.timer)
    then record s { cutter = r; timer = true }
    else record {
      cutter = r;
      ledger = s.ledger ++ batches;
      timer = if is_empty batches then s.timer else false;
    }

-- A message comes on `sendChan`.
unfoldable pub on_message : Context → Consenter → Envelope → Consenter
unfolding append_batches
on_message c s msg = append_batches s (ordered c s.cutter msg)

-- The timer goes off.
append_cut : Consenter → List Envelope × Receiver → Consenter
append_cut s ([], r) = record s { cutter = r; timer = false }
append_cut s (m ∷ ms, r) = record {
  cutter = r;
  ledger = s.ledger ++ ((m ∷ ms) ∷ []);
  timer = false;
}

unfoldable pub on_timer : Consenter → Consenter
unfolding append_cut
on_timer s = append_cut s (cut s.cutter)

-- One round of the loop. A nil channel is never ready, so the timer goes off only if it is set.
pub data Step : Consenter → Consenter → Type 0 where
  message : {s : Consenter} (c : Context) (msg : Envelope) → Step s (on_message c s msg)
  timeout : {s : Consenter} → s.timer ≡ true → Step s (on_timer s)

pub data Reach (s : Consenter) : Consenter → Type 0 where
  here : Reach s s
  next : {t u : Consenter} → Reach s t → Step t u → Reach s u
