-- ===== src/Orderer/Solo/History.antt =====
-- What the solo consenter makes of the messages that it has taken.
use mathlib.Core.List.{append-nil}
use fabric.Base.{
  ℕ, ◌≡◌, ◌∙◌, refl, sym, ap, Bool, true, false, List, [], ◌∷◌, ◌++◌, append_assoc, arith,
}
use fabric.Orderer.Filter.{Envelope}
use fabric.Orderer.BlockCutter.{Receiver, Batches, ordered, cut}
use fabric.Orderer.BlockCutter.Order.{joined, taken, Keeps, ordered-Keeps}
use fabric.Orderer.Solo.{
  Consenter, new_plain_consenter, append_batches, on_message, append_cut, on_timer, Step, message,
  timeout, Reach, here, next,
}

-- The envelopes that the run has taken, in the order of their arrival.
taken_by : {s t : Consenter} → Step s t → List Envelope
taken_by (message {s} c msg) = taken msg (ordered c s.cutter msg).0.1
taken_by (timeout set) = []

unfoldable pub history : {s t : Consenter} → Reach s t → List Envelope
unfolding taken_by
history here = []
history (next r st) = history r ++ taken_by st

-- The envelopes of the ledger's blocks, and those that wait.
abbrev pub held : Consenter → List Envelope
held s = joined s.ledger ++ s.cutter.cur_batch

joined-append : (xs ys : Batches) → joined (xs ++ ys) ≡ joined xs ++ joined ys
joined-append [] ys = refl
joined-append (x ∷ xs) ys = rw (joined-append xs ys) (sym (append_assoc x (joined xs) (joined ys)))

regroup :
    (s : Consenter) (batches : Batches) (kept new : List Envelope)
    → joined batches ++ kept ≡ s.cutter.cur_batch ++ new
    → joined (s.ledger ++ batches) ++ kept ≡ held s ++ new
regroup s batches kept new e = rw (
  joined-append s.ledger batches,
  append_assoc (joined s.ledger) (joined batches) kept,
  e,
  append_assoc (joined s.ledger) s.cutter.cur_batch new,
)

held-append_batches :
    (s : Consenter) (msg : Envelope) (batches : Batches) (ok : Bool) (r : Receiver)
    → Keeps s.cutter.cur_batch msg ((batches, ok), r)
    → held (append_batches s ((batches, ok), r)) ≡ held s ++ taken msg ok
unfolding append_batches
held-append_batches s msg [] ok r k =
    ground (arith, append-nil s.ledger, regroup s [] r.cur_batch (taken msg ok) k)
held-append_batches s msg (b ∷ bs) true r k = regroup s (b ∷ bs) r.cur_batch (taken msg true) k
held-append_batches s msg (b ∷ bs) false r k = regroup s (b ∷ bs) r.cur_batch (taken msg false) k

held-on_timer : (s : Consenter) → held (on_timer s) ≡ held s
unfolding on_timer cut
held-on_timer s = go s.cutter.cur_batch refl
  where
    go :
        (had : List Envelope)
        → s.cutter.cur_batch ≡ had
        → held (append_cut s (had, record s.cutter { cur_batch = [] })) ≡ held s
    go [] e = unfold append_cut in ap (λ h. joined s.ledger ++ h) (sym e)
    go (m ∷ ms) e =
        unfold append_cut in
        regroup s ((m ∷ ms) ∷ []) [] [] (ap (λ h. h ++ []) (append-nil (m ∷ ms) ∙ sym e))
        ∙ append-nil (held s)

held-Step : {s t : Consenter} (st : Step s t) → held t ≡ held s ++ taken_by st
unfolding taken_by
held-Step (message {s} c msg) =
    unfold on_message in
    held-append_batches s msg (ordered c s.cutter msg).0.0 (ordered c s.cutter msg).0.1
      (ordered c s.cutter msg).1 (ordered-Keeps c s.cutter msg)
held-Step (timeout {s} set) = held-on_timer s ∙ sym (append-nil (held s))

-- However the messages and the timeouts interleave, the blocks of the ledger and the batch that
-- waits are, one after another, exactly the messages that were taken, in the order in which they
-- came: none is lost, doubled or moved.
pub held-Reach :
    (batch_size : ℕ) {s : Consenter} (r : Reach (new_plain_consenter batch_size) s)
    → held s ≡ history r
unfolding history
held-Reach batch_size here = refl
held-Reach batch_size (next r st) =
    held-Step st ∙ ap (λ h. h ++ taken_by st) (held-Reach batch_size r)
