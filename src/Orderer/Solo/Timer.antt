-- ===== src/Orderer/Solo/Timer.antt =====
-- The timer and the ledger of the solo consenter, in every state that its loop can reach.
use mathlib.Core.List.{append-nil}
use fabric.Base.{
  ℕ, ◌≡◌, ◌∙◌, refl, sym, ap, Bool, true, false, not, inl, inr, List, [], ◌∷◌, ◌++◌, arith, All,
  length, ◌≢◌,
}
use fabric.Orderer.Filter.{Envelope}
use fabric.Orderer.BlockCutter.{Receiver, Batches, is_empty, ordered, cut}
use fabric.Orderer.BlockCutter.Order.{Cases, ordered-Cases}
use fabric.Orderer.BlockCutter.Bounds.{most, HasRoom, IsFit, Fits, ordered-Fits}
use fabric.Orderer.Solo.{
  Consenter, new_plain_consenter, append_batches, on_message, append_cut, on_timer, Step, message,
  timeout, Reach, here, next,
}

-- The timer is set exactly while envelopes wait, the current batch has room, and the batches of the
-- ledger are not empty and not too long.
pub record Inv (s : Consenter) : Type 0 where
  pub timer_set : s.timer ≡ not (is_empty s.cutter.cur_batch)
  pub room : HasRoom s.cutter
  pub fit : All (IsFit (most s.cutter)) s.ledger

All-append {ℓ} :
    {A : Type ℓ} (P : A → Type 0) (xs ys : List A) → All P xs → All P ys → All P (xs ++ ys)
All-append P [] ys hx hy = hy
All-append P (x ∷ xs) ys (h, hx) hy = (h, All-append P xs ys hx hy)

is_empty-append {ℓ} : {A : Type ℓ} (xs : List A) (x : A) → is_empty (xs ++ (x ∷ [])) ≡ false
is_empty-append [] x = refl
is_empty-append (y ∷ xs) x = refl

gathered-Inv :
    (s : Consenter) (msg : Envelope) (t : Bool)
    → s.timer ≡ t
    → let r = record s.cutter { cur_batch = s.cutter.cur_batch ++ (msg ∷ []) } in
      HasRoom r → Inv s → Inv (append_batches s (([], true), r))
unfolding append_batches
gathered-Inv s msg true e room i = rw e (record {
  timer_set = rw (is_empty-append s.cutter.cur_batch msg) refl;
  room = room;
  fit = rw (append-nil s.ledger) i.fit;
})
gathered-Inv s msg false e room i = rw e (record {
  timer_set = rw (is_empty-append s.cutter.cur_batch msg) refl;
  room = room;
  fit = i.fit;
})

append_batches-Inv :
    (s : Consenter) (msg : Envelope) (out : (Batches × Bool) × Receiver)
    → Cases s.cutter msg out
    → Fits s.cutter out
    → Inv s
    → Inv (append_batches s out)
append_batches-Inv s msg out (inl e) fits i = rw e (
    unfold append_batches in
    record { timer_set = i.timer_set; room = i.room; fit = rw (append-nil s.ledger) i.fit })
append_batches-Inv s msg out (inr (inl e)) fits i =
    rw e (gathered-Inv s msg s.timer refl (rw e at fits).1 i)
append_batches-Inv s msg out (inr (inr (b, bs, e))) fits i =
    let handed = rw e at fits in
    rw e (
      unfold append_batches in
      record {
        timer_set = refl;
        room = handed.1;
        fit = All-append (IsFit (most s.cutter)) s.ledger (b ∷ bs) i.fit handed.0;
      })

append_cut-Inv :
    (s : Consenter) (had : List Envelope)
    → s.cutter.cur_batch ≡ had
    → Inv s
    → Inv (append_cut s (had, record s.cutter { cur_batch = [] }))
unfolding append_cut
append_cut-Inv s [] e i = record { timer_set = refl; room = omega arith; fit = i.fit }
append_cut-Inv s (m ∷ ms) e i = record {
  timer_set = refl;
  room = omega arith;
  fit =
      All-append (IsFit (most s.cutter)) s.ledger ((m ∷ ms) ∷ []) i.fit
        ((omega arith, omega (arith, i.room, ap length e)), tt);
}

Step-Inv : {s t : Consenter} → Step s t → Inv s → Inv t
Step-Inv (message {s} c msg) i =
    unfold on_message in
    append_batches-Inv s msg (ordered c s.cutter msg) (ordered-Cases c s.cutter msg)
      (ordered-Fits c s.cutter msg i.room) i
Step-Inv (timeout {s} set) i = unfold on_timer cut in append_cut-Inv s s.cutter.cur_batch refl i

Reach-Inv : {s t : Consenter} → Inv s → Reach s t → Inv t
Reach-Inv i here = i
Reach-Inv i (next r st) = Step-Inv st (Reach-Inv i r)

-- Whatever messages come and whenever the timer goes off: the timer is set exactly while envelopes
-- wait in the current batch, and every block of the ledger has at least one envelope and at most as
-- many as the batch size (1 if that is 0).
pub Reach_new-Inv :
    (batch_size : ℕ) {s : Consenter} → Reach (new_plain_consenter batch_size) s → Inv s
Reach_new-Inv batch_size r = Reach-Inv (record { timer_set = refl; room = omega arith; fit = tt }) r

waits_of_timer : (had : List Envelope) → true ≡ not (is_empty had) → had ≢ []
waits_of_timer had h e = cc (rw e at h)

-- The warning of the loop is unreachable: when the timer goes off there are envelopes to cut, the
-- block that is appended holds all of them, in order, and none is left.
pub on_timer-Reach :
    (batch_size : ℕ) {s : Consenter}
    → Reach (new_plain_consenter batch_size) s
    → s.timer ≡ true
    → (s.cutter.cur_batch ≢ [])
      × ((on_timer s).ledger ≡ s.ledger ++ (s.cutter.cur_batch ∷ []))
      × ((on_timer s).cutter.cur_batch ≡ [])
unfolding on_timer cut append_cut
on_timer-Reach batch_size {s} r set =
    let waits =
      waits_of_timer s.cutter.cur_batch (sym set ∙ (Reach_new-Inv batch_size r).timer_set) in
    (waits, ground arith, ground arith)
