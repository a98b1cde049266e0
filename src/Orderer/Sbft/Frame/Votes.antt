-- ===== src/Orderer/Sbft/Frame/Votes.antt =====
-- The frame of the handlers of one batch.
use fabric.Base.{
  ℕ, ◌≡◌, refl, ◌-◌, ◌≤◌, Bool, false, Bool-cases, inl, inr, Option, none, some, length, arith, ltb,
  ◌||◌,
}
use fabric.Orderer.Sbft.Messages.{SeqView, Batch, Msg}
use fabric.Orderer.Sbft.System.{System, no_faulty_quorum, batch_hash}
use fabric.Orderer.Sbft.State
use fabric.Orderer.Sbft.State.{Sbft, Method, entries}
use fabric.Orderer.Sbft.Phases
use fabric.Orderer.Sbft.Frame.{Frame}

pub not_lt : (a b : ℕ) → ltb a b ≡ false → b ≤ a
not_lt a b h = ground arith

pub or_false : (a b : Bool) → (a || b) ≡ false → b ≡ false
or_false a b h = ground arith

module _ {sys : System} {R : Sbft → Sbft → Type 0} (F : Frame sys R) where
  pub broadcast-Keeps : (m : Msg) (s : Sbft) → R s (State.broadcast m s)
  unfolding State.broadcast
  broadcast-Keeps m s = F.same s _ refl refl refl

  pub cancel-Keeps : (t : Option ℕ) (s : Sbft) → R s (State.cancel t s)
  unfolding State.cancel
  cancel-Keeps none s = F.start s
  cancel-Keeps (some t) s = F.same s _ refl refl refl

  pub deliver_batch-Keeps : (b : Batch) (s : Sbft) → R s (State.deliver_batch sys b s)
  unfolding State.deliver_batch
  deliver_batch-Keeps b s = F.same s _ refl refl refl

  pub cancel_view_change_timer-Keeps : (s : Sbft) → R s (State.cancel_view_change_timer s)
  unfolding State.cancel_view_change_timer
  cancel_view_change_timer-Keeps s =
      F.trans s _ _ (cancel-Keeps s.view_change_timer s) (F.same _ _ refl refl refl)

  send_commit-Keeps :
      (s : Sbft)
      → no_faulty_quorum s.config - 1 ≤ length (entries s.cur.prep)
      → R s (Phases.send_commit s)
  unfolding Phases.send_commit State.broadcast
  send_commit-Keeps s h = F.trans s _ _ (F.send_commit s h) (F.same _ _ refl refl refl)

  pub maybe_send_commit-Keeps : (s : Sbft) → R s (Phases.maybe_send_commit s)
  unfolding Phases.maybe_send_commit
  maybe_send_commit-Keeps s = elim (Bool-cases waits) [
    | inl e ↦ rw e (F.start s)
    | inr e ↦ rw e (send_commit-Keeps s (not_lt _ _ (or_false s.cur.sent_commit _ e)))
  ]
    where
      waits : Bool
      waits = s.cur.sent_commit || ltb (length (entries s.cur.prep)) (no_faulty_quorum s.config - 1)

  pub accept_preprepare-Keeps :
      (seq : SeqView) (b : Batch) (s : Sbft) → R s (Phases.accept_preprepare sys seq b s)
  unfolding Phases.accept_preprepare State.arm
  accept_preprepare-Keeps seq b s =
      F.trans s _ _ (F.accept s seq (batch_hash sys b) (some s.world.next_timer) b)
        (F.same _ _ refl refl refl)

  pub handle_checked_preprepare-Keeps :
      (seq : SeqView) (b : Batch) (s : Sbft) → R s (Phases.handle_checked_preprepare sys seq b s)
  unfolding Phases.handle_checked_preprepare Phases.send_prepare
  handle_checked_preprepare-Keeps seq b s =
      F.trans s t _ (accept_preprepare-Keeps seq b s) (elim (Bool-cases (State.is_primary t)) [
        | inl e ↦ rw e (maybe_send_commit-Keeps t)
        | inr e ↦ rw e (F.trans t _ _ (broadcast-Keeps _ t) (maybe_send_commit-Keeps _))
      ])
    where
      t : Sbft
      t = Phases.accept_preprepare sys seq b s
