-- ===== src/Orderer/Sbft/Frame/Requests.antt =====
-- The frame of the requests and of the batches that a primary sends.
use fabric.Base.{
  ℕ, ◌≢◌, refl, Bool, Bool-cases, inl, inr, some, List, [], ◌∷◌, ◌++◌, Bytes, err, arith, leb, not,
  ◌&&◌, ◌||◌, is_none, list_eq, nat_eq,
}
use fabric.Base.Assoc.{insert}
use fabric.Orderer.Sbft.Messages.{Batch, Preprepare}
use fabric.Orderer.Sbft.System.{System, Crash, decode_header, make_batch, batch_hash}
use fabric.Orderer.Sbft.State
use fabric.Orderer.Sbft.State.{Sbft, Method}
use fabric.Orderer.Sbft.Phases
use fabric.Orderer.Sbft.Frame.{Frame, Keeps, Keeps-ok, Keeps-step, Keeps-if, Keeps-read}
use fabric.Orderer.Sbft.Frame.Votes.{broadcast-Keeps, cancel-Keeps, handle_checked_preprepare-Keeps}

pub decode_header-stops : (sys : System) (b : Batch) → decode_header sys b ≢ err Crash.out_of_fuel
unfolding decode_header
decode_header-stops sys b = ground arith

pub last_seq-stops : (sys : System) (s : Sbft) → State.last_seq sys s ≢ err Crash.out_of_fuel
unfolding State.last_seq
last_seq-stops sys s = ground (arith, decode_header-stops sys s.world.last_batch)

module _ {sys : System} {R : Sbft → Sbft → Type 0} (F : Frame sys R) where
  persist-Keeps : (pp : Preprepare) (s : Sbft) → R s (Phases.persist_preprepare pp s)
  unfolding Phases.persist_preprepare
  persist-Keeps pp s = F.same s _ refl refl refl

  propose_batch-Keeps :
      (batch : List Bytes) (s : Sbft) (seq : ℕ) → Keeps R s (Phases.propose_batch sys batch s seq s)
  unfolding Phases.propose_batch
  propose_batch-Keeps batch s seq = Keeps-ok F s _ tt (
      F.trans s _ _ (persist-Keeps m s) (
        F.trans (Phases.persist_preprepare m s) _ _ (broadcast-Keeps F _ _)
          (handle_checked_preprepare-Keeps F _ _ _)))
    where
      m : Preprepare
      m = record {
        seq = Phases.next_seq sys s seq;
        batch = some (
            make_batch sys (Phases.next_seq sys s seq).seq (batch_hash sys s.world.last_batch)
              batch);
      }

  send_preprepare-Keeps :
      (batch : List Bytes) (s : Sbft) → Keeps R s (Phases.send_preprepare sys batch s)
  unfolding Phases.send_preprepare
  send_preprepare-Keeps batch s =
      Keeps-read F s _ _ (last_seq-stops sys s) λ seq e. propose_batch-Keeps batch s seq

  send_requests-Keeps :
      (batch : List Bytes) (s : Sbft) → Keeps R s (Phases.send_requests sys batch s)
  unfolding Phases.send_requests
  send_requests-Keeps [] s = Keeps-ok F s _ tt (F.start s)
  send_requests-Keeps (r ∷ rs) s =
      Keeps-step F s _ _ (F.same s _ refl refl refl) (send_preprepare-Keeps (r ∷ rs) _)

  cancel_batch_timer-Keeps : (s : Sbft) → R s (Phases.cancel_batch_timer sys s)
  unfolding Phases.cancel_batch_timer
  cancel_batch_timer-Keeps s =
      F.trans s _ _ (cancel-Keeps F s.batch_timer s) (F.same _ _ refl refl refl)

  pub maybe_send_next_batch-Keeps : (s : Sbft) → Keeps R s (Phases.maybe_send_next_batch sys s)
  unfolding Phases.maybe_send_next_batch
  maybe_send_next_batch-Keeps s = Keeps-step F s t _ (cancel_batch_timer-Keeps s) (
      Keeps-if F t rests _ _ (λ e. Keeps-ok F t t tt (F.start t))
        (λ e. send_requests-Keeps (Phases.next_requests sys t) t))
    where
      t : Sbft
      t = Phases.cancel_batch_timer sys s

      rests : Bool
      rests = not (State.is_primary t && t.active_view) || not t.cur.checkpoint_done

  start_batch_timer-Keeps : (s : Sbft) → R s (Phases.start_batch_timer sys s)
  unfolding Phases.start_batch_timer State.arm
  start_batch_timer-Keeps s = elim (Bool-cases (is_none s.batch_timer)) [
    | inl e ↦ rw e (F.same s _ refl refl refl)
    | inr e ↦ rw e (F.start s)
  ]

  pub handle_request-Keeps : (req : Bytes) (s : Sbft) → Keeps R s (Phases.handle_request sys req s)
  unfolding Phases.handle_request
  handle_request-Keeps req s =
      Keeps-if F s (State.is_primary s && s.active_view) _ _
        (λ p.
          Keeps-if F s (leb s.config.batch_size_bytes (Phases.batch_size sys u.batch)) _ _
            (λ q. Keeps-step F s u _ (F.same s u refl refl refl) (maybe_send_next_batch-Keeps u))
            (λ q.
              Keeps-ok F s _ tt
                (F.trans s u _ (F.same s u refl refl refl) (start_batch_timer-Keeps u))))
        (λ p. Keeps-ok F s _ tt (F.same s _ refl refl refl))
    where
      u : Sbft
      u = record s { pending = insert (sys.hash req) req s.pending; batch = s.batch ++ (req ∷ []) }
