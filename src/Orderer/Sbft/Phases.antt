-- ===== src/Orderer/Sbft/Phases.antt =====
-- orderer/sbft/simplebft: request.go, preprepare.go, prepare.go, commit.go, execute.go and
-- checkpoint.go. `resume_backlog` stands for `processBacklog`, which calls these handlers again.
use fabric.Base.{
  ℕ, ◌+◌, ◌-◌, ◌%◌, ◌^◌, ltb, leb, true, false, if◌then◌else◌, not, ◌&&◌, ◌||◌, ◌==◌, nat_eq,
  list_eq, option_eq, is_none, Option, none, some, List, [], ◌∷◌, ◌++◌, Bytes, map, length, Result,
  ok, err,
}
use fabric.Base.Assoc.{Assoc, lookup, insert}
use fabric.Base.Proc.{resume}
use fabric.Orderer.Sbft.Messages.{
  SeqView, seq_view_eq, BatchHeader, Batch, Preprepare, Subject, subject_eq, Checkpoint, Msg,
}
use fabric.Orderer.Sbft.System.{
  System, Crash, BatchError, no_faulty_quorum, batch_hash, make_batch, check_batch,
}
use fabric.Orderer.Sbft.State.{
  Sbft, Callback, Method, done, crash, primary_id, is_primary, entries, broadcast, cancel, arm,
  cancel_view_change_timer, last_seq,
}

-- prepare.go, commit.go
unfoldable pub send_prepare : Sbft → Sbft
unfolding broadcast
send_prepare s = broadcast (Msg.prepare s.cur.subject) s

unfoldable pub send_commit : Sbft → Sbft
unfolding broadcast
send_commit s = broadcast (Msg.commit s.cur.subject) record s {
  cur = record s.cur { sent_commit = true };
  world = record s.world { stored_commit = some s.cur.subject };
}

unfoldable pub maybe_send_commit : Sbft → Sbft
unfolding send_commit
maybe_send_commit s =
    if s.cur.sent_commit || ltb (length (entries s.cur.prep)) (no_faulty_quorum s.config - 1)
    then s
    else send_commit s

unfoldable pub persist_preprepare : Preprepare → Sbft → Sbft
persist_preprepare pp s = record s { world = record s.world { stored_preprepare = some pp } }

module _ (sys : System) where
  unfoldable pub accept_preprepare : SeqView → Batch → Sbft → Sbft
  unfolding arm persist_preprepare
  accept_preprepare seq b s =
      record (arm s.config.request_timeout_nsec Callback.request_timed_out
        (persist_preprepare record { seq = seq; batch = some b } s)) {
          cur = record {
            subject = record { seq = seq; digest = batch_hash sys b };
            timeout = some s.world.next_timer;
            preprep = some b;
            prep = some [];
            commit = some [];
            sent_commit = false;
            executed = false;
            checkpoint = some [];
            checkpoint_done = false;
          };
        }

  unfoldable pub handle_checked_preprepare : SeqView → Batch → Sbft → Sbft
  unfolding accept_preprepare send_prepare maybe_send_commit
  handle_checked_preprepare seq b s =
      let t = accept_preprepare seq b s in
      maybe_send_commit (if is_primary t then t else send_prepare t)

  unfoldable pub next_seq : Sbft → ℕ → SeqView
  next_seq s seq = record { view = s.view; seq = (seq + 1) % 2 ^ 64 }

  unfoldable pub propose_batch : List Bytes → Sbft → ℕ → Method (Unit {0})
  unfolding next_seq persist_preprepare broadcast handle_checked_preprepare
  propose_batch batch s seq _ =
      let b = make_batch sys (next_seq s seq).seq (batch_hash sys s.world.last_batch) batch in
      let m : Preprepare = record { seq = next_seq s seq; batch = some b } in
      done (
        handle_checked_preprepare (next_seq s seq) b
          (broadcast (Msg.preprepare m) (persist_preprepare m s)))

  unfoldable pub send_preprepare : List Bytes → Method (Unit {0})
  unfolding propose_batch
  send_preprepare batch s = resume (last_seq sys s, s) (propose_batch batch s)

  -- request.go
  unfoldable pub cancel_batch_timer : Sbft → Sbft
  unfolding cancel
  cancel_batch_timer s = record (cancel s.batch_timer s) { batch_timer = none }

  -- the requests of the next batch: those that wait, or else all that are pending
  unfoldable pub next_requests : Sbft → List Bytes
  next_requests s = elim s.batch [ [] ↦ map (λ e. e.1) s.pending | r ∷ rs ↦ r ∷ rs ]

  unfoldable pub send_requests : List Bytes → Method (Unit {0})
  unfolding send_preprepare
  send_requests [] s = done s
  send_requests (r ∷ rs) s = send_preprepare (r ∷ rs) record s { batch = [] }

  unfoldable pub maybe_send_next_batch : Method (Unit {0})
  unfolding cancel_batch_timer next_requests send_requests
  maybe_send_next_batch s =
      let t = cancel_batch_timer s in
      if not (is_primary t && t.active_view) || not t.cur.checkpoint_done
      then done t
      else send_requests (next_requests t) t

  unfoldable pub batch_size : List Bytes → ℕ
  batch_size [] = 0
  batch_size (r ∷ rs) = (length r + batch_size rs) % 2 ^ 64

  unfoldable pub start_batch_timer : Sbft → Sbft
  unfolding arm
  start_batch_timer s =
      if is_none s.batch_timer
      then record (arm s.config.batch_duration_nsec Callback.send_next_batch s) {
        batch_timer = some s.world.next_timer;
      }
      else s

  unfoldable pub handle_request : Bytes → Method (Unit {0})
  unfolding maybe_send_next_batch batch_size start_batch_timer
  handle_request req s =
      let t = record s { pending = insert (sys.hash req) req s.pending } in
      let u = record t { batch = t.batch ++ (req ∷ []) } in
      if is_primary s && s.active_view
      then if leb s.config.batch_size_bytes (batch_size u.batch)
        then maybe_send_next_batch u
        else done (start_batch_timer u)
      else done t

  -- preprepare.go
  unfoldable pub prev_bytes : BatchHeader → Bytes
  prev_bytes h = elim h.prev_hash [ none ↦ [] | some p ↦ p ]

  unfoldable pub accept_checked :
      Preprepare → Batch → Sbft → Result BatchError BatchHeader → Method (Unit {0})
  unfolding handle_checked_preprepare prev_bytes
  accept_checked pp b s (err e) = done
  accept_checked pp b s (ok h) =
      if h.seq == pp.seq.seq && prev_bytes h == batch_hash sys s.world.last_batch
      then (λ t. done (handle_checked_preprepare pp.seq b t))
      else done

  unfoldable pub check_offer : Preprepare → Sbft → Option Batch → Method (Unit {0})
  unfolding accept_checked
  check_offer pp s none = done
  check_offer pp s (some b) = accept_checked pp b s (check_batch sys s.config b true false)

  unfoldable pub check_preprepare : Preprepare → Sbft → ℕ → Method (Unit {0})
  unfolding next_seq check_offer
  check_preprepare pp s seq =
      if not (pp.seq == next_seq s seq) || s.cur.subject.seq.seq == pp.seq.seq
      then done
      else check_offer pp s pp.batch

  unfoldable pub handle_preprepare : Preprepare → ℕ → Method (Unit {0})
  unfolding check_preprepare
  handle_preprepare pp src s =
      if src == s.id || not (src == primary_id s)
      then done s
      else resume (last_seq sys s, s) (check_preprepare pp s)

  -- checkpoint.go, execute.go
  unfoldable pub make_checkpoint : Sbft → Checkpoint
  make_checkpoint s = record {
    seq = s.cur.subject.seq.seq;
    digest = s.cur.subject.digest;
    signature = sys.sign s.cur.subject.digest;
  }

  unfoldable pub send_checkpoint : Sbft → Sbft
  unfolding make_checkpoint broadcast
  send_checkpoint s = broadcast (Msg.checkpoint (make_checkpoint s)) s

  unfoldable pub maybe_execute : Sbft → Sbft
  unfolding send_checkpoint
  maybe_execute s =
      if s.cur.executed || ltb (length (entries s.cur.commit)) (no_faulty_quorum s.config)
      then s
      else send_checkpoint record s {
        cur = record s.cur { executed = true };
        world = record s.world { stored_execute = some s.cur.subject };
      }

  unfoldable pub add_prepare : Subject → ℕ → Option (Assoc ℕ Subject) → Method (Unit {0})
  unfolding maybe_send_commit
  add_prepare p src none t = crash Crash.nil_map t
  add_prepare p src (some m) t =
      done (maybe_send_commit record t { cur = record t.cur { prep = some (insert src p m) } })

  unfoldable pub handle_prepare : Subject → ℕ → Method (Unit {0})
  unfolding add_prepare
  handle_prepare p src s =
      if ltb p.seq.seq s.cur.subject.seq.seq || not (p == s.cur.subject)
      then done s
      else if not (is_none (lookup src (entries s.cur.prep)))
      then done s
      else add_prepare p src s.cur.prep s

  unfoldable pub add_commit : Subject → ℕ → Option (Assoc ℕ Subject) → Method (Unit {0})
  unfolding maybe_execute cancel_view_change_timer
  add_commit c src none t = crash Crash.nil_map t
  add_commit c src (some m) t = done (
      maybe_execute (
        cancel_view_change_timer
          record t { cur = record t.cur { commit = some (insert src c m) } }))

  unfoldable pub handle_commit : Subject → ℕ → Method (Unit {0})
  unfolding add_commit
  handle_commit c src s =
      if ltb c.seq.seq s.cur.subject.seq.seq || not (c == s.cur.subject)
      then done s
      else if not (is_none (lookup src (entries s.cur.commit)))
      then done s
      else add_commit c src s.cur.commit s
