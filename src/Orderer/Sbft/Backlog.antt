-- ===== src/Orderer/Sbft/Backlog.antt =====
-- orderer/sbft/simplebft/backlog.go: the messages that wait for a later state, and the loop that
-- takes them up again; `handleQueueableMessage` of simplebft.go, which that loop calls.
use fabric.Base.{
  ℕ, zero, suc, ◌+◌, ◌*◌, ltb, Bool, true, false, if◌then◌else◌, not, ◌&&◌, ◌||◌, ◌==◌, nat_eq,
  Option, none, some, List, [], ◌∷◌, ◌++◌, length, get_elem?,
}
use fabric.Base.Proc.{pure, resume, ◌>>=◌, ◌>>◌}
use fabric.Orderer.Sbft.Messages.{SeqView, Msg}
use fabric.Orderer.Sbft.System.{System, Crash}
use fabric.Orderer.Sbft.State.{Sbft, ReplicaInfo, Method, done, crash, replica, put_replica}
use fabric.Orderer.Sbft.Phases.{handle_preprepare, handle_prepare, handle_commit}
use fabric.Orderer.Sbft.Checkpoints.{handle_checkpoint}

abbrev max_backlog_seq : ℕ
max_backlog_seq = 4

abbrev msg_per_seq : ℕ
msg_per_seq = 3

abbrev pub max_backlog : ℕ
max_backlog = max_backlog_seq * msg_per_seq

-- `record`: the message is for a later number or view, or no view is active
unfoldable pub is_ahead : Sbft → SeqView → Bool
is_ahead s seq = not s.active_view || (ltb s.cur.subject.seq.seq seq.seq || ltb s.view seq.view)

-- For a checkpoint the code reads the number of an empty message, not of the one received.
unfoldable pub test_backlog_message : Msg → Sbft → Bool
unfolding is_ahead
test_backlog_message (Msg.preprepare pp) s = is_ahead s pp.seq && not s.cur.checkpoint_done
test_backlog_message (Msg.prepare p) s = is_ahead s p.seq
test_backlog_message (Msg.commit c) s = is_ahead s c.seq
test_backlog_message (Msg.checkpoint c) s = is_ahead s record { view = 0; seq = 0 }
test_backlog_message m s = false

unfoldable pub backlog_in : Option ReplicaInfo → List Msg
backlog_in none = []
backlog_in (some r) = r.back_log

unfoldable pub backlog_of : ℕ → Sbft → List Msg
unfolding backlog_in
backlog_of src s = backlog_in (get_elem? s.replica_state src)

unfoldable pub put_backlog : ℕ → List Msg → Sbft → Option ReplicaInfo → Sbft
unfolding put_replica
put_backlog src ms s none = s
put_backlog src ms s (some r) = put_replica src record r { back_log = ms } s

unfoldable pub set_backlog : ℕ → List Msg → Sbft → Sbft
unfolding put_backlog
set_backlog src ms s = put_backlog src ms s (get_elem? s.replica_state src)

unfoldable pub discard_backlog : ℕ → Method (Unit {0})
unfolding replica set_backlog
discard_backlog src s = resume (replica src s, s) λ r t. done (set_backlog src [] t)

unfoldable pub test_backlog : Msg → ℕ → Method Bool
unfolding replica test_backlog_message
test_backlog m src s =
    resume (replica src s, s) λ r t. pure (ltb 0 (length r.back_log) || test_backlog_message m t) t

unfoldable pub reconnect : ℕ → Method (Unit {0})
reconnect src s =
    done record s { world = record s.world { reconnects = s.world.reconnects ++ (src ∷ []) } }

unfoldable pub append_backlog : Msg → ℕ → ReplicaInfo → Method (Unit {0})
unfolding set_backlog discard_backlog reconnect
append_backlog m src r s =
    let u = set_backlog src (r.back_log ++ (m ∷ [])) s in
    if ltb max_backlog (length (r.back_log ++ (m ∷ [])))
    then (discard_backlog src >> reconnect src) u
    else done u

unfoldable pub record_backlog_msg : Msg → ℕ → Method (Unit {0})
unfolding replica append_backlog
record_backlog_msg m src s =
    if src == s.id
    then crash Crash.own_backlog s
    else resume (replica src s, s) (append_backlog m src)

-- The inner loop, over one backlog. The result is `processed`.
unfoldable pub drain_step : (Msg → ℕ → Method (Unit {0})) → ℕ → Method Bool → List Msg → Method Bool
unfolding test_backlog_message set_backlog
drain_step handle src next [] s = pure false s
drain_step handle src next (m ∷ rest) s =
    if test_backlog_message m s
    then pure false s
    else (handle m src >> next >> pure true) (set_backlog src rest s)

unfoldable pub drain : ℕ → (Msg → ℕ → Method (Unit {0})) → ℕ → Method Bool
unfolding drain_step backlog_of
drain zero handle src s = crash Crash.out_of_fuel s
drain (suc fuel) handle src s = drain_step handle src (drain fuel handle src) (backlog_of src s) s

unfoldable pub drain_all : (ℕ → Method Bool) → ℕ → ℕ → Method Bool
drain_all one zero src = pure false
drain_all one (suc n) src = one src >>= λ a. drain_all one n (suc src) >>= λ b. pure (a || b)

unfoldable pub waiting : List ReplicaInfo → ℕ
waiting [] = 0
waiting (r ∷ rs) = length r.back_log + waiting rs

module _ (sys : System) where
  unfoldable pub handle_queueable_message : Method (Unit {0}) → Msg → ℕ → Method (Unit {0})
  unfolding handle_preprepare handle_prepare handle_commit handle_checkpoint
  handle_queueable_message again (Msg.preprepare pp) src = handle_preprepare sys pp src
  handle_queueable_message again (Msg.prepare p) src = handle_prepare sys p src
  handle_queueable_message again (Msg.commit c) src = handle_commit sys c src
  handle_queueable_message again (Msg.checkpoint c) src = handle_checkpoint sys again c src
  handle_queueable_message again m src = done

  unfoldable pub repeat_if : Method (Unit {0}) → Bool → Method (Unit {0})
  repeat_if next true = next
  repeat_if next false = done

  unfoldable pub process_backlog_fuel : ℕ → Method (Unit {0})
  unfolding drain drain_all handle_queueable_message repeat_if
  process_backlog_fuel zero s = crash Crash.out_of_fuel s
  process_backlog_fuel (suc fuel) s =
      (drain_all (drain (suc fuel) (handle_queueable_message (process_backlog_fuel fuel)))
            (length s.replica_state) 0
          >>= repeat_if (process_backlog_fuel fuel))
        s

  -- The fuel is one more than the messages that wait, since a round handles one of them or is last.
  unfoldable pub process_backlog : Method (Unit {0})
  unfolding process_backlog_fuel waiting
  process_backlog s = process_backlog_fuel (suc (waiting s.replica_state)) s
