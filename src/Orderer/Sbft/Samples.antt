-- ===== src/Orderer/Sbft/Samples.antt =====
-- Replicas of orderer/sbft/simplebft at concrete inputs, with a hash that is the text itself.
use fabric.Base.{
  ◌≡◌, ◌≢◌, refl, ◌⊎◌, Option, none, some, List, [], ◌∷◌, Bytes, ok, err, ◌==◌, nat_eq, list_eq,
  arith,
}
use fabric.Orderer.Sbft.Messages.{
  Config, BatchHeader, Batch, Subject, subject_eq, ViewChange, Checkpoint, Msg,
}
use fabric.Orderer.Sbft.System
use fabric.Orderer.Sbft.System.{System, Crash}
use fabric.Orderer.Sbft.Merkle
use fabric.Orderer.Sbft.Xset
use fabric.Orderer.Sbft.State
use fabric.Orderer.Sbft.State.{Sbft, ReplicaInfo, World}
use fabric.Orderer.Sbft.Phases
use fabric.Orderer.Sbft.Checkpoints
use fabric.Orderer.Sbft.Backlog
use fabric.Orderer.Sbft.Replica
use fabric.Orderer.Sbft.Replica.{Event}
use fabric.Orderer.Sbft.Frame.{Keeps, fresh_cur}
use fabric.Orderer.Sbft.Backlogs.{Waits, process_backlog_returns}
use fabric.Orderer.Sbft.Backlogs.Short.{AreShort, receive-AreShort}
use fabric.Orderer.Sbft.Certificates.{IsVoted, fresh_cur-IsVoted}
use fabric.Orderer.Sbft.Certificates.Reach.{Reach-IsVoted}
use fabric.Orderer.Sbft.Selection.Choice.{IsChoice, make_xset-IsChoice}
use fabric.Orderer.Sbft.Roots.{Collision, merkle_hash_data-binds}
use fabric.Orderer.Sbft.Delivery.{Delivers, handle_checkpoint-Delivers}
use fabric.Orderer.Sbft.Crashes.{receive-prepare_crash}

-- A header is the number, and the previous hash and the hash of the payloads behind it.
abbrev read_header : Bytes → Option BatchHeader
read_header [] = none
read_header (q ∷ []) = some record { seq = q; prev_hash = none; data_hash = none }
read_header (q ∷ p ∷ ds) = some record { seq = q; prev_hash = some (p ∷ []); data_hash = some ds }

abbrev genesis : Batch
genesis = record { header = 0 ∷ []; payloads = []; signatures = [] }

-- the subject that the old view may have executed
abbrev old_subject : Subject
old_subject = record { seq = record { view = 0; seq = 1 }; digest = 9 ∷ [] }

abbrev view_change : ViewChange
view_change = record {
  view = 1;
  pset = old_subject ∷ [];
  qset = old_subject ∷ [];
  checkpoint = genesis;
}

abbrev sys : System
sys = record {
  hash = λ b. b;
  sign = λ b. b;
  check_sig = λ d r sig. d == sig;
  read_header = read_header;
  write_header = λ h. h.seq ∷ [];
  read_view_change = λ b. some view_change;
  write_view_change = λ v. v.view ∷ [];
  recall = λ old b. b;
}

abbrev four : Config
four = record {
  n = 4;
  f = 1;
  batch_duration_nsec = 10;
  batch_size_bytes = 1;
  request_timeout_nsec = 20;
}

abbrev alone : Config
alone = record four { n = 1; f = 0 }

abbrev world : World
world = record {
  armed = [];
  next_timer = 0;
  last_batch = genesis;
  delivered = [];
  stored_preprepare = none;
  stored_commit = none;
  stored_execute = none;
  sent = [];
  reconnects = [];
}

-- replica 0 of four, and a replica that is alone
abbrev first : Sbft
first = Replica.activate_first sys (Replica.blank sys 0 four world) 0

abbrev single : Sbft
single = Replica.activate_first sys (Replica.blank sys 0 alone world) 0

abbrev prepare_one : Msg
prepare_one = Msg.prepare record { seq = record { view = 0; seq = 1 }; digest = 1 ∷ [] }

abbrev busy : Sbft
busy = record first {
  replica_state =
      record {
        back_log = prepare_one ∷ prepare_one ∷ [];
        hello = none;
        signed_viewchange = none;
        viewchange = none;
        newview = none;
      }
      ∷ [];
}

process_backlog_returns_example : Keeps Waits busy (Backlog.process_backlog sys busy)
process_backlog_returns_example = process_backlog_returns sys busy

receive-AreShort_example :
    ((Replica.receive sys prepare_one 0 busy).0 ≢ err Crash.out_of_fuel)
    × AreShort (Replica.receive sys prepare_one 0 busy).1
receive-AreShort_example = receive-AreShort sys prepare_one 0 busy (omega arith, tt)

first-new : Replica.new_sbft sys 0 four world ≡ some (ok first)
unfolding Replica.new_sbft Replica.start State.last_seq System.decode_header
    Replica.restore_preprepare Replica.blank
first-new = refl

abbrev request : Event
request = Event.arrives (Msg.request (5 ∷ [])) 2

request-survived : (Replica.step sys request first).0 ≡ ok tt
unfolding Replica.step Replica.receive Phases.handle_request Phases.maybe_send_next_batch
    Phases.send_requests Phases.send_preprepare Phases.propose_batch State.last_seq
    System.decode_header Replica.activate_first Replica.restore_votes Replica.blank
    State.cancel_view_change_timer State.cancel Phases.next_requests Phases.cancel_batch_timer
    Phases.batch_size
request-survived = refl

Reach-IsVoted_example :
    IsVoted sys (Replica.step sys request first).1.config (Replica.step sys request first).1.cur
Reach-IsVoted_example =
    Reach-IsVoted sys four 0 world first (Replica.step sys request first).1 refl first-new
      (Replica.Reach.next request Replica.Reach.here request-survived)

abbrev votes : List ViewChange
votes = view_change ∷ view_change ∷ view_change ∷ []

abbrev chosen : Subject
chosen = record { seq = record { view = 1; seq = 1 }; digest = 9 ∷ [] }

votes-xset : Xset.make_xset sys four 1 votes ≡ ok (some (some chosen, genesis))
unfolding Xset.make_xset Xset.number Xset.xset_of Xset.best_of Xset.select_from Xset.select
    Xset.selected Xset.scan_votes Xset.scan_step Xset.scan_pset Xset.count_a1 Xset.count_a2
    Xset.agrees Xset.vouches System.decode_header System.no_faulty_quorum System.one_correct_quorum
votes-xset = refl

make_xset-IsChoice_example :
    (vs : List Xset.Vote) × (Xset.number sys votes ≡ ok vs)
    × IsChoice four 1 vs (some chosen) genesis
make_xset-IsChoice_example = make_xset-IsChoice sys four 1 votes (some chosen) genesis votes-xset

abbrev constant : Bytes → Bytes
constant b = 7 ∷ []

abbrev three_payloads : List Bytes
three_payloads = (1 ∷ []) ∷ (2 ∷ []) ∷ (3 ∷ []) ∷ []

abbrev other_payloads : List Bytes
other_payloads = (1 ∷ []) ∷ (4 ∷ []) ∷ (3 ∷ []) ∷ []

same-root :
    Merkle.merkle_hash_data constant three_payloads
    ≡ Merkle.merkle_hash_data constant other_payloads
unfolding Merkle.merkle_hash_data Merkle.merkle_hash_digests Merkle.merkle_rounds
    Merkle.next_digests
same-root = refl

merkle_hash_data-binds_example : (three_payloads ≡ other_payloads) ⊎ Collision constant
merkle_hash_data-binds_example =
    merkle_hash_data-binds constant 1 (λ b. refl) three_payloads other_payloads refl same-root

-- The replica that is alone has accepted a batch.
abbrev batch_one : Batch
batch_one = record { header = 1 ∷ []; payloads = (5 ∷ []) ∷ []; signatures = [] }

abbrev accepted : Sbft
accepted = record single { cur = fresh_cur record { view = 0; seq = 1 } (1 ∷ []) none batch_one }

abbrev checkpoint_one : Checkpoint
checkpoint_one = record { seq = 1; digest = 1 ∷ []; signature = 1 ∷ [] }

handle_checkpoint-Delivers_example :
    Delivers sys
      (Backlog.process_backlog sys)
      accepted
      (Checkpoints.handle_checkpoint sys (Backlog.process_backlog sys) checkpoint_one 0 accepted)
handle_checkpoint-Delivers_example =
    handle_checkpoint-Delivers sys (Backlog.process_backlog sys) checkpoint_one 0 accepted
      (fresh_cur-IsVoted sys accepted.config record { view = 0; seq = 1 } (1 ∷ []) none batch_one)

-- It delivers the batch with its own signature.
delivered-once :
    (Checkpoints.handle_checkpoint sys State.done checkpoint_one 0 accepted).1.world.delivered
    ≡ (record batch_one { signatures = (0, 1 ∷ []) ∷ [] } ∷ [])
unfolding Checkpoints.handle_checkpoint Checkpoints.add_checkpoint Checkpoints.tally_sums
    Checkpoints.sum_at Checkpoints.weak_quorum Checkpoints.finish_weak Checkpoints.finish_found
    Checkpoints.finish_at Checkpoints.complete Checkpoints.cpset System.one_correct_quorum
    State.deliver_batch State.remove_all State.cancel Phases.maybe_send_next_batch
    Phases.cancel_batch_timer Phases.next_requests Phases.send_requests Replica.activate_first
    Replica.restore_votes Replica.blank State.cancel_view_change_timer
delivered-once = refl

abbrev empty_replica : ReplicaInfo
empty_replica = record {
  back_log = [];
  hello = none;
  signed_viewchange = none;
  viewchange = none;
  newview = none;
}

receive-prepare_crash_example :
    Replica.receive sys (Msg.prepare first.cur.subject) 2 first ≡ (err Crash.nil_map, first)
unfolding Replica.activate_first Replica.restore_votes Replica.blank Replica.repeat
    State.cancel_view_change_timer State.cancel
receive-prepare_crash_example =
    receive-prepare_crash sys 2 first empty_replica refl refl refl refl refl
