-- ===== src/Orderer/Sbft/State.antt =====
-- orderer/sbft/simplebft/simplebft.go: the state of a replica, and what it does to its surroundings.
use fabric.Base.{
  ℕ, zero, suc, ◌+◌, ◌*◌, ◌%◌, ◌^◌, Bool, ◌==◌, nat_eq, list_eq, Option, none, some, List, [], ◌∷◌,
  ◌++◌, Bytes, get_elem?, Result, ok, err,
}
use fabric.Base.Assoc.{Assoc, insert, remove}
use fabric.Base.Proc.{Proc}
use fabric.Orderer.Sbft.Messages.{
  Config, Batch, Preprepare, Subject, ViewChange, Signed, NewView, Checkpoint, Hello, Msg,
  subject_eq,
}
use fabric.Orderer.Sbft.System.{System, Crash, decode_header}

-- `preprep` has the batch only: its number and view are the cell of `subject.seq`. A nil map is
-- `none`.
pub record ReqInfo : Type 0 where
  pub subject : Subject
  pub timeout : Option ℕ
  pub preprep : Option Batch
  pub prep : Option (Assoc ℕ Subject)
  pub commit : Option (Assoc ℕ Subject)
  pub sent_commit : Bool
  pub executed : Bool
  pub checkpoint : Option (Assoc ℕ Checkpoint)
  pub checkpoint_done : Bool

pub record ReplicaInfo : Type 0 where
  pub back_log : List Msg
  pub hello : Option Hello
  pub signed_viewchange : Option Signed
  pub viewchange : Option ViewChange
  pub newview : Option NewView

-- the functions that the timers call
pub data Callback : Type 0 where
  send_next_batch request_timed_out view_change_timed_out : Callback

-- The timers that are set, with their durations; the ledger; the store of `Persist`; and what was
-- sent, delivered and reconnected, in order.
pub record World : Type 0 where
  pub armed : Assoc ℕ (ℕ × Callback)
  pub next_timer : ℕ
  pub last_batch : Batch
  pub delivered : List Batch
  pub stored_preprepare : Option Preprepare
  pub stored_commit : Option Subject
  pub stored_execute : Option Subject
  pub sent : List (ℕ × Msg)
  pub reconnects : List ℕ

-- A timer is a number, and `none` is nil or the `dummyCanceller`. A duration is its 64 bits.
pub record Sbft : Type 0 where
  pub config : Config
  pub id : ℕ
  pub view : ℕ
  pub batch : List Bytes
  pub batch_timer : Option ℕ
  pub cur : ReqInfo
  pub active_view : Bool
  pub last_new_view_sent : Option NewView
  pub view_change_timeout : ℕ
  pub view_change_timer : Option ℕ
  pub replica_state : List ReplicaInfo
  pub pending : Assoc Bytes Bytes
  pub world : World

abbrev pub Method {ℓ} : Type ℓ → Type ℓ
Method A = Proc Sbft Crash A

abbrev pub done : Method (Unit {0})
done s = (ok tt, s)

abbrev pub crash {ℓ} : {A : Type ℓ} → Crash → Method A
crash e s = (err e, s)

abbrev pub primary_id_view : Sbft → ℕ → ℕ
primary_id_view s v = v % s.config.n

abbrev pub primary_id : Sbft → ℕ
primary_id s = primary_id_view s s.view

abbrev pub is_primary : Sbft → Bool
is_primary s = primary_id s == s.id

abbrev pub next_view : Sbft → ℕ
next_view s = (s.view + 1) % 2 ^ 64

abbrev pub entries {ℓ} : {V : Type ℓ} → Option (Assoc ℕ V) → Assoc ℕ V
entries none = []
entries (some m) = m

-- the copies of a message for the replicas from 0 to n - 1
unfoldable pub copies : ℕ → Msg → List (ℕ × Msg)
copies zero m = []
copies (suc i) m = copies i m ++ ((i, m) ∷ [])

unfoldable pub send_to : ℕ → Msg → Sbft → Sbft
send_to dest m s = record s { world = record s.world { sent = s.world.sent ++ ((dest, m) ∷ []) } }

unfoldable pub broadcast : Msg → Sbft → Sbft
unfolding copies
broadcast m s = record s { world = record s.world { sent = s.world.sent ++ copies s.config.n m } }

unfoldable pub cancel : Option ℕ → Sbft → Sbft
cancel none s = s
cancel (some t) s = record s { world = record s.world { armed = remove t s.world.armed } }

-- `sys.Timer(d, f)`: the new timer is `s.world.next_timer`
unfoldable pub arm : ℕ → Callback → Sbft → Sbft
arm d f s = record s {
  world = record s.world {
    armed = insert s.world.next_timer (d, f) s.world.armed;
    next_timer = suc s.world.next_timer;
  };
}

unfoldable pub cancel_view_change_timer : Sbft → Sbft
unfolding cancel
cancel_view_change_timer s = record (cancel s.view_change_timer s) {
  view_change_timeout = s.config.request_timeout_nsec * 2 % 2 ^ 64;
}

-- `replicaState[i]`, which panics out of range
unfoldable pub replica : ℕ → Sbft → Result Crash ReplicaInfo
replica i s = elim (get_elem? s.replica_state i) [
  | none ↦ err Crash.index_out_of_range
  | some r ↦ ok r
]

unfoldable pub set_at {ℓ} : {A : Type ℓ} → ℕ → A → List A → List A
set_at i a [] = []
set_at zero a (x ∷ xs) = a ∷ xs
set_at (suc i) a (x ∷ xs) = x ∷ set_at i a xs

unfoldable pub put_replica : ℕ → ReplicaInfo → Sbft → Sbft
unfolding set_at
put_replica i r s = record s { replica_state = set_at i r s.replica_state }

unfoldable pub remove_all : (Bytes → Bytes) → List Bytes → Assoc Bytes Bytes → Assoc Bytes Bytes
remove_all hash [] m = m
remove_all hash (p ∷ ps) m = remove_all hash ps (remove (hash p) m)

module _ (sys : System) where
  -- `seq()`, of the last batch
  unfoldable pub last_seq : Sbft → Result Crash ℕ
  last_seq s = elim (decode_header sys s.world.last_batch) [ err e ↦ err e | ok h ↦ ok h.seq ]

  -- The keys of `pending` are the hashes; the code writes them in base64.
  unfoldable pub deliver_batch : Batch → Sbft → Sbft
  unfolding remove_all
  deliver_batch b s = record s {
    pending = remove_all sys.hash b.payloads s.pending;
    world = record s.world {
      last_batch = sys.recall s.world.last_batch b;
      delivered = s.world.delivered ++ (b ∷ []);
    };
  }
