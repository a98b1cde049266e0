-- ===== src/Orderer/Sbft/Checkpoints.antt =====
-- orderer/sbft/simplebft/checkpoint.go: the votes that end a batch.
use fabric.Base.{
  ℕ, ltb, leb, true, if◌then◌else◌, not, ◌||◌, ◌==◌, nat_eq, list_eq, Option, none, some, List, [],
  ◌∷◌, ◌++◌, Bytes, length,
}
use fabric.Base.Assoc.{Assoc, lookup, insert}
use fabric.Base.Proc.{◌>>◌}
use fabric.Orderer.Sbft.Messages.{Batch, Checkpoint}
use fabric.Orderer.Sbft.System.{System, Crash, one_correct_quorum}
use fabric.Orderer.Sbft.State.{Method, done, crash, cancel, deliver_batch}
use fabric.Orderer.Sbft.Phases.{maybe_send_next_batch}

abbrev pub Sums : Type 0
Sums = Assoc Bytes (List ℕ)

unfoldable pub sum_at : Bytes → Sums → List ℕ
sum_at d sums = elim (lookup d sums) [ none ↦ [] | some rs ↦ rs ]

-- The replicas for each digest, and the last digest that reached the quorum; before one does, `max`
-- is the text "_", which is no digest.
unfoldable pub tally_sums : ℕ → Assoc ℕ Checkpoint → Sums → Option Bytes → Sums × Option Bytes
unfolding sum_at
tally_sums quorum [] sums max = (sums, max)
tally_sums quorum ((src, c) ∷ cs) sums max =
    let rs = sum_at c.digest sums ++ (src ∷ []) in
    tally_sums quorum cs (insert c.digest rs sums)
      (if leb quorum (length rs) then some c.digest else max)

-- `sums[max]`
unfoldable pub weak_quorum : Sums × Option Bytes → List ℕ
unfolding sum_at
weak_quorum (sums, none) = []
weak_quorum (sums, some d) = sum_at d sums

-- the signatures of the quorum, and the digest of its first member
unfoldable pub cpset : Assoc ℕ Checkpoint → List ℕ → Assoc ℕ Bytes
cpset cs [] = []
cpset cs (r ∷ rs) = elim (lookup r cs) [
  | none ↦ cpset cs rs
  | some c ↦ insert r c.signature (cpset cs rs)
]

module _ (sys : System) (resume_backlog : Method (Unit {0})) where
  unfoldable pub complete : Assoc ℕ Bytes → Option Batch → Method (Unit {0})
  unfolding deliver_batch cancel maybe_send_next_batch
  complete sigs none s = crash Crash.nil_pointer s
  complete sigs (some b) s =
      let t = deliver_batch sys record b { signatures = sigs } s in
      (maybe_send_next_batch sys >> resume_backlog) (cancel t.cur.timeout t)

  -- a weak checkpoint, with its first member
  unfoldable pub finish_at : Assoc ℕ Bytes → Checkpoint → Method (Unit {0})
  unfolding complete
  finish_at sigs c s =
      let t = record s { cur = record s.cur { checkpoint_done = true } } in
      if not (c.digest == t.cur.subject.digest)
      then crash Crash.state_mismatch t
      else complete sigs t.cur.preprep t

  unfoldable pub finish_found : Assoc ℕ Bytes → Option Checkpoint → Method (Unit {0})
  unfolding finish_at
  finish_found sigs none s = crash Crash.nil_pointer s
  finish_found sigs (some c) s = finish_at sigs c s

  unfoldable pub finish_weak : Assoc ℕ Checkpoint → List ℕ → Method (Unit {0})
  unfolding cpset finish_found
  finish_weak cs [] s = done s
  finish_weak cs (r ∷ rs) s = finish_found (cpset cs (r ∷ rs)) (lookup r cs) s

  unfoldable pub add_checkpoint : Checkpoint → ℕ → Option (Assoc ℕ Checkpoint) → Method (Unit {0})
  unfolding tally_sums weak_quorum finish_weak
  add_checkpoint c src none s = crash Crash.nil_map s
  add_checkpoint c src (some m) s =
      let cs = insert src c m in
      finish_weak cs (weak_quorum (tally_sums (one_correct_quorum s.config) cs [] none))
        record s { cur = record s.cur { checkpoint = some cs } }

  unfoldable pub handle_checkpoint : Checkpoint → ℕ → Method (Unit {0})
  unfolding add_checkpoint
  handle_checkpoint c src s =
      if s.cur.checkpoint_done || ltb c.seq s.cur.subject.seq.seq
      then done s
      else if not (sys.check_sig c.digest src c.signature) || not (c.seq == s.cur.subject.seq.seq)
      then done s
      else add_checkpoint c src s.cur.checkpoint s
