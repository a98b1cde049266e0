-- ===== src/Orderer/Sbft/Frame/Checkpoints.antt =====
-- The frame of the handler of checkpoints.
use fabric.Base.{
  ℕ, ◌≡◌, refl, true, false, ==_iff, Option, none, some, List, [], ◌∷◌, Bytes, arith, ltb, not,
  ◌||◌, nat_eq, list_eq, ◌==◌,
}
use fabric.Base.Assoc.{Assoc, lookup, insert}
use fabric.Orderer.Sbft.Messages.{Batch, subject_eq, seq_view_eq, Checkpoint}
use fabric.Orderer.Sbft.System.{System, Crash, one_correct_quorum}
use fabric.Orderer.Sbft.State
use fabric.Orderer.Sbft.State.{Sbft, Method, entries}
use fabric.Orderer.Sbft.Checkpoints
use fabric.Orderer.Sbft.Frame.{
  Frame, Keeps, Keeps-ok, Keeps-err, Keeps-step, Keeps-if, Keeps-resume,
}
use fabric.Orderer.Sbft.Frame.Votes.{cancel-Keeps, deliver_batch-Keeps, or_false}
use fabric.Orderer.Sbft.Frame.Requests.{maybe_send_next_batch-Keeps}
use fabric.Orderer.Sbft.Frame.Handlers.{not-false}

module _ {sys : System} {R : Sbft → Sbft → Type 0} (F : Frame sys R) where
  module _ (again : Method (Unit {0})) where
    complete-Keeps :
        (sigs : Assoc ℕ Bytes) (o : Option Batch) (s : Sbft)
        → ((t : Sbft) → R s t → Keeps R t (again t))
        → Keeps R s (Checkpoints.complete sys again sigs o s)
    unfolding Checkpoints.complete
    complete-Keeps sigs none s k = Keeps-err F s s Crash.nil_pointer (λ h. cc h) (F.start s)
    complete-Keeps sigs (some b) s k =
        Keeps-step F s u _
          (F.trans s t u (deliver_batch-Keeps F _ s) (cancel-Keeps F t.cur.timeout t))
          (Keeps-resume F u _ _ (maybe_send_next_batch-Keeps F u) λ a v h. k v (
            F.trans s u v
              (F.trans s t u (deliver_batch-Keeps F _ s) (cancel-Keeps F t.cur.timeout t)) h))
      where
        t : Sbft
        t = State.deliver_batch sys record b { signatures = sigs } s

        u : Sbft
        u = State.cancel t.cur.timeout t

    finish_at-Keeps :
        (sigs : Assoc ℕ Bytes) (s : Sbft) (c : Checkpoint)
        → ((t : Sbft) → R s t → Keeps R t (again t))
        → Keeps R s (Checkpoints.finish_at sys again sigs c s)
    unfolding Checkpoints.finish_at
    finish_at-Keeps sigs s c k =
        Keeps-if F s (not (c.digest == s.cur.subject.digest)) _ _
          (λ e. Keeps-err F s t Crash.state_mismatch (λ h. cc h) (F.complete s))
          (λ e.
            Keeps-step F s t _ (F.complete s)
              (complete-Keeps _ t.cur.preprep t λ v h. k v (F.trans s t v (F.complete s) h)))
      where
        t : Sbft
        t = record s { cur = record s.cur { checkpoint_done = true } }

    finish_found-Keeps :
        (sigs : Assoc ℕ Bytes) (s : Sbft) (o : Option Checkpoint)
        → ((t : Sbft) → R s t → Keeps R t (again t))
        → Keeps R s (Checkpoints.finish_found sys again sigs o s)
    unfolding Checkpoints.finish_found
    finish_found-Keeps sigs s none k = Keeps-err F s s Crash.nil_pointer (λ h. cc h) (F.start s)
    finish_found-Keeps sigs s (some c) k = finish_at-Keeps sigs s c k

    finish_weak-Keeps :
        (cs : Assoc ℕ Checkpoint) (rs : List ℕ) (s : Sbft)
        → ((t : Sbft) → R s t → Keeps R t (again t))
        → Keeps R s (Checkpoints.finish_weak sys again cs rs s)
    unfolding Checkpoints.finish_weak
    finish_weak-Keeps cs [] s k = Keeps-ok F s s tt (F.start s)
    finish_weak-Keeps cs (r ∷ rs) s k =
        finish_found-Keeps (Checkpoints.cpset cs (r ∷ rs)) s (lookup r cs) k

    add_checkpoint-Keeps :
        (c : Checkpoint) (src : ℕ) (s : Sbft) (o : Option (Assoc ℕ Checkpoint))
        → s.cur.checkpoint ≡ o
        → sys.check_sig c.digest src c.signature ≡ true
        → c.seq ≡ s.cur.subject.seq.seq
        → ((t : Sbft) → R s t → Keeps R t (again t))
        → Keeps R s (Checkpoints.add_checkpoint sys again c src o s)
    unfolding Checkpoints.add_checkpoint
    add_checkpoint-Keeps c src s none e good q k =
        Keeps-err F s s Crash.nil_map (λ h. cc h) (F.start s)
    add_checkpoint-Keeps c src s (some m) e good q k =
        Keeps-step F s t _ (F.vote_checkpoint s c src m e good q) (
          finish_weak-Keeps cs
            (Checkpoints.weak_quorum
              (Checkpoints.tally_sums (one_correct_quorum s.config) cs [] none))
            t λ v h. k v (F.trans s t v (F.vote_checkpoint s c src m e good q) h))
      where
        cs : Assoc ℕ Checkpoint
        cs = insert src c m

        t : Sbft
        t = record s { cur = record s.cur { checkpoint = some cs } }

    pub handle_checkpoint-Keeps :
        (c : Checkpoint) (src : ℕ) (s : Sbft)
        → ((t : Sbft) → R s t → Keeps R t (again t))
        → Keeps R s (Checkpoints.handle_checkpoint sys again c src s)
    unfolding Checkpoints.handle_checkpoint
    handle_checkpoint-Keeps c src s k =
        Keeps-if F s (s.cur.checkpoint_done || ltb c.seq s.cur.subject.seq.seq) _ _
          (λ e. Keeps-ok F s s tt (F.start s))
          (λ e.
            Keeps-if F s
              (not (sys.check_sig c.digest src c.signature) || not (c.seq == s.cur.subject.seq.seq))
              _ _ (λ q. Keeps-ok F s s tt (F.start s))
              (λ q.
                add_checkpoint-Keeps c src s s.cur.checkpoint refl (signed q)
                  ((==_iff c.seq s.cur.subject.seq.seq).0
                    (not-false _ (or_false (not (sys.check_sig c.digest src c.signature)) _ q)))
                  k))
      where
        signed :
            (not (sys.check_sig c.digest src c.signature) || not (c.seq == s.cur.subject.seq.seq))
              ≡ false
            → sys.check_sig c.digest src c.signature ≡ true
        signed q = ground arith
