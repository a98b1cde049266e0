-- ===== src/Orderer/Sbft/Frame/Handlers.antt =====
-- The frame of the handlers of preprepare, prepare and commit.
use fabric.Base.{
  ℕ, ◌≡◌, refl, Bool, true, false, Bool-cases, ==_iff, inl, inr, Option, none, some, length, Result,
  ok, err, arith, ltb, not, ◌&&◌, ◌||◌, is_none, nat_eq, list_eq, ◌==◌,
}
use fabric.Base.Assoc.{Assoc, lookup, insert}
use fabric.Orderer.Sbft.Messages.{Batch, BatchHeader, Preprepare, Subject, subject_eq, seq_view_eq}
use fabric.Orderer.Sbft.System.{
  System, Crash, BatchError, check_batch, batch_hash, no_faulty_quorum,
}
use fabric.Orderer.Sbft.State
use fabric.Orderer.Sbft.State.{Sbft, Method, entries}
use fabric.Orderer.Sbft.Phases
use fabric.Orderer.Sbft.Frame.{Frame, Keeps, Keeps-ok, Keeps-err, Keeps-if, Keeps-read}
use fabric.Orderer.Sbft.Frame.Votes.{
  cancel_view_change_timer-Keeps, maybe_send_commit-Keeps, handle_checked_preprepare-Keeps, not_lt,
  or_false,
}
use fabric.Orderer.Sbft.Frame.Requests.{last_seq-stops}

pub not-false : (a : Bool) → not a ≡ false → a ≡ true
not-false a h = ground arith

is_none_true : {A : Type 0} (o : Option A) → not (is_none o) ≡ false → o ≡ none
is_none_true o h = ground arith

module _ {sys : System} {R : Sbft → Sbft → Type 0} (F : Frame sys R) where
  accept_checked-Keeps :
      (pp : Preprepare) (b : Batch) (s : Sbft) (r : Result BatchError BatchHeader)
      → Keeps R s (Phases.accept_checked sys pp b s r s)
  unfolding Phases.accept_checked
  accept_checked-Keeps pp b s (err e) = Keeps-ok F s s tt (F.start s)
  accept_checked-Keeps pp b s (ok h) = elim (Bool-cases fits) [
    | inl e ↦ rw e (Keeps-ok F s _ tt (handle_checked_preprepare-Keeps F pp.seq b s))
    | inr e ↦ rw e (Keeps-ok F s s tt (F.start s))
  ]
    where
      fits : Bool
      fits = h.seq == pp.seq.seq && Phases.prev_bytes sys h == batch_hash sys s.world.last_batch

  check_offer-Keeps :
      (pp : Preprepare) (s : Sbft) (o : Option Batch) → Keeps R s (Phases.check_offer sys pp s o s)
  unfolding Phases.check_offer
  check_offer-Keeps pp s none = Keeps-ok F s s tt (F.start s)
  check_offer-Keeps pp s (some b) =
      accept_checked-Keeps pp b s (check_batch sys s.config b true false)

  check_preprepare-Keeps :
      (pp : Preprepare) (s : Sbft) (seq : ℕ) → Keeps R s (Phases.check_preprepare sys pp s seq s)
  unfolding Phases.check_preprepare
  check_preprepare-Keeps pp s seq = elim (Bool-cases refused) [
    | inl e ↦ rw e (Keeps-ok F s s tt (F.start s))
    | inr e ↦ rw e (check_offer-Keeps pp s pp.batch)
  ]
    where
      refused : Bool
      refused = not (pp.seq == Phases.next_seq sys s seq) || s.cur.subject.seq.seq == pp.seq.seq

  pub handle_preprepare-Keeps :
      (pp : Preprepare) (src : ℕ) (s : Sbft) → Keeps R s (Phases.handle_preprepare sys pp src s)
  unfolding Phases.handle_preprepare
  handle_preprepare-Keeps pp src s =
      Keeps-if F s (src == s.id || not (src == State.primary_id s)) _ _
        (λ e. Keeps-ok F s s tt (F.start s))
        (λ e. Keeps-read F s _ _ (last_seq-stops sys s) λ seq q. check_preprepare-Keeps pp s seq)

  add_prepare-Keeps :
      (p : Subject) (src : ℕ) (s : Sbft) (o : Option (Assoc ℕ Subject))
      → s.cur.prep ≡ o
      → lookup src (entries o) ≡ none
      → p ≡ s.cur.subject
      → Keeps R s (Phases.add_prepare sys p src o s)
  unfolding Phases.add_prepare
  add_prepare-Keeps p src s none e new q = Keeps-err F s s Crash.nil_map (λ h. cc h) (F.start s)
  add_prepare-Keeps p src s (some m) e new q =
      Keeps-ok F s _ tt
        (F.trans s t _ (F.vote_prepare s p src m e new q) (maybe_send_commit-Keeps F t))
    where
      t : Sbft
      t = record s { cur = record s.cur { prep = some (insert src p m) } }

  pub handle_prepare-Keeps :
      (p : Subject) (src : ℕ) (s : Sbft) → Keeps R s (Phases.handle_prepare sys p src s)
  unfolding Phases.handle_prepare
  handle_prepare-Keeps p src s =
      Keeps-if F s (ltb p.seq.seq s.cur.subject.seq.seq || not (p == s.cur.subject)) _ _
        (λ e. Keeps-ok F s s tt (F.start s))
        (λ e.
          Keeps-if F s (not (is_none (lookup src (entries s.cur.prep)))) _ _
            (λ q. Keeps-ok F s s tt (F.start s))
            (λ q. add_prepare-Keeps p src s s.cur.prep refl (is_none_true _ q) (
              (==_iff p s.cur.subject).0
                (not-false _ (or_false (ltb p.seq.seq s.cur.subject.seq.seq) _ e)))))

  pub maybe_execute-Keeps : (s : Sbft) → R s (Phases.maybe_execute sys s)
  unfolding Phases.maybe_execute Phases.send_checkpoint State.broadcast
  maybe_execute-Keeps s = elim (Bool-cases waits) [
    | inl e ↦ rw e (F.start s)
    | inr e ↦ rw e (
        F.trans s t _ (F.execute s (not_lt _ _ (or_false s.cur.executed _ e)))
          (F.same t _ refl refl refl))
  ]
    where
      waits : Bool
      waits = s.cur.executed || ltb (length (entries s.cur.commit)) (no_faulty_quorum s.config)

      t : Sbft
      t = record s { cur = record s.cur { executed = true } }

  add_commit-Keeps :
      (c : Subject) (src : ℕ) (s : Sbft) (o : Option (Assoc ℕ Subject))
      → s.cur.commit ≡ o
      → lookup src (entries o) ≡ none
      → c ≡ s.cur.subject
      → Keeps R s (Phases.add_commit sys c src o s)
  unfolding Phases.add_commit
  add_commit-Keeps c src s none e new q = Keeps-err F s s Crash.nil_map (λ h. cc h) (F.start s)
  add_commit-Keeps c src s (some m) e new q = Keeps-ok F s _ tt (
      F.trans s t _ (F.vote_commit s c src m e new q) (
        F.trans t (State.cancel_view_change_timer t) _ (cancel_view_change_timer-Keeps F t)
          (maybe_execute-Keeps _)))
    where
      t : Sbft
      t = record s { cur = record s.cur { commit = some (insert src c m) } }

  pub handle_commit-Keeps :
      (c : Subject) (src : ℕ) (s : Sbft) → Keeps R s (Phases.handle_commit sys c src s)
  unfolding Phases.handle_commit
  handle_commit-Keeps c src s =
      Keeps-if F s (ltb c.seq.seq s.cur.subject.seq.seq || not (c == s.cur.subject)) _ _
        (λ e. Keeps-ok F s s tt (F.start s))
        (λ e.
          Keeps-if F s (not (is_none (lookup src (entries s.cur.commit)))) _ _
            (λ q. Keeps-ok F s s tt (F.start s))
            (λ q. add_commit-Keeps c src s s.cur.commit refl (is_none_true _ q) (
              (==_iff c s.cur.subject).0
                (not-false _ (or_false (ltb c.seq.seq s.cur.subject.seq.seq) _ e)))))
