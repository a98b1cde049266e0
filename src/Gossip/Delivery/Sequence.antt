-- ===== src/Gossip/Delivery/Sequence.antt =====
-- What becomes of the payloads that were pushed.
use mathlib.Core.List.{Perm, append-nil}
use mathlib.Core.List.Perm as Perm
use fabric.Base.{
  ℕ, ◌+◌, ◌%◌, ◌^◌, ◌≡◌, refl, sym, ap, subst, map, Bool, true, false, ◌∙◌, Option, none, some,
  Bytes, inl, inr, List, [], ◌∷◌, ◌++◌, append_assoc,
}
use fabric.Gossip.PayloadsBuffer.{Payload, PayloadsBuffer, push, pop}
use fabric.Gossip.PayloadsBuffer.Order.{
  IsWf, push-IsWf, pop-IsWf, push_cases, pop_cases, held, accepted, handed, held-push, held-pop,
}
use fabric.Gossip.Delivery.{
  StateProvider, new_state_provider, add_payload, on_ready, deliver, commit_block, taken_of, Step,
  pushed, woken, popped, Reach, here, next,
}

-- The payloads bear the numbers from the first to the one before the second, in order.
abbrev pub InTurn : ℕ → List Payload → ℕ → Type 0
InTurn from [] to = from ≡ to
InTurn from (p ∷ ps) to = (p.seq_num ≡ from) × InTurn ((from + 1) % 2 ^ 64) ps to

-- The first list is the second with some elements left out.
pub data Subsequence {A : Type 0} : List A → List A → Type 0 where
  empty : Subsequence [] []
  keep : {xs ys : List A} (x : A) → Subsequence xs ys → Subsequence (x ∷ xs) (x ∷ ys)
  drop : {xs ys : List A} (y : A) → Subsequence xs ys → Subsequence xs (y ∷ ys)

map-append : {A B : Type 0} (f : A → B) (xs ys : List A) → map f (xs ++ ys) ≡ map f xs ++ map f ys
map-append f [] ys = refl
map-append f (x ∷ xs) ys = ap (λ t. f x ∷ t) (map-append f xs ys)

InTurn-append :
    (ps : List Payload) (from mid to : ℕ) (qs : List Payload)
    → InTurn from ps mid
    → InTurn mid qs to
    → InTurn from (ps ++ qs) to
InTurn-append [] from mid to qs e h = rw e h
InTurn-append (p ∷ ps) from mid to qs (e, h) k =
    (e, InTurn-append ps ((from + 1) % 2 ^ 64) mid to qs h k)

handed-InTurn : (b : PayloadsBuffer) → IsWf b → InTurn b.next (handed (pop b).0) (pop b).1.next
handed-InTurn b wf = elim (pop_cases b) [
  | inl (absent, e) ↦ rw e refl
  | inr (p, found, e) ↦ rw e ((wf.keyed b.next p found).0, refl)
]

push-next : (p : Payload) (b : PayloadsBuffer) → (push p b).1.next ≡ b.next
push-next p b = elim (push_cases p b) [ inl e ↦ rw e refl | inr (missing, late, e) ↦ rw e refl ]

module _ {Block : Type 0} (read_block : Bytes → Option Block) where
  -- the blocks in payloads
  abbrev read_payload : Payload → List Block
  read_payload p = elim (read_block p.contents) [ none ↦ [] | some block ↦ block ∷ [] ]

  abbrev pub blocks : List Payload → List Block
  blocks [] = []
  blocks (p ∷ ps) = read_payload p ++ blocks ps

  accepted_by : {s t : StateProvider Block} → Step read_block s t → List Payload
  accepted_by (pushed {s} p) = accepted p (push p s.payloads).0
  accepted_by (woken left idle waits) = []
  accepted_by (popped taken busy) = []

  delivered_by : {s t : StateProvider Block} → Step read_block s t → List Payload
  delivered_by (pushed p) = []
  delivered_by (woken left idle waits) = []
  delivered_by (popped {s} taken busy) = handed (pop s.payloads).0

  -- the payloads that `Push` accepted in a run
  unfoldable pub all_accepted : {s t : StateProvider Block} → Reach read_block s t → List Payload
  unfolding accepted_by
  all_accepted here = []
  all_accepted (next r st) = all_accepted r ++ accepted_by st

  -- the payloads that the loop took out
  unfoldable pub all_delivered : {s t : StateProvider Block} → Reach read_block s t → List Payload
  unfolding delivered_by
  all_delivered here = []
  all_delivered (next r st) = all_delivered r ++ delivered_by st

  deliver-payloads :
      (taken : Bool) (s : StateProvider Block) (out : Option Payload × PayloadsBuffer)
      → (deliver read_block taken s out).payloads ≡ out.1
  unfolding deliver commit_block
  deliver-payloads taken s (none, b) = refl
  deliver-payloads taken s (some p, b) = go (read_block p.contents) refl
    where
      go :
          (o : Option Block)
          → read_block p.contents ≡ o
          → (deliver read_block taken s (some p, b)).payloads ≡ b
      go none e = rw (deliver, e) refl
      go (some block) e = rw (deliver, e) refl

  deliver-commits :
      (taken : Bool) (s : StateProvider Block) (out : Option Payload × PayloadsBuffer)
      → map (λ c. c.0) (deliver read_block taken s out).commits
        ≡ map (λ c. c.0) s.commits ++ blocks (handed out.0)
  unfolding deliver commit_block
  deliver-commits taken s (none, b) = sym (append-nil (map (λ c. c.0) s.commits))
  deliver-commits taken s (some p, b) = go (read_block p.contents) refl
    where
      go :
          (o : Option Block)
          → read_block p.contents ≡ o
          → map (λ c. c.0) (deliver read_block taken s (some p, b)).commits
            ≡ map (λ c. c.0) s.commits ++ (read_payload p ++ [])
      go none e = rw (deliver, read_payload, e) (sym (append-nil (map (λ c. c.0) s.commits)))
      go (some block) e =
          rw (deliver, read_payload, e) (map-append (λ c. c.0) s.commits ((block, taken) ∷ []))

  Step-IsWf : {s t : StateProvider Block} → Step read_block s t → IsWf s.payloads → IsWf t.payloads
  Step-IsWf (pushed {s} p) wf = unfold add_payload in push-IsWf p s.payloads wf
  Step-IsWf (woken {s} left idle waits) wf =
      unfold on_ready in record { distinct = wf.distinct; keyed = wf.keyed }
  Step-IsWf (popped {s} taken busy) wf =
      rw (deliver-payloads taken s (pop s.payloads)) (pop-IsWf s.payloads wf)

  Reach-IsWf :
      (height : ℕ) {s : StateProvider Block}
      → Reach read_block (new_state_provider height) s
      → IsWf s.payloads
  Reach-IsWf height here = record { distinct = tt; keyed = λ k p h. cc h }
  Reach-IsWf height (next r st) = Step-IsWf st (Reach-IsWf height r)

  Step-InTurn :
      {s t : StateProvider Block} (st : Step read_block s t)
      → IsWf s.payloads
      → InTurn s.payloads.next (delivered_by st) t.payloads.next
  unfolding delivered_by
  Step-InTurn (pushed {s} p) wf = unfold add_payload in sym (push-next p s.payloads)
  Step-InTurn (woken {s} left idle waits) wf = unfold on_ready in refl
  Step-InTurn (popped {s} taken busy) wf =
      rw (deliver-payloads taken s (pop s.payloads)) (handed-InTurn s.payloads wf)

  Step-commits :
      {s t : StateProvider Block} (st : Step read_block s t)
      → map (λ c. c.0) t.commits ≡ map (λ c. c.0) s.commits ++ blocks (delivered_by st)
  unfolding delivered_by
  Step-commits (pushed {s} p) = unfold add_payload in sym (append-nil (map (λ c. c.0) s.commits))
  Step-commits (woken {s} left idle waits) =
      unfold on_ready in sym (append-nil (map (λ c. c.0) s.commits))
  Step-commits (popped {s} taken busy) = deliver-commits taken s (pop s.payloads)

  blocks-append : (ps qs : List Payload) → blocks (ps ++ qs) ≡ blocks ps ++ blocks qs
  blocks-append [] qs = refl
  blocks-append (p ∷ ps) qs =
      rw (blocks-append ps qs, append_assoc (read_payload p) (blocks ps) (blocks qs)) refl

  commits-Reach :
      (height : ℕ) {s : StateProvider Block} (r : Reach read_block (new_state_provider height) s)
      → map (λ c. c.0) s.commits ≡ blocks (all_delivered r)
  unfolding all_delivered
  commits-Reach height here = refl
  commits-Reach height (next r st) =
      Step-commits st
      ∙ ap (λ bs. bs ++ blocks (delivered_by st)) (commits-Reach height r)
      ∙ sym (blocks-append (all_delivered r) (delivered_by st))

  delivered-InTurn :
      (height : ℕ) {s : StateProvider Block} (r : Reach read_block (new_state_provider height) s)
      → InTurn height (all_delivered r) s.payloads.next
  unfolding all_delivered
  delivered-InTurn height here = refl
  delivered-InTurn height (next {t} {u} r st) =
      InTurn-append (all_delivered r) height t.payloads.next u.payloads.next (delivered_by st)
        (delivered-InTurn height r) (Step-InTurn st (Reach-IsWf height r))

  taken_of-Subsequence :
      (commits : List (Block × Bool)) → Subsequence (taken_of commits) (map (λ c. c.0) commits)
  taken_of-Subsequence [] = empty
  taken_of-Subsequence ((block, true) ∷ commits) = keep block (taken_of-Subsequence commits)
  taken_of-Subsequence ((block, false) ∷ commits) = drop block (taken_of-Subsequence commits)

  -- However pushes and deliveries interleave from an empty buffer, and whichever commits fail: the
  -- payloads that the loop takes out bear the numbers from the start on, one after another without a
  -- gap; the blocks that are handed over for a commit are exactly those that can be read from these
  -- payloads, in that order; and the blocks that are committed are some of them, in that order.
  pub committed-InTurn :
      (height : ℕ) {s : StateProvider Block} (r : Reach read_block (new_state_provider height) s)
      → InTurn height (all_delivered r) s.payloads.next
        × (map (λ c. c.0) s.commits ≡ blocks (all_delivered r))
        × Subsequence (taken_of s.commits) (blocks (all_delivered r))
  committed-InTurn height {s} r = (
    delivered-InTurn height r,
    commits-Reach height r,
    subst (Subsequence (taken_of s.commits)) (commits-Reach height r)
        (taken_of-Subsequence s.commits),
  )

  Step-Perm :
      {s t : StateProvider Block} (st : Step read_block s t)
      → IsWf s.payloads
      → Perm (held s.payloads.buf ++ accepted_by st) (delivered_by st ++ held t.payloads.buf)
  unfolding accepted_by delivered_by
  Step-Perm (pushed {s} p) wf = unfold add_payload in rw (held-push p s.payloads) (Perm.refl _)
  Step-Perm (woken {s} left idle waits) wf =
      unfold on_ready in rw (append-nil (held s.payloads.buf)) (Perm.refl _)
  Step-Perm (popped {s} taken busy) wf =
      rw (append-nil (held s.payloads.buf), deliver-payloads taken s (pop s.payloads))
        (held-pop s.payloads wf)

  -- However pushes and deliveries interleave from an empty buffer: the payloads that `Push` accepted
  -- are, up to order, those that the loop has taken out and those that are still in the buffer; none is lost and none
  -- is delivered twice.
  pub accepted-Perm :
      (height : ℕ) {s : StateProvider Block} (r : Reach read_block (new_state_provider height) s)
      → Perm (all_accepted r) (all_delivered r ++ held s.payloads.buf)
  unfolding all_accepted all_delivered
  accepted-Perm height here = Perm.refl []
  accepted-Perm height (next {t} {u} r st) =
      let moved = Perm.append_left (all_delivered r) (Step-Perm st (Reach-IsWf height r)) in
      Perm.trans (Perm.append_right (accepted_by st) (accepted-Perm height r)) (
        rw
          (
            append_assoc (all_delivered r) (held t.payloads.buf) (accepted_by st),
            append_assoc (all_delivered r) (delivered_by st) (held u.payloads.buf),
          )
          moved)
