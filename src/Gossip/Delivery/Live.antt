-- ===== src/Gossip/Delivery/Live.antt =====
-- No payload that is due stays in the buffer unnoticed.
use fabric.Base.{
  ℕ, ◌≤◌, ◌≡◌, refl, true, nat_eq, nat_beq_iff, Option, none, some, Bytes, Bool, inl, inr, ◌⊎◌,
  arith,
}
use fabric.Base.Assoc.{lookup, lookup-insert}
use fabric.Gossip.PayloadsBuffer.{Payload, PayloadsBuffer, pop}
use fabric.Gossip.PayloadsBuffer.Order.{push_cases, pop_cases}
use fabric.Gossip.Delivery.{
  StateProvider, new_state_provider, add_payload, on_ready, deliver, commit_block, Step, pushed,
  woken, popped, Reach, here, next,
}

-- The next payload has not come, or the loop is at work, or a signal waits for it.
abbrev pub IsNoticed : {Block : Type 0} → StateProvider Block → Type 0
IsNoticed s =
    (lookup s.payloads.next s.payloads.buf ≡ none) ⊎ (s.draining ≡ true) ⊎ (1 ≤ s.payloads.signals)

module _ {Block : Type 0} where
  add_payload-IsNoticed :
      (p : Payload) (s : StateProvider Block) → IsNoticed s → IsNoticed (add_payload p s)
  unfolding add_payload
  add_payload-IsNoticed p s h = elim (push_cases p s.payloads) [
    | inl e ↦ rw e h
    | inr (missing, late, e) ↦ rw e (
        ground (
          arith,
          h,
          lookup-insert p.seq_num s.payloads.next p s.payloads.buf,
          nat_beq_iff p.seq_num s.payloads.next,
        ))
  ]

  module _ (read_block : Bytes → Option Block) where
    deliver-IsNoticed :
        (taken : Bool) (s : StateProvider Block)
        → s.draining ≡ true
        → IsNoticed (deliver read_block taken s (pop s.payloads))
    unfolding deliver commit_block
    deliver-IsNoticed taken s busy = elim (pop_cases s.payloads) [
      | inl (absent, e) ↦ rw e (inl absent)
      | inr (p, found, e) ↦ rw e (inr (inl (still p _ (read_block p.contents) refl)))
    ]
      where
        still :
            (p : Payload) (b : PayloadsBuffer) (o : Option Block)
            → read_block p.contents ≡ o
            → (deliver read_block taken s (some p, b)).draining ≡ true
        still p b none e = rw (deliver, e) busy
        still p b (some block) e = rw (deliver, e) busy

    Step-IsNoticed : {s t : StateProvider Block} → Step read_block s t → IsNoticed s → IsNoticed t
    Step-IsNoticed (pushed {s} p) h = add_payload-IsNoticed p s h
    Step-IsNoticed (woken {s} left idle waits) h = unfold on_ready in inr (inl refl)
    Step-IsNoticed (popped {s} taken busy) h = deliver-IsNoticed taken s busy

    -- However pushes, signals and deliveries interleave, from an empty buffer: while the payload
    -- with the next number is in the buffer, the delivery loop is at work or a signal waits for it.
    pub Reach_new-IsNoticed :
        (height : ℕ) {s : StateProvider Block}
        → Reach read_block (new_state_provider height) s
        → IsNoticed s
    Reach_new-IsNoticed height here = inl refl
    Reach_new-IsNoticed height (next r st) = Step-IsNoticed st (Reach_new-IsNoticed height r)
