-- ===== src/Gossip/Samples.antt =====
-- Two payloads that come in the wrong order, with the theorems of the delivery applied to them.
use mathlib.Core.List.{Perm}
use fabric.Base.{map, true, false, ℕ, ◌≡◌, refl, Bytes, Option, none, some, [], ◌∷◌, ◌++◌, nat_eq}
use fabric.Gossip.PayloadsBuffer.{Payload, push, pop}
use fabric.Gossip.PayloadsBuffer.Order.{held}
use fabric.Gossip.Delivery.{
  StateProvider, new_state_provider, add_payload, on_ready, deliver, commit_block, taken_of, pushed,
  woken, popped, Reach, here, next,
}
use fabric.Gossip.Delivery.Live.{IsNoticed, Reach_new-IsNoticed}
use fabric.Gossip.Delivery.Sequence.{
  InTurn, Subsequence, blocks, all_accepted, all_delivered, committed-InTurn, accepted-Perm,
}

abbrev block_at : ℕ → Payload
block_at n = record { seq_num = n; hash = []; contents = n ∷ [] }

abbrev read : Bytes → Option Bytes
read [] = none
read (b ∷ bs) = some (b ∷ bs)

abbrev start : StateProvider Bytes
start = new_state_provider 4

abbrev both_pushed : StateProvider Bytes
both_pushed = add_payload (block_at 4) (add_payload (block_at 5) start)

signalled : both_pushed.payloads.signals ≡ 1
unfolding add_payload push
signalled = refl

idle : both_pushed.draining ≡ false
unfolding add_payload
idle = refl

abbrev at_work : StateProvider Bytes
at_work = on_ready 0 both_pushed

working : at_work.draining ≡ true
unfolding on_ready
working = refl

abbrev one_out : StateProvider Bytes
one_out = deliver read false at_work (pop at_work.payloads)

run : Reach read start one_out
run =
    next
      (next (next (next here (pushed (block_at 5))) (pushed (block_at 4)))
        (woken {s = both_pushed} 0 idle signalled))
      (popped false working)

one_handed : one_out.commits ≡ (4 ∷ [], false) ∷ []
unfolding deliver commit_block pop on_ready add_payload push
one_handed = refl

Reach_new-IsNoticed_example : IsNoticed one_out
Reach_new-IsNoticed_example = Reach_new-IsNoticed read 4 run

committed-InTurn_example :
    InTurn 4 (all_delivered read run) one_out.payloads.next
    × (map (λ c. c.0) one_out.commits ≡ blocks read (all_delivered read run))
    × Subsequence (taken_of one_out.commits) (blocks read (all_delivered read run))
committed-InTurn_example = committed-InTurn read 4 run

accepted-Perm_example :
    Perm (all_accepted read run) (all_delivered read run ++ held one_out.payloads.buf)
accepted-Perm_example = accepted-Perm read 4 run
