-- ===== src/Orderer/Samples.antt =====
-- Envelopes, rules and a consenter, with the theorems of the ordering service applied to them.
use fabric.Base.{◌≡◌, ◌≢◌, refl, true, false, none, some, List, [], ◌∷◌, ◌++◌, arith}
use fabric.Orderer.Filter.{
  Envelope, Rule, empty_reject_rule, accept_rule, apply, Decides, apply-Decides,
}
use fabric.Orderer.BlockCutter.{Context, ordered, new_receiver}
use fabric.Orderer.BlockCutter.Order.{Keeps, ordered-Keeps}
use fabric.Orderer.BlockCutter.Bounds.{Fits, ordered-Fits}
use fabric.Orderer.Solo.{
  Consenter, new_plain_consenter, on_message, on_timer, message, Reach, here, next,
}
use fabric.Orderer.Solo.Timer.{Inv, Reach_new-Inv, on_timer-Reach}
use fabric.Orderer.Solo.History.{held, history, held-Reach}

abbrev note : Envelope
note = record { payload = some (1 ∷ []); signature = [] }

abbrev blank : Envelope
blank = record { payload = none; signature = [] }

abbrev rules : List Rule
rules = empty_reject_rule ∷ accept_rule ∷ []

abbrev plain : Context
plain = record { filters = rules; valid_config = λ e. false }

apply-Decides_example : Decides rules note (apply rules note)
apply-Decides_example = apply-Decides rules note

ordered-Keeps_example : Keeps [] note (ordered plain (new_receiver 2) note)
ordered-Keeps_example = ordered-Keeps plain (new_receiver 2) note

ordered-Fits_example : Fits (new_receiver 2) (ordered plain (new_receiver 2) note)
ordered-Fits_example = ordered-Fits plain (new_receiver 2) note (omega arith)

abbrev waiting : Consenter
waiting = on_message plain (on_message plain (new_plain_consenter 2) blank) note

waiting-Reach : Reach (new_plain_consenter 2) waiting
waiting-Reach = next (next here (message plain blank)) (message plain note)

waiting_timer : waiting.timer ≡ true
unfolding on_message ordered apply empty_reject_rule accept_rule
waiting_timer = refl

Reach_new-Inv_example : Inv waiting
Reach_new-Inv_example = Reach_new-Inv 2 waiting-Reach

on_timer-Reach_example :
    (waiting.cutter.cur_batch ≢ [])
    × ((on_timer waiting).ledger ≡ waiting.ledger ++ (waiting.cutter.cur_batch ∷ []))
    × ((on_timer waiting).cutter.cur_batch ≡ [])
on_timer-Reach_example = on_timer-Reach 2 waiting-Reach waiting_timer

held-Reach_example : held waiting ≡ history waiting-Reach
held-Reach_example = held-Reach 2 waiting-Reach
