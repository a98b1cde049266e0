-- ===== src/Orderer/BlockCutter/Bounds.antt =====
-- The sizes of the batches.
use Prim.Native.Nat.{max}
use fabric.Base.{ℕ, ◌≡◌, ◌≤◌, ◌<◌, refl, Bool, List, [], ◌∷◌, arith, length, length-append, All}
use fabric.Orderer.Filter.{Envelope, apply, Action, accept, reconfigure, reject, forward}
use fabric.Orderer.BlockCutter.{Context, Receiver, Batches, enqueue, before_config, act, ordered}

-- A batch of no more than the batch size; a batch of one is cut at once where the size is 0.
abbrev pub most : Receiver → ℕ
most r = max 1 r.batch_size

abbrev pub HasRoom : Receiver → Type 0
HasRoom r = length r.cur_batch < most r

-- A batch that is handed over is not empty and not too long.
abbrev pub IsFit : ℕ → List Envelope → Type 0
IsFit n b = (1 ≤ length b) × (length b ≤ n)

abbrev pub Fits : Receiver → (Batches × Bool) × Receiver → Type 0
Fits r out = All (IsFit (most r)) out.0.0 × HasRoom out.1 × (out.1.batch_size ≡ r.batch_size)

before_config-Fits :
    (n : ℕ) (had : List Envelope) (msg : Envelope)
    → 1 ≤ n
    → length had ≤ n
    → All (IsFit n) (before_config had msg)
unfolding before_config
before_config-Fits n [] msg h k = ground arith
before_config-Fits n (m ∷ ms) msg h k = ground arith

act-Fits :
    (c : Context) (r : Receiver) (msg : Envelope) (a : Action) → HasRoom r → Fits r (act c r msg a)
unfolding act enqueue
act-Fits c r msg accept room = ground (arith, length-append r.cur_batch (msg ∷ []))
act-Fits c r msg reconfigure room = ground (arith, before_config-Fits (most r) r.cur_batch msg)
act-Fits c r msg reject room = (tt, room, refl)
act-Fits c r msg forward room = (tt, room, refl)

-- A receiver whose current batch has room hands over batches that are not empty and no longer than
-- the batch size (1 if that is 0), and is left with a batch that has room, under the same size.
pub ordered-Fits :
    (c : Context) (r : Receiver) (msg : Envelope) → HasRoom r → Fits r (ordered c r msg)
unfolding ordered
ordered-Fits c r msg room = act-Fits c r msg (apply c.filters msg).0 room
