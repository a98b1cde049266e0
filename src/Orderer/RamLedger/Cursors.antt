-- ===== src/Orderer/RamLedger/Cursors.antt =====
-- orderer/rawledger/ramledger/ramledger.go: the iterators.
pub mod Walks
pub mod Seeking
use fabric.Base.{
  ℕ, zero, suc, All, ◌≤◌, ◌+◌, ◌-◌, ◌%◌, ◌^◌, ◌<◌, ◌≡◌, refl, sym, ◌⊎◌, ltb→lt, length,
  length-append, append_assoc, ap, subst, ◌≢◌, ◌∙◌, inl, inr, Bool-cases, false, if◌then◌else◌, ltb,
  ◌||◌, ◌==◌, ==_iff, nat_eq, Option, none, some, Bytes, List, [], ◌∷◌, ◌++◌, arith,
}
use fabric.Orderer.RamLedger.{Block, RamLedger, add_one}
use fabric.Orderer.RamLedger.Linked.{Linked, IsWf}

-- A cursor at a node: its number, and the blocks behind it, which grow as blocks are appended.
pub record Cursor : Type 0 where
  pub number : ℕ
  pub ahead : List Block

pub data StartType : Type 0 where
  oldest newest specified : StartType

-- `not_found` is the error iterator, `lost` a walk to the end of the list, where the code panics.
pub data Seek : Type 0 where
  not_found lost : Seek
  found : Cursor → ℕ → Seek

abbrev pub sub_one : ℕ → ℕ
sub_one n = (n + (2 ^ 64 - 1)) % 2 ^ 64

abbrev pub oldest_of : List Block → Block → Block
oldest_of [] b = b
oldest_of (a ∷ bs) b = a

-- `Next`, or none while there is no block to return
unfoldable pub next : Cursor → Option (Block × Cursor)
next c = elim c.ahead [ [] ↦ none | b ∷ bs ↦ some (b, record { number = b.number; ahead = bs }) ]

unfoldable pub walk : ℕ → List Block → Option Cursor
walk target [] = none
walk target (b ∷ bs) =
    let rest = walk target bs in
    if b.number == target then some record { number = b.number; ahead = bs } else rest

-- Behind the pre-genesis block the number wraps.
unfoldable pub skip : List Block → ℕ → Seek
skip [] n = Seek.found record { number = n; ahead = [] } (add_one n)
skip (b ∷ bs) n =
    if add_one n == 2 ^ 64 - 1
    then Seek.found record { number = b.number; ahead = bs } (add_one (add_one n))
    else Seek.found record { number = n; ahead = b ∷ bs } (add_one n)

unfoldable pub seek : Option Cursor → Seek
unfolding skip
seek none = Seek.lost
seek (some c) = skip c.ahead c.number

abbrev pub blocks : RamLedger → List Block
blocks rl = rl.before ++ (rl.newest ∷ [])

unfoldable pub iterator : StartType → ℕ → RamLedger → Seek
unfolding walk seek skip
iterator StartType.oldest n rl = skip (blocks rl) (sub_one (oldest_of rl.before rl.newest).number)
iterator StartType.newest n rl = skip (rl.newest ∷ []) (sub_one rl.newest.number)
iterator StartType.specified n rl =
    let first = (oldest_of rl.before rl.newest).number in
    if ltb (add_one n) (add_one first) || ltb (add_one rl.newest.number) n
    then Seek.not_found
    else if n == first
    then skip (blocks rl) (sub_one first)
    else seek (walk (sub_one n) (blocks rl))
