-- ===== src/Orderer/RamLedger/Cursors/Walks.antt =====
-- The numbers of the retained blocks, and the walk of an iterator to a block.
use fabric.Base.{
  ℕ, zero, suc, All, ◌≤◌, ◌+◌, ◌-◌, ◌%◌, ◌^◌, ◌<◌, ◌≡◌, refl, length, ap, subst, ◌≢◌, inl, inr,
  Bool-cases, false, ltb, ◌==◌, ==_iff, nat_eq, Option, none, some, Bytes, List, [], ◌∷◌, ◌++◌,
  arith,
}
use fabric.Orderer.RamLedger.{Block, add_one}
use fabric.Orderer.RamLedger.Linked.{Linked}
use fabric.Orderer.RamLedger.Cursors.{Cursor, sub_one, oldest_of, walk}

-- The blocks are numbered in order, from `n` on.
abbrev pub From : ℕ → List Block → Type 0
From n [] = Unit
From n (b ∷ bs) = (b.number ≡ n) × From (add_one n) bs

module _ (hash : Block → Bytes) (hash_data : List Bytes → Bytes) where
  pub Linked-From :
      (genesis : Option Block) (bs : List Block) (b : Block)
      → Linked hash hash_data genesis bs b
      → From (oldest_of bs b).number (bs ++ (b ∷ []))
  Linked-From genesis [] b h = (refl, tt)
  Linked-From genesis (a ∷ []) b h = (refl, (h.0, tt))
  Linked-From genesis (a ∷ c ∷ bs) b (f, h) =
      (refl, subst (λ n. From n ((c ∷ bs) ++ (b ∷ []))) f.0 (Linked-From genesis (c ∷ bs) b h))

pub From-suffix :
    (n : ℕ) (xs ys : List Block)
    → n < 2 ^ 64
    → From n (xs ++ ys)
    → From ((n + length xs) % 2 ^ 64) ys
From-suffix n [] ys l h = subst (λ k. From k ys) (omega (arith, l)) h
From-suffix n (x ∷ xs) ys l (e, h) =
    subst (λ k. From k ys) (omega arith) (From-suffix (add_one n) xs ys (omega arith) h)

-- The walk ends at the block before the target, if there is one.
abbrev pub Walked : ℕ → ℕ → List Block → Option Cursor → Type 0
Walked target n bs none = ⊥
Walked target n bs (some c) =
    (earlier : List Block) × (bs ≡ earlier ++ c.ahead)
    × (c.number ≡ target)
    × (add_one target ≡ (n + length earlier) % 2 ^ 64)

walk-behind :
    (target n : ℕ) (b : Block) (bs : List Block) (o : Option Cursor)
    → Walked target (add_one n) bs o
    → Walked target n (b ∷ bs) o
walk-behind target n b bs none w = w
walk-behind target n b bs (some c) (earlier, e, p, q) =
    (b ∷ earlier, ap (λ t. b ∷ t) e, p, omega (arith, q))

pub walk-Walked :
    (target n j : ℕ) (bs : List Block)
    → From n bs
    → n < 2 ^ 64
    → j < length bs
    → target ≡ (n + j) % 2 ^ 64
    → Walked target n bs (walk target bs)
unfolding walk
walk-Walked target n j [] h l less e = omega (arith, less)
walk-Walked target n zero (b ∷ bs) (p, h) l less e =
    let q : b.number ≡ target = omega (arith, p, e, l) in
    rw ((==_iff b.number target).1 q) (b ∷ [], refl, q, omega (arith, q, p))
walk-Walked target n (suc j) (b ∷ bs) (p, h) l less e = elim (Bool-cases (b.number == target)) [
  | inl t ↦
      let q : b.number ≡ target = (==_iff b.number target).0 t in
      rw t (b ∷ [], refl, q, omega (arith, q, p))
  | inr t ↦ rw t (
      walk-behind target n b bs (walk target bs) (
        walk-Walked target (add_one n) j bs h (omega arith) (omega (arith, less))
          (omega (arith, e))))
]

-- the place of the block before the one that is asked for
pub position :
    (n from count to : ℕ)
    → n < 2 ^ 64
    → from < 2 ^ 64
    → to ≡ (from + count) % 2 ^ 64
    → ltb (add_one n) (add_one from) ≡ false
    → ltb (add_one to) n ≡ false
    → n ≢ from
    → (n ≢ 2 ^ 64 - 1) × ((j : ℕ) × (j < count + 1) × (sub_one n ≡ (from + j) % 2 ^ 64))
position n from count to l m e low high other = (
  plain,
  elim (Bool-cases (from == 2 ^ 64 - 1)) [
    | inl t ↦
        let q : from ≡ 2 ^ 64 - 1 = (==_iff from (2 ^ 64 - 1)).0 t in
        (n, omega (arith, e, q, above), omega (arith, q, l))
    | inr t ↦
        let q : from ≢ 2 ^ 64 - 1 = λ h. cc (t, (==_iff from (2 ^ 64 - 1)).1 h) in
        let ahead : from < n = omega (arith, below, other, plain, q, l, m) in
        (n - (from + 1), omega (arith, e, above, ahead, m), omega (arith, ahead, l, m))
  ],
)
  where
    below : add_one from ≤ add_one n
    below = ground (arith, low)

    above : n ≤ add_one to
    above = ground (arith, high)

    plain : n ≢ 2 ^ 64 - 1
    plain h = omega (arith, h, below, other, m)

pub oldest-small :
    (bs : List Block) (b : Block)
    → All (λ x. x.number < 2 ^ 64) (bs ++ (b ∷ []))
    → (oldest_of bs b).number < 2 ^ 64
oldest-small [] b h = h.0
oldest-small (a ∷ bs) b h = h.0

pub add_one-sub_one : (n : ℕ) → n < 2 ^ 64 → add_one (sub_one n) ≡ n
add_one-sub_one n h = omega arith
