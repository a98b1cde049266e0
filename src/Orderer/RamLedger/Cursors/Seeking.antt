-- ===== src/Orderer/RamLedger/Cursors/Seeking.antt =====
-- What an iterator of the ram ledger returns.
use fabric.Base.{
  ℕ, ◌+◌, ◌-◌, ◌%◌, ◌^◌, ◌<◌, ◌≡◌, refl, sym, ◌⊎◌, ltb→lt, length, length-append, append_assoc, ap,
  subst, ◌≢◌, ◌∙◌, inl, inr, Bool-cases, ltb, ◌==◌, ==_iff, nat_eq, Option, none, some, Bytes, List,
  [], ◌∷◌, ◌++◌, arith,
}
use fabric.Orderer.RamLedger.{Block, RamLedger, add_one}
use fabric.Orderer.RamLedger.Linked.{IsWf}
use fabric.Orderer.RamLedger.Cursors.{
  Cursor, StartType, Seek, sub_one, oldest_of, walk, skip, seek, blocks, iterator,
}
use fabric.Orderer.RamLedger.Cursors.Walks.{
  From, Walked, Linked-From, From-suffix, walk-Walked, position, oldest-small,
}

abbrev first : RamLedger → ℕ
first rl = (oldest_of rl.before rl.newest).number

-- The cursor has the number that is asked for, or 0 behind the pre-genesis block; the blocks that it
-- returns are the last retained ones, numbered from its number on; if there are none yet, its
-- number is the one after the newest block's.
abbrev pub Finds : ℕ → RamLedger → Seek → Type 0
Finds n rl Seek.not_found = ⊥
Finds n rl Seek.lost = ⊥
Finds n rl (Seek.found c k) =
    (earlier : List Block) × (blocks rl ≡ earlier ++ c.ahead)
    × From k c.ahead
    × (n ≢ 2 ^ 64 - 1 → k ≡ n)
    × (n ≡ 2 ^ 64 - 1 → k ≡ 0)
    × (c.ahead ≡ [] → k ≡ add_one rl.newest.number)

-- The oldest and the newest block are found. Another number is an error below the oldest number,
-- where the pre-genesis block comes before block 0, or beyond the one after the newest.
abbrev pub Answers : StartType → ℕ → RamLedger → Seek → Type 0
Answers StartType.oldest n rl out = Finds (oldest_of rl.before rl.newest).number rl out
Answers StartType.newest n rl out = Finds rl.newest.number rl out
Answers StartType.specified n rl out =
    (((add_one n < add_one (oldest_of rl.before rl.newest).number) ⊎ (add_one rl.newest.number < n))
      × (out ≡ Seek.not_found))
    ⊎ Finds n rl out

module _ (rl : RamLedger) (chain : From (first rl) (blocks rl)) (small : first rl < 2 ^ 64) where
  newest-number : rl.newest.number ≡ (first rl + length rl.before) % 2 ^ 64
  newest-number = (From-suffix (first rl) rl.before (rl.newest ∷ []) small chain).0

  some_block : blocks rl ≢ []
  some_block h = omega (arith, ap length h, length-append rl.before (rl.newest ∷ []))

  -- A cursor behind some of the retained blocks, with their number, returns the rest of them.
  placed :
      (n k : ℕ) (c : Cursor) (earlier : List Block)
      → blocks rl ≡ earlier ++ c.ahead
      → k ≡ (first rl + length earlier) % 2 ^ 64
      → (n ≢ 2 ^ 64 - 1 → k ≡ n)
      → (n ≡ 2 ^ 64 - 1 → k ≡ 0)
      → Finds n rl (Seek.found c k)
  placed n k c earlier e p plain wrapped = (
    earlier,
    e,
    subst (λ i. From i c.ahead) (sym p)
        (From-suffix (first rl) earlier c.ahead small (subst (From (first rl)) e chain)),
    plain,
    wrapped,
    λ none_ahead. omega (
      arith,
      p,
      newest-number,
      ap length e,
      ap length none_ahead,
      length-append rl.before (rl.newest ∷ []),
      length-append earlier c.ahead,
    ),
  )

  skip-Finds :
      (n m : ℕ) (earlier bs : List Block)
      → n < 2 ^ 64
      → m ≡ sub_one n
      → blocks rl ≡ earlier ++ bs
      → n ≡ (first rl + length earlier) % 2 ^ 64
      → (bs ≡ [] → n ≢ 2 ^ 64 - 1)
      → Finds n rl (skip bs m)
  unfolding skip
  skip-Finds n m earlier [] l e p q some_left =
      placed n (add_one m) record { number = m; ahead = [] } earlier p (omega (arith, e, q, l))
        (λ h. omega (arith, e, l)) (λ h. absurd (some_left refl h))
  skip-Finds n m earlier (b ∷ bs) l e p q some_left = elim (Bool-cases (add_one m == 2 ^ 64 - 1)) [
    | inl t ↦
        let r : add_one m ≡ 2 ^ 64 - 1 = (==_iff (add_one m) (2 ^ 64 - 1)).0 t in
        rw t (
          placed n (add_one (add_one m)) record { number = b.number; ahead = bs }
            (earlier ++ (b ∷ [])) (p ∙ sym (append_assoc earlier (b ∷ []) bs))
            (omega (arith, e, q, l, length-append earlier (b ∷ [])))
            (λ h. absurd (h (omega (arith, e, r, l)))) (λ h. omega (arith, r)))
    | inr t ↦ rw t (
        placed n (add_one m) record { number = m; ahead = b ∷ bs } earlier p
          (omega (arith, e, q, l)) (λ h. omega (arith, e, l))
          (λ h. cc (t, (==_iff (add_one m) (2 ^ 64 - 1)).1 (omega (arith, h, e)))))
  ]

  seek-Finds :
      (n : ℕ) (o : Option Cursor)
      → n < 2 ^ 64
      → n ≢ 2 ^ 64 - 1
      → Walked (sub_one n) (first rl) (blocks rl) o
      → Finds n rl (seek o)
  unfolding seek
  seek-Finds n none l plain w = w
  seek-Finds n (some c) l plain (earlier, e, p, q) =
      skip-Finds n c.number earlier c.ahead l p e (omega (arith, q, l)) (λ h. plain)

  specified-Answers :
      (n : ℕ) → n < 2 ^ 64 → Answers StartType.specified n rl (iterator StartType.specified n rl)
  unfolding iterator
  specified-Answers n l = elim (Bool-cases (ltb (add_one n) (add_one (first rl)))) [
    | inl t ↦ rw t (inl (inl (ltb→lt _ _ t), refl))
    | inr t ↦ elim (Bool-cases (ltb (add_one rl.newest.number) n)) [
      | inl u ↦ rw (t, u) (inl (inr (ltb→lt _ _ u), refl))
      | inr u ↦ elim (Bool-cases (n == first rl)) [
        | inl q ↦
            let e : n ≡ first rl = (==_iff n (first rl)).0 q in
            rw (t, u, q)
              (inr (
                skip-Finds n (sub_one (first rl)) [] (blocks rl) l (ap sub_one (sym e)) refl
                  (omega (arith, e, l)) (λ h. absurd (some_block h))))
        | inr q ↦
            let other : n ≢ first rl = λ e. cc (q, (==_iff n (first rl)).1 e) in
            let (plain, (j, less, at)) =
              position n (first rl) (length rl.before) rl.newest.number l small newest-number t u
                other in
            rw (t, u, q)
              (inr (
                seek-Finds n (walk (sub_one n) (blocks rl)) l plain (
                  walk-Walked (sub_one n) (first rl) j (blocks rl) chain small
                    (omega (arith, less, length-append rl.before (rl.newest ∷ []))) at)))
      ]
    ]
  ]

-- On a chain that is well formed an iterator never walks off the list. For the oldest and the newest
-- block, and for a number in range, its number is that of the block that is asked for (behind the
-- pre-genesis block 0), and it returns the retained blocks from that number on, in order: the first
-- one that it returns has the number, unless it is the one after the newest block's and none has. It
-- is the error iterator only for a specified number below the oldest block's, where the pre-genesis
-- block comes before block 0, or beyond the one after the newest block's.
pub iterator-Answers :
    (hash : Block → Bytes) (hash_data : List Bytes → Bytes) (genesis : Option Block)
    (start : StartType) (n : ℕ) (rl : RamLedger)
    → n < 2 ^ 64
    → IsWf hash hash_data genesis rl
    → Answers start n rl (iterator start n rl)
unfolding iterator
iterator-Answers hash hash_data genesis start n rl l wf = answer start
  where
    chain : From (first rl) (blocks rl)
    chain = Linked-From hash hash_data genesis rl.before rl.newest wf.linked

    small : first rl < 2 ^ 64
    small = oldest-small rl.before rl.newest wf.numbers

    answer : (start : StartType) → Answers start n rl (iterator start n rl)
    answer StartType.oldest =
        skip-Finds rl chain small (first rl) (sub_one (first rl)) [] (blocks rl) small refl refl
          (omega (arith, small)) (λ h. absurd (some_block rl chain small h))
    answer StartType.newest =
        let e = newest-number rl chain small in
        skip-Finds rl chain small rl.newest.number (sub_one rl.newest.number) rl.before
          (rl.newest ∷ []) (omega (arith, e)) refl refl e (λ h. cc h)
    answer StartType.specified = specified-Answers rl chain small n l
