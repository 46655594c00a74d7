-- ===== src/Vm/Prices/Total.antt =====
-- core/vm/gas_table.go, memoryGasCost: the fees of a memory add up to the price of its size.
use zond.Prelude.{
  ℕ, ◌+◌, ◌-◌, ◌*◌, ◌/◌, ◌%◌, ◌^◌, ◌≤◌, ◌<◌, ◌≡◌, refl, sym, ap, subst, ◌∙◌, Option, none, some,
  ◌==◌, ltb, leb, if◌then◌else◌, if-cases, length, length-append, length-replicate, replicate,
  arith,
}
use native.Mathlib.Nat.{mul-le-mul}
use native.Mathlib.Decide.{dec_le}
use zond.Vm.{Bytes, MemoryStore}
use zond.Vm.Memory.{resize}
use zond.Vm.Sizes.{to_word_size}
use zond.Vm.Prices.{memory_gas_cost}

-- What a memory of `w` words costs in all
abbrev pub price_of : ℕ → ℕ
price_of w = 3 * w + w * w / 512

-- A memory of `w` words whose fees are paid, and no larger than the gas allows
abbrev pub IsPaid : ℕ → MemoryStore → Type 0
IsPaid w mem = (length mem.store ≡ 32 * w) × (mem.last_gas_cost ≡ price_of w) × (w < 2 ^ 32)

price_mono : (v w : ℕ) → v ≤ w → price_of v ≤ price_of w
price_mono v w h = let s = mul-le-mul h h in omega arith

price_lt : (w : ℕ) → w < 2 ^ 32 → (w * w < 2 ^ 64) × (price_of w < 2 ^ 64)
price_lt w h = let top : w ≤ 2 ^ 32 - 1 = omega arith in let s = mul-le-mul top top in omega arith

words_lem : (w : ℕ) → w < 2 ^ 32 → to_word_size (32 * w) ≡ w
unfolding to_word_size
words_lem w h = ground arith

abbrev charge : MemoryStore → ℕ → ℕ → Option (ℕ × MemoryStore)
charge mem fee total = some (fee, record mem { last_gas_cost = total })

abbrev free : MemoryStore → Option (ℕ × MemoryStore)
free mem = some (0, mem)

-- For a memory of v words whose last fee is the price of v words, 3 v and v squared by 512, and a
-- size of w words, v and w less than 2^32: memoryGasCost charges without an overflow the price of
-- w words less the price of v words, nothing where the memory is large enough, and after Resize
-- the memory has the larger number of words and its last fee is their price.
pub memory_gas_cost_lem :
    (mem : MemoryStore) (v w : ℕ)
    → IsPaid v mem
    → w < 2 ^ 32
    → (mem' : MemoryStore) × (memory_gas_cost mem (32 * w) ≡ some (price_of w - price_of v, mem'))
      × IsPaid (if leb v w then w else v) (record mem' { store = resize (32 * w) mem.store })
unfolding memory_gas_cost resize
memory_gas_cost_lem mem v w (len, last, small) h = elim (dec_le w v) [
  | yes le ↦
      let no_fee : price_of w - price_of v ≡ 0 = let m = price_mono w v le in omega arith in
      (
        mem,
        if-cases (λ r. r ≡ some (price_of w - price_of v, mem)) (32 * w == 0)
            (λ t. ap (λ p. some (p, mem)) (sym no_fee))
            (λ t.
              if-cases (λ r. r ≡ some (price_of w - price_of v, mem)) (ltb 137438953440 (32 * w))
                (λ u. absurd (ground arith))
                (λ u.
                  if-cases (λ r. r ≡ some (price_of w - price_of v, mem))
                    (ltb (length mem.store) (to_word_size (32 * w) * 32 % 2 ^ 64))
                    (λ x. let e = words_lem w h in absurd (ground (arith, x, e)))
                    (λ x. ap (λ p. some (p, mem)) (sym no_fee)))),
        subst (λ u. IsPaid u (record mem { store = resize (32 * w) mem.store }))
            (sym (larger w v le))
            (
              if-cases (λ (s : Bytes). length s ≡ 32 * v) (ltb (length mem.store) (32 * w))
                  (λ t. absurd (ground arith)) (λ t. len),
              last,
              small,
            ),
      )
  | no gt ↦
      let mem' = record mem { last_gas_cost = price_of w } in
      (
        mem',
        subst
            (λ words.
              (if 32 * w == 0
                then free mem
                else if ltb 137438953440 (32 * w)
                then none
                else if ltb (length mem.store) (words * 32 % 2 ^ 64)
                then charge mem
                    (((words * 3 % 2 ^ 64 + words * words % 2 ^ 64 / 512) % 2 ^ 64
                        + 2 ^ 64
                        - mem.last_gas_cost)
                      % 2 ^ 64)
                    ((words * 3 % 2 ^ 64 + words * words % 2 ^ 64 / 512) % 2 ^ 64)
                else free mem)
              ≡ charge mem (price_of w - price_of v) (price_of w))
            (sym (words_lem w h))
            (if-cases (λ r. r ≡ some (price_of w - price_of v, mem')) (32 * w == 0)
              (λ t. absurd (ground arith))
              (λ t.
                if-cases (λ r. r ≡ some (price_of w - price_of v, mem')) (ltb 137438953440 (32 * w))
                  (λ u. absurd (ground arith))
                  (λ u.
                    if-cases (λ r. r ≡ some (price_of w - price_of v, mem'))
                      (ltb (length mem.store) (w * 32 % 2 ^ 64))
                      (λ x i. charge mem (fee (omega arith) i) (total i))
                      (λ x. absurd (ground arith))))),
        subst (λ u. IsPaid u (record mem' { store = resize (32 * w) mem.store }))
            (sym (smaller w v gt))
            (
              if-cases (λ (s : Bytes). length s ≡ 32 * w) (ltb (length mem.store) (32 * w))
                  (λ t.
                    length-append mem.store (replicate (32 * w - length mem.store) 0)
                    ∙ added (32 * w) (ground arith))
                  (λ t. absurd (ground arith)),
              refl,
              h,
            ),
      )
]
  where
    larger : (w v : ℕ) → w ≤ v → (if leb v w then w else v) ≡ v
    larger w v h = ground arith

    smaller : (w v : ℕ) → (w ≤ v → ⊥) → (if leb v w then w else v) ≡ w
    smaller w v h = ground arith

    added :
        (n : ℕ)
        → length mem.store ≤ n
        → length mem.store + length (replicate {A = ℕ} (n - length mem.store) 0) ≡ n
    added n l = let r = length-replicate {A = ℕ} (n - length mem.store) 0 in omega arith

    -- the machine's arithmetic does not wrap around
    total : (w * 3 % 2 ^ 64 + w * w % 2 ^ 64 / 512) % 2 ^ 64 ≡ price_of w
    total = let (a, b) = price_lt w h in omega arith

    fee :
        v ≤ w
        → ((w * 3 % 2 ^ 64 + w * w % 2 ^ 64 / 512) % 2 ^ 64 + 2 ^ 64 - mem.last_gas_cost) % 2 ^ 64
          ≡ price_of w - price_of v
    fee le =
        let (a, b) = price_lt w h in
        let m = price_mono v w le in
        ap (λ t. (t + 2 ^ 64 - mem.last_gas_cost) % 2 ^ 64) total
        ∙ ap (λ l. (price_of w + 2 ^ 64 - l) % 2 ^ 64) last
        ∙ omega arith
