-- ===== src/Vm/Prices/Bounds.antt =====
-- core/vm/gas_table.go: the dynamic gas functions do not panic, and keep the machine but for the fee of the
-- memory and the refund.
use zond.Prelude.{
  ℕ, ◌+◌, ◌*◌, ◌/◌, ◌%◌, ◌^◌, ◌≤◌, ◌<◌, ◌≡◌, refl, sym, subst, ◌∙◌, true, false, not, ◌&&◌, ◌||◌,
  Option, none, some, ◌==◌, ltb, leb, if◌then◌else◌, if-cases, length, get_elem?, arith,
}
use zond.Vm.{
  Library, StateDb, Contract, MemoryStore, Machine, Charged, costs, refused, broken,
  gas_uint_overflow, overflows,
}
use zond.Vm.Sizes.{to_word_size, safe_mul, safe_add}
use zond.Vm.Prices.{
  memory_gas_cost, priced_by, pure_memory_gascost, plus_product, words_gas, memory_copier_gas,
  gas_keccak256, make_gas_log, gas_exp_frontier, legacy_sstore, refunded, net_reset, net_sstore,
  gas_sstore,
}
use zond.Vm.Analysis.Bounds.{get_elem?_lem}
use zond.Vm.Interpreter.Interface.{Prices}

abbrev pub MemPrice : MemoryStore → ℕ → Option (ℕ × MemoryStore) → Type 0
MemPrice mem size none = Unit {0}
MemPrice mem size (some (gas, mem')) = (mem'.store ≡ mem.store) × (size ≤ 2 ^ 37)

pub memory_gas_cost-MemPrice :
    (mem : MemoryStore) (size : ℕ) → MemPrice mem size (memory_gas_cost mem size)
unfolding memory_gas_cost
memory_gas_cost-MemPrice mem size =
    if-cases (MemPrice mem size) (size == 0) (λ t. (refl, ground arith))
      λ t.
        if-cases (MemPrice mem size) (ltb 137438953440 size) (λ u. tt)
          λ u.
            let small : size ≤ 2 ^ 37 = ground arith in
            if-cases (MemPrice mem size) (ltb (length mem.store) (to_word_size size * 32 % 2 ^ 64))
              (λ v. (refl, small)) (λ v. (refl, small))

-- Before EIP-1283
abbrev pub IsLegacy : Contract → Type 0
IsLegacy e = (e.is_petersburg || not e.is_constantinople) ≡ true

module _ {W : Type 0} where
  priced_by-Prices :
      (m : Machine W) (size : ℕ) (f : ℕ → Machine W → Charged W)
      → ((gas : ℕ) (n : Machine W)
          → n.pc ≡ m.pc
          → n.stack ≡ m.stack
          → n.gas ≡ m.gas
          → n.memory.store ≡ m.memory.store
          → size ≤ 2 ^ 37
          → Prices m size (f gas n))
      → Prices m size (priced_by m (memory_gas_cost m.memory size) f)
  priced_by-Prices m size f h =
      on_price (memory_gas_cost m.memory size) (memory_gas_cost-MemPrice m.memory size)
    where
      on_price :
          (o : Option (ℕ × MemoryStore))
          → MemPrice m.memory size o
          → Prices m size (priced_by m o f)
      on_price none p = refl
      on_price (some (gas, mem)) (s, l) = h gas (record m { memory = mem }) refl refl refl s l

  pub pure-Prices : (m : Machine W) (size : ℕ) → Prices m size (pure_memory_gascost m size)
  unfolding pure_memory_gascost
  pure-Prices m size = priced_by-Prices m size costs λ gas n p s g t l. (p, s, g, t, l)

  plus-Prices :
      (m n : Machine W) (size gas x y : ℕ)
      → n.pc ≡ m.pc
      → n.stack ≡ m.stack
      → n.gas ≡ m.gas
      → n.memory.store ≡ m.memory.store
      → size ≤ 2 ^ 37
      → Prices m size (plus_product gas x y n)
  unfolding plus_product safe_mul safe_add
  plus-Prices m n size gas x y p s g t l =
      if-cases (Prices m size) (leb (2 ^ 64) (x * y)) (λ u. g)
        λ u.
          if-cases (Prices m size) (leb (2 ^ 64) (gas + x * y % 2 ^ 64)) (λ v. g)
            (λ v. (p, s, g, t, l))

  words_gas-Prices :
      (i price : ℕ) (m : Machine W) (size : ℕ)
      → i < length m.stack
      → Prices m size (words_gas i price m size)
  unfolding words_gas
  words_gas-Prices i price m size h = priced_by-Prices m size _ λ gas n p s g t l.
      let (x, found) = get_elem?_lem n.stack i (subst (λ k. i < length k) (sym s) h) in
      subst
        (λ o. Prices m size (elim o [
          | none ↦ broken
          | some l ↦
              if overflows l
              then refused gas_uint_overflow n
              else plus_product gas (to_word_size l) price n
        ]))
        (sym found)
        (if-cases (Prices m size) (overflows x) (λ u. g)
          (λ u. plus-Prices m n size gas (to_word_size x) price p s g t l))

  pub copier-Prices :
      (i : ℕ) (m : Machine W) (size : ℕ)
      → i < length m.stack
      → Prices m size (memory_copier_gas i m size)
  unfolding memory_copier_gas
  copier-Prices i m size h = words_gas-Prices i 3 m size h

  pub keccak256-Prices :
      (m : Machine W) (size : ℕ) → 1 < length m.stack → Prices m size (gas_keccak256 m size)
  unfolding gas_keccak256
  keccak256-Prices m size h = words_gas-Prices 1 6 m size h

  pub log-Prices :
      (n : ℕ) (m : Machine W) (size : ℕ)
      → 1 < length m.stack
      → Prices m size (make_gas_log n m size)
  unfolding make_gas_log safe_add
  log-Prices n m size h =
      let (x, found) = get_elem?_lem m.stack 1 h in
      subst
        (λ o. Prices m size (elim o [
          | none ↦ broken
          | some requested ↦
              if overflows requested
              then refused gas_uint_overflow m
              else priced_by m (memory_gas_cost m.memory size) (λ gas m.
                if leb (2 ^ 64) (gas + 375)
                then refused gas_uint_overflow m
                else if leb (2 ^ 64) ((gas + 375) % 2 ^ 64 + n * 375 % 2 ^ 64)
                then refused gas_uint_overflow m
                else plus_product (((gas + 375) % 2 ^ 64 + n * 375 % 2 ^ 64) % 2 ^ 64) requested 8
                    m)
        ]))
        (sym found)
        (if-cases (Prices m size) (overflows x) (λ u. refl)
          λ u. priced_by-Prices m size _ λ gas k p s g t l.
            if-cases (Prices m size) (leb (2 ^ 64) (gas + 375)) (λ v. g)
              λ v.
                if-cases (Prices m size) (leb (2 ^ 64) ((gas + 375) % 2 ^ 64 + n * 375 % 2 ^ 64))
                  (λ w. g)
                  λ w.
                    plus-Prices m k size (((gas + 375) % 2 ^ 64 + n * 375 % 2 ^ 64) % 2 ^ 64) x 8 p
                      s g t l)

  pub exp-Prices :
      (lib : Library) (m : Machine W) → 1 < length m.stack → Prices m 0 (gas_exp_frontier lib m 0)
  unfolding gas_exp_frontier safe_add
  exp-Prices lib m h =
      let (x, found) = get_elem?_lem m.stack 1 h in
      subst
        (λ o. Prices m 0 (elim o [
          | none ↦ broken
          | some exponent ↦
              if leb (2 ^ 64) ((lib.bit_len exponent + 7) / 8 * 10 % 2 ^ 64 + 10)
              then refused gas_uint_overflow m
              else costs (((lib.bit_len exponent + 7) / 8 * 10 % 2 ^ 64 + 10) % 2 ^ 64) m
        ]))
        (sym found)
        (if-cases (Prices m 0) (leb (2 ^ 64) ((lib.bit_len x + 7) / 8 * 10 % 2 ^ 64 + 10))
          (λ u. refl) (λ u. (refl, refl, refl, refl, omega arith)))

  pub sstore-Prices :
      (db : StateDb W) (e : Contract)
      → IsLegacy e
      → (m : Machine W) → 1 < length m.stack
      → Prices m 0 (gas_sstore db e m 0)
  unfolding gas_sstore legacy_sstore
  sstore-Prices db e legacy m h =
      let (y, found) = get_elem?_lem m.stack 1 h in
      let (x, top) = get_elem?_lem m.stack 0 (omega arith) in
      on_stack (get_elem? m.stack 1) (get_elem? m.stack 0) y x found top
    where
      apart : true ≡ false → ⊥
      apart h = cc

      kept :
          (m.pc ≡ m.pc)
          × (m.stack ≡ m.stack)
          × (m.gas ≡ m.gas)
          × (m.memory.store ≡ m.memory.store)
          × (0 ≤ 2 ^ 37)
      kept = (refl, refl, refl, refl, omega arith)

      missing : {x : ℕ} → none ≡ some x → ⊥
      missing h = cc

      on_stack :
          (a b : Option ℕ) (y x : ℕ)
          → a ≡ some y
          → b ≡ some x
          → Prices m 0 (elim a [
            | none ↦ broken
            | some y ↦ elim b [
              | none ↦ broken
              | some x ↦
                  let current = db.get_state m.world e.self x in
                  if e.is_petersburg || not e.is_constantinople
                  then legacy_sstore db current y m
                  else net_sstore db current (db.get_committed_state m.world e.self x) y m
            ]
          ])
      on_stack none b y x p q = absurd (missing p)
      on_stack (some y) none z x p q = absurd (missing q)
      on_stack (some y) (some x) z w p q =
          let current = db.get_state m.world e.self x in
          if-cases (Prices m 0) (e.is_petersburg || not e.is_constantinople)
            (λ t.
              if-cases (Prices m 0) (current == 0 && not (y == 0)) (λ u. kept)
                (λ u. if-cases (Prices m 0) (not (current == 0) && y == 0) (λ v. kept) (λ v. kept)))
            (λ t. absurd (apart (sym legacy ∙ t)))

  -- A price that is not nothing
  abbrev pub Costly : Charged W → Type 0
  Costly (costs c m) = 1 ≤ c
  Costly _ = Unit {0}

  pub Costly_lem : (r : Charged W) (c : ℕ) (m : Machine W) → Costly r → r ≡ costs c m → 1 ≤ c
  Costly_lem r c m h e = subst Costly e h

  net_reset-Costly :
      (db : StateDb W) (original y : ℕ) (m : Machine W) → Costly (net_reset db original y m)
  unfolding net_reset
  net_reset-Costly db original y m =
      if-cases Costly (original == y) (λ u. omega arith) (λ u. omega arith)

  net_sstore-Costly :
      (db : StateDb W) (current original y : ℕ) (m : Machine W)
      → Costly (net_sstore db current original y m)
  unfolding net_sstore
  net_sstore-Costly db current original y m =
      if-cases Costly (current == y) (λ t. omega arith)
        λ t.
          if-cases Costly (original == current)
            (λ t. if-cases Costly (original == 0) (λ t. omega arith) (λ t. omega arith))
            λ t.
              if-cases Costly (not (original == 0) && current == 0)
                (λ t. on_refund (db.sub_refund m.world 15000))
                λ t.
                  if-cases Costly (not (original == 0) && y == 0)
                    (λ t. net_reset-Costly db original y _) (λ t. net_reset-Costly db original y m)
    where
      on_refund : (o : Option W) → Costly (refunded m o (net_reset db original y))
      on_refund none = tt
      on_refund (some w) = net_reset-Costly db original y (record m { world = w })

  pub sstore-Costly :
      (db : StateDb W) (e : Contract) (m : Machine W) (size : ℕ) → Costly (gas_sstore db e m size)
  unfolding gas_sstore legacy_sstore
  sstore-Costly db e m size = on_stack (get_elem? m.stack 1) (get_elem? m.stack 0)
    where
      on_stack :
          (a b : Option ℕ)
          → Costly (elim a [
            | none ↦ broken
            | some y ↦ elim b [
              | none ↦ broken
              | some x ↦
                  let current = db.get_state m.world e.self x in
                  if e.is_petersburg || not e.is_constantinople
                  then legacy_sstore db current y m
                  else net_sstore db current (db.get_committed_state m.world e.self x) y m
            ]
          ])
      on_stack none b = tt
      on_stack (some y) none = tt
      on_stack (some y) (some x) =
          let current = db.get_state m.world e.self x in
          if-cases Costly (e.is_petersburg || not e.is_constantinople)
            (λ t.
              if-cases Costly (current == 0 && not (y == 0)) (λ u. omega arith)
                (λ u.
                  if-cases Costly (not (current == 0) && y == 0) (λ v. omega arith)
                    (λ v. omega arith)))
            (λ t. net_sstore-Costly db current (db.get_committed_state m.world e.self x) y m)

  plus-Costly : (n : Machine W) (gas x y : ℕ) → 1 ≤ gas → Costly (plus_product gas x y n)
  unfolding plus_product safe_mul safe_add
  plus-Costly n gas x y h =
      if-cases Costly (leb (2 ^ 64) (x * y)) (λ u. tt)
        λ u.
          if-cases Costly (leb (2 ^ 64) (gas + x * y % 2 ^ 64)) (λ v. tt)
            λ v. at_least (x * y % 2 ^ 64) v
    where
      at_least : (p : ℕ) → leb (2 ^ 64) (gas + p) ≡ false → 1 ≤ (gas + p) % 2 ^ 64
      at_least p v = ground arith

  priced_by-Costly :
      (m : Machine W) (o : Option (ℕ × MemoryStore)) (f : ℕ → Machine W → Charged W)
      → ((gas : ℕ) (n : Machine W) → Costly (f gas n))
      → Costly (priced_by m o f)
  priced_by-Costly m none f h = tt
  priced_by-Costly m (some (gas, mem)) f h = h gas (record m { memory = mem })

  pub log-Costly : (n : ℕ) (m : Machine W) (size : ℕ) → Costly (make_gas_log n m size)
  unfolding make_gas_log safe_add
  log-Costly n m size = on_stack (get_elem? m.stack 1)
    where
      enough :
          (gas p : ℕ)
          → leb (2 ^ 64) (gas + 375) ≡ false
          → leb (2 ^ 64) ((gas + 375) % 2 ^ 64 + p) ≡ false
          → 1 ≤ ((gas + 375) % 2 ^ 64 + p) % 2 ^ 64
      enough gas p v w = ground arith

      on_stack :
          (a : Option ℕ)
          → Costly (elim a [
            | none ↦ broken
            | some requested ↦
                if overflows requested
                then refused gas_uint_overflow m
                else priced_by m (memory_gas_cost m.memory size) (λ gas m.
                  if leb (2 ^ 64) (gas + 375)
                  then refused gas_uint_overflow m
                  else if leb (2 ^ 64) ((gas + 375) % 2 ^ 64 + n * 375 % 2 ^ 64)
                  then refused gas_uint_overflow m
                  else plus_product
                      (((gas + 375) % 2 ^ 64 + n * 375 % 2 ^ 64) % 2 ^ 64)
                      requested
                      8
                      m)
          ])
      on_stack none = tt
      on_stack (some requested) =
          if-cases Costly (overflows requested) (λ t. tt)
            λ t. priced_by-Costly m (memory_gas_cost m.memory size) _ λ gas k.
              if-cases Costly (leb (2 ^ 64) (gas + 375)) (λ v. tt)
                λ v.
                  if-cases Costly (leb (2 ^ 64) ((gas + 375) % 2 ^ 64 + n * 375 % 2 ^ 64)) (λ w. tt)
                    λ w. plus-Costly k _ requested 8 (enough gas (n * 375 % 2 ^ 64) v w)

  pub exp-Costly : (lib : Library) (m : Machine W) (size : ℕ) → Costly (gas_exp_frontier lib m size)
  unfolding gas_exp_frontier safe_add
  exp-Costly lib m size = on_stack (get_elem? m.stack 1)
    where
      enough : (p : ℕ) → leb (2 ^ 64) (p + 10) ≡ false → 1 ≤ (p + 10) % 2 ^ 64
      enough p h = ground arith

      on_stack :
          (a : Option ℕ)
          → Costly (elim a [
            | none ↦ broken
            | some exponent ↦
                if leb (2 ^ 64) ((lib.bit_len exponent + 7) / 8 * 10 % 2 ^ 64 + 10)
                then refused gas_uint_overflow m
                else costs (((lib.bit_len exponent + 7) / 8 * 10 % 2 ^ 64 + 10) % 2 ^ 64) m
          ])
      on_stack none = tt
      on_stack (some x) =
          if-cases Costly (leb (2 ^ 64) ((lib.bit_len x + 7) / 8 * 10 % 2 ^ 64 + 10)) (λ t. tt)
            (enough ((lib.bit_len x + 7) / 8 * 10 % 2 ^ 64))
