-- ===== src/Vm/Prices.antt =====
-- core/vm/gas_table.go: the dynamic gas of the instructions of the Frontier table. `none` is
-- ErrGasUintOverflow.
pub mod Bounds
pub mod Total
pub mod Calls
use zond.Prelude.{
  ℕ, zero, suc, ◌+◌, ◌-◌, ◌*◌, ◌/◌, ◌%◌, ◌^◌, Bool, true, false, not, ◌&&◌, ◌||◌, Option, none,
  some, List, ◌==◌, ltb, leb, if◌then◌else◌, length, bind,
}
use zond.Vm.{
  Library, StateDb, Contract, MemoryStore, Machine, Charged, costs, refused, broken,
  gas_uint_overflow, back, overflows,
}
use zond.Vm.Sizes.{to_word_size, safe_mul, safe_add}

-- memoryGasCost: the fee, and the memory with its last fee
unfoldable pub memory_gas_cost : MemoryStore → ℕ → Option (ℕ × MemoryStore)
unfolding to_word_size
memory_gas_cost mem size =
    let words = to_word_size size in
    let total = (words * 3 % 2 ^ 64 + words * words % 2 ^ 64 / 512) % 2 ^ 64 in
    if size == 0
    then some (0, mem)
    else if ltb 137438953440 size
    then none
    else if ltb (length mem.store) (words * 32 % 2 ^ 64)
    then some ((total + 2 ^ 64 - mem.last_gas_cost) % 2 ^ 64, record mem { last_gas_cost = total })
    else some (0, mem)

-- callGas of core/vm/gas.go
unfoldable pub call_gas : Bool → ℕ → ℕ → ℕ → Option ℕ
call_gas is_eip150 available base cost =
    let rest = (available + 2 ^ 64 - base) % 2 ^ 64 in
    let gas = rest - rest / 64 in
    if is_eip150 && (overflows cost || ltb gas cost)
    then some gas
    else if overflows cost
    then none
    else some cost

module _ {W : Type 0} where
  abbrev overflow : Machine W → Charged W
  overflow m = refused gas_uint_overflow m

  -- what follows memoryGasCost
  abbrev pub priced_by :
      Machine W → Option (ℕ × MemoryStore) → (ℕ → Machine W → Charged W) → Charged W
  priced_by m none f = overflow m
  priced_by m (some (gas, mem)) f = f gas (record m { memory = mem })

  -- pureMemoryGascost
  unfoldable pub pure_memory_gascost : Machine W → ℕ → Charged W
  unfolding memory_gas_cost
  pure_memory_gascost m size = priced_by m (memory_gas_cost m.memory size) costs

  -- a product that is added to the gas
  unfoldable pub plus_product : ℕ → ℕ → ℕ → Machine W → Charged W
  unfolding safe_mul safe_add
  plus_product gas x y m =
      let (product, mul_over) = safe_mul x y in
      let (sum, add_over) = safe_add gas product in
      if mul_over then overflow m else if add_over then overflow m else costs sum m

  -- memoryCopierGas, and gasKeccak256: the position of the length and the price of a word
  unfoldable pub words_gas : ℕ → ℕ → Machine W → ℕ → Charged W
  unfolding memory_gas_cost to_word_size plus_product
  words_gas position price m size = priced_by m (memory_gas_cost m.memory size) λ gas m.
      elim (back m.stack position) [
        | none ↦ broken
        | some l ↦ if overflows l then overflow m else plus_product gas (to_word_size l) price m
      ]

  unfoldable pub memory_copier_gas : ℕ → Machine W → ℕ → Charged W
  unfolding words_gas
  memory_copier_gas position = words_gas position 3

  unfoldable pub gas_keccak256 : Machine W → ℕ → Charged W
  unfolding words_gas
  gas_keccak256 = words_gas 1 6

  -- makeGasLog
  unfoldable pub make_gas_log : ℕ → Machine W → ℕ → Charged W
  unfolding memory_gas_cost safe_add plus_product
  make_gas_log n m size = elim (back m.stack 1) [
    | none ↦ broken
    | some requested ↦
        if overflows requested
        then overflow m
        else priced_by m (memory_gas_cost m.memory size) (λ gas m.
          let (one, over) = safe_add gas 375 in
          let (two, over') = safe_add one (n * 375 % 2 ^ 64) in
          if over then overflow m else if over' then overflow m else plus_product two requested 8 m)
  ]

  -- gasExpFrontier
  unfoldable pub gas_exp_frontier : Library → Machine W → ℕ → Charged W
  unfolding safe_add
  gas_exp_frontier lib m size = elim (back m.stack 1) [
    | none ↦ broken
    | some exponent ↦
        let gas = (lib.bit_len exponent + 7) / 8 * 10 % 2 ^ 64 in
        let (sum, over) = safe_add gas 10 in if over then overflow m else costs sum m
  ]

  -- the rules before EIP-1283, on the current value and the new one
  unfoldable pub legacy_sstore : StateDb W → ℕ → ℕ → Machine W → Charged W
  legacy_sstore db current y m =
      if current == 0 && not (y == 0)
      then costs 20000 m
      else if not (current == 0) && y == 0
      then costs 5000 (record m { world = db.add_refund m.world 15000 })
      else costs 5000 m

  -- SubRefund, which may panic
  abbrev pub refunded : Machine W → Option W → (Machine W → Charged W) → Charged W
  refunded m none f = broken
  refunded m (some w) f = f (record m { world = w })

  -- the last refund of EIP-1283, and its price
  unfoldable pub net_reset : StateDb W → ℕ → ℕ → Machine W → Charged W
  net_reset db original y m =
      if original == y
      then costs 200
          (record m { world = db.add_refund m.world (if original == 0 then 19800 else 4800) })
      else costs 200 m

  -- EIP-1283, on the current value, the original and the new one
  unfoldable pub net_sstore : StateDb W → ℕ → ℕ → ℕ → Machine W → Charged W
  unfolding net_reset
  net_sstore db current original y m =
      if current == y
      then costs 200 m
      else if original == current
      then if original == 0
        then costs 20000 m
        else costs 5000 (if y == 0 then record m { world = db.add_refund m.world 15000 } else m)
      else if not (original == 0) && current == 0
      then refunded m (db.sub_refund m.world 15000) (net_reset db original y)
      else if not (original == 0) && y == 0
      then net_reset db original y (record m { world = db.add_refund m.world 15000 })
      else net_reset db original y m

  -- gasSStore
  unfoldable pub gas_sstore : StateDb W → Contract → Machine W → ℕ → Charged W
  unfolding legacy_sstore net_sstore
  gas_sstore db e m size = elim (back m.stack 1) [
    | none ↦ broken
    | some y ↦ elim (back m.stack 0) [
      | none ↦ broken
      | some x ↦
          let current = db.get_state m.world e.self x in
          if e.is_petersburg || not e.is_constantinople
          then legacy_sstore db current y m
          else net_sstore db current (db.get_committed_state m.world e.self x) y m
    ]
  ]

  -- the refund of gasSelfdestruct
  unfoldable pub selfdestruct_costs : StateDb W → Contract → Machine W → ℕ → Charged W
  selfdestruct_costs db e m gas =
      if db.has_suicided m.world e.self
      then costs gas m
      else costs gas (record m { world = db.add_refund m.world 24000 })

  -- gasSelfdestruct
  unfoldable pub gas_selfdestruct : StateDb W → Contract → Machine W → ℕ → Charged W
  unfolding selfdestruct_costs
  gas_selfdestruct db e m size =
      if e.is_eip150
      then elim (back m.stack 0) [
        | none ↦ broken
        | some x ↦
            let a = x % 2 ^ 160 in
            let creates =
              if e.is_eip158
              then db.empty m.world a && not (db.get_balance m.world e.self == 0)
              else not (db.exist m.world a) in
            selfdestruct_costs db e m (if creates then 30000 else 5000)
      ]
      else selfdestruct_costs db e m 0

  -- the end of gasCall and gasCallCode, with what the call itself costs and the fee of the memory
  unfoldable pub call_costs : Contract → ℕ → ℕ → Machine W → Charged W
  unfolding safe_add call_gas
  call_costs e own memory_gas m =
      let (base, over) = safe_add own memory_gas in
      if over then overflow m else elim (back m.stack 0) [
        | none ↦ broken
        | some cost ↦ elim (call_gas e.is_eip150 m.gas base cost) [
          | none ↦ overflow m
          | some temp ↦
              let (sum, over') = safe_add base temp in
              let m' = record m { call_gas_temp = temp } in
              if over' then overflow m' else costs sum m'
        ]
      ]

  -- gasCall
  unfoldable pub gas_call : StateDb W → Contract → Machine W → ℕ → Charged W
  unfolding memory_gas_cost call_costs
  gas_call db e m size = elim (back m.stack 2) [
    | none ↦ broken
    | some value ↦ elim (back m.stack 1) [
      | none ↦ broken
      | some x ↦
          let a = x % 2 ^ 160 in
          let creates =
            if e.is_eip158
            then not (value == 0) && db.empty m.world a
            else not (db.exist m.world a) in
          let own = (if creates then 25000 else 0) + (if value == 0 then 0 else 9000) in
          priced_by m (memory_gas_cost m.memory size) (call_costs e own)
    ]
  ]

  -- gasCallCode
  unfoldable pub gas_call_code : Contract → Machine W → ℕ → Charged W
  unfolding memory_gas_cost call_costs
  gas_call_code e m size = priced_by m (memory_gas_cost m.memory size) λ memory_gas m.
      elim (back m.stack 2) [
        | none ↦ broken
        | some value ↦ call_costs e (if value == 0 then 0 else 9000) memory_gas m
      ]
