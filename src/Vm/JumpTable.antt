-- ===== src/Vm/JumpTable.antt =====
-- core/vm/jump_table.go and core/vm/stack_table.go: the Frontier table. CREATE, CALL and
-- CALLCODE go through evm, an argument. Prices are those of params/protocol_params.go.
pub mod Safe
pub mod Lists
pub mod Whole
pub mod Runs
use zond.Prelude.{
  ℕ, zero, suc, ◌+◌, ◌-◌, ◌^◌, ◌%◌, Bool, true, false, ◌&&◌, ◌||◌, Option, none, some, List, [],
  ◌∷◌, ◌==◌, ltb, leb, if◌then◌else◌, length,
}
use zond.Vm.{Library, StateDb, Evm, Contract, Machine, Executed, Charged}
use zond.Vm.Sizes.{memory_at, memory_fixed, memory_call}
use zond.Vm.Prices.{
  pure_memory_gascost, memory_copier_gas, gas_keccak256, make_gas_log, gas_exp_frontier, gas_sstore,
  gas_selfdestruct, gas_call, gas_call_code,
}
use zond.Vm.Instructions.{
  op_unary, op_binary, op_ternary, op_push_word, op_pop, op_jumpdest, op_stop, make_dup, make_swap,
  op_mload, op_mstore, op_mstore8, op_return, op_account, op_keccak256, op_ext_code_copy,
  block_hash, op_selfdestruct, op_call_data_load, op_copy, op_sload, op_sstore, op_jump, op_jumpi,
  op_push1, make_push, op_undefined, make_log, op_create, op_call, op_call_code,
}
use zond.Vm.Interpreter.{Operation}

-- x.SetOne() or x.Clear()
abbrev pub word_of : Bool → ℕ
word_of true = 1
word_of false = 0

-- maxStack; minStack is the number of pops
abbrev pub max_stack_of : ℕ → ℕ → ℕ
max_stack_of pops pushes = 1024 + pops - pushes

-- the operation at a place of a list
abbrev pub op_at : {W : Type 0} → Operation W → List (Operation W) → ℕ → Operation W
op_at default [] i = default
op_at default (o ∷ os) zero = o
op_at default (o ∷ os) (suc i) = op_at default os i

module _ {W : Type 0} where
  -- an operation without dynamic gas
  unfoldable pub plain : (Machine W → Executed W) → ℕ → ℕ → ℕ → Operation W
  plain f gas pops pushes = record {
    execute = f;
    constant_gas = gas;
    dynamic_gas = none;
    min_stack = pops;
    max_stack = max_stack_of pops pushes;
    memory_size = none;
  }

  unfoldable pub priced :
      (Machine W → Executed W) → ℕ → (Machine W → ℕ → Charged W) → ℕ → ℕ → Operation W
  unfolding plain
  priced f gas dynamic pops pushes = record (plain f gas pops pushes) { dynamic_gas = some dynamic }

  unfoldable pub with_memory :
      (Machine W → Executed W)
      → ℕ
      → (Machine W → ℕ → Charged W)
      → ℕ
      → ℕ
      → (List ℕ → Option (ℕ × Bool))
      → Operation W
  unfolding priced
  with_memory f gas dynamic pops pushes size = record (priced f gas dynamic pops pushes) {
    memory_size = some size;
  }

  module _ (lib : Library) (db : StateDb W) (e : Contract) (evm : Evm W) where
    -- 0x00 to 0x0b
    unfoldable pub arithmetic_ops : List (Operation W)
    unfolding plain priced op_stop op_binary op_ternary gas_exp_frontier
    arithmetic_ops =
        plain op_stop 0 0 0
        ∷ plain (op_binary lib.add) 3 2 1
        ∷ plain (op_binary lib.mul) 5 2 1
        ∷ plain (op_binary lib.sub) 3 2 1
        ∷ plain (op_binary lib.div) 5 2 1
        ∷ plain (op_binary lib.sdiv) 5 2 1
        ∷ plain (op_binary lib.mod_word) 5 2 1
        ∷ plain (op_binary lib.smod) 5 2 1
        ∷ plain (op_ternary (λ x y z. if z == 0 then 0 else lib.add_mod x y z)) 8 3 1
        ∷ plain (op_ternary lib.mul_mod) 8 3 1
        ∷ priced (op_binary lib.exp) 0 (gas_exp_frontier lib) 2 1
        ∷ plain (op_binary (λ back num. lib.extend_sign num back)) 5 2 1
        ∷ []

    -- 0x10 to 0x1a
    unfoldable pub comparison_ops : List (Operation W)
    unfolding plain op_unary op_binary
    comparison_ops =
        plain (op_binary (λ x y. word_of (ltb x y))) 3 2 1
        ∷ plain (op_binary (λ x y. word_of (ltb y x))) 3 2 1
        ∷ plain (op_binary (λ x y. word_of (lib.slt x y))) 3 2 1
        ∷ plain (op_binary (λ x y. word_of (lib.sgt x y))) 3 2 1
        ∷ plain (op_binary (λ x y. word_of (x == y))) 3 2 1
        ∷ plain (op_unary (λ x. word_of (x == 0))) 3 1 1
        ∷ plain (op_binary lib.and_word) 3 2 1
        ∷ plain (op_binary lib.or_word) 3 2 1
        ∷ plain (op_binary lib.xor_word) 3 2 1
        ∷ plain (op_unary lib.not_word) 3 1 1
        ∷ plain (op_binary (λ th val. lib.byte_of val th)) 3 2 1
        ∷ []

    -- 0x30 to 0x3c
    unfoldable pub closure_ops : List (Operation W)
    unfolding plain with_memory op_push_word op_account op_call_data_load op_copy op_ext_code_copy
        memory_copier_gas memory_at
    closure_ops =
        plain (op_push_word (λ m. e.self)) 2 0 1
        ∷ plain (op_account db.get_balance) 20 1 1
        ∷ plain (op_push_word (λ m. e.origin)) 2 0 1
        ∷ plain (op_push_word (λ m. e.caller)) 2 0 1
        ∷ plain (op_push_word (λ m. e.value)) 2 0 1
        ∷ plain (op_call_data_load lib e) 3 1 1
        ∷ plain (op_push_word (λ m. length e.input)) 2 0 1
        ∷ with_memory (op_copy e.input) 3 (memory_copier_gas 2) 3 0 (memory_at 0 2)
        ∷ plain (op_push_word (λ m. length e.code)) 2 0 1
        ∷ with_memory (op_copy e.code) 3 (memory_copier_gas 2) 3 0 (memory_at 0 2)
        ∷ plain (op_push_word (λ m. e.gas_price)) 2 0 1
        ∷ plain (op_account db.get_code_size) 20 1 1
        ∷ with_memory (op_ext_code_copy db) 20 (memory_copier_gas 3) 4 0 (memory_at 1 3)
        ∷ []

    -- 0x40 to 0x45
    unfoldable pub block_ops : List (Operation W)
    unfolding plain op_push_word op_unary block_hash
    block_ops =
        plain (op_unary (block_hash e)) 20 1 1
        ∷ plain (op_push_word (λ m. e.coinbase)) 2 0 1
        ∷ plain (op_push_word (λ m. e.time)) 2 0 1
        ∷ plain (op_push_word (λ m. e.block_number)) 2 0 1
        ∷ plain (op_push_word (λ m. e.difficulty)) 2 0 1
        ∷ plain (op_push_word (λ m. e.gas_limit)) 2 0 1
        ∷ []

    -- 0x50 to 0x5b
    unfoldable pub storage_ops : List (Operation W)
    unfolding plain priced with_memory op_pop op_mload op_mstore op_mstore8 op_sload op_sstore
        op_jump op_jumpi op_push_word op_jumpdest pure_memory_gascost gas_sstore memory_fixed
    storage_ops =
        plain op_pop 2 1 0
        ∷ with_memory (op_mload lib) 3 pure_memory_gascost 1 1 (memory_fixed 32)
        ∷ with_memory (op_mstore lib) 3 pure_memory_gascost 2 0 (memory_fixed 32)
        ∷ with_memory op_mstore8 3 pure_memory_gascost 2 0 (memory_fixed 1)
        ∷ plain (op_sload db e) 50 1 1
        ∷ priced (op_sstore db e) 0 (gas_sstore db e) 2 0
        ∷ plain (op_jump e) 8 1 0
        ∷ plain (op_jumpi e) 10 2 0
        ∷ plain (op_push_word (λ m. m.pc)) 2 0 1
        ∷ plain (op_push_word (λ m. length m.memory.store)) 2 0 1
        ∷ plain (op_push_word (λ m. m.gas)) 2 0 1
        ∷ plain op_jumpdest 1 0 0
        ∷ []

    -- below 0x60; opUndefined fills the rest
    unfoldable pub lower_ops : ℕ → Operation W
    unfolding arithmetic_ops comparison_ops closure_ops block_ops storage_ops plain with_memory
        op_undefined op_keccak256 gas_keccak256 memory_at
    lower_ops op =
        let undefined = plain (op_undefined e) 0 0 0 in
        if ltb op 12
        then op_at undefined arithmetic_ops op
        else if leb 16 op && ltb op 27
        then op_at undefined comparison_ops (op - 16)
        else if op == 32
        then with_memory (op_keccak256 lib db e) 30 gas_keccak256 2 1 (memory_at 0 1)
        else if leb 48 op && ltb op 61
        then op_at undefined closure_ops (op - 48)
        else if leb 64 op && ltb op 70
        then op_at undefined block_ops (op - 64)
        else if leb 80 op && ltb op 92
        then op_at undefined storage_ops (op - 80)
        else undefined

    -- from 0x60 on
    unfoldable pub upper_ops : ℕ → Operation W
    unfolding plain priced with_memory op_push1 make_push make_dup make_swap make_log op_return
        op_undefined make_gas_log pure_memory_gascost memory_at op_selfdestruct gas_selfdestruct
        op_create op_call op_call_code gas_call gas_call_code memory_call
    upper_ops op =
        if op == 96
        then plain (op_push1 e) 3 0 1
        else if leb 97 op && ltb op 128
        then plain (make_push lib (op - 95) e) 3 0 1
        else if leb 128 op && ltb op 144
        then plain (make_dup (op - 127)) 3 (op - 127) (op - 127 + 1)
        else if leb 144 op && ltb op 160
        then plain (make_swap (op - 143)) 3 (op - 143 + 1) (op - 143 + 1)
        else if leb 160 op && ltb op 165
        then with_memory (make_log (op - 160) db e) 0 (make_gas_log (op - 160)) (op - 160 + 2) 0
            (memory_at 0 1)
        else if op == 240
        then with_memory (op_create evm e) 32000 pure_memory_gascost 3 1 (memory_at 1 2)
        else if op == 241
        then with_memory (op_call evm e) 40 (gas_call db e) 7 1 memory_call
        else if op == 242
        then with_memory (op_call_code evm e) 40 (gas_call_code e) 7 1 memory_call
        else if op == 243
        then with_memory op_return 0 pure_memory_gascost 2 0 (memory_at 0 1)
        else if op == 255
        then priced (op_selfdestruct db e) 0 (gas_selfdestruct db e) 1 0
        else plain (op_undefined e) 0 0 0

    -- newFrontierInstructionSet
    unfoldable pub frontier_instruction_set : ℕ → Operation W
    unfolding lower_ops upper_ops
    frontier_instruction_set op = if ltb op 96 then lower_ops op else upper_ops op
