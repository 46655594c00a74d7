-- ===== src/Tests/Machines.antt =====
-- core/vm: a run that adds two words, stores the sum in the memory and returns it, a memory that grows, and
-- the jump destinations of a code.
use zond.Prelude.{
  get_elem?, length, ◌≤◌, ◌+◌, ◌↔◌, ℕ, ◌-◌, ◌*◌, ◌/◌, ◌%◌, ◌^◌, ◌≡◌, refl, false, none, some, [],
  ◌∷◌, ◌==◌, ltb, if◌then◌else◌, replicate, arith, Bool, true, zero, suc, ◌++◌,
}
use zond.Vm.{Evm, Bytes, Library, StateDb, Contract, MemoryStore, Machine, use_gas, get_op, push}
use zond.Vm.Memory.Words.{set32-get_ptr}
use zond.Vm.Memory.{set32, get_ptr, resize}
use zond.Vm.Analysis.{valid_jumpdest}
use zond.Vm.Analysis.Starts.{IsDestination, valid_jumpdest-IsDestination}
use zond.Vm.Prices.{memory_gas_cost}
use zond.Vm.Prices.Total.{IsPaid, memory_gas_cost_lem}
use zond.Vm.Interpreter.{Ran, returned, run, round, charged, new_machine}
use zond.Vm.Interpreter.Ends.{Ends}
use zond.Vm.Interpreter.Reached.{Reached, Bounded}
use zond.Vm.JumpTable.{plain, frontier_instruction_set}
use zond.Vm.Calls.{Host, evm_at}
use zond.Vm.Calls.Ends.{run_frontier-Ends, frontier-Bounded}
use zond.Vm.Instructions.{op_push1}

-- a number of its bytes, and its bytes
abbrev number : ℕ → Bytes → ℕ
number acc [] = acc
number acc (b ∷ bs) = number (acc * 256 + b) bs

abbrev digits : ℕ → ℕ → Bytes
digits zero x = []
digits (suc n) x = digits n (x / 256) ++ x % 256 ∷ []

abbrev words : Library
words = record {
  add = λ x y. (x + y) % 2 ^ 256;
  sub = λ x y. (x + 2 ^ 256 - y) % 2 ^ 256;
  mul = λ x y. x * y % 2 ^ 256;
  div = λ x y. if y == 0 then 0 else x / y;
  sdiv = λ x y. if y == 0 then 0 else x / y;
  mod_word = λ x y. if y == 0 then 0 else x % y;
  smod = λ x y. if y == 0 then 0 else x % y;
  add_mod = λ x y z. (x + y) % z;
  mul_mod = λ x y z. if z == 0 then 0 else x * y % z;
  exp = λ x y. x ^ y % 2 ^ 256;
  extend_sign = λ x y. x;
  bit_len = λ x. 0;
  slt = λ x y. ltb x y;
  sgt = λ x y. ltb y x;
  and_word = λ x y. 0;
  or_word = λ x y. x;
  xor_word = λ x y. x;
  not_word = λ x. 2 ^ 256 - 1 - x;
  byte_of = λ x y. 0;
  set_bytes = number 0;
  write_to_slice = digits 32;
  keccak256 = λ bytes. length bytes;
}

-- a state database that only counts its refunds
abbrev refunds : StateDb ℕ
refunds = record {
  get_balance = λ w a. 0;
  get_code = λ w a. [];
  get_code_size = λ w a. 0;
  empty = λ w a. true;
  exist = λ w a. false;
  add_balance = λ w a n. w;
  suicide = λ w a. w;
  has_suicided = λ w a. false;
  get_state = λ w a k. 0;
  get_committed_state = λ w a k. 0;
  set_state = λ w a k v. w;
  add_refund = λ w n. w + n;
  sub_refund = λ w n. if ltb w n then none else some (w - n);
  add_preimage = λ w h b. w;
  add_log = λ w a topics b. w;
}

-- PUSH1 5, PUSH1 3, ADD, PUSH1 0, MSTORE, PUSH1 32, PUSH1 0, RETURN
abbrev adder : Contract
adder = record {
  code = 96 ∷ 5 ∷ 96 ∷ 3 ∷ 1 ∷ 96 ∷ 0 ∷ 82 ∷ 96 ∷ 32 ∷ 96 ∷ 0 ∷ 243 ∷ [];
  input = [];
  self = 1;
  caller = 2;
  value = 0;
  origin = 2;
  gas_price = 1;
  coinbase = 3;
  time = 100;
  block_number = 7;
  difficulty = 0;
  gas_limit = 30000;
  get_hash = λ number. number;
  read_only = false;
  is_petersburg = false;
  is_constantinople = false;
  is_eip150 = true;
  is_eip158 = true;
  is_homestead = false;
  record_preimages = false;
  aborted = λ gas. false;
}

-- PUSH1 0 five times, PUSH1 9, PUSH1 50, CALL, STOP
abbrev calling : Contract
calling = record adder {
  code = 96 ∷ 0 ∷ 96 ∷ 0 ∷ 96 ∷ 0 ∷ 96 ∷ 0 ∷ 96 ∷ 0 ∷ 96 ∷ 9 ∷ 96 ∷ 50 ∷ 241 ∷ 0 ∷ [];
}

-- a chain that keeps its state, where every transfer can be paid
abbrev host : Host ℕ
host = record {
  snapshot = λ w. (0, w);
  revert_to_snapshot = λ w id. w;
  create_account = λ w a. w;
  get_nonce = λ w a. 0;
  set_nonce = λ w a n. w;
  get_code_hash = λ w a. 0;
  empty_code_hash = 1;
  set_code = λ w a code. w;
  add_address_to_access_list = λ w a. w;
  can_transfer = λ w a value. true;
  transfer = λ w sender to value. w;
  precompile = λ a. none;
  create_address = λ a nonce. a + nonce + 1;
  is_berlin = false;
  is_london = false;
}

-- accounts that hold PUSH1 1, PUSH1 2, ADD, STOP
abbrev coded : StateDb ℕ
coded = record refunds {
  get_code = λ w a. 96 ∷ 1 ∷ 96 ∷ 2 ∷ 1 ∷ 0 ∷ [];
  empty = λ w a. false;
  exist = λ w a. true;
}

-- with three calls above the limit
abbrev calls : Evm ℕ
calls = evm_at words coded host 3

run_frontier-Ends_example :
    Ends 200 (run calling (frontier_instruction_set words coded calling calls) 201 200 0)
run_frontier-Ends_example =
    run_frontier-Ends words coded host (λ w a. omega arith) 3 calling refl (omega arith)
      (omega arith) 200 201 0 (omega arith)

-- the machine behind the first instruction
abbrev first : Machine ℕ
first = record (new_machine 200 0) { pc = 1; gas = 197; stack = 0 ∷ [] }

frontier-Bounded_example : Bounded 200 (record first { pc = 2 })
unfolding frontier_instruction_set plain round use_gas charged op_push1 push get_op new_machine
frontier-Bounded_example =
    frontier-Bounded words coded host (λ w a. omega arith) 3 calling refl (omega arith)
      (omega arith) 200 0 (record first { pc = 2 })
      (Reached.round_on (new_machine 200 0) first Reached.start refl)

gas_left : Ran ℕ → ℕ
gas_left (returned ret m) = m.gas
gas_left r = 0

-- 200 less seven PUSH1 and 40 for the CALL, and less the three instructions that it runs
calling_left :
    gas_left (run calling (frontier_instruction_set words coded calling calls) 201 200 0) ≡ 130
unfolding gas_left run frontier_instruction_set evm_at
calling_left = refl

returned_bytes : Ran ℕ → Bytes
returned_bytes (returned ret m) = ret
returned_bytes r = []

-- the sum, as the run returns it
adder_sum :
    number 0 (
      returned_bytes (
        run adder
          (frontier_instruction_set words refunds adder (evm_at words refunds host 0))
          101
          100
          0))
    ≡ 8
unfolding returned_bytes run frontier_instruction_set evm_at
adder_sum = refl

-- a word, and its price
abbrev one_word : MemoryStore
one_word = record { store = replicate 32 7; last_gas_cost = 3 }

one_word-IsPaid : IsPaid 1 one_word
one_word-IsPaid = (refl, refl, omega arith)

memory_gas_cost_example :
    (mem : MemoryStore) × (memory_gas_cost one_word 64 ≡ some (3, mem))
    × IsPaid 2 (record mem { store = resize 64 one_word.store })
memory_gas_cost_example = memory_gas_cost_lem one_word 1 2 one_word-IsPaid (omega arith)

-- PUSH1 91, JUMPDEST
abbrev jumping : Bytes
jumping = 96 ∷ 91 ∷ 91 ∷ []

valid_jumpdest-IsDestination_example :
    (b : Bool) × (valid_jumpdest jumping 2 ≡ some b) × ((b ≡ true) ↔ IsDestination jumping 2)
valid_jumpdest-IsDestination_example = valid_jumpdest-IsDestination jumping 2 (omega arith)

jumps : (valid_jumpdest jumping 1 ≡ some false) × (valid_jumpdest jumping 2 ≡ some true)
unfolding valid_jumpdest
jumps = (refl, refl)

set32-get_ptr_example :
    (store' : Bytes) × (set32 words 0 5 one_word.store ≡ some store')
    × (length store' ≡ length one_word.store)
    × ((j : ℕ) → (0 ≤ j → 0 + 32 ≤ j) → get_elem? store' j ≡ get_elem? one_word.store j)
    × (get_ptr 0 32 store' ≡ some (digits 32 5))
set32-get_ptr_example = set32-get_ptr words 0 5 one_word.store refl (omega arith) (omega arith)
