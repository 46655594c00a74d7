-- ===== src/Vm/Interpreter.antt =====
-- core/vm/interpreter.go, Run, and operation of core/vm/jump_table.go. One round of the loop is a function
-- on what the loop changes; the loop is given a number of rounds. Tracing is left out; the depth, the
-- read-only flag and the reset of the return data are those of a Run that has begun.
pub mod Interface
pub mod Ends
pub mod Reached
use zond.Prelude.{
  ℕ, zero, suc, ◌+◌, ◌-◌, ◌*◌, ◌/◌, ◌%◌, ◌^◌, Bool, true, false, Option, none, some, List, [], ◌∷◌,
  ◌==◌, ltb, leb, if◌then◌else◌, length, bind,
}
use zond.Vm.{
  Bytes, Contract, MemoryStore, Machine, Fault, out_of_gas, gas_uint_overflow, stack_underflow,
  stack_overflow, Executed, next, stopped, failed, panicked, Charged, costs, refused, broken,
  get_op, use_gas,
}
use zond.Vm.Memory.{resize}
use zond.Vm.Sizes.{to_word_size, safe_mul}

pub record Operation (W : Type 0) : Type 0 where
  pub execute : Machine W → Executed W
  pub constant_gas : ℕ
  pub dynamic_gas : Option (Machine W → ℕ → Charged W)
  pub min_stack : ℕ
  pub max_stack : ℕ
  pub memory_size : Option (List ℕ → Option (ℕ × Bool))

pub data Ran (W : Type 0) : Type 0 where
  returned : Bytes → Machine W → Ran W
  ended_with : Fault → Bytes → Machine W → Ran W
  crashed : Ran W
  unfinished : Ran W

module _ {W : Type 0} where
  -- Use the dynamic gas, and expand the memory
  unfoldable pub pay_dynamic : Operation W → ℕ → Charged W → Executed W
  unfolding use_gas resize
  pay_dynamic o size broken = panicked
  pay_dynamic o size (refused fault m) = failed out_of_gas [] m
  pay_dynamic o size (costs cost m) = elim (use_gas m cost) [
    | none ↦ failed out_of_gas [] m
    | some m ↦ o.execute (record m {
      memory = record m.memory {
        store = if ltb 0 size then resize size m.memory.store else m.memory.store;
      };
    })
  ]

  -- The memory size that was asked for, and what follows
  unfoldable pub with_size :
      Operation W → (Machine W → ℕ → Charged W) → Machine W → Option (ℕ × Bool) → Executed W
  unfolding safe_mul to_word_size pay_dynamic
  with_size o dynamic m none = panicked
  with_size o dynamic m (some (size, over)) =
      let (rounded, over') = safe_mul (to_word_size size) 32 in
      if over
      then failed gas_uint_overflow [] m
      else if over'
      then failed gas_uint_overflow [] m
      else pay_dynamic o rounded (dynamic m rounded)

  -- what follows the constant gas
  unfoldable pub charged : Operation W → Machine W → Executed W
  unfolding with_size pay_dynamic
  charged o m = elim o.dynamic_gas [
    | none ↦ o.execute m
    | some dynamic ↦ elim o.memory_size [
      | none ↦ pay_dynamic o 0 (dynamic m 0)
      | some size_of ↦ with_size o dynamic m (size_of m.stack)
    ]
  ]

  -- one round of the loop, up to the test of the error
  unfoldable pub round : Operation W → Machine W → Executed W
  unfolding use_gas charged
  round o m =
      let stack_len = length m.stack in
      if ltb stack_len o.min_stack
      then failed (stack_underflow stack_len o.min_stack) [] m
      else if ltb o.max_stack stack_len
      then failed (stack_overflow stack_len o.max_stack) [] m
      else elim (use_gas m o.constant_gas) [ none ↦ failed out_of_gas [] m | some m ↦ charged o m ]

  -- the end of a round: pc++, or the end of the loop
  unfoldable pub after : Executed W → (Machine W → Ran W) → Ran W
  after (next m) loop = loop (record m { pc = (m.pc + 1) % 2 ^ 64 })
  after (stopped ret m) loop = returned ret m
  after (failed fault ret m) loop = ended_with fault ret m
  after panicked loop = crashed

  unfoldable pub run_loop : Contract → (ℕ → Operation W) → ℕ → Machine W → Ran W
  unfolding round after get_op
  run_loop e table zero m = unfinished
  run_loop e table (suc rounds) m =
      after (round (table (get_op e.code m.pc)) m) (run_loop e table rounds)

  unfoldable pub new_machine : ℕ → W → Machine W
  new_machine gas w = record {
    pc = 0;
    stack = [];
    memory = record { store = []; last_gas_cost = 0 };
    gas = gas;
    return_data = [];
    call_gas_temp = 0;
    world = w;
  }

  -- Run, from the machine that it makes; the code may be empty
  unfoldable pub run : Contract → (ℕ → Operation W) → ℕ → ℕ → W → Ran W
  unfolding run_loop new_machine
  run e table rounds gas w =
      if length e.code == 0
      then returned [] (new_machine gas w)
      else run_loop e table rounds (new_machine gas w)
