-- ===== src/Vm/Instructions/Jumps.antt =====
-- core/vm/instructions.go: the instructions that jump, read the code or end a run do not panic.
use zond.Prelude.{
  ℕ, zero, suc, ◌+◌, ◌-◌, ◌%◌, ◌^◌, ◌≤◌, ◌<◌, ◌≡◌, ◌≢◌, sym, ap, Option, none, some, List, [], ◌∷◌,
  ◌==◌, ltb, leb, if-cases, length, arith,
}
use zond.Vm.{
  Library, Bytes, Contract, Machine, Executed, stopped, push, pop, pop_from, or_panic, get_op,
  uint64,
}
use zond.Vm.Memory.{get_ptr}
use zond.Vm.Analysis.Bounds.{valid_jumpdest_lem}
use zond.Vm.Instructions.{op_return, jump_to, op_jump, op_jumpi, op_push1, make_push, op_undefined}
use zond.Vm.Instructions.Safe.{pop-Fine, or_panic-Fine}
use zond.Vm.Interpreter.Interface.{Fine, IsHalt}
use zond.Vm.Instructions.Access.{two_fewer, pop2-Fine}

-- A code position that is not STOP is in the code.
in_code : (code : Bytes) (n op : ℕ) → get_op code n ≡ op → op ≢ 0 → n < length code
unfolding get_op
in_code [] n op e z = absurd (z (sym e))
in_code (x ∷ code) zero op e z = omega arith
in_code (x ∷ code) (suc n) op e z = let h = in_code code n op e z in omega arith

module _ {W : Type 0} where
  jump_to-Fine :
      (c : Contract) (g pos : ℕ) (m : Machine W)
      → length m.stack ≤ 1024
      → m.gas ≤ g
      → Fine g (jump_to c pos m)
  unfolding jump_to
  jump_to-Fine c g pos m hi gas =
      or_panic-Fine g _ _ (valid_jumpdest_lem c.code pos)
        λ valid. if-cases (Fine g) valid (λ t. (hi, gas)) (λ t. gas)

  pub jump-Fine :
      (c : Contract) (m : Machine W)
      → 1 ≤ length m.stack
      → length m.stack ≤ 1025
      → Fine m.gas (op_jump c m)
  unfolding op_jump
  jump-Fine c m lo hi =
      if-cases (Fine m.gas) (c.aborted m.gas) (λ t. omega arith)
        λ t. pop-Fine m.gas m _ lo λ x s e.
          let n : length m.stack ≡ suc (length s) = ap length e in
          jump_to-Fine c m.gas x (record m { stack = s }) (omega arith) (omega arith)

  pub jumpi-Fine :
      (c : Contract) (m : Machine W)
      → 2 ≤ length m.stack
      → length m.stack ≤ 1026
      → Fine m.gas (op_jumpi c m)
  unfolding op_jumpi
  jumpi-Fine c m lo hi =
      if-cases (Fine m.gas) (c.aborted m.gas) (λ t. omega arith)
        λ t. pop2-Fine m.gas m _ lo λ x y s e.
          let n = two_fewer m x y s e in
          if-cases (Fine m.gas) (y == 0) (λ u. (omega arith, omega arith))
            λ u. jump_to-Fine c m.gas x (record m { stack = s }) (omega arith) (omega arith)

  pub push1-Fine :
      (c : Contract) (m : Machine W) → length m.stack ≤ 1023 → Fine m.gas (op_push1 c m)
  unfolding op_push1 push
  push1-Fine c m hi = (omega arith, omega arith)

  pub push_bytes-Fine :
      (lib : Library) (n op : ℕ) (c : Contract) (m : Machine W)
      → length c.code < 2 ^ 63 - 1
      → get_op c.code m.pc ≡ op
      → op ≢ 0
      → length m.stack ≤ 1023
      → Fine m.gas (make_push lib n c m)
  unfolding make_push push
  push_bytes-Fine lib n op c m short at z hi =
      let inside = in_code c.code m.pc op at z in
      if-cases (Fine m.gas) (leb (2 ^ 63) ((m.pc + 1) % 2 ^ 64)) (λ t. absurd (ground arith))
        (λ t. (omega arith, omega arith))

  pub undefined-Fine :
      (op : ℕ) (c : Contract) (m : Machine W)
      → get_op c.code m.pc ≡ op
      → op ≢ 0
      → Fine m.gas (op_undefined c m)
  unfolding op_undefined
  undefined-Fine op c m at z =
      let inside = in_code c.code m.pc op at z in
      if-cases (Fine m.gas) (ltb m.pc (length c.code)) (λ t. omega arith)
        (λ t. absurd (ground arith))

  pub undefined-IsHalt : (c : Contract) (m : Machine W) → IsHalt (op_undefined c m)
  unfolding op_undefined
  undefined-IsHalt c m = if-cases IsHalt (ltb m.pc (length c.code)) (λ t. tt) (λ t. tt)

  pub pop-IsHalt :
      (m : Machine W) (f : ℕ → Machine W → Executed W)
      → ((x : ℕ) (m : Machine W) → IsHalt (f x m))
      → IsHalt (pop m f)
  pop-IsHalt m f h = on_stack m.stack
    where
      on_stack : (s : List ℕ) → IsHalt (pop_from s m f)
      on_stack [] = tt
      on_stack (x ∷ s) = h x (record m { stack = s })

  pub return-IsHalt : (m : Machine W) → IsHalt (op_return m)
  unfolding op_return
  return-IsHalt m =
      pop-IsHalt m _
        λ x m. pop-IsHalt m _ λ y m. ends m (get_ptr (uint64 x) (uint64 y) m.memory.store)
    where
      ends : (m : Machine W) (o : Option Bytes) → IsHalt (or_panic o (λ ret. stopped ret m))
      ends m none = tt
      ends m (some ret) = tt
