-- ===== src/Vm/Instructions/Accounts.antt =====
-- core/vm/instructions.go and core/vm/gas_table.go: EXTCODECOPY and SELFDESTRUCT do not panic.
use zond.Prelude.{
  ℕ, suc, ◌%◌, ◌^◌, ◌≤◌, ◌<◌, ◌≡◌, refl, sym, ap, ◌∙◌, false, not, ◌&&◌, Option, none, some, ◌==◌,
  if◌then◌else◌, if-cases, length, get_elem?, arith,
}
use zond.Vm.{Address, StateDb, Contract, Machine, broken}
use zond.Vm.Sizes.{memory_at}
use zond.Vm.Prices.{gas_selfdestruct, selfdestruct_costs}
use zond.Vm.Analysis.Bounds.{get_elem?_lem}
use zond.Vm.Instructions.{op_ext_code_copy, op_selfdestruct}
use zond.Vm.Instructions.Safe.{pop-Fine}
use zond.Vm.Instructions.Access.{copy-Fine}
use zond.Vm.Instructions.Jumps.{pop-IsHalt}
use zond.Vm.Interpreter.Interface.{Fine, IsHalt, Prices}

module _ {W : Type 0} (db : StateDb W) where
  pub ext_code_copy-Fine :
      ((w : W) (a : Address) → length (db.get_code w a) < 2 ^ 63)
      → (m : Machine W) (size : ℕ) → 4 ≤ length m.stack
      → length m.stack ≤ 1028
      → memory_at 1 3 m.stack ≡ some (size, false)
      → size ≤ length m.memory.store
      → size ≤ 2 ^ 37
      → Fine m.gas (op_ext_code_copy db m)
  unfolding op_ext_code_copy memory_at
  ext_code_copy-Fine short m size lo hi asked h k = pop-Fine m.gas m _ (omega arith) λ a s e.
      let n : length m.stack ≡ suc (length s) = ap length e in
      copy-Fine (db.get_code m.world (a % 2 ^ 160)) (record m { stack = s }) size
        (short m.world (a % 2 ^ 160)) (omega arith) (omega arith)
        (sym (ap (memory_at 1 3) e) ∙ asked) h k

  module _ (c : Contract) where
    pub selfdestruct-Fine :
        (m : Machine W) → 1 ≤ length m.stack → Fine m.gas (op_selfdestruct db c m)
    unfolding op_selfdestruct
    selfdestruct-Fine m lo =
        if-cases (Fine m.gas) c.read_only (λ t. omega arith)
          (λ t. pop-Fine m.gas m _ lo λ x s e. omega arith)

    pub selfdestruct-IsHalt : (m : Machine W) → IsHalt (op_selfdestruct db c m)
    unfolding op_selfdestruct
    selfdestruct-IsHalt m = if-cases IsHalt c.read_only (λ t. tt) (λ t. pop-IsHalt m _ λ x m. tt)

    costs-Prices : (m : Machine W) (gas : ℕ) → Prices m 0 (selfdestruct_costs db c m gas)
    unfolding selfdestruct_costs
    costs-Prices m gas =
        if-cases (Prices m 0) (db.has_suicided m.world c.self)
          (λ t. (refl, refl, refl, refl, omega arith)) (λ t. (refl, refl, refl, refl, omega arith))

    pub selfdestruct-Prices :
        (m : Machine W) → 1 ≤ length m.stack → Prices m 0 (gas_selfdestruct db c m 0)
    unfolding gas_selfdestruct
    selfdestruct-Prices m h =
        if-cases (Prices m 0) c.is_eip150
          (λ t. on_top (get_elem? m.stack 0) (get_elem?_lem m.stack 0 h)) (λ t. costs-Prices m 0)
      where
        fee : ℕ → ℕ
        fee x =
            let a = x % 2 ^ 160 in
            let creates =
              if c.is_eip158
              then db.empty m.world a && not (db.get_balance m.world c.self == 0)
              else not (db.exist m.world a) in
            if creates then 30000 else 5000

        missing : {x : ℕ} → none ≡ some x → ⊥
        missing h = cc

        on_top :
            (o : Option ℕ)
            → (x : ℕ) × (o ≡ some x)
            → Prices m 0 (elim o [ none ↦ broken | some x ↦ selfdestruct_costs db c m (fee x) ])
        on_top none (x, e) = absurd (missing e)
        on_top (some x) (y, e) = costs-Prices m (fee x)
