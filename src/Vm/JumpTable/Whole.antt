-- ===== src/Vm/JumpTable/Whole.antt =====
-- core/vm/jump_table.go: what the loop relies on, of every operation of the Frontier table.
use zond.Prelude.{ℕ, ◌+◌, ◌-◌, ◌^◌, ◌≤◌, ◌<◌, ◌&&◌, ◌==◌, ltb, leb, if-cases, length, arith}
use zond.Vm.{Address, Library, StateDb, Contract, Evm}
use zond.Vm.Prices.Bounds.{IsLegacy}
use zond.Vm.Instructions.{op_undefined}
use zond.Vm.Instructions.Safe.{dup-Fine, swap-Fine}
use zond.Vm.Instructions.Jumps.{push1-Fine, push_bytes-Fine}
use zond.Vm.Interpreter.{Operation}
use zond.Vm.Interpreter.Interface.{IsSafe, Affords, IsSafe-Affords}
use zond.Vm.Instructions.Calling.{Answers}
use zond.Vm.JumpTable.{
  plain, arithmetic_ops, comparison_ops, closure_ops, block_ops, storage_ops, lower_ops, upper_ops,
  frontier_instruction_set,
}
use zond.Vm.JumpTable.Safe.{
  plain-IsSafe, undefined-IsSafe, return-IsSafe, log-IsSafe, keccak256-IsSafe, selfdestruct-IsSafe,
  create-IsSafe, call-Affords, call_code-Affords,
}
use zond.Vm.JumpTable.Lists.{
  op_at-IsSafe, arithmetic-AllSafe, comparison-AllSafe, closure-AllSafe, block-AllSafe,
  storage-AllSafe,
}

module _ {W : Type 0} (e : Contract) (lib : Library) (db : StateDb W) (evm : Evm W) where
  lower-IsSafe :
      length e.code < 2 ^ 63 - 1
      → length e.input < 2 ^ 63
      → IsLegacy e
      → ((w : W) (a : Address) → length (db.get_code w a) < 2 ^ 63)
      → (op : ℕ) → IsSafe {W = W} e op (lower_ops lib db e evm op)
  unfolding lower_ops arithmetic_ops comparison_ops closure_ops block_ops storage_ops
  lower-IsSafe short short' legacy codes op =
      let undefined = plain (op_undefined e) 0 0 0 in
      if-cases (IsSafe e op) (ltb op 12)
        (λ t.
          op_at-IsSafe e undefined (arithmetic_ops lib db e evm) 0 op op
            (arithmetic-AllSafe e lib db evm) (length_arithmetic (ground arith)) (omega arith))
        λ t₀.
          if-cases (IsSafe e op) (leb 16 op && ltb op 27)
            (λ t.
              op_at-IsSafe e undefined (comparison_ops lib db e evm) 16 (op - 16) op
                (comparison-AllSafe e lib db evm) (length_comparison (ground arith)) (ground arith))
            λ t₁.
              if-cases (IsSafe e op) (op == 32) (λ t. keccak256-IsSafe e lib db op)
                λ t₂.
                  if-cases (IsSafe e op) (leb 48 op && ltb op 61)
                    (λ t.
                      op_at-IsSafe e undefined (closure_ops lib db e evm) 48 (op - 48) op
                        (closure-AllSafe e lib db evm short' (omega arith) codes)
                        (length_closure (ground arith)) (ground arith))
                    λ t₃.
                      if-cases (IsSafe e op) (leb 64 op && ltb op 70)
                        (λ t.
                          op_at-IsSafe e undefined (block_ops lib db e evm) 64 (op - 64) op
                            (block-AllSafe e lib db evm) (length_block (ground arith))
                            (ground arith))
                        λ t₄.
                          if-cases (IsSafe e op) (leb 80 op && ltb op 92)
                            (λ t.
                              op_at-IsSafe e undefined (storage_ops lib db e evm) 80 (op - 80) op
                                (storage-AllSafe e lib db evm legacy)
                                (length_storage (ground arith)) (ground arith))
                            λ t₅. undefined-IsSafe e op (ground arith)
    where
      length_arithmetic : op < 12 → op < length (arithmetic_ops lib db e evm)
      length_arithmetic h = h

      length_comparison : op - 16 < 11 → op - 16 < length (comparison_ops lib db e evm)
      length_comparison h = h

      length_closure : op - 48 < 13 → op - 48 < length (closure_ops lib db e evm)
      length_closure h = h

      length_block : op - 64 < 6 → op - 64 < length (block_ops lib db e evm)
      length_block h = h

      length_storage : op - 80 < 12 → op - 80 < length (storage_ops lib db e evm)
      length_storage h = h

  upper-Affords :
      length e.code < 2 ^ 63 - 1
      → Answers evm e
      → (op : ℕ) → 96 ≤ op
      → Affords {W = W} e op (upper_ops lib db e evm op)
  unfolding upper_ops
  upper-Affords short ok op high =
      if-cases (Affords e op) (op == 96)
        (λ t. safe _ (plain-IsSafe e op _ 3 0 1 (omega arith) λ m at lo hi. push1-Fine e m hi))
        λ t₀.
          if-cases (Affords e op) (leb 97 op && ltb op 128)
            (λ t. safe _ (
              plain-IsSafe e op _ 3 0 1 (omega arith)
                λ m at lo hi. push_bytes-Fine lib (op - 95) op e m short at (ground arith) hi))
            λ t₁.
              if-cases (Affords e op) (leb 128 op && ltb op 144)
                (λ t.
                  let big : 128 ≤ op = ground arith in
                  safe _ (
                    plain-IsSafe e op _ 3 (op - 127) (op - 127 + 1) (omega arith)
                      λ m at lo hi. dup-Fine (op - 127) m (omega arith) lo (omega arith)))
                λ t₂.
                  if-cases (Affords e op) (leb 144 op && ltb op 160)
                    (λ t. safe _ (
                      plain-IsSafe e op _ 3 (op - 143 + 1) (op - 143 + 1) (omega arith)
                        λ m at lo hi. swap-Fine (op - 143) m lo (omega arith)))
                    λ t₃.
                      if-cases (Affords e op) (leb 160 op && ltb op 165)
                        (λ t. safe _ (log-IsSafe e (op - 160) op db))
                        λ t₄.
                          if-cases (Affords e op) (op == 240)
                            (λ t. safe _ (create-IsSafe e evm op ok))
                            λ t₅.
                              if-cases (Affords e op) (op == 241) (λ t. call-Affords e evm db op ok)
                                λ t₆.
                                  if-cases (Affords e op) (op == 242)
                                    (λ t. call_code-Affords e evm op ok)
                                    λ t₇.
                                      if-cases (Affords e op) (op == 243)
                                        (λ t. safe _ (return-IsSafe e op))
                                        λ t₈.
                                          if-cases (Affords e op) (op == 255)
                                            (λ t. safe _ (selfdestruct-IsSafe e db op))
                                            λ t₉. safe _ (undefined-IsSafe e op (omega arith))
    where
      safe : (o : Operation W) → IsSafe e op o → Affords e op o
      safe o = IsSafe-Affords e op o

  pub frontier-Affords :
      length e.code < 2 ^ 63 - 1
      → length e.input < 2 ^ 63
      → IsLegacy e
      → ((w : W) (a : Address) → length (db.get_code w a) < 2 ^ 63)
      → Answers evm e
      → (op : ℕ) → Affords {W = W} e op (frontier_instruction_set lib db e evm op)
  unfolding frontier_instruction_set
  frontier-Affords short short' legacy codes ok op =
      if-cases (Affords e op) (ltb op 96)
        (λ t. IsSafe-Affords e op _ (lower-IsSafe short short' legacy codes op))
        (λ t. upper-Affords short ok op (ground arith))
