-- ===== src/Vm/JumpTable/Lists.antt =====
-- core/vm/jump_table.go: the lists of operations of the Frontier table are safe.
use zond.Prelude.{ℕ, zero, suc, ◌+◌, ◌^◌, ◌<◌, ◌≡◌, subst, List, [], ◌∷◌, length, arith}
use zond.Vm.{Address, Library, StateDb, Contract, Evm}
use zond.Vm.Sizes.{memory_fixed}
use zond.Vm.Prices.{pure_memory_gascost, gas_exp_frontier, gas_sstore}
use zond.Vm.Prices.Bounds.{
  pure-Prices, exp-Prices, sstore-Prices, IsLegacy, Costly_lem, sstore-Costly, exp-Costly,
}
use zond.Vm.Instructions.Safe.{unary-Fine, binary-Fine, ternary-Fine, pop_op-Fine}
use zond.Vm.Instructions.Access.{
  mload-Fine, mstore-Fine, mstore8-Fine, account-Fine, data_load-Fine, sload-Fine, sstore-Fine,
}
use zond.Vm.Instructions.Jumps.{jump-Fine, jumpi-Fine}
use zond.Vm.Interpreter.{Operation}
use zond.Vm.Interpreter.Interface.{IsSafe}
use zond.Vm.JumpTable.{op_at, arithmetic_ops, comparison_ops, closure_ops, block_ops, storage_ops}
use zond.Vm.JumpTable.Safe.{
  memory_fixed_lem, plain-IsSafe, memory-IsSafe, priced-IsSafe, paid, stop-IsSafe, word-IsSafe,
  two-IsSafe, copy-IsSafe, ext_code_copy-IsSafe, jumpdest-Fine,
}

module _ {W : Type 0} (e : Contract) where
  -- the operations of a list, from an opcode on
  pub data AllSafe : ℕ → List (Operation W) → Type 0 where
    done : {op : ℕ} → AllSafe op []
    and_then :
        {op : ℕ} (o : Operation W) (os : List (Operation W))
        → IsSafe e op o
        → AllSafe (op + 1) os
        → AllSafe op (o ∷ os)

  pub op_at-IsSafe :
      (d : Operation W) (os : List (Operation W)) (start i op : ℕ)
      → AllSafe start os
      → i < length os
      → start + i ≡ op
      → IsSafe e op (op_at d os i)
  op_at-IsSafe d [] start i op a h eq = absurd (omega arith)
  op_at-IsSafe d (o ∷ os) start zero op (and_then _ _ s a) h eq =
      subst (λ op. IsSafe e op o) (sym_zero eq) s
    where
      sym_zero : start + 0 ≡ op → start ≡ op
      sym_zero eq = omega arith
  op_at-IsSafe d (o ∷ os) start (suc i) op (and_then _ _ s a) h eq =
      op_at-IsSafe d os (start + 1) i op a (omega arith) (omega arith)

  module _ (lib : Library) (db : StateDb W) (evm : Evm W) where
    pub arithmetic-AllSafe : AllSafe 0 (arithmetic_ops lib db e evm)
    unfolding arithmetic_ops
    arithmetic-AllSafe = and_then _ _ (stop-IsSafe e) (
        and_then _ _ (two-IsSafe e 1 3 lib.add (omega arith)) (
          and_then _ _ (two-IsSafe e 2 5 lib.mul (omega arith)) (
            and_then _ _ (two-IsSafe e 3 3 lib.sub (omega arith)) (
              and_then _ _ (two-IsSafe e 4 5 lib.div (omega arith)) (
                and_then _ _ (two-IsSafe e 5 5 lib.sdiv (omega arith)) (
                  and_then _ _ (two-IsSafe e 6 5 lib.mod_word (omega arith)) (
                    and_then _ _ (two-IsSafe e 7 5 lib.smod (omega arith)) (
                      and_then _ _
                        (plain-IsSafe e 8 _ 8 3 1 (omega arith)
                          λ m at lo hi. ternary-Fine _ m lo hi)
                        (and_then _ _
                          (plain-IsSafe e 9 _ 8 3 1 (omega arith)
                            λ m at lo hi. ternary-Fine _ m lo hi)
                          (and_then _ _
                            (priced-IsSafe e 10 _ (gas_exp_frontier lib) 2 1
                              (λ m size c m' r. Costly_lem _ c m' (exp-Costly lib m size) r)
                              (λ m lo. exp-Prices lib m (omega arith))
                              λ m lo hi. binary-Fine lib.exp m lo hi)
                            (and_then _ _ (two-IsSafe e 11 5 _ (omega arith)) (done))))))))))))

    pub comparison-AllSafe : AllSafe 16 (comparison_ops lib db e evm)
    unfolding comparison_ops
    comparison-AllSafe = and_then _ _ (two-IsSafe e 16 3 _ (omega arith)) (
        and_then _ _ (two-IsSafe e 17 3 _ (omega arith)) (
          and_then _ _ (two-IsSafe e 18 3 _ (omega arith)) (
            and_then _ _ (two-IsSafe e 19 3 _ (omega arith)) (
              and_then _ _ (two-IsSafe e 20 3 _ (omega arith)) (
                and_then _ _
                  (plain-IsSafe e 21 _ 3 1 1 (omega arith) λ m at lo hi. unary-Fine _ m lo hi)
                  (and_then _ _ (two-IsSafe e 22 3 _ (omega arith)) (
                    and_then _ _ (two-IsSafe e 23 3 _ (omega arith)) (
                      and_then _ _ (two-IsSafe e 24 3 _ (omega arith)) (
                        and_then _ _
                          (plain-IsSafe e 25 _ 3 1 1 (omega arith)
                            λ m at lo hi. unary-Fine _ m lo hi)
                          (and_then _ _ (two-IsSafe e 26 3 _ (omega arith)) (done)))))))))))

    pub closure-AllSafe :
        length e.input < 2 ^ 63
        → length e.code < 2 ^ 63
        → ((w : W) (a : Address) → length (db.get_code w a) < 2 ^ 63)
        → AllSafe 48 (closure_ops lib db e evm)
    unfolding closure_ops
    closure-AllSafe short short' s = and_then _ _ (word-IsSafe e 48 _) (
        and_then _ _
          (plain-IsSafe e 49 _ 20 1 1 (omega arith)
            λ m at lo hi. account-Fine db.get_balance m lo hi)
          (and_then _ _ (word-IsSafe e 50 _) (
            and_then _ _ (word-IsSafe e 51 _) (
              and_then _ _ (word-IsSafe e 52 _) (
                and_then _ _
                  (plain-IsSafe e 53 _ 3 1 1 (omega arith)
                    λ m at lo hi. data_load-Fine lib e m short lo hi)
                  (and_then _ _ (word-IsSafe e 54 _) (
                    and_then _ _ (copy-IsSafe e 55 e.input short) (
                      and_then _ _ (word-IsSafe e 56 _) (
                        and_then _ _ (copy-IsSafe e 57 e.code short') (
                          and_then _ _ (word-IsSafe e 58 _) (
                            and_then _ _
                              (plain-IsSafe e 59 _ 20 1 1 (omega arith)
                                λ m at lo hi. account-Fine db.get_code_size m lo hi)
                              (and_then _ _ (ext_code_copy-IsSafe e db s) (done)))))))))))))

    pub block-AllSafe : AllSafe 64 (block_ops lib db e evm)
    unfolding block_ops
    block-AllSafe =
        and_then _ _ (plain-IsSafe e 64 _ 20 1 1 (omega arith) λ m at lo hi. unary-Fine _ m lo hi) (
          and_then _ _ (word-IsSafe e 65 _) (
            and_then _ _ (word-IsSafe e 66 _) (
              and_then _ _ (word-IsSafe e 67 _)
                (and_then _ _ (word-IsSafe e 68 _) (and_then _ _ (word-IsSafe e 69 _) (done))))))

    pub storage-AllSafe : IsLegacy e → AllSafe 80 (storage_ops lib db e evm)
    unfolding storage_ops
    storage-AllSafe legacy =
        and_then _ _ (plain-IsSafe e 80 _ 2 1 0 (omega arith) λ m at lo hi. pop_op-Fine m lo hi) (
          and_then _ _
            (memory-IsSafe e 81 _ 3 pure_memory_gascost 1 1 (memory_fixed 32)
              (paid e _ _ 1 1 3 _ (omega arith)) (λ s h. memory_fixed_lem 32 s (omega arith))
              (λ m size h. pure-Prices m size)
              λ m size lo hi sized h k. mload-Fine lib m size lo hi sized h k)
            (and_then _ _
              (memory-IsSafe e 82 _ 3 pure_memory_gascost 2 0 (memory_fixed 32)
                (paid e _ _ 2 0 3 _ (omega arith)) (λ s h. memory_fixed_lem 32 s (omega arith))
                (λ m size h. pure-Prices m size)
                λ m size lo hi sized h k. mstore-Fine lib m size lo hi sized h k)
              (and_then _ _
                (memory-IsSafe e 83 _ 3 pure_memory_gascost 2 0 (memory_fixed 1)
                  (paid e _ _ 2 0 3 _ (omega arith)) (λ s h. memory_fixed_lem 1 s (omega arith))
                  (λ m size h. pure-Prices m size)
                  λ m size lo hi sized h k. mstore8-Fine m size lo hi sized h k)
                (and_then _ _
                  (plain-IsSafe e 84 _ 50 1 1 (omega arith) λ m at lo hi. sload-Fine db e m lo hi)
                  (and_then _ _
                    (priced-IsSafe e 85 _ (gas_sstore db e) 2 0
                      (λ m size c m' r. Costly_lem _ c m' (sstore-Costly db e m size) r)
                      (λ m lo. sstore-Prices db e legacy m (omega arith))
                      λ m lo hi. sstore-Fine db e m lo hi)
                    (and_then _ _
                      (plain-IsSafe e 86 _ 8 1 0 (omega arith) λ m at lo hi. jump-Fine e m lo hi)
                      (and_then _ _
                        (plain-IsSafe e 87 _ 10 2 0 (omega arith)
                          λ m at lo hi. jumpi-Fine e m lo hi)
                        (and_then _ _ (word-IsSafe e 88 _) (
                          and_then _ _ (word-IsSafe e 89 _) (
                            and_then _ _ (word-IsSafe e 90 _) (
                              and_then _ _
                                (plain-IsSafe e 91 _ 1 0 0 (omega arith)
                                  λ m at lo hi. jumpdest-Fine e m hi)
                                (done))))))))))))
