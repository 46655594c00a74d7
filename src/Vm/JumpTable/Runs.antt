-- ===== src/Vm/JumpTable/Runs.antt =====
-- core/vm/jump_table.go and core/vm/interpreter.go: a run with the Frontier table.
use zond.Prelude.{ℕ, ◌-◌, ◌^◌, ◌<◌, length, arith}
use zond.Vm.{Address, Library, StateDb, Contract, Evm, Machine}
use zond.Vm.Prices.Bounds.{IsLegacy}
use zond.Vm.Interpreter.{run, new_machine}
use zond.Vm.Instructions.Calling.{Answers}
use zond.Vm.Interpreter.Ends.{Ends, run-Ends}
use zond.Vm.Interpreter.Reached.{Reached, Bounded, Reached-Bounded}
use zond.Vm.JumpTable.{frontier_instruction_set}
use zond.Vm.JumpTable.Whole.{frontier-Affords}

module _ {W : Type 0} (lib : Library) (db : StateDb W) (e : Contract) (evm : Evm W) where
  -- A run of a contract with the Frontier table, under the SSTORE rules without net gas, with
  -- lengths of code and input that a Go slice can have, as those of the codes of accounts, and
  -- with an evm whose Create, Call and CallCode answer without a panic and with at most the gas
  -- they were given, ends when it is given more rounds than gas: it returns or ends with an error
  -- and at most the gas it was given, and neither panics nor goes on.
  pub run_table-Ends :
      length e.code < 2 ^ 63 - 1
      → length e.input < 2 ^ 63
      → IsLegacy e
      → ((w : W) (a : Address) → length (db.get_code w a) < 2 ^ 63)
      → Answers evm e
      → (gas rounds : ℕ) (w : W) → gas < rounds
      → Ends gas (run e (frontier_instruction_set lib db e evm) rounds gas w)
  run_table-Ends short short' legacy codes ok gas rounds w h =
      run-Ends e (frontier_instruction_set lib db e evm)
        (frontier-Affords e lib db evm short short' legacy codes ok) gas rounds w h

  -- In a run with the Frontier table, under the SSTORE rules without net gas, with lengths of
  -- code and input that a Go slice can have, as those of the codes of accounts, and with an evm
  -- whose Create, Call and CallCode answer without a panic and with at most the gas they were
  -- given, each machine that the loop reaches has at most 1024 words on its stack and at most the
  -- gas the run began with.
  pub table-Bounded :
      length e.code < 2 ^ 63 - 1
      → length e.input < 2 ^ 63
      → IsLegacy e
      → ((w : W) (a : Address) → length (db.get_code w a) < 2 ^ 63)
      → Answers evm e
      → (gas : ℕ) (w : W) (n : Machine W)
      → Reached e (frontier_instruction_set lib db e evm) (new_machine gas w) n
      → Bounded gas n
  unfolding new_machine
  table-Bounded short short' legacy codes ok gas w n r =
      Reached-Bounded e (frontier_instruction_set lib db e evm)
        (frontier-Affords e lib db evm short short' legacy codes ok) gas (new_machine gas w) n
        (omega arith) r
