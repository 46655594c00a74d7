-- ===== src/Vm/Calls/Ends.antt =====
-- core/vm/evm.go with core/vm/interpreter.go: a run with the Frontier table and its calls ends.
use zond.Prelude.{
  ℕ, zero, suc, ◌+◌, ◌-◌, ◌%◌, ◌^◌, ◌≤◌, ◌<◌, Bool, not, ◌&&◌, ◌||◌, Option, none, some, ◌==◌, ltb,
  if◌then◌else◌, if-cases, length, bind, arith,
}
use zond.Vm.{
  Address, Bytes, Library, StateDb, Fault, execution_reverted, code_store_out_of_gas, Contract,
  Called, Evm, Machine,
}
use zond.Vm.Prices.Bounds.{IsLegacy}
use zond.Vm.Instructions.Calling.{IsThrifty, IsThriftyMade, Answers}
use zond.Vm.Interpreter.{Ran, returned, ended_with, crashed, unfinished, run, new_machine}
use zond.Vm.Interpreter.Ends.{Ends}
use zond.Vm.Interpreter.Reached.{Reached, Bounded}
use zond.Vm.JumpTable.{frontier_instruction_set}
use zond.Vm.JumpTable.Runs.{run_table-Ends, table-Bounded}
use zond.Vm.Calls.{
  is_none, Precompile, Host, ran, run_precompiled, settled, stored_code, with_code, settled_create,
  run_contract, run_code, call_at, call_code_at, deploy, create_in, create_at, evm_at,
}

all_le : (gas : ℕ) → gas ≤ gas
all_le gas = omega arith

none_le : (gas : ℕ) → 0 ≤ gas
none_le gas = omega arith

module _ {W : Type 0} where
  ran-IsThrifty : (gas : ℕ) (r : Ran W) → Ends gas r → IsThrifty gas (ran r)
  ran-IsThrifty gas (returned ret m) h = h
  ran-IsThrifty gas (ended_with fault ret m) h = h
  ran-IsThrifty gas crashed h = h
  ran-IsThrifty gas unfinished h = h

  run_precompiled_le :
      (p : Precompile) (input : Bytes) (gas : ℕ) (w : W)
      → (run_precompiled p input gas w).left ≤ gas
  run_precompiled_le p input gas w =
      if-cases (λ (r : Called W). r.left ≤ gas) (ltb gas (p.required_gas input)) (λ t. omega arith)
        (λ t. omega arith)

  settled_le :
      (host : Host W) (id gas : ℕ) (err : Option Fault) (r : Called W)
      → r.left ≤ gas
      → (settled host id err r).left ≤ gas
  settled_le host id gas none r h = h
  settled_le host id gas (some f) r h = on_fault f
    where
      on_fault : (f : Fault) → (settled host id (some f) r).left ≤ gas
      on_fault execution_reverted = h
      on_fault _ = omega arith

  with_code_le :
      (host : Host W) (e : Contract) (address : Address) (gas : ℕ) (err : Option Fault)
      (r : Called W)
      → r.left ≤ gas
      → (with_code host e address err r).left ≤ gas
  unfolding stored_code
  with_code_le host e address gas none r h = ground arith
  with_code_le host e address gas (some f) r h = h

  settled_create_le :
      (host : Host W) (is_homestead : Bool) (id gas : ℕ) (err : Option Fault) (r : Called W)
      → r.left ≤ gas
      → (settled_create host is_homestead id err r).left ≤ gas
  settled_create_le host is_homestead id gas none r h = h
  settled_create_le host is_homestead id gas (some f) r h = on_fault f
    where
      on_fault : (f : Fault) → (settled_create host is_homestead id (some f) r).left ≤ gas
      on_fault code_store_out_of_gas =
          if-cases (λ (r : Called W). r.left ≤ gas) is_homestead
            (λ t. settled_le host id gas (some code_store_out_of_gas) r h) (λ t. h)
      on_fault f = settled_le host id gas (some f) r h

  -- A bind keeps an answer thrifty.
  bind-IsThrifty :
      (gas : ℕ) (o : Option (Called W)) (f : Called W → Called W)
      → IsThrifty gas o
      → ((r : Called W) → r.left ≤ gas → (f r).left ≤ gas)
      → IsThrifty gas (bind o λ r. some (f r))
  bind-IsThrifty gas none f h k = h
  bind-IsThrifty gas (some r) f h k = k r h

  made-IsThrifty :
      (gas : ℕ) (o : Option (Called W)) (address : Address)
      → IsThrifty gas o
      → IsThriftyMade gas (bind o λ r. some (r, address))
  made-IsThrifty gas none address h = h
  made-IsThrifty gas (some r) address h = h

module _ {W : Type 0} (lib : Library) (db : StateDb W) (host : Host W)
    (codes : (w : W) (a : Address) → length (db.get_code w a) < 2 ^ 63 - 1) where
  -- a contract that runs with calls that answer
  run_contract-IsThrifty :
      (evm : Evm W) (e : Contract)
      → Answers evm e
      → IsLegacy e
      → length e.code < 2 ^ 63 - 1
      → length e.input < 2 ^ 63
      → (gas : ℕ) (w : W) → IsThrifty gas (run_contract lib db host evm e gas w)
  run_contract-IsThrifty evm e ok legacy short short' gas w = ran-IsThrifty gas _ (
      run_table-Ends lib db e evm short short' legacy (λ w a. let c = codes w a in omega arith) ok
        gas (gas + 1) w (omega arith))

  run_code-IsThrifty :
      (evm : Evm W) (e : Contract)
      → Answers evm e
      → IsLegacy e
      → length e.code < 2 ^ 63 - 1
      → length e.input < 2 ^ 63
      → (p : Option Precompile) (gas : ℕ) (w : W)
      → IsThrifty gas (run_code lib db host evm e p gas w)
  run_code-IsThrifty evm e ok legacy short short' none gas w =
      run_contract-IsThrifty evm e ok legacy short short' gas w
  run_code-IsThrifty evm e ok legacy short short' (some p) gas w =
      run_precompiled_le p e.input gas w

  module _ (evm : Evm W) (ok : (e : Contract) → IsLegacy e → Answers evm e) where
    call-IsThrifty :
        (e : Contract)
        → IsLegacy e
        → (w : W) (to : Address) (args : Bytes) (gas value : ℕ) → length args ≤ 2 ^ 37
        → IsThrifty gas (call_at lib db host evm e w to args gas value)
    unfolding call_at
    call-IsThrifty e legacy w to args gas value short =
        let small : length args < 2 ^ 63 = omega arith in
        if-cases (IsThrifty {W = W} gas)
          (not (value == 0) && not (host.can_transfer w e.self value)) (λ t. all_le gas)
          λ t.
            if-cases (IsThrifty {W = W} gas)
              (not (db.exist (host.snapshot w).1 to)
                && (is_none (host.precompile to) && (e.is_eip158 && value == 0)))
              (λ u. all_le gas)
              λ u.
                bind-IsThrifty gas _ _
                  (run_code-IsThrifty evm _ (ok _ legacy) legacy (codes _ to) small _ gas _)
                  λ r h. settled_le host _ gas r.err r h

    call_code-IsThrifty :
        (e : Contract)
        → IsLegacy e
        → (w : W) (to : Address) (args : Bytes) (gas value : ℕ) → length args ≤ 2 ^ 37
        → IsThrifty gas (call_code_at lib db host evm e w to args gas value)
    unfolding call_code_at
    call_code-IsThrifty e legacy w to args gas value short =
        let small : length args < 2 ^ 63 = omega arith in
        if-cases (IsThrifty {W = W} gas) (not (host.can_transfer w e.self value)) (λ t. all_le gas)
          λ u.
            bind-IsThrifty gas _ _
              (run_code-IsThrifty evm _ (ok _ legacy) legacy (codes _ to) small _ gas _)
              λ r h. settled_le host _ gas r.err r h

    deploy-IsThrifty :
        (e : Contract)
        → IsLegacy e
        → (w : W) (input : Bytes) (gas value : ℕ) (address : Address) → length input ≤ 2 ^ 37
        → IsThrifty gas (deploy lib db host evm e w input gas value address)
    unfolding deploy
    deploy-IsThrifty e legacy w input gas value address short =
        let small : length input < 2 ^ 63 - 1 = omega arith in
        let empty : 0 < 2 ^ 63 = omega arith in
        bind-IsThrifty gas _ _ (run_contract-IsThrifty evm _ (ok _ legacy) legacy small empty gas _)
          λ r h.
            settled_create_le host e.is_homestead _ gas (with_code host e address r.err r).err
              (with_code host e address r.err r) (with_code_le host e address gas r.err r h)

    create-IsThrifty :
        (e : Contract)
        → IsLegacy e
        → (w : W) (input : Bytes) (gas value : ℕ) → length input ≤ 2 ^ 37
        → IsThriftyMade gas (create_at lib db host evm e w input gas value)
    unfolding create_in
    create-IsThrifty e legacy w input gas value short =
        let address = host.create_address e.self (host.get_nonce w e.self) in
        let numbered = host.set_nonce w e.self ((host.get_nonce w e.self + 1) % 2 ^ 64) in
        let taken =
          if host.is_berlin then host.add_address_to_access_list numbered address else numbered in
        if-cases (IsThriftyMade {W = W} gas) (not (host.can_transfer w e.self value))
          (λ t. all_le gas)
          λ t.
            if-cases (IsThriftyMade {W = W} gas)
              (ltb ((host.get_nonce w e.self + 1) % 2 ^ 64) (host.get_nonce w e.self))
              (λ u. all_le gas)
              λ u.
                if-cases (IsThriftyMade {W = W} gas)
                  (not (host.get_nonce taken address == 0)
                    || (not (host.get_code_hash taken address == 0)
                        && not (host.get_code_hash taken address == host.empty_code_hash)))
                  (λ v. none_le gas)
                  λ v. made-IsThrifty gas _ _ (deploy-IsThrifty e legacy _ input gas value _ short)

  -- At every depth the calls answer without a panic, and with at most the gas they were given.
  evm_at-Answers : (n : ℕ) (e : Contract) → IsLegacy e → Answers (evm_at lib db host n) e
  unfolding evm_at
  evm_at-Answers zero e legacy = record {
    on_call = λ w to args gas value h. omega arith;
    on_call_code = λ w to args gas value h. omega arith;
    on_create = λ w input gas value h. omega arith;
  }
  evm_at-Answers (suc n) e legacy =
      let ok : (e : Contract) → IsLegacy e → Answers (evm_at lib db host n) e = evm_at-Answers n in
      record {
        on_call = call-IsThrifty (evm_at lib db host n) ok e legacy;
        on_call_code = call_code-IsThrifty (evm_at lib db host n) ok e legacy;
        on_create = create-IsThrifty (evm_at lib db host n) ok e legacy;
      }

  module _ (n : ℕ) (e : Contract) (legacy : IsLegacy e) (short : length e.code < 2 ^ 63 - 1)
      (short' : length e.input < 2 ^ 63) where
    -- A run with the Frontier table, at any depth of calls, of a contract whose code, like the
    -- codes of the accounts, has less than 2^63 - 1 bytes and whose input has less than 2^63,
    -- under the SSTORE rules without net gas, ends when it is given more rounds than gas: with
    -- the contracts that it calls and creates, it returns or ends with an error and at most the
    -- gas it was given, and neither panics nor goes on.
    pub run_frontier-Ends :
        (gas rounds : ℕ) (w : W)
        → gas < rounds
        → Ends gas (run e (frontier_instruction_set lib db e (evm_at lib db host n)) rounds gas w)
    run_frontier-Ends gas rounds w h =
        run_table-Ends lib db e (evm_at lib db host n) short short' legacy
          (λ w a. let c = codes w a in omega arith) (evm_at-Answers n e legacy) gas rounds w h

    -- In a run with the Frontier table, at any depth of calls, of a contract whose code, like the
    -- codes of the accounts, has less than 2^63 - 1 bytes and whose input has less than 2^63,
    -- under the SSTORE rules without net gas, each machine that the loop reaches has at most 1024
    -- words on its stack and at most the gas the run began with.
    pub frontier-Bounded :
        (gas : ℕ) (w : W) (m : Machine W)
        → Reached e (frontier_instruction_set lib db e (evm_at lib db host n)) (new_machine gas w) m
        → Bounded gas m
    frontier-Bounded gas w m r =
        table-Bounded lib db e (evm_at lib db host n) short short' legacy
          (λ w a. let c = codes w a in omega arith) (evm_at-Answers n e legacy) gas w m r
