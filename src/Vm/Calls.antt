-- ===== src/Vm/Calls.antt =====
-- core/vm/evm.go: Call, CallCode, Create and create, and RunPrecompiledContract of core/vm/contracts.go.
-- Tracing is left out.
pub mod Ends
use zond.Prelude.{
  ℕ, zero, suc, ◌+◌, ◌-◌, ◌*◌, ◌%◌, ◌^◌, Bool, true, false, not, ◌&&◌, ◌||◌, Option, none, some,
  List, [], ◌∷◌, ◌==◌, ltb, leb, if◌then◌else◌, length, bind,
}
use zond.Vm.{
  Address, Bytes, Library, StateDb, Fault, out_of_gas, execution_reverted, code_store_out_of_gas,
  depth, insufficient_balance, contract_address_collision, max_code_size_exceeded, invalid_code,
  nonce_uint_overflow, Contract, Called, Evm,
}
use zond.Vm.Interpreter.{Ran, returned, ended_with, crashed, unfinished, run}
use zond.Vm.JumpTable.{frontier_instruction_set}

-- A precompiled contract: the gas it asks for, and its output
pub record Precompile : Type 0 where
  pub required_gas : Bytes → ℕ
  pub output : Bytes → Bytes × Option Fault

-- What else evm.go uses: of the state database, of the block's context, of the rules of the chain, and the
-- address of a new contract. A snapshot that is reverted to is one that Snapshot gave.
pub record Host (W : Type 0) : Type 0 where
  pub snapshot : W → ℕ × W
  pub revert_to_snapshot : W → ℕ → W
  pub create_account : W → Address → W
  pub get_nonce : W → Address → ℕ
  pub set_nonce : W → Address → ℕ → W
  pub get_code_hash : W → Address → ℕ
  pub empty_code_hash : ℕ
  pub set_code : W → Address → Bytes → W
  pub add_address_to_access_list : W → Address → W
  pub can_transfer : W → Address → ℕ → Bool
  pub transfer : W → Address → Address → ℕ → W
  pub precompile : Address → Option Precompile
  pub create_address : Address → ℕ → Address
  pub is_berlin : Bool
  pub is_london : Bool

abbrev pub is_none : {A : Type 0} → Option A → Bool
is_none none = true
is_none (some x) = false

-- the check of EIP-3541
abbrev starts_with_ef : Bytes → Bool
starts_with_ef [] = false
starts_with_ef (b ∷ bs) = b == 239

module _ {W : Type 0} where
  abbrev pub answer : Bytes → ℕ → Option Fault → W → Called W
  answer ret left err w = record { ret = ret; left = left; err = err; world = w }

  -- what Run answers, with the gas of the contract
  abbrev pub ran : Ran W → Option (Called W)
  ran (returned ret m) = some (answer ret m.gas none m.world)
  ran (ended_with fault ret m) = some (answer ret m.gas (some fault) m.world)
  ran crashed = none
  ran unfinished = none

  -- RunPrecompiledContract
  abbrev pub run_precompiled : Precompile → Bytes → ℕ → W → Called W
  run_precompiled p input gas w =
      if ltb gas (p.required_gas input)
      then answer [] 0 (some out_of_gas) w
      else answer (p.output input).0 (gas - p.required_gas input) (p.output input).1 w

  -- the end of a call: an error reverts the state, and takes the gas unless it is ErrExecutionReverted
  abbrev pub settled : Host W → ℕ → Option Fault → Called W → Called W
  settled host id none r = r
  settled host id (some execution_reverted) r = record r {
    world = host.revert_to_snapshot r.world id;
  }
  settled host id (some fault) r = record r { world = host.revert_to_snapshot r.world id; left = 0 }

  -- The new code is checked, paid for and stored.
  unfoldable pub stored_code : Host W → Contract → Address → Called W → Called W
  stored_code host e address r =
      if e.is_eip158 && ltb 24576 (length r.ret)
      then record r { err = some max_code_size_exceeded }
      else if starts_with_ef r.ret && host.is_london
      then record r { err = some invalid_code }
      else if leb (length r.ret * 200 % 2 ^ 64) r.left
      then record r {
        left = r.left - length r.ret * 200 % 2 ^ 64;
        world = host.set_code r.world address r.ret;
      }
      else record r { err = some code_store_out_of_gas }

  abbrev pub with_code : Host W → Contract → Address → Option Fault → Called W → Called W
  with_code host e address none r = stored_code host e address r
  with_code host e address (some fault) r = r

  -- the end of create: before Homestead, code that cannot be paid for is no reason to revert
  abbrev pub settled_create : Host W → Bool → ℕ → Option Fault → Called W → Called W
  settled_create host is_homestead id (some code_store_out_of_gas) r =
      if is_homestead then settled host id (some code_store_out_of_gas) r else r
  settled_create host is_homestead id err r = settled host id err r

-- NewContract: in the context of the one that calls
abbrev pub callee : Contract → Bytes → Bytes → Address → ℕ → Contract
callee e code input self value = record e {
  code = code;
  input = input;
  self = self;
  caller = e.self;
  value = value;
}

module _ {W : Type 0} (lib : Library) (db : StateDb W) (host : Host W) where
  -- Run with the Frontier table; a run ends within one more round than its gas
  abbrev pub run_contract : Evm W → Contract → ℕ → W → Option (Called W)
  run_contract evm e gas w = ran (run e (frontier_instruction_set lib db e evm) (gas + 1) gas w)

  abbrev pub run_code : Evm W → Contract → Option Precompile → ℕ → W → Option (Called W)
  run_code evm e none gas w = run_contract evm e gas w
  run_code evm e (some p) gas w = some (run_precompiled p e.input gas w)

  -- evm.Call below the depth limit; `evm` is for the calls of the contract that it runs
  unfoldable pub call_at : Evm W → Contract → W → Address → Bytes → ℕ → ℕ → Option (Called W)
  call_at evm e w to input gas value =
      if not (value == 0) && not (host.can_transfer w e.self value)
      then some (answer [] gas (some insufficient_balance) w)
      else let (id, w) = host.snapshot w in
        let p = host.precompile to in
        if not (db.exist w to) && (is_none p && (e.is_eip158 && value == 0))
        then some (answer [] gas none w)
        else let w = if db.exist w to then w else host.create_account w to in
          let w = host.transfer w e.self to value in
          bind (run_code evm (callee e (db.get_code w to) input to value) p gas w)
            λ r. some (settled host id r.err r)

  -- evm.CallCode below the depth limit: the code of another account, run as the one that calls
  unfoldable pub call_code_at : Evm W → Contract → W → Address → Bytes → ℕ → ℕ → Option (Called W)
  call_code_at evm e w to input gas value =
      if not (host.can_transfer w e.self value)
      then some (answer [] gas (some insufficient_balance) w)
      else let (id, w) = host.snapshot w in
        bind
          (run_code evm (callee e (db.get_code w to) input e.self value) (host.precompile to) gas w)
          λ r. some (settled host id r.err r)

  -- the new contract runs, and its output becomes the code
  unfoldable pub deploy : Evm W → Contract → W → Bytes → ℕ → ℕ → Address → Option (Called W)
  unfolding stored_code
  deploy evm e w input gas value address =
      let (id, w) = host.snapshot w in
      let w = host.create_account w address in
      let w = if e.is_eip158 then host.set_nonce w address 1 else w in
      let w = host.transfer w e.self address value in
      bind (run_contract evm (callee e input [] address value) gas w) λ r.
        let r = with_code host e address r.err r in
        some (settled_create host e.is_homestead id r.err r)

  -- evm.create below the depth limit
  unfoldable pub create_in :
      Evm W → Contract → W → Bytes → ℕ → ℕ → Address → Option (Called W × Address)
  unfolding deploy
  create_in evm e w input gas value address =
      let nonce = host.get_nonce w e.self in
      if not (host.can_transfer w e.self value)
      then some (answer [] gas (some insufficient_balance) w, 0)
      else if ltb ((nonce + 1) % 2 ^ 64) nonce
      then some (answer [] gas (some nonce_uint_overflow) w, 0)
      else let w = host.set_nonce w e.self ((nonce + 1) % 2 ^ 64) in
        let w = if host.is_berlin then host.add_address_to_access_list w address else w in
        let hash = host.get_code_hash w address in
        if not (host.get_nonce w address == 0)
          || (not (hash == 0) && not (hash == host.empty_code_hash))
        then some (answer [] 0 (some contract_address_collision) w, 0)
        else bind (deploy evm e w input gas value address) λ r. some (r, address)

  -- evm.Create
  abbrev pub create_at : Evm W → Contract → W → Bytes → ℕ → ℕ → Option (Called W × Address)
  create_at evm e w input gas value =
      create_in evm e w input gas value (host.create_address e.self (host.get_nonce w e.self))

  -- The calls of a contract that runs `n` calls above the limit: at depth 1025 - n, with the Run of the
  -- contract counted
  unfoldable pub evm_at : ℕ → Evm W
  unfolding call_at call_code_at create_in
  evm_at zero = record {
    call = λ e w to input gas value. some (answer [] gas (some depth) w);
    call_code = λ e w to input gas value. some (answer [] gas (some depth) w);
    create = λ e w input gas value. some (answer [] gas (some depth) w, 0);
  }
  evm_at (suc n) = record {
    call = call_at (evm_at n);
    call_code = call_code_at (evm_at n);
    create = create_at (evm_at n);
  }
