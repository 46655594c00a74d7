-- ===== src/Vm.antt =====
-- core/vm: what the virtual machine works on. A uint256.Int is the number it holds, and a word that is
-- read as a uint64 is taken modulo 2^64; the arithmetic of the uint256 package and the hash are
-- arguments (Library), and so is the state database behind its interface (StateDb). A stack is a list, its
-- top first. An address is a number.
pub mod Memory
pub mod Analysis
pub mod Sizes
pub mod Prices
pub mod Instructions
pub mod Interpreter
pub mod JumpTable
pub mod Calls
use zond.Prelude.{
  ℕ, zero, suc, ◌+◌, ◌-◌, ◌*◌, ◌/◌, ◌%◌, ◌^◌, Bool, true, false, Option, none, some, List, [], ◌∷◌,
  ltb, leb, if◌then◌else◌, length, bind, get_elem?, set,
}

abbrev pub Bytes : Type 0
Bytes = List ℕ

abbrev pub Address : Type 0
Address = ℕ

-- vm/errors.go
pub data Fault : Type 0 where
  out_of_gas : Fault
  gas_uint_overflow : Fault
  stack_underflow : ℕ → ℕ → Fault
  stack_overflow : ℕ → ℕ → Fault
  invalid_op_code : ℕ → Fault
  invalid_jump : Fault
  write_protection : Fault
  execution_reverted : Fault
  return_data_out_of_bounds : Fault
  code_store_out_of_gas : Fault
  depth : Fault
  insufficient_balance : Fault
  contract_address_collision : Fault
  max_code_size_exceeded : Fault
  invalid_code : Fault
  nonce_uint_overflow : Fault

-- What the uint256 package and the hash compute, on words; WriteToSlice gives the 32 bytes of a word
pub record Library : Type 0 where
  pub add : ℕ → ℕ → ℕ
  pub sub : ℕ → ℕ → ℕ
  pub mul : ℕ → ℕ → ℕ
  pub div : ℕ → ℕ → ℕ
  pub sdiv : ℕ → ℕ → ℕ
  pub mod_word : ℕ → ℕ → ℕ
  pub smod : ℕ → ℕ → ℕ
  pub add_mod : ℕ → ℕ → ℕ → ℕ
  pub mul_mod : ℕ → ℕ → ℕ → ℕ
  pub exp : ℕ → ℕ → ℕ
  pub extend_sign : ℕ → ℕ → ℕ
  pub bit_len : ℕ → ℕ
  pub slt : ℕ → ℕ → Bool
  pub sgt : ℕ → ℕ → Bool
  pub and_word : ℕ → ℕ → ℕ
  pub or_word : ℕ → ℕ → ℕ
  pub xor_word : ℕ → ℕ → ℕ
  pub not_word : ℕ → ℕ
  pub byte_of : ℕ → ℕ → ℕ
  pub set_bytes : Bytes → ℕ
  pub write_to_slice : ℕ → Bytes
  pub keccak256 : Bytes → ℕ

-- The part of the interface StateDB that is used here
pub record StateDb (W : Type 0) : Type 0 where
  pub get_balance : W → Address → ℕ
  pub get_code : W → Address → Bytes
  pub get_code_size : W → Address → ℕ
  pub get_state : W → Address → ℕ → ℕ
  pub get_committed_state : W → Address → ℕ → ℕ
  pub set_state : W → Address → ℕ → ℕ → W
  pub empty : W → Address → Bool
  pub exist : W → Address → Bool
  pub add_balance : W → Address → ℕ → W
  pub suicide : W → Address → W
  pub has_suicided : W → Address → Bool
  pub add_refund : W → ℕ → W
  pub sub_refund : W → ℕ → Option W
  pub add_preimage : W → ℕ → Bytes → W
  pub add_log : W → Address → List ℕ → Bytes → W

-- A Contract, and what the context of the call and of the block hold during a run. `aborted` is the flag
-- that Cancel sets, at the moment when this much gas is left.
pub record Contract : Type 0 where
  pub code : Bytes
  pub input : Bytes
  pub self : Address
  pub caller : Address
  pub value : ℕ
  pub origin : Address
  pub gas_price : ℕ
  pub coinbase : Address
  pub time : ℕ
  pub block_number : ℕ
  pub difficulty : ℕ
  pub gas_limit : ℕ
  pub get_hash : ℕ → ℕ
  pub read_only : Bool
  pub is_petersburg : Bool
  pub is_constantinople : Bool
  pub is_homestead : Bool
  pub is_eip150 : Bool
  pub is_eip158 : Bool
  pub record_preimages : Bool
  pub aborted : ℕ → Bool

pub record MemoryStore : Type 0 where
  pub store : Bytes
  pub last_gas_cost : ℕ

-- What changes while a contract runs: the scope, the interpreter's return data, evm.callGasTemp and the
-- state database
pub record Machine (W : Type 0) : Type 0 where
  pub pc : ℕ
  pub stack : List ℕ
  pub memory : MemoryStore
  pub gas : ℕ
  pub return_data : Bytes
  pub call_gas_temp : ℕ
  pub world : W

-- How an instruction ends: it goes on, errStopToken, an error, or a Go panic
pub data Executed (W : Type 0) : Type 0 where
  next : Machine W → Executed W
  stopped : Bytes → Machine W → Executed W
  failed : Fault → Bytes → Machine W → Executed W
  panicked : Executed W

-- What a dynamic gas function answers
pub data Charged (W : Type 0) : Type 0 where
  costs : ℕ → Machine W → Charged W
  refused : Fault → Machine W → Charged W
  broken : Charged W

-- What a call answers, and the state database behind it
pub record Called (W : Type 0) : Type 0 where
  pub ret : Bytes
  pub left : ℕ
  pub err : Option Fault
  pub world : W

-- evm.Call, evm.CallCode and evm.Create, by the contract that calls: to an address or with a code, with
-- gas and a value. `none` is a Go panic.
pub record Evm (W : Type 0) : Type 0 where
  pub call : Contract → W → Address → Bytes → ℕ → ℕ → Option (Called W)
  pub call_code : Contract → W → Address → Bytes → ℕ → ℕ → Option (Called W)
  pub create : Contract → W → Bytes → ℕ → ℕ → Option (Called W × Address)

-- Stack.push and Stack.pop
unfoldable pub push : {W : Type 0} → ℕ → Machine W → Machine W
push v m = record m { stack = v ∷ m.stack }

abbrev pub pop_from : {W : Type 0} → List ℕ → Machine W → (ℕ → Machine W → Executed W) → Executed W
pop_from [] m f = panicked
pop_from (x ∷ s) m f = f x (record m { stack = s })

abbrev pub pop : {W : Type 0} → Machine W → (ℕ → Machine W → Executed W) → Executed W
pop m f = pop_from m.stack m f

-- Stack.Back
abbrev pub back : List ℕ → ℕ → Option ℕ
back s n = get_elem? s n

-- Stack.swap; the positions are counted from the top
unfoldable pub swap : ℕ → List ℕ → Option (List ℕ)
swap n s =
    bind (get_elem? s (n - 1)) λ a. bind (get_elem? s 0) λ b. some (set (set s (n - 1) b) 0 a)

-- a Go panic where there is no value
abbrev pub or_panic {ℓ} : {A : Type ℓ} {W : Type 0} → Option A → (A → Executed W) → Executed W
or_panic none f = panicked
or_panic (some a) f = f a

-- Contract.GetOp
unfoldable pub get_op : Bytes → ℕ → ℕ
get_op code n = elim (get_elem? code n) [ none ↦ 0 | some op ↦ op ]

-- Contract.UseGas
unfoldable pub use_gas : {W : Type 0} → Machine W → ℕ → Option (Machine W)
use_gas m amount = if ltb m.gas amount then none else some (record m { gas = m.gas - amount })

-- Uint64WithOverflow
abbrev pub uint64 : ℕ → ℕ
uint64 w = w % 2 ^ 64

abbrev pub overflows : ℕ → Bool
overflows w = leb (2 ^ 64) w
