-- ===== src/Vm/Instructions.antt =====
-- core/vm/instructions.go: the instructions of the Frontier table. CREATE, CALL and
-- CALLCODE run evm.Create, evm.Call and evm.CallCode, an argument here that Vm/Calls
-- gives.
pub mod Safe
pub mod Access
pub mod Jumps
pub mod Accounts
pub mod Calling
use zond.Prelude.{
  ◌&&◌, ℕ, zero, suc, ◌+◌, ◌-◌, ◌*◌, ◌/◌, ◌%◌, ◌^◌, Bool, true, false, not, Option, none, some,
  List, [], ◌∷◌, ◌==◌, ltb, leb, if◌then◌else◌, length, take, drop, bind,
}
use Prim.Native.Nat.{min}
use zond.Vm.{
  Address, Fault, execution_reverted, code_store_out_of_gas, Called, Evm, Bytes, Library, StateDb,
  Contract, MemoryStore, Machine, Executed, next, stopped, failed, panicked, invalid_op_code,
  invalid_jump, write_protection, push, pop, back, swap, or_panic, get_op, uint64, overflows,
}
use zond.Vm.Memory.{set_memory, set32, set_byte, get_ptr, get_data, right_pad_bytes}
use zond.Vm.Analysis.{valid_jumpdest}

abbrev pub with_store : {W : Type 0} → Machine W → Bytes → Machine W
with_store m store = record m { memory = record m.memory { store = store } }

-- opBlockhash, on the word: the hash of one of the last 256 blocks
unfoldable pub block_hash : Contract → ℕ → ℕ
block_hash e num =
    let upper = uint64 e.block_number in
    let lower = if ltb upper 257 then 0 else upper - 256 in
    if overflows num then 0 else if leb lower num && ltb num upper then e.get_hash num else 0

-- the word that a call leaves on the stack, and whether what it returned is copied
abbrev pub success : Option Fault → ℕ
success none = 1
success (some f) = 0

abbrev pub is_copied : Option Fault → Bool
is_copied none = true
is_copied (some execution_reverted) = true
is_copied (some f) = false

-- the gas of a call with a value
abbrev pub with_stipend : ℕ → ℕ → ℕ
with_stipend value gas = if value == 0 then gas else (gas + 2300) % 2 ^ 64

-- the word that CREATE leaves on the stack, and the return data
abbrev pub created : Bool → Option Fault → Address → ℕ
created is_homestead none addr = addr
created is_homestead (some code_store_out_of_gas) addr = if is_homestead then 0 else addr
created is_homestead (some f) addr = 0

abbrev pub reverted_data : Option Fault → Bytes → Bytes
reverted_data (some execution_reverted) ret = ret
reverted_data err ret = []

module _ {W : Type 0} where
  -- Instructions that compute a word from the top of the stack: peek is a pop, and a push of the result
  unfoldable pub op_unary : (ℕ → ℕ) → Machine W → Executed W
  unfolding push
  op_unary f m = pop m λ x m. next (push (f x) m)

  unfoldable pub op_binary : (ℕ → ℕ → ℕ) → Machine W → Executed W
  unfolding push
  op_binary f m = pop m λ x m. pop m λ y m. next (push (f x y) m)

  unfoldable pub op_ternary : (ℕ → ℕ → ℕ → ℕ) → Machine W → Executed W
  unfolding push
  op_ternary f m = pop m λ x m. pop m λ y m. pop m λ z m. next (push (f x y z) m)

  -- Instructions that push a word
  unfoldable pub op_push_word : (Machine W → ℕ) → Machine W → Executed W
  unfolding push
  op_push_word f m = next (push (f m) m)

  unfoldable pub op_pop : Machine W → Executed W
  op_pop m = pop m λ x m. next m

  unfoldable pub op_jumpdest : Machine W → Executed W
  op_jumpdest m = next m

  unfoldable pub op_stop : Machine W → Executed W
  op_stop m = stopped [] m

  -- makeDup
  unfoldable pub make_dup : ℕ → Machine W → Executed W
  unfolding push
  make_dup n m = or_panic (back m.stack (n - 1)) λ x. next (push x m)

  -- makeSwap
  unfoldable pub make_swap : ℕ → Machine W → Executed W
  unfolding swap
  make_swap n m = or_panic (swap (n + 1) m.stack) λ s. next (record m { stack = s })

  unfoldable pub op_mload : Library → Machine W → Executed W
  unfolding push get_ptr
  op_mload lib m = pop m λ v m.
      or_panic (get_ptr (uint64 v) 32 m.memory.store) λ bytes. next (push (lib.set_bytes bytes) m)

  unfoldable pub op_mstore : Library → Machine W → Executed W
  unfolding set32
  op_mstore lib m = pop m λ start m.
      pop m λ v m. or_panic (set32 lib (uint64 start) v m.memory.store) λ s. next (with_store m s)

  unfoldable pub op_mstore8 : Machine W → Executed W
  unfolding set_byte
  op_mstore8 m = pop m λ off m.
      pop m
        λ v m. or_panic (set_byte (uint64 off) (v % 256) m.memory.store) λ s. next (with_store m s)

  unfoldable pub op_return : Machine W → Executed W
  unfolding get_ptr
  op_return m = pop m λ offset m.
      pop m λ size m.
        or_panic (get_ptr (uint64 offset) (uint64 size) m.memory.store) λ ret. stopped ret m

  -- opBalance and opExtCodeSize: the word is an address, its last 20 bytes
  unfoldable pub op_account : (W → ℕ → ℕ) → Machine W → Executed W
  unfolding push
  op_account f m = pop m λ x m. next (push (f m.world (x % 2 ^ 160)) m)

  -- opKeccak256, with the preimage if it is to be recorded
  unfoldable pub op_keccak256 : Library → StateDb W → Contract → Machine W → Executed W
  unfolding push get_ptr
  op_keccak256 lib db e m = pop m λ offset m. pop m λ size m.
      or_panic (get_ptr (uint64 offset) (uint64 size) m.memory.store) λ bytes.
        let h = lib.keccak256 bytes in
        let w = if e.record_preimages then db.add_preimage m.world h bytes else m.world in
        next (push h (record m { world = w }))

  unfoldable pub op_call_data_load : Library → Contract → Machine W → Executed W
  unfolding push get_data
  op_call_data_load lib e m = pop m λ x m.
      if overflows x
      then next (push 0 m)
      else or_panic (get_data e.input x 32) (λ bytes. next (push (lib.set_bytes bytes) m))

  -- opCallDataCopy and opCodeCopy, from the input or from the code
  unfoldable pub op_copy : Bytes → Machine W → Executed W
  unfolding get_data set_memory
  op_copy source m = pop m λ offset m. pop m λ start m. pop m λ l m.
      let from = if overflows start then 2 ^ 64 - 1 else start in
      or_panic (get_data source from (uint64 l)) λ bytes.
        or_panic (set_memory (uint64 offset) (uint64 l) bytes m.memory.store)
          λ s. next (with_store m s)

  -- opExtCodeCopy
  unfoldable pub op_ext_code_copy : StateDb W → Machine W → Executed W
  unfolding op_copy
  op_ext_code_copy db m = pop m λ a m. op_copy (db.get_code m.world (a % 2 ^ 160)) m

  unfoldable pub op_sload : StateDb W → Contract → Machine W → Executed W
  unfolding push
  op_sload db e m = pop m λ loc m. next (push (db.get_state m.world e.self loc) m)

  unfoldable pub op_sstore : StateDb W → Contract → Machine W → Executed W
  op_sstore db e m =
      if e.read_only
      then failed write_protection [] m
      else pop m
          (λ loc m. pop m (λ v m. next (record m { world = db.set_state m.world e.self loc v })))

  -- *pc = pos.Uint64() - 1, which wraps around
  unfoldable pub jump_to : Contract → ℕ → Machine W → Executed W
  unfolding valid_jumpdest
  jump_to e pos m = or_panic (valid_jumpdest e.code pos) λ valid.
      if valid
      then next (record m { pc = (uint64 pos + 2 ^ 64 - 1) % 2 ^ 64 })
      else failed invalid_jump [] m

  unfoldable pub op_jump : Contract → Machine W → Executed W
  unfolding jump_to
  op_jump e m = if e.aborted m.gas then stopped [] m else pop m (jump_to e)

  unfoldable pub op_jumpi : Contract → Machine W → Executed W
  unfolding jump_to
  op_jumpi e m =
      if e.aborted m.gas
      then stopped [] m
      else pop m (λ pos m. pop m (λ cond m. if cond == 0 then next m else jump_to e pos m))

  -- opPush1
  unfoldable pub op_push1 : Contract → Machine W → Executed W
  unfolding push get_op
  op_push1 e m =
      let pc = (m.pc + 1) % 2 ^ 64 in
      next (push (if ltb pc (length e.code) then get_op e.code pc else 0) (record m { pc = pc }))

  -- makePush; int(*pc+1) is negative from 2^63 on, and then no slice can be taken
  unfoldable pub make_push : Library → ℕ → Contract → Machine W → Executed W
  unfolding push right_pad_bytes
  make_push lib n e m =
      let after = (m.pc + 1) % 2 ^ 64 in
      let start = min after (length e.code) in
      let end = min (start + n) (length e.code) in
      if leb (2 ^ 63) after
      then panicked
      else next (
          push (lib.set_bytes (right_pad_bytes (take (end - start) (drop start e.code)) n))
            (record m { pc = (m.pc + n) % 2 ^ 64 }))

  -- opUndefined
  unfoldable pub op_undefined : Contract → Machine W → Executed W
  op_undefined e m =
      if ltb m.pc (length e.code)
      then failed (invalid_op_code (get_op e.code m.pc)) [] m
      else panicked

  unfoldable pub op_selfdestruct : StateDb W → Contract → Machine W → Executed W
  op_selfdestruct db e m =
      if e.read_only
      then failed write_protection [] m
      else pop m (λ beneficiary m.
        let balance = db.get_balance m.world e.self in
        let w = db.add_balance m.world (beneficiary % 2 ^ 160) balance in
        stopped [] (record m { world = db.suicide w e.self }))

  -- the topics of makeLog
  abbrev pub pop_topics : ℕ → Machine W → (List ℕ → Machine W → Executed W) → Executed W
  pop_topics zero m f = f [] m
  pop_topics (suc n) m f = pop m λ x m. pop_topics n m λ topics. f (x ∷ topics)

  -- makeLog
  unfoldable pub make_log : ℕ → StateDb W → Contract → Machine W → Executed W
  unfolding get_ptr
  make_log n db e m =
      if e.read_only
      then failed write_protection [] m
      else pop m (λ start m. pop m (λ size m. pop_topics n m (λ topics m.
        or_panic (get_ptr (uint64 start) (uint64 size) m.memory.store)
          (λ bytes. next (record m { world = db.add_log m.world e.self topics bytes })))))

  -- opCall and opCallCode behind the call
  unfoldable pub finish_call : ℕ → ℕ → Called W → Machine W → Executed W
  unfolding push set_memory
  finish_call ret_offset ret_size r m =
      or_panic
        (if is_copied r.err
          then set_memory (uint64 ret_offset) (uint64 ret_size) r.ret m.memory.store
          else some m.memory.store)
        λ s. next (
          push (success r.err) (record (with_store m s) {
            world = r.world;
            gas = (m.gas + r.left) % 2 ^ 64;
            return_data = r.ret;
          }))

  unfoldable pub op_call : Evm W → Contract → Machine W → Executed W
  unfolding get_ptr finish_call
  op_call evm e m = pop m λ temp m. pop m λ addr m. pop m λ value m. pop m λ in_offset m.
      pop m λ in_size m. pop m λ ret_offset m. pop m λ ret_size m.
        or_panic (get_ptr (uint64 in_offset) (uint64 in_size) m.memory.store) λ args.
          if e.read_only && not (value == 0)
          then failed write_protection [] m
          else or_panic
              (evm.call e m.world (addr % 2 ^ 160) args (with_stipend value m.call_gas_temp) value)
              (λ r. finish_call ret_offset ret_size r m)

  unfoldable pub op_call_code : Evm W → Contract → Machine W → Executed W
  unfolding get_ptr finish_call
  op_call_code evm e m = pop m λ temp m. pop m λ addr m. pop m λ value m. pop m λ in_offset m.
      pop m λ in_size m. pop m λ ret_offset m. pop m λ ret_size m.
        or_panic (get_ptr (uint64 in_offset) (uint64 in_size) m.memory.store) λ args.
          or_panic
            (evm.call_code e m.world (addr % 2 ^ 160) args (with_stipend value m.call_gas_temp)
              value)
            λ r. finish_call ret_offset ret_size r m

  unfoldable pub op_create : Evm W → Contract → Machine W → Executed W
  unfolding push get_ptr
  op_create evm e m =
      if e.read_only
      then failed write_protection [] m
      else pop m (λ value m. pop m (λ offset m. pop m (λ size m.
        or_panic (get_ptr (uint64 offset) (uint64 size) m.memory.store) (λ input.
          let gas = if e.is_eip150 then m.gas - m.gas / 64 else m.gas in
          or_panic (evm.create e m.world input gas value) (λ (r, addr). next (
            push (created e.is_homestead r.err addr) (record m {
              world = r.world;
              gas = (m.gas - gas + r.left) % 2 ^ 64;
              return_data = reverted_data r.err r.ret;
            })))))))
