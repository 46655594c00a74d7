-- ===== src/Vm/Instructions/Access.antt =====
-- core/vm/instructions.go: the instructions that access the memory, the code, the input or the state
-- database do not panic.
use zond.Prelude.{
  ℕ, zero, suc, ◌+◌, ◌-◌, ◌%◌, ◌^◌, ◌≤◌, ◌<◌, ◌≡◌, ◌≢◌, refl, sym, ap, subst, ◌∙◌, false, some,
  List, [], ◌∷◌, if◌then◌else◌, if-cases, length, get_elem?, arith,
}
use zond.Vm.{Bytes, Library, StateDb, Contract, Machine, Executed, push, pop, uint64, overflows}
use zond.Vm.Memory.{set_byte, overwrite}
use zond.Vm.Memory.Bounds.{set_memory_lem, set32_lem, get_ptr_lem, get_data_lem}
use zond.Vm.Sizes.{memory_at, memory_fixed}
use zond.Vm.Instructions.{
  op_mload, op_mstore, op_mstore8, op_return, op_account, op_keccak256, op_call_data_load, op_copy,
  op_sload, op_sstore, pop_topics, make_log,
}
use native.Mathlib.Decide.{ℕ_discrete}
use zond.Vm.Instructions.Safe.{
  Asked, memory_at-Asked, memory_fixed-Asked, within, pop-Fine, or_panic-Fine,
}
use zond.Vm.Interpreter.Interface.{Fine}

-- a length that was asked for is below the limit of the memory
pub small_length : (off l size : ℕ) → Asked off l size → size ≤ 2 ^ 37 → uint64 l ≤ 2 ^ 37
small_length off l size (small, a) k = elim (ℕ_discrete l 0) [
  | yes e ↦ omega arith
  | no z ↦ let (low, e) = a z in omega arith
]

module _ {W : Type 0} where
  pub pop2-Fine :
      (g : ℕ) (m : Machine W) (f : ℕ → ℕ → Machine W → Executed W)
      → 2 ≤ length m.stack
      → ((x y : ℕ) (s : List ℕ) → m.stack ≡ x ∷ y ∷ s → Fine g (f x y (record m { stack = s })))
      → Fine g (pop m λ x m. pop m (f x))
  pop2-Fine g m f h k = pop-Fine g m _ (omega arith) λ x s e.
      let n : length m.stack ≡ suc (length s) = ap length e in
      pop-Fine g (record m { stack = s }) _ (omega arith)
        λ y s' e'. k x y s' (e ∙ ap (λ l. x ∷ l) e')

  -- the length of the stack behind two pops
  pub two_fewer :
      (m : Machine W) (x y : ℕ) (s : List ℕ) → m.stack ≡ x ∷ y ∷ s → length m.stack ≡ 2 + length s
  two_fewer m x y s e = ap length e ∙ omega arith

  pub mload-Fine :
      (lib : Library) (m : Machine W) (size : ℕ)
      → 1 ≤ length m.stack
      → length m.stack ≤ 1024
      → memory_fixed 32 m.stack ≡ some (size, false)
      → size ≤ length m.memory.store
      → size ≤ 2 ^ 37
      → Fine m.gas (op_mload lib m)
  unfolding op_mload push
  mload-Fine lib m size lo hi asked h k = pop-Fine m.gas m _ lo λ v s e.
      let n : length m.stack ≡ suc (length s) = ap length e in
      let a = memory_fixed-Asked 32 v s size (omega arith) (ap (memory_fixed 32) (sym e) ∙ asked) in
      or_panic-Fine m.gas _ _
        (get_ptr_lem (uint64 v) 32 m.memory.store (within v 32 size m.memory.store a h k))
        λ b. (omega arith, omega arith)

  pub mstore-Fine :
      (lib : Library) (m : Machine W) (size : ℕ)
      → 2 ≤ length m.stack
      → length m.stack ≤ 1026
      → memory_fixed 32 m.stack ≡ some (size, false)
      → size ≤ length m.memory.store
      → size ≤ 2 ^ 37
      → Fine m.gas (op_mstore lib m)
  unfolding op_mstore
  mstore-Fine lib m size lo hi asked h k = pop2-Fine m.gas m _ lo λ v w s e.
      let n = two_fewer m v w s e in
      let a =
        memory_fixed-Asked 32 v (w ∷ s) size (omega arith) (ap (memory_fixed 32) (sym e) ∙ asked) in
      let (low, fits) = within v 32 size m.memory.store a h k (λ z. absurd (omega arith)) in
      or_panic-Fine m.gas _ _ (set32_lem lib (uint64 v) w m.memory.store low fits)
        λ b. (omega arith, omega arith)

  pub mstore8-Fine :
      (m : Machine W) (size : ℕ)
      → 2 ≤ length m.stack
      → length m.stack ≤ 1026
      → memory_fixed 1 m.stack ≡ some (size, false)
      → size ≤ length m.memory.store
      → size ≤ 2 ^ 37
      → Fine m.gas (op_mstore8 m)
  unfolding op_mstore8 set_byte
  mstore8-Fine m size lo hi asked h k = pop2-Fine m.gas m _ lo λ v w s e.
      let n = two_fewer m v w s e in
      let a =
        memory_fixed-Asked 1 v (w ∷ s) size (omega arith) (ap (memory_fixed 1) (sym e) ∙ asked) in
      let (low, fits) = within v 1 size m.memory.store a h k (λ z. absurd (omega arith)) in
      or_panic-Fine m.gas (set_byte (uint64 v) (w % 256) m.memory.store) _
        (overwrite m.memory.store (uint64 v) (w % 256 ∷ []), ground arith)
        λ b. (omega arith, omega arith)

  -- the first two words of a stack, as offset and length
  pair-Asked :
      (m : Machine W) (x y : ℕ) (s : List ℕ) (size : ℕ)
      → m.stack ≡ x ∷ y ∷ s
      → memory_at 0 1 m.stack ≡ some (size, false)
      → Asked x y size
  pair-Asked m x y s size e asked =
      memory_at-Asked 0 1 m.stack x y size (ap (λ l. get_elem? l 0) e) (ap (λ l. get_elem? l 1) e)
        asked

  pub return-Fine :
      (m : Machine W) (size : ℕ)
      → 2 ≤ length m.stack
      → memory_at 0 1 m.stack ≡ some (size, false)
      → size ≤ length m.memory.store
      → size ≤ 2 ^ 37
      → Fine m.gas (op_return m)
  unfolding op_return
  return-Fine m size lo asked h k = pop2-Fine m.gas m _ lo λ x y s e.
      or_panic-Fine m.gas _ _
        (get_ptr_lem (uint64 x) (uint64 y) m.memory.store
          (within x y size m.memory.store (pair-Asked m x y s size e asked) h k))
        λ b. omega arith

  pub keccak256-Fine :
      (lib : Library) (db : StateDb W) (c : Contract) (m : Machine W) (size : ℕ)
      → 2 ≤ length m.stack
      → length m.stack ≤ 1025
      → memory_at 0 1 m.stack ≡ some (size, false)
      → size ≤ length m.memory.store
      → size ≤ 2 ^ 37
      → Fine m.gas (op_keccak256 lib db c m)
  unfolding op_keccak256 push
  keccak256-Fine lib db c m size lo hi asked h k = pop2-Fine m.gas m _ lo λ x y s e.
      let n = two_fewer m x y s e in
      or_panic-Fine m.gas _ _
        (get_ptr_lem (uint64 x) (uint64 y) m.memory.store
          (within x y size m.memory.store (pair-Asked m x y s size e asked) h k))
        λ b. (omega arith, omega arith)

  topics-Fine :
      (g n : ℕ) (m : Machine W) (f : List ℕ → Machine W → Executed W)
      → n ≤ length m.stack
      → length m.stack ≤ 1024 + n
      → m.gas ≤ g
      → ((topics : List ℕ) (k : Machine W)
          → length k.stack ≤ 1024
          → k.gas ≤ g
          → k.memory.store ≡ m.memory.store
          → Fine g (f topics k))
      → Fine g (pop_topics n m f)
  topics-Fine g zero m f lo hi gas h = h [] m (omega arith) gas refl
  topics-Fine g (suc n) m f lo hi gas h = pop-Fine g m _ (omega arith) λ x s e.
      let l : length m.stack ≡ suc (length s) = ap length e in
      topics-Fine g n (record m { stack = s }) _ (omega arith) (omega arith) gas
        λ topics k a b c. h (x ∷ topics) k a b c

  pub log-Fine :
      (n : ℕ) (db : StateDb W) (c : Contract) (m : Machine W) (size : ℕ)
      → n + 2 ≤ length m.stack
      → length m.stack ≤ 1026 + n
      → memory_at 0 1 m.stack ≡ some (size, false)
      → size ≤ length m.memory.store
      → size ≤ 2 ^ 37
      → Fine m.gas (make_log n db c m)
  unfolding make_log
  log-Fine n db c m size lo hi asked h k =
      if-cases (Fine m.gas) c.read_only (λ t. omega arith)
        λ t. pop2-Fine m.gas m _ (omega arith) λ x y s e.
          let l = two_fewer m x y s e in
          topics-Fine m.gas n (record m { stack = s }) _ (omega arith) (omega arith) (omega arith)
            λ topics r a b g.
              or_panic-Fine m.gas _ _
                (get_ptr_lem (uint64 x) (uint64 y) r.memory.store (
                  subst (λ w. uint64 y ≢ 0 → (uint64 x < 2 ^ 37) × (uint64 x + uint64 y ≤ length w))
                    (sym g) (within x y size m.memory.store (pair-Asked m x y s size e asked) h k)))
                λ bytes. (a, b)

  pub copy-Fine :
      (source : Bytes) (m : Machine W) (size : ℕ)
      → length source < 2 ^ 63
      → 3 ≤ length m.stack
      → length m.stack ≤ 1027
      → memory_at 0 2 m.stack ≡ some (size, false)
      → size ≤ length m.memory.store
      → size ≤ 2 ^ 37
      → Fine m.gas (op_copy source m)
  unfolding op_copy
  copy-Fine source m size short lo hi asked h k = pop2-Fine m.gas m _ (omega arith) λ x y s e.
      let n = two_fewer m x y s e in
      pop-Fine m.gas (record m { stack = s }) _ (omega arith)
        λ l s' e'.
          let n' : length s ≡ suc (length s') = ap length e' in
          let full = e ∙ ap (λ r. x ∷ y ∷ r) e' in
          let a =
            memory_at-Asked 0 2 m.stack x l size (ap (λ r. get_elem? r 0) full)
              (ap (λ r. get_elem? r 2) full) asked in
          let small = small_length x l size a k in
          or_panic-Fine m.gas _ _
            (get_data_lem source (if overflows y then 2 ^ 64 - 1 else y) (uint64 l) short small)
            λ bytes.
              or_panic-Fine m.gas _ _
                (set_memory_lem (uint64 x) (uint64 l) bytes m.memory.store small
                  (within x l size m.memory.store a h k))
                λ b. (omega arith, omega arith)

  pub account-Fine :
      (f : W → ℕ → ℕ) (m : Machine W)
      → 1 ≤ length m.stack
      → length m.stack ≤ 1024
      → Fine m.gas (op_account f m)
  unfolding op_account push
  account-Fine f m lo hi =
      pop-Fine m.gas m _ lo
        λ x s e. let n : length m.stack ≡ suc (length s) = ap length e in (omega arith, omega arith)

  pub data_load-Fine :
      (lib : Library) (c : Contract) (m : Machine W)
      → length c.input < 2 ^ 63
      → 1 ≤ length m.stack
      → length m.stack ≤ 1024
      → Fine m.gas (op_call_data_load lib c m)
  unfolding op_call_data_load push
  data_load-Fine lib c m short lo hi = pop-Fine m.gas m _ lo λ x s e.
      let n : length m.stack ≡ suc (length s) = ap length e in
      if-cases (Fine m.gas) (overflows x) (λ t. (omega arith, omega arith))
        λ t.
          or_panic-Fine m.gas _ _ (get_data_lem c.input x 32 short (omega arith))
            λ b. (omega arith, omega arith)

  pub sload-Fine :
      (db : StateDb W) (c : Contract) (m : Machine W)
      → 1 ≤ length m.stack
      → length m.stack ≤ 1024
      → Fine m.gas (op_sload db c m)
  unfolding op_sload push
  sload-Fine db c m lo hi =
      pop-Fine m.gas m _ lo
        λ x s e. let n : length m.stack ≡ suc (length s) = ap length e in (omega arith, omega arith)

  pub sstore-Fine :
      (db : StateDb W) (c : Contract) (m : Machine W)
      → 2 ≤ length m.stack
      → length m.stack ≤ 1026
      → Fine m.gas (op_sstore db c m)
  unfolding op_sstore
  sstore-Fine db c m lo hi =
      if-cases (Fine m.gas) c.read_only (λ t. omega arith)
        λ t.
          pop2-Fine m.gas m _ lo
            λ x y s e. let n = two_fewer m x y s e in (omega arith, omega arith)
