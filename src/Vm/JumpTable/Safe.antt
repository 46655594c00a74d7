-- ===== src/Vm/JumpTable/Safe.antt =====
-- core/vm/jump_table.go: the operations of the Frontier table are safe.
use zond.Prelude.{
  ℕ, ◌+◌, ◌^◌, ◌≤◌, ◌<◌, ◌≡◌, ◌≢◌, refl, inl, Bool, false, Option, some, List, length, arith,
}
use zond.Vm.{
  Address, Bytes, Library, StateDb, Contract, Evm, Machine, Executed, Charged, costs, get_op,
}
use zond.Vm.Sizes.{
  calc_mem_size64, calc_mem_size64_with_uint, larger_size, memory_at, memory_call, memory_fixed,
}
use zond.Vm.Prices.{
  pure_memory_gascost, memory_copier_gas, gas_keccak256, make_gas_log, gas_selfdestruct, gas_call,
  gas_call_code,
}
use zond.Vm.Prices.Bounds.{
  pure-Prices, copier-Prices, keccak256-Prices, log-Prices, Costly_lem, log-Costly,
}
use zond.Vm.Analysis.Bounds.{get_elem?_lem}
use zond.Vm.Instructions.{
  op_binary, op_push_word, op_jumpdest, op_stop, op_return, op_keccak256, op_copy, op_undefined,
  op_ext_code_copy, op_selfdestruct, make_log, op_call, op_call_code, op_create,
}
use zond.Vm.Instructions.Safe.{binary-Fine, push_word-Fine}
use zond.Vm.Instructions.Access.{return-Fine, keccak256-Fine, log-Fine, copy-Fine}
use zond.Vm.Instructions.Jumps.{undefined-Fine, undefined-IsHalt, return-IsHalt}
use zond.Vm.Instructions.Accounts.{
  ext_code_copy-Fine, selfdestruct-Fine, selfdestruct-IsHalt, selfdestruct-Prices,
}
use zond.Vm.Interpreter.Interface.{
  Fine, Prices, Pays, by_constant, by_dynamic, by_halt, IsSafe, Affords,
}
use zond.Vm.Instructions.Calling.{Answers, call-Fine, call_code-Fine, create-Fine}
use zond.Vm.Prices.Calls.{
  call_back, call-Prices, call_code-Prices, call-IsCovered, call_code-IsCovered,
}
use zond.Vm.JumpTable.{max_stack_of, plain, priced, with_memory}

pub memory_at_lem :
    (i j : ℕ) (s : List ℕ)
    → i < length s
    → j < length s
    → (r : ℕ × Bool) × (memory_at i j s ≡ some r)
unfolding memory_at
memory_at_lem i j s h k =
    let (off, a) = get_elem?_lem s i h in
    let (l, b) = get_elem?_lem s j k in (calc_mem_size64 off l, rw (a, b) refl)

pub memory_fixed_lem :
    (l : ℕ) (s : List ℕ) → 0 < length s → (r : ℕ × Bool) × (memory_fixed l s ≡ some r)
unfolding memory_fixed
memory_fixed_lem l s h =
    let (off, a) = get_elem?_lem s 0 h in (calc_mem_size64_with_uint off l, rw a refl)

memory_call_lem : (s : List ℕ) → 7 ≤ length s → (r : ℕ × Bool) × (memory_call s ≡ some r)
unfolding memory_call
memory_call_lem s h =
    let (ret_off, a) = get_elem?_lem s 5 (omega arith) in
    let (ret_size, b) = get_elem?_lem s 6 (omega arith) in
    let (in_off, c) = get_elem?_lem s 3 (omega arith) in
    let (in_size, d) = get_elem?_lem s 4 (omega arith) in
    (
      larger_size (calc_mem_size64 ret_off ret_size) (calc_mem_size64 in_off in_size),
      rw (a, b, c, d) refl,
    )

module _ {W : Type 0} (e : Contract) where
  pub plain-IsSafe :
      (op : ℕ) (f : Machine W → Executed W) (gas pops pushes : ℕ)
      → 1 ≤ gas
      → ((m : Machine W)
          → get_op e.code m.pc ≡ op
          → pops ≤ length m.stack
          → length m.stack ≤ max_stack_of pops pushes
          → Fine m.gas (f m))
      → IsSafe e op (plain f gas pops pushes)
  unfolding plain
  plain-IsSafe op f gas pops pushes p r = record {
    priced = tt;
    pays = by_constant p;
    runs = λ m size at lo hi sized h k. r m at lo hi;
  }

  -- an operation whose price is made of its memory
  pub memory-IsSafe :
      (op : ℕ) (f : Machine W → Executed W) (gas : ℕ) (d : Machine W → ℕ → Charged W)
      (pops pushes : ℕ) (size_of : List ℕ → Option (ℕ × Bool))
      → Pays (with_memory f gas d pops pushes size_of)
      → ((s : List ℕ) → pops ≤ length s → (r : ℕ × Bool) × (size_of s ≡ some r))
      → ((m : Machine W) (size : ℕ) → pops ≤ length m.stack → Prices m size (d m size))
      → ((m : Machine W) (size : ℕ)
          → pops ≤ length m.stack
          → length m.stack ≤ max_stack_of pops pushes
          → size_of m.stack ≡ some (size, false)
          → size ≤ length m.memory.store
          → size ≤ 2 ^ 37
          → Fine m.gas (f m))
      → IsSafe e op (with_memory f gas d pops pushes size_of)
  unfolding with_memory priced plain
  memory-IsSafe op f gas d pops pushes size_of p s q r = record {
    priced = (s, q);
    pays = p;
    runs = λ m size at lo hi sized h k. r m size lo hi sized h k;
  }

  pub priced-IsSafe :
      (op : ℕ) (f : Machine W → Executed W) (d : Machine W → ℕ → Charged W) (pops pushes : ℕ)
      → ((m : Machine W) (size c : ℕ) (m' : Machine W) → d m size ≡ costs c m' → 1 ≤ c)
      → ((m : Machine W) → pops ≤ length m.stack → Prices m 0 (d m 0))
      → ((m : Machine W)
          → pops ≤ length m.stack
          → length m.stack ≤ max_stack_of pops pushes
          → Fine m.gas (f m))
      → IsSafe e op (priced f 0 d pops pushes)
  unfolding priced plain
  priced-IsSafe op f d pops pushes p q r = record {
    priced = q;
    pays = by_dynamic d refl p;
    runs = λ m size at lo hi sized h k. r m lo hi;
  }

  pub paid :
      (f : Machine W → Executed W) (d : Machine W → ℕ → Charged W) (pops pushes gas : ℕ)
      (size_of : List ℕ → Option (ℕ × Bool))
      → 1 ≤ gas
      → Pays (with_memory f gas d pops pushes size_of)
  unfolding with_memory priced plain
  paid f d pops pushes gas size_of p = by_constant p

  pub stop-IsSafe : IsSafe {W = W} e 0 (plain op_stop 0 0 0)
  unfolding plain op_stop
  stop-IsSafe = record {
    priced = tt;
    pays = by_halt (λ m. tt);
    runs = λ m size at lo hi sized h k. omega arith;
  }

  pub undefined-IsSafe : (op : ℕ) → op ≢ 0 → IsSafe {W = W} e op (plain (op_undefined e) 0 0 0)
  unfolding plain
  undefined-IsSafe op z = record {
    priced = tt;
    pays = by_halt (λ m. undefined-IsHalt e m);
    runs = λ m size at lo hi sized h k. undefined-Fine op e m at z;
  }

  pub return-IsSafe :
      (op : ℕ)
      → IsSafe {W = W} e op (with_memory op_return 0 pure_memory_gascost 2 0 (memory_at 0 1))
  unfolding with_memory priced plain
  return-IsSafe op = record {
    priced =
        (λ s h. memory_at_lem 0 1 s (omega arith) (omega arith), λ m size h. pure-Prices m size);
    pays = by_halt (λ m. return-IsHalt m);
    runs = λ m size at lo hi sized h k. return-Fine m size lo sized h k;
  }

  pub log-IsSafe :
      (n op : ℕ) (db : StateDb W)
      → IsSafe {W = W} e op
          (with_memory (make_log n db e) 0 (make_gas_log n) (n + 2) 0 (memory_at 0 1))
  unfolding with_memory priced plain
  log-IsSafe n op db = record {
    priced = (
      λ s h. memory_at_lem 0 1 s (omega arith) (omega arith),
      λ m size h. log-Prices n m size (omega arith),
    );
    pays =
        by_dynamic (make_gas_log n) refl
          (λ m size c m' r. Costly_lem (make_gas_log n m size) c m' (log-Costly n m size) r);
    runs = λ m size at lo hi sized h k. log-Fine n db e m size lo (omega arith) sized h k;
  }

  pub keccak256-IsSafe :
      (lib : Library) (db : StateDb W) (op : ℕ)
      → IsSafe e op (with_memory (op_keccak256 lib db e) 30 gas_keccak256 2 1 (memory_at 0 1))
  keccak256-IsSafe lib db op =
      memory-IsSafe op _ 30 gas_keccak256 2 1 (memory_at 0 1) (paid _ _ 2 1 30 _ (omega arith))
        (λ s h. memory_at_lem 0 1 s (omega arith) (omega arith))
        (λ m size h. keccak256-Prices m size (omega arith))
        (λ m size lo hi sized h k. keccak256-Fine lib db e m size lo hi sized h k)

  pub jumpdest-Fine : (m : Machine W) → length m.stack ≤ 1024 → Fine m.gas (op_jumpdest m)
  unfolding op_jumpdest
  jumpdest-Fine m h = (h, omega arith)

  pub word-IsSafe :
      (op : ℕ) (f : Machine W → ℕ) → IsSafe {W = W} e op (plain (op_push_word f) 2 0 1)
  word-IsSafe op f = plain-IsSafe op _ 2 0 1 (omega arith) λ m at lo hi. push_word-Fine f m hi

  pub two-IsSafe :
      (op gas : ℕ) (f : ℕ → ℕ → ℕ) → 1 ≤ gas → IsSafe {W = W} e op (plain (op_binary f) gas 2 1)
  two-IsSafe op gas f p = plain-IsSafe op _ gas 2 1 p λ m at lo hi. binary-Fine f m lo hi

  pub copy-IsSafe :
      (op : ℕ) (source : Bytes)
      → length source < 2 ^ 63
      → IsSafe {W = W} e op
          (with_memory (op_copy source) 3 (memory_copier_gas 2) 3 0 (memory_at 0 2))
  copy-IsSafe op source short =
      memory-IsSafe op _ 3 (memory_copier_gas 2) 3 0 (memory_at 0 2)
        (paid _ _ 3 0 3 _ (omega arith)) (λ s h. memory_at_lem 0 2 s (omega arith) (omega arith))
        (λ m size h. copier-Prices 2 m size (omega arith))
        (λ m size lo hi sized h k. copy-Fine source m size short lo hi sized h k)

  pub ext_code_copy-IsSafe :
      (db : StateDb W)
      → ((w : W) (a : Address) → length (db.get_code w a) < 2 ^ 63)
      → IsSafe e 60 (with_memory (op_ext_code_copy db) 20 (memory_copier_gas 3) 4 0 (memory_at 1 3))
  ext_code_copy-IsSafe db short =
      memory-IsSafe 60 _ 20 (memory_copier_gas 3) 4 0 (memory_at 1 3)
        (paid _ _ 4 0 20 _ (omega arith)) (λ s h. memory_at_lem 1 3 s (omega arith) (omega arith))
        (λ m size h. copier-Prices 3 m size (omega arith))
        (λ m size lo hi sized h k. ext_code_copy-Fine db short m size lo hi sized h k)

  pub selfdestruct-IsSafe :
      (db : StateDb W) (op : ℕ)
      → IsSafe e op (priced (op_selfdestruct db e) 0 (gas_selfdestruct db e) 1 0)
  unfolding priced plain
  selfdestruct-IsSafe db op = record {
    priced = λ m h. selfdestruct-Prices db e m h;
    pays = by_halt (λ m. selfdestruct-IsHalt db e m);
    runs = λ m size at lo hi sized h k. selfdestruct-Fine db e m lo;
  }

  pub create-IsSafe :
      (evm : Evm W) (op : ℕ)
      → Answers evm e
      → IsSafe e op (with_memory (op_create evm e) 32000 pure_memory_gascost 3 1 (memory_at 1 2))
  create-IsSafe evm op ok =
      memory-IsSafe op _ 32000 pure_memory_gascost 3 1 (memory_at 1 2)
        (paid _ _ 3 1 32000 _ (omega arith))
        (λ s h. memory_at_lem 1 2 s (omega arith) (omega arith)) (λ m size h. pure-Prices m size)
        (λ m size lo hi sized h k. create-Fine evm e ok m size lo hi sized h k)

  pub call-Affords :
      (evm : Evm W) (db : StateDb W) (op : ℕ)
      → Answers evm e
      → Affords e op (with_memory (op_call evm e) 40 (gas_call db e) 7 1 memory_call)
  unfolding with_memory priced plain
  call-Affords evm db op ok = record {
    priced = (memory_call_lem, λ m size h. call-Prices db e m size h);
    pays = by_constant (omega arith);
    back = call_back;
    covered = call-IsCovered db e;
    spent = inl (omega arith);
    runs = λ m size at lo hi sized h k. call-Fine evm e ok m size lo hi sized h k;
  }

  pub call_code-Affords :
      (evm : Evm W) (op : ℕ)
      → Answers evm e
      → Affords e op (with_memory (op_call_code evm e) 40 (gas_call_code e) 7 1 memory_call)
  unfolding with_memory priced plain
  call_code-Affords evm op ok = record {
    priced = (memory_call_lem, λ m size h. call_code-Prices e m size h);
    pays = by_constant (omega arith);
    back = call_back;
    covered = call_code-IsCovered e;
    spent = inl (omega arith);
    runs = λ m size at lo hi sized h k. call_code-Fine evm e ok m size lo hi sized h k;
  }
