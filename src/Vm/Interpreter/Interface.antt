-- ===== src/Vm/Interpreter/Interface.antt =====
-- core/vm/jump_table.go: what the loop of the interpreter relies on of an operation.
use zond.Prelude.{
  ℕ, ◌+◌, ◌⊎◌, inr, refl, subst, arith, ◌^◌, ◌≤◌, ◌≡◌, Bool, false, Option, none, some, List,
  length,
}
use zond.Vm.{
  Contract, Machine, Executed, next, stopped, failed, panicked, Charged, costs, refused, broken,
  get_op,
}
use zond.Vm.Interpreter.{Operation}

-- the memory that an operation asks for
abbrev pub Sized : Option (List ℕ → Option (ℕ × Bool)) → List ℕ → ℕ → Type 0
Sized none s size = size ≡ 0
Sized (some f) s size = f s ≡ some (size, false)

module _ {W : Type 0} where
  -- No panic, and if the instruction goes on, a stack within the limit and no more gas
  abbrev pub Fine : ℕ → Executed W → Type 0
  Fine g (next m) = (length m.stack ≤ 1024) × (m.gas ≤ g)
  Fine g (stopped ret m) = m.gas ≤ g
  Fine g (failed fault ret m) = m.gas ≤ g
  Fine g panicked = ⊥

  abbrev pub IsHalt : Executed W → Type 0
  IsHalt (next m) = ⊥
  IsHalt _ = Unit {0}

  -- A price keeps the machine but for the fee of the memory and the state database.
  abbrev pub Prices : Machine W → ℕ → Charged W → Type 0
  Prices m size (costs c m') =
      (m'.pc ≡ m.pc)
      × (m'.stack ≡ m.stack)
      × (m'.gas ≡ m.gas)
      × (m'.memory.store ≡ m.memory.store)
      × (size ≤ 2 ^ 37)
  Prices m size (refused fault m') = m'.gas ≡ m.gas
  Prices m size broken = ⊥

  abbrev pub IsPriced :
      ℕ → Option (Machine W → ℕ → Charged W) → Option (List ℕ → Option (ℕ × Bool)) → Type 0
  IsPriced l none none = Unit {0}
  IsPriced l none (some f) = ⊥
  IsPriced l (some d) none = (m : Machine W) → l ≤ length m.stack → Prices m 0 (d m 0)
  IsPriced l (some d) (some f) =
      ((s : List ℕ) → l ≤ length s → (r : ℕ × Bool) × (f s ≡ some r))
      × ((m : Machine W) (size : ℕ) → l ≤ length m.stack → Prices m size (d m size))

  -- Each instruction that goes on costs gas.
  pub data Pays (o : Operation W) : Type 0 where
    by_constant : 1 ≤ o.constant_gas → Pays o
    by_dynamic :
        (d : Machine W → ℕ → Charged W)
        → o.dynamic_gas ≡ some d
        → ((m : Machine W) (size c : ℕ) (m' : Machine W) → d m size ≡ costs c m' → 1 ≤ c)
        → Pays o
    by_halt : ((m : Machine W) → IsHalt (o.execute m)) → Pays o

  pub record IsSafe (e : Contract) (op : ℕ) (o : Operation W) : Type 0 where
    pub priced : IsPriced o.min_stack o.dynamic_gas o.memory_size
    pub pays : Pays o
    pub runs :
        (m : Machine W) (size : ℕ)
        → get_op e.code m.pc ≡ op
        → o.min_stack ≤ length m.stack
        → length m.stack ≤ o.max_stack
        → Sized o.memory_size m.stack size
        → size ≤ length m.memory.store
        → size ≤ 2 ^ 37
        → Fine m.gas (o.execute m)

  -- What an operation may give back is part of its dynamic gas.
  abbrev pub IsCovered : ℕ → (List ℕ → ℕ → ℕ) → Option (Machine W → ℕ → Charged W) → Type 0
  IsCovered l back none = (s : List ℕ) (t : ℕ) → back s t ≡ 0
  IsCovered l back (some d) =
      (m : Machine W) (size c : ℕ) (m' : Machine W)
      → l ≤ length m.stack
      → d m size ≡ costs c m'
      → back m'.stack m'.call_gas_temp ≤ c

  -- The same for an operation that may give gas back, as a call does with what it did not use: `back` is
  -- the most that it gives, by the stack and evm.callGasTemp.
  pub record Affords (e : Contract) (op : ℕ) (o : Operation W) : Type 0 where
    pub priced : IsPriced o.min_stack o.dynamic_gas o.memory_size
    pub pays : Pays o
    pub back : List ℕ → ℕ → ℕ
    pub covered : IsCovered o.min_stack back o.dynamic_gas
    pub spent : (1 ≤ o.constant_gas) ⊎ ((s : List ℕ) (t : ℕ) → back s t ≡ 0)
    pub runs :
        (m : Machine W) (size : ℕ)
        → get_op e.code m.pc ≡ op
        → o.min_stack ≤ length m.stack
        → length m.stack ≤ o.max_stack
        → Sized o.memory_size m.stack size
        → size ≤ length m.memory.store
        → size ≤ 2 ^ 37
        → Fine (m.gas + back m.stack m.call_gas_temp) (o.execute m)

  none-IsCovered : (l : ℕ) (d : Option (Machine W → ℕ → Charged W)) → IsCovered l (λ s t. 0) d
  none-IsCovered l none = λ s t. refl
  none-IsCovered l (some d) = λ m size c m' h e. omega arith

  -- A safe operation gives nothing back.
  pub IsSafe-Affords : (e : Contract) (op : ℕ) (o : Operation W) → IsSafe e op o → Affords e op o
  IsSafe-Affords e op o safe = record {
    priced = safe.priced;
    pays = safe.pays;
    back = λ s t. 0;
    covered = none-IsCovered o.min_stack o.dynamic_gas;
    spent = inr (λ s t. refl);
    runs = λ m size at lo hi sized h k.
        subst (λ g. Fine g (o.execute m)) (omega arith) (safe.runs m size at lo hi sized h k);
  }
