-- ===== src/Vm/Prices/Calls.antt =====
-- core/vm/gas_table.go: gasCall and gasCallCode do not panic, and charge at least what the call may give back.
use zond.Prelude.{
  ℕ, ◌+◌, ◌%◌, ◌^◌, ◌≤◌, ◌<◌, ◌≡◌, ◌≢◌, refl, sym, ap, subst, ◌∙◌, not, ◌&&◌, Option, none, some,
  List, ◌==◌, leb, if◌then◌else◌, if-cases, length, get_elem?, some_inj, arith,
}
use zond.Vm.{
  Contract, StateDb, MemoryStore, Machine, Charged, costs, refused, broken, gas_uint_overflow,
}
use zond.Vm.Sizes.{safe_add}
use zond.Vm.Prices.{memory_gas_cost, call_gas, call_costs, gas_call, gas_call_code, priced_by}
use zond.Vm.Prices.Bounds.{MemPrice, memory_gas_cost-MemPrice}
use zond.Vm.Analysis.Bounds.{get_elem?_lem}
use zond.Vm.Instructions.{with_stipend}
use zond.Vm.Interpreter.Interface.{Prices, IsCovered}

abbrev stipend_of : Option ℕ → ℕ → ℕ
stipend_of none t = 0
stipend_of (some v) t = with_stipend v t

-- the most that a call gives back: the gas that it was given
abbrev pub call_back : List ℕ → ℕ → ℕ
call_back s t = stipend_of (get_elem? s 2) t

module _ {W : Type 0} where
  -- A price that also covers what the call gives back
  abbrev Covers : Charged W → Type 0
  Covers (costs c m') = call_back m'.stack m'.call_gas_temp ≤ c
  Covers r = Unit {0}

  abbrev PaysCall : Machine W → ℕ → Charged W → Type 0
  PaysCall m size r = Prices m size r × Covers r

  call_costs_lem :
      (e : Contract) (own gas size v : ℕ) (m n : Machine W)
      → n.pc ≡ m.pc
      → n.stack ≡ m.stack
      → n.gas ≡ m.gas
      → n.memory.store ≡ m.memory.store
      → size ≤ 2 ^ 37
      → 7 ≤ length m.stack
      → get_elem? m.stack 2 ≡ some v
      → (v ≢ 0 → 9000 ≤ own)
      → PaysCall m size (call_costs e own gas n)
  unfolding call_costs safe_add
  call_costs_lem e own gas size v m n p s g t small long found dear =
      if-cases (PaysCall m size) (leb (2 ^ 64) (own + gas)) (λ u. (g, tt))
        (λ u.
          on_cost (ground (arith, u)) (get_elem? n.stack 0)
            (get_elem?_lem n.stack 0 (subst (λ l. 0 < length l) (sym s) (omega arith))))
    where
      on_temp :
          own + gas < 2 ^ 64
          → (o : Option ℕ)
          → PaysCall m size (elim o [
            | none ↦ refused gas_uint_overflow n
            | some temp ↦
                if leb (2 ^ 64) ((own + gas) % 2 ^ 64 + temp)
                then refused gas_uint_overflow (record n { call_gas_temp = temp })
                else costs
                    (((own + gas) % 2 ^ 64 + temp) % 2 ^ 64)
                    (record n { call_gas_temp = temp })
          ])
      on_temp fits none = (g, tt)
      on_temp fits (some temp) =
          if-cases (PaysCall m size) (leb (2 ^ 64) ((own + gas) % 2 ^ 64 + temp)) (λ w. (g, tt))
            (λ w. (
              (p, s, g, t, small),
              subst (λ o. stipend_of o temp ≤ ((own + gas) % 2 ^ 64 + temp) % 2 ^ 64)
                  (sym (ap (λ l. get_elem? l 2) s ∙ found)) (ground (arith, fits, w, dear)),
            ))

      missing : {x : ℕ} → none ≡ some x → ⊥
      missing h = cc

      on_cost :
          own + gas < 2 ^ 64
          → (o : Option ℕ) → (x : ℕ) × (o ≡ some x)
          → PaysCall m size (elim o [
            | none ↦ broken
            | some cost ↦ elim (call_gas e.is_eip150 n.gas ((own + gas) % 2 ^ 64) cost) [
              | none ↦ refused gas_uint_overflow n
              | some temp ↦
                  if leb (2 ^ 64) ((own + gas) % 2 ^ 64 + temp)
                  then refused gas_uint_overflow (record n { call_gas_temp = temp })
                  else costs
                      (((own + gas) % 2 ^ 64 + temp) % 2 ^ 64)
                      (record n { call_gas_temp = temp })
            ]
          ])
      on_cost fits none (x, e) = absurd (missing e)
      on_cost fits (some cost) x =
          on_temp fits (call_gas e.is_eip150 n.gas ((own + gas) % 2 ^ 64) cost)

  on_memory :
      (m : Machine W) (size : ℕ) (f : ℕ → Machine W → Charged W)
      → ((gas : ℕ) (n : Machine W)
          → n.pc ≡ m.pc
          → n.stack ≡ m.stack
          → n.gas ≡ m.gas
          → n.memory.store ≡ m.memory.store
          → size ≤ 2 ^ 37
          → PaysCall m size (f gas n))
      → PaysCall m size (priced_by m (memory_gas_cost m.memory size) f)
  on_memory m size f h =
      on_price (memory_gas_cost m.memory size) (memory_gas_cost-MemPrice m.memory size)
    where
      on_price :
          (o : Option (ℕ × MemoryStore))
          → MemPrice m.memory size o
          → PaysCall m size (priced_by m o f)
      on_price none p = (refl, tt)
      on_price (some (gas, mem)) (s, l) = h gas (record m { memory = mem }) refl refl refl s l

  gas_call_lem :
      (db : StateDb W) (e : Contract) (m : Machine W) (size : ℕ)
      → 7 ≤ length m.stack
      → PaysCall m size (gas_call db e m size)
  unfolding gas_call
  gas_call_lem db e m size long =
      let (v, value) = get_elem?_lem m.stack 2 (omega arith) in
      let (x, addr) = get_elem?_lem m.stack 1 (omega arith) in
      on_stack (get_elem? m.stack 2) v value (get_elem? m.stack 1) x addr value
    where
      missing : {x : ℕ} → none ≡ some x → ⊥
      missing h = cc

      own : ℕ → ℕ → ℕ
      own v x =
          let a = x % 2 ^ 160 in
          let creates =
            if e.is_eip158 then not (v == 0) && db.empty m.world a else not (db.exist m.world a) in
          (if creates then 25000 else 0) + (if v == 0 then 0 else 9000)

      dear : (v w c : ℕ) → v ≡ w → w ≢ 0 → 9000 ≤ c + (if v == 0 then 0 else 9000)
      dear v w c e n = ground arith

      on_stack :
          (o : Option ℕ) (v : ℕ)
          → o ≡ some v
          → (p : Option ℕ) (x : ℕ) → p ≡ some x
          → get_elem? m.stack 2 ≡ some v
          → PaysCall m size (elim o [
            | none ↦ broken
            | some v ↦ elim p [
              | none ↦ broken
              | some x ↦ priced_by m (memory_gas_cost m.memory size) (call_costs e (own v x))
            ]
          ])
      on_stack none v eo p x ep found = absurd (missing eo)
      on_stack (some w) v eo none x ep found = absurd (missing ep)
      on_stack (some w) v eo (some y) x ep found = on_memory m size _ λ gas n p s g t small.
          call_costs_lem e (own w y) gas size v m n p s g t small long found
            (λ z. dear w v _ (some_inj w v eo) z)

  gas_call_code_lem :
      (e : Contract) (m : Machine W) (size : ℕ)
      → 7 ≤ length m.stack
      → PaysCall m size (gas_call_code e m size)
  unfolding gas_call_code
  gas_call_code_lem e m size long =
      let (v, value) = get_elem?_lem m.stack 2 (omega arith) in
      on_memory m size _ λ gas n p s g t small.
        subst
          (λ o. PaysCall m size (elim o [
            | none ↦ broken
            | some value ↦ call_costs e (if value == 0 then 0 else 9000) gas n
          ]))
          (sym (ap (λ l. get_elem? l 2) s ∙ value))
          (call_costs_lem e (if v == 0 then 0 else 9000) gas size v m n p s g t small long value
            (λ z. ground arith))

  Covers-cost :
      (r : Charged W) (c : ℕ) (m' : Machine W)
      → Covers r
      → r ≡ costs c m'
      → call_back m'.stack m'.call_gas_temp ≤ c
  Covers-cost r c m' h e = subst Covers e h

  pub call-Prices :
      (db : StateDb W) (e : Contract) (m : Machine W) (size : ℕ)
      → 7 ≤ length m.stack
      → Prices m size (gas_call db e m size)
  call-Prices db e m size h = (gas_call_lem db e m size h).0

  pub call_code-Prices :
      (e : Contract) (m : Machine W) (size : ℕ)
      → 7 ≤ length m.stack
      → Prices m size (gas_call_code e m size)
  call_code-Prices e m size h = (gas_call_code_lem e m size h).0

  pub call-IsCovered :
      (db : StateDb W) (e : Contract) → IsCovered 7 call_back (some (gas_call db e))
  call-IsCovered db e m size c m' h eq =
      Covers-cost (gas_call db e m size) c m' (gas_call_lem db e m size h).1 eq

  pub call_code-IsCovered : (e : Contract) → IsCovered 7 call_back (some (gas_call_code {W = W} e))
  call_code-IsCovered e m size c m' h eq =
      Covers-cost (gas_call_code e m size) c m' (gas_call_code_lem e m size h).1 eq
