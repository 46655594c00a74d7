-- ===== src/Vm/Interpreter/Ends.antt =====
-- core/vm/interpreter.go, Run: with safe operations it ends, without a panic.
use zond.Prelude.{
  ℕ, zero, suc, ◌+◌, ◌-◌, ◌*◌, ◌%◌, ◌^◌, ◌≤◌, ◌<◌, ◌≡◌, ◌⊎◌, refl, sym, ap, subst, ◌∙◌, Bool, false,
  Option, none, some, List, [], ltb, leb, if◌then◌else◌, if-cases, some_inj, ◌==◌, length, arith,
  inl, inr,
}
use zond.Vm.{
  Bytes, Contract, Machine, Executed, next, stopped, failed, panicked, out_of_gas, Charged, costs,
  refused, broken, get_op, use_gas,
}
use zond.Vm.Memory.{resize}
use zond.Vm.Memory.Bounds.{length-resize}
use zond.Vm.Sizes.{to_word_size, safe_mul}
use zond.Vm.Interpreter.{
  Operation, Ran, returned, ended_with, crashed, unfinished, pay_dynamic, with_size, charged, round,
  after, new_machine, run_loop, run,
}
use native.Mathlib.Decide.{dec_le}
use zond.Vm.Interpreter.Interface.{
  Fine, IsHalt, Prices, Sized, IsPriced, by_constant, by_dynamic, by_halt, IsCovered, Affords,
}

grown_lem :
    (size : ℕ) (store : Bytes) → size ≤ length (if ltb 0 size then resize size store else store)
grown_lem size store = ground (arith, length-resize size store)

-- A size that is rounded up to words covers the size.
rounded_lem :
    (size : ℕ)
    → leb (2 ^ 64) (to_word_size size * 32) ≡ false
    → size ≤ to_word_size size * 32 % 2 ^ 64
unfolding to_word_size
rounded_lem size h = ground arith

module _ {W : Type 0} where
  -- A round that ends, or leaves less gas than `g`
  abbrev pub Steps : ℕ → Executed W → Type 0
  Steps g (next m) = (length m.stack ≤ 1024) × (m.gas < g)
  Steps g (stopped ret m) = m.gas ≤ g
  Steps g (failed fault ret m) = m.gas ≤ g
  Steps g panicked = ⊥

  -- A run that ends by itself, without a panic and without more gas than `g`
  abbrev pub Ends : ℕ → Ran W → Type 0
  Ends g (returned ret m) = m.gas ≤ g
  Ends g (ended_with fault ret m) = m.gas ≤ g
  Ends g crashed = ⊥
  Ends g unfinished = ⊥

  Fine-Steps : (g h : ℕ) (r : Executed W) → Fine g r → g ≤ h → (IsHalt r) ⊎ (g < h) → Steps h r
  Fine-Steps g h (next m) (s, f) l p = elim p [ inl x ↦ absurd x | inr x ↦ (s, omega arith) ]
  Fine-Steps g h (stopped ret m) f l p = omega arith
  Fine-Steps g h (failed fault ret m) f l p = omega arith
  Fine-Steps g h panicked f l p = f

  Ends-le : (g h : ℕ) (r : Ran W) → g ≤ h → Ends g r → Ends h r
  Ends-le g h (returned ret m) l e = omega arith
  Ends-le g h (ended_with fault ret m) l e = omega arith
  Ends-le g h crashed l e = e
  Ends-le g h unfinished l e = e

  -- Gas is used, and what follows may not fail to use it twice.
  use_gas_lem :
      (m : Machine W) (c : ℕ) (k : Option (Machine W) → Executed W) (g : ℕ)
      → Steps g (k none)
      → (c ≤ m.gas → Steps g (k (some (record m { gas = m.gas - c }))))
      → Steps g (k (use_gas m c))
  unfolding use_gas
  use_gas_lem m c k g h f =
      if-cases (λ u. Steps g (k u)) (ltb m.gas c) (λ t. h) (λ t. f (ground arith))

  module _ (e : Contract) (op : ℕ) (o : Operation W) (safe : Affords e op o) where
    -- The dynamic gas is used and the memory is expanded.
    pay_dynamic_lem :
        (m : Machine W) (g size asked : ℕ) (r : Charged W)
        → get_op e.code m.pc ≡ op
        → o.min_stack ≤ length m.stack
        → length m.stack ≤ o.max_stack
        → Sized o.memory_size m.stack asked
        → asked ≤ size
        → Prices m size r
        → m.gas ≤ g
        → ((c : ℕ) (m' : Machine W) → r ≡ costs c m' → safe.back m'.stack m'.call_gas_temp ≤ c)
        → ((m : Machine W) → IsHalt (o.execute m))
          ⊎ ((m.gas < g)
              ⊎ ((c : ℕ) (m' : Machine W)
                  → r ≡ costs c m'
                  → safe.back m'.stack m'.call_gas_temp < c))
        → Steps g (pay_dynamic o size r)
    unfolding pay_dynamic
    pay_dynamic_lem m g size asked broken at lo hi sized le price gas cov pays = absurd price
    pay_dynamic_lem m g size asked (refused fault m') at lo hi sized le price gas cov pays =
        omega arith
    pay_dynamic_lem m g size asked (costs c m') at lo hi sized le
          (pc_eq, stack_eq, gas_eq, store_eq, small) gas cov pays =
        use_gas_lem m' c
          (λ u. elim u [
            | none ↦ failed out_of_gas [] m'
            | some m ↦ o.execute (record m {
              memory = record m.memory {
                store = if ltb 0 size then resize size m.memory.store else m.memory.store;
              };
            })
          ])
          g (omega arith)
          λ enough.
            let n = record m' {
              gas = m'.gas - c;
              memory = record m'.memory {
                store = if ltb 0 size then resize size m'.memory.store else m'.memory.store;
              };
            } in
            let grown : size ≤ length n.memory.store = grown_lem size m'.memory.store in
            let fine =
              safe.runs n asked (ap (get_op e.code) pc_eq ∙ at)
                (subst (λ s. o.min_stack ≤ length s) (sym stack_eq) lo)
                (subst (λ s. length s ≤ o.max_stack) (sym stack_eq) hi)
                (subst (λ s. Sized o.memory_size s asked) (sym stack_eq) sized) (omega arith)
                (omega arith) in
            let back = safe.back m'.stack m'.call_gas_temp in
            let within = cov c m' refl in
            Fine-Steps (m'.gas - c + back) g (o.execute n) fine (omega arith) (elim pays [
              | inl halts ↦ inl (halts n)
              | inr more ↦ inr (elim more [
                | inl less ↦ omega arith
                | inr f ↦ let pos = f c m' refl in omega arith
              ])
            ])

    charged_lem :
        (m : Machine W) (g : ℕ)
        → get_op e.code m.pc ≡ op
        → o.min_stack ≤ length m.stack
        → length m.stack ≤ o.max_stack
        → m.gas ≤ g
        → (m.gas < g) ⊎ ((1 ≤ o.constant_gas) → ⊥)
        → Steps g (charged o m)
    unfolding charged with_size safe_mul
    charged_lem m g at lo hi gas less = on_price o.dynamic_gas o.memory_size refl refl safe.priced
      where
        apart : {d : Machine W → ℕ → Charged W} → none ≡ some d → ⊥
        apart h = cc

        pays_of :
            (d : Machine W → ℕ → Charged W)
            → o.dynamic_gas ≡ some d
            → (size : ℕ)
            → ((m : Machine W) → IsHalt (o.execute m))
              ⊎ ((m.gas < g)
                  ⊎ ((c : ℕ) (m' : Machine W)
                      → d m size ≡ costs c m'
                      → safe.back m'.stack m'.call_gas_temp < c))
        pays_of d ed size = elim safe.pays [
          | by_constant p ↦ inr (inl (elim less [ inl x ↦ x | inr x ↦ absurd (x p) ]))
          | by_dynamic d' ed' p ↦ inr (elim safe.spent [
            | inl q ↦ inl (elim less [ inl x ↦ x | inr x ↦ absurd (x q) ])
            | inr zero_back ↦ inr (λ c m' r.
                let z = zero_back m'.stack m'.call_gas_temp in
                let one = p m size c m' (ap (λ k. k m size) (some_inj d' d (sym ed' ∙ ed)) ∙ r) in
                omega arith)
          ])
          | by_halt p ↦ inl p
        ]

        cov_of :
            (d : Machine W → ℕ → Charged W)
            → o.dynamic_gas ≡ some d
            → (size c : ℕ) (m' : Machine W) → d m size ≡ costs c m'
            → safe.back m'.stack m'.call_gas_temp ≤ c
        cov_of d ed size =
            λ c m'. (subst (IsCovered o.min_stack safe.back) ed safe.covered) m size c m' lo

        on_price :
            (d : Option (Machine W → ℕ → Charged W)) (f : Option (List ℕ → Option (ℕ × Bool)))
            → o.dynamic_gas ≡ d
            → o.memory_size ≡ f
            → IsPriced o.min_stack d f
            → Steps g (elim d [
              | none ↦ o.execute m
              | some dynamic ↦ elim f [
                | none ↦ pay_dynamic o 0 (dynamic m 0)
                | some size_of ↦ with_size o dynamic m (size_of m.stack)
              ]
            ])
        on_price none none ed ef p =
            let z =
              subst (IsCovered o.min_stack safe.back) ed safe.covered m.stack m.call_gas_temp in
            Fine-Steps (m.gas + safe.back m.stack m.call_gas_temp) g (o.execute m)
              (safe.runs m 0 at lo hi (subst (λ f. Sized f m.stack 0) (sym ef) refl) (omega arith)
                (omega arith))
              (omega arith)
              (elim safe.pays [
                | by_constant p ↦ inr (elim less [ inl x ↦ omega arith | inr x ↦ absurd (x p) ])
                | by_dynamic d ed' f ↦ absurd (apart (sym ed ∙ ed'))
                | by_halt p ↦ inl (p m)
              ])
        on_price none (some f) ed ef p = absurd p
        on_price (some d) none ed ef p =
            pay_dynamic_lem m g 0 0 (d m 0) at lo hi (subst (λ f. Sized f m.stack 0) (sym ef) refl)
              (omega arith) (p m lo) gas (cov_of d ed 0) (pays_of d ed 0)
        on_price (some d) (some f) ed ef p =
            let ((size, over), asked) = p.0 m.stack lo in
            subst (λ r. Steps g (with_size o d m r)) (sym asked)
              (if-cases (Steps g) over (λ t. gas)
                λ t.
                  if-cases (Steps g) (leb (2 ^ 64) (to_word_size size * 32)) (λ u. gas)
                    λ u.
                      let rounded = to_word_size size * 32 % 2 ^ 64 in
                      pay_dynamic_lem m g rounded size (d m rounded) at lo hi
                        (subst (λ f. Sized f m.stack size) (sym ef)
                          (asked ∙ ap (λ b. some (size, b)) t))
                        (rounded_lem size u) (p.1 m rounded lo) gas (cov_of d ed rounded)
                        (pays_of d ed rounded))

    pub round_lem : (m : Machine W) → get_op e.code m.pc ≡ op → Steps m.gas (round o m)
    unfolding round
    round_lem m at =
        if-cases (Steps m.gas) (ltb (length m.stack) o.min_stack) (λ t. omega arith)
          λ t.
            if-cases (Steps m.gas) (ltb o.max_stack (length m.stack)) (λ u. omega arith)
              λ u.
                use_gas_lem m o.constant_gas
                  (λ x. elim x [ none ↦ failed out_of_gas [] m | some m ↦ charged o m ]) m.gas
                  (omega arith)
                  λ enough.
                    charged_lem (record m { gas = m.gas - o.constant_gas }) m.gas at
                      (ground (arith, t)) (ground (arith, u)) (omega arith)
                      (elim (dec_le 1 o.constant_gas) [ yes h ↦ inl (omega arith) | no h ↦ inr h ])

  -- A loop over safe operations that has more rounds than gas ends by itself, without a panic.
  run_loop-Ends :
      (e : Contract) (table : ℕ → Operation W)
      → ((op : ℕ) → Affords e op (table op))
      → (rounds : ℕ) (m : Machine W) → m.gas < rounds
      → Ends m.gas (run_loop e table rounds m)
  unfolding run_loop after
  run_loop-Ends e table safe zero m h = absurd (omega arith)
  run_loop-Ends e table safe (suc rounds) m h =
      after_lem (round (table (get_op e.code m.pc)) m)
        (round_lem e (get_op e.code m.pc) (table (get_op e.code m.pc)) (safe (get_op e.code m.pc)) m
          refl)
        λ n l. run_loop-Ends e table safe rounds n l
    where
      after_lem :
          (r : Executed W)
          → Steps m.gas r
          → ((n : Machine W) → n.gas < rounds → Ends n.gas (run_loop e table rounds n))
          → Ends m.gas (after r (run_loop e table rounds))
      after_lem (next n) (s, l) rec =
          let n' = record n { pc = (n.pc + 1) % 2 ^ 64 } in
          Ends-le n.gas m.gas (run_loop e table rounds n') (omega arith) (rec n' (omega arith))
      after_lem (stopped ret n) s rec = s
      after_lem (failed fault ret n) s rec = s
      after_lem panicked s rec = s

  pub run-Ends :
      (e : Contract) (table : ℕ → Operation W)
      → ((op : ℕ) → Affords e op (table op))
      → (gas rounds : ℕ) (w : W) → gas < rounds
      → Ends gas (run e table rounds gas w)
  unfolding run new_machine
  run-Ends e table safe gas rounds w h =
      if-cases (Ends gas) (length e.code == 0) (λ t. omega arith)
        λ t. run_loop-Ends e table safe rounds (new_machine gas w) h
