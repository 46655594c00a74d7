-- ===== src/Vm/Interpreter/Reached.antt =====
-- core/vm/interpreter.go, Run: the machines that the loop goes through.
use zond.Prelude.{ℕ, ◌+◌, ◌%◌, ◌^◌, ◌≤◌, ◌≡◌, refl, subst, arith, length}
use zond.Vm.{Contract, Machine, next, get_op}
use zond.Vm.Interpreter.{Operation, round}
use zond.Vm.Interpreter.Interface.{Affords}
use zond.Vm.Interpreter.Ends.{Steps, round_lem}

-- A stack within the limit, and no more gas than at the start
abbrev pub Bounded : {W : Type 0} → ℕ → Machine W → Type 0
Bounded g m = (length m.stack ≤ 1024) × (m.gas ≤ g)

module _ {W : Type 0} (e : Contract) (table : ℕ → Operation W) where
  -- The machines at the head of the loop, from one on: each round that goes on moves the counter.
  pub data Reached (m : Machine W) : Machine W → Type 0 where
    start : Reached m m
    round_on :
        (n k : Machine W)
        → Reached m n
        → round (table (get_op e.code n.pc)) n ≡ next k
        → Reached m (record k { pc = (k.pc + 1) % 2 ^ 64 })

  pub Reached-Bounded :
      ((op : ℕ) → Affords e op (table op))
      → (g : ℕ) (m n : Machine W) → Bounded g m
      → Reached m n
      → Bounded g n
  Reached-Bounded safe g m _ b start = b
  Reached-Bounded safe g m _ b (round_on n k r eq) =
      let (low, gas) = Reached-Bounded safe g m n b r in
      let op = get_op e.code n.pc in
      let (fits, less) = subst (Steps n.gas) eq (round_lem e op (table op) (safe op) n refl) in
      (fits, omega arith)
