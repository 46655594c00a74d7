-- ===== src/Vm/Instructions/Safe.antt =====
-- core/vm/instructions.go: on a stack within the bounds of the table, and with the memory that was asked
-- for, the instructions do not panic.
use zond.Prelude.{
  ℕ, suc, ◌+◌, ◌-◌, ◌^◌, ◌≤◌, ◌<◌, ◌≡◌, ◌≢◌, refl, sym, ap, subst, ◌∙◌, true, false, Option, some,
  some_inj, List, [], ◌∷◌, if-cases, length, bind, set, length-set, get_elem?, arith,
}
use zond.Vm.{Bytes, Machine, Executed, next, push, pop, pop_from, swap, or_panic, uint64, overflows}
use zond.Vm.Sizes.{calc_mem_size64_with_uint, calc_mem_size64, memory_at, memory_fixed}
use zond.Vm.Analysis.Bounds.{get_elem?_lem}
use zond.Vm.Instructions.{
  op_unary, op_binary, op_ternary, op_push_word, op_pop, make_dup, make_swap,
}
use zond.Vm.Interpreter.Interface.{Fine}

-- What a memory size says of the offset and the length that asked for it
abbrev pub Asked : ℕ → ℕ → ℕ → Type 0
Asked off l size = (l < 2 ^ 64) × (l ≢ 0 → (off < 2 ^ 64) × (off + l ≡ size))

with_uint-Asked :
    (off l size : ℕ)
    → l < 2 ^ 64
    → calc_mem_size64_with_uint off l ≡ (size, false)
    → Asked off l size
unfolding calc_mem_size64_with_uint
with_uint-Asked off l size h e = (h, λ n. ground arith)

pub size64-Asked : (off l size : ℕ) → calc_mem_size64 off l ≡ (size, false) → Asked off l size
unfolding calc_mem_size64
size64-Asked off l size e =
    if-cases (λ r. r ≡ (size, false) → Asked off l size) (overflows l)
      (λ t h. absurd (apart (ap (λ r. r.1) h)))
      (λ t h. with_uint-Asked off l size (ground (arith, t)) h) e
  where
    apart : true ≡ false → ⊥
    apart h = cc

-- the offset and the length of the two instructions of memory_table.go that have them at these positions
pub memory_at-Asked :
    (i j : ℕ) (s : List ℕ) (off l size : ℕ)
    → get_elem? s i ≡ some off
    → get_elem? s j ≡ some l
    → memory_at i j s ≡ some (size, false)
    → Asked off l size
unfolding memory_at
memory_at-Asked i j s off l size a b e =
    size64-Asked off l size (some_inj _ _ (sym (reads a b) ∙ e))
  where
    reads :
        get_elem? s i ≡ some off
        → get_elem? s j ≡ some l
        → bind (get_elem? s i) (λ off. bind (get_elem? s j) (λ l. some (calc_mem_size64 off l)))
          ≡ some (calc_mem_size64 off l)
    reads a b = rw (a, b) refl

pub memory_fixed-Asked :
    (l : ℕ) (off : ℕ) (s : List ℕ) (size : ℕ)
    → l < 2 ^ 64
    → memory_fixed l (off ∷ s) ≡ some (size, false)
    → Asked off l size
unfolding memory_fixed
memory_fixed-Asked l off s size h e = with_uint-Asked off l size h (some_inj _ _ e)

-- an access that was asked for is within the memory
pub within :
    (off l size : ℕ) (store : Bytes)
    → Asked off l size
    → size ≤ length store
    → size ≤ 2 ^ 37
    → uint64 l ≢ 0
    → (uint64 off < 2 ^ 37) × (uint64 off + uint64 l ≤ length store)
within off l size store (small, a) h k n =
    let (low, e) = a (λ z. n (ap uint64 z)) in inside low e (λ z. n (ap uint64 z))
  where
    inside :
        off < 2 ^ 64
        → off + l ≡ size
        → l ≢ 0
        → (uint64 off < 2 ^ 37) × (uint64 off + uint64 l ≤ length store)
    inside low e z = ground (arith, small, low, e, h, k, z)

module _ {W : Type 0} where
  pub pop-Fine :
      (g : ℕ) (m : Machine W) (f : ℕ → Machine W → Executed W)
      → 1 ≤ length m.stack
      → ((x : ℕ) (s : List ℕ) → m.stack ≡ x ∷ s → Fine g (f x (record m { stack = s })))
      → Fine g (pop m f)
  pop-Fine g m f h k = on_stack m.stack refl h
    where
      on_stack : (s : List ℕ) → m.stack ≡ s → 1 ≤ length s → Fine g (pop_from s m f)
      on_stack [] e h = absurd (omega arith)
      on_stack (x ∷ s) e h = k x s e

  pub or_panic-Fine {ℓ} :
      {A : Type ℓ} (g : ℕ) (o : Option A) (f : A → Executed W)
      → (a : A) × (o ≡ some a)
      → ((a : A) → Fine g (f a))
      → Fine g (or_panic o f)
  or_panic-Fine g o f (a, e) k = subst (λ o. Fine g (or_panic o f)) (sym e) (k a)

  pub unary-Fine :
      (f : ℕ → ℕ) (m : Machine W)
      → 1 ≤ length m.stack
      → length m.stack ≤ 1024
      → Fine m.gas (op_unary f m)
  unfolding op_unary push
  unary-Fine f m l h =
      pop-Fine m.gas m _ l λ x s e. let n = ap length e in (omega arith, omega arith)

  pub binary-Fine :
      (f : ℕ → ℕ → ℕ) (m : Machine W)
      → 2 ≤ length m.stack
      → length m.stack ≤ 1025
      → Fine m.gas (op_binary f m)
  unfolding op_binary push
  binary-Fine f m l h = pop-Fine m.gas m _ (omega arith) λ x s e.
      let n : length m.stack ≡ suc (length s) = ap length e in
      pop-Fine m.gas (record m { stack = s }) _ (omega arith)
        λ y s' e'. let n' : length s ≡ suc (length s') = ap length e' in (omega arith, omega arith)

  pub ternary-Fine :
      (f : ℕ → ℕ → ℕ → ℕ) (m : Machine W)
      → 3 ≤ length m.stack
      → length m.stack ≤ 1026
      → Fine m.gas (op_ternary f m)
  unfolding op_ternary push
  ternary-Fine f m l h = pop-Fine m.gas m _ (omega arith) λ x s e.
      let n : length m.stack ≡ suc (length s) = ap length e in
      pop-Fine m.gas (record m { stack = s }) _ (omega arith)
        λ y s' e'.
          let n' : length s ≡ suc (length s') = ap length e' in
          pop-Fine m.gas (record m { stack = s' }) _ (omega arith)
            λ z s'' e''.
              let n'' : length s' ≡ suc (length s'') = ap length e'' in (omega arith, omega arith)

  pub push_word-Fine :
      (f : Machine W → ℕ) (m : Machine W) → length m.stack ≤ 1023 → Fine m.gas (op_push_word f m)
  unfolding op_push_word push
  push_word-Fine f m h = (omega arith, omega arith)

  pub pop_op-Fine :
      (m : Machine W) → 1 ≤ length m.stack → length m.stack ≤ 1025 → Fine m.gas (op_pop m)
  unfolding op_pop
  pop_op-Fine m l h =
      pop-Fine m.gas m _ l
        λ x s e. let n : length m.stack ≡ suc (length s) = ap length e in (omega arith, omega arith)

  pub dup-Fine :
      (n : ℕ) (m : Machine W)
      → 1 ≤ n
      → n ≤ length m.stack
      → length m.stack ≤ 1023
      → Fine m.gas (make_dup n m)
  unfolding make_dup push
  dup-Fine n m p l h =
      or_panic-Fine m.gas _ _ (get_elem?_lem m.stack (n - 1) (omega arith))
        λ x. (omega arith, omega arith)

  pub swap-Fine :
      (n : ℕ) (m : Machine W)
      → n + 1 ≤ length m.stack
      → length m.stack ≤ 1024
      → Fine m.gas (make_swap n m)
  unfolding make_swap swap
  swap-Fine n m l h =
      let (a, at) = get_elem?_lem m.stack (n + 1 - 1) (omega arith) in
      let (b, top) = get_elem?_lem m.stack 0 (omega arith) in
      subst
        (λ o. Fine m.gas (
          or_panic
            (bind o
              (λ a. bind (get_elem? m.stack 0) (λ b. some (set (set m.stack (n + 1 - 1) b) 0 a))))
            (λ s. next (record m { stack = s }))))
        (sym at)
        (subst
          (λ o. Fine m.gas (
            or_panic (bind o (λ b. some (set (set m.stack (n + 1 - 1) b) 0 a)))
              (λ s. next (record m { stack = s }))))
          (sym top)
          (let e = length-set (set m.stack (n + 1 - 1) b) 0 a ∙ length-set m.stack (n + 1 - 1) b in
            (omega arith, omega arith)))
