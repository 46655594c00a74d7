-- ===== src/Vm/Instructions/Calling.antt =====
-- core/vm/instructions.go: CALL, CALLCODE and CREATE do not panic, and give back at most what they were given.
use zond.Prelude.{
  ℕ, ◌+◌, ◌-◌, ◌/◌, ◌%◌, ◌^◌, ◌≤◌, ◌≡◌, refl, sym, ap, subst, Bool, true, false, not, ◌&&◌, Option,
  none, some, some_inj, List, [], ◌∷◌, ◌==◌, ltb, leb, if◌then◌else◌, if-cases, length, length-take,
  take, drop, arith,
}
use zond.Vm.{next, Address, Bytes, Contract, Called, Evm, Machine, Executed, or_panic, uint64, push}
use zond.Vm.Memory.{get_ptr, set_memory}
use zond.Vm.Memory.Bounds.{get_ptr_lem, set_memory_lem}
use zond.Vm.Sizes.{calc_mem_size64, larger_size, memory_at, memory_call}
use zond.Vm.Prices.Calls.{call_back}
use zond.Vm.Instructions.{
  pop, created, reverted_data, is_copied, finish_call, with_stipend, op_call, op_call_code,
  op_create,
}
use zond.Vm.Instructions.Safe.{Asked, size64-Asked, within, or_panic-Fine}
use zond.Vm.Instructions.Access.{small_length}
use zond.Vm.Interpreter.Interface.{Fine}

-- a stack of at least seven words
seven :
    (P : List ℕ → Type 0) (s : List ℕ)
    → 7 ≤ length s
    → ((a b c d x y z : ℕ) (s : List ℕ) → P (a ∷ b ∷ c ∷ d ∷ x ∷ y ∷ z ∷ s))
    → P s
seven P (a ∷ (b ∷ (c ∷ (d ∷ (x ∷ (y ∷ (z ∷ s))))))) h f = f a b c d x y z s
seven P (a ∷ (b ∷ (c ∷ (d ∷ (x ∷ (y ∷ [])))))) h f = absurd (omega arith)
seven P (a ∷ (b ∷ (c ∷ (d ∷ (x ∷ []))))) h f = absurd (omega arith)
seven P (a ∷ (b ∷ (c ∷ (d ∷ [])))) h f = absurd (omega arith)
seven P (a ∷ (b ∷ (c ∷ []))) h f = absurd (omega arith)
seven P (a ∷ (b ∷ [])) h f = absurd (omega arith)
seven P (a ∷ []) h f = absurd (omega arith)
seven P [] h f = absurd (omega arith)

three :
    (P : List ℕ → Type 0) (s : List ℕ)
    → 3 ≤ length s
    → ((a b c : ℕ) (s : List ℕ) → P (a ∷ b ∷ c ∷ s))
    → P s
three P (a ∷ (b ∷ (c ∷ s))) h f = f a b c s
three P (a ∷ (b ∷ [])) h f = absurd (omega arith)
three P (a ∷ []) h f = absurd (omega arith)
three P [] h f = absurd (omega arith)

-- bytes that were read are no longer than what was asked for
ptr_length : (off l : ℕ) (store bytes : Bytes) → get_ptr off l store ≡ some bytes → length bytes ≤ l
unfolding get_ptr
ptr_length off l store bytes e =
    if-cases (λ o. o ≡ some bytes → length bytes ≤ l) (l == 0) (λ t q. of_list [] (omega arith) q)
      (λ t.
        if-cases (λ o. o ≡ some bytes → length bytes ≤ l) (leb (2 ^ 63) off)
          (λ u q. absurd (missing q))
          (λ u.
            if-cases (λ o. o ≡ some bytes → length bytes ≤ l) (ltb off (length store))
              (λ v.
                if-cases (λ o. o ≡ some bytes → length bytes ≤ l) (leb (off + l) (length store))
                  (λ w q.
                    of_list (take l (drop off store))
                      (let n = length-take l (drop off store) in omega arith) q)
                  (λ w q. absurd (missing q)))
              (λ v q. of_list [] (omega arith) q)))
      e
  where
    missing : none ≡ some bytes → ⊥
    missing h = cc

    of_list : (xs : Bytes) → length xs ≤ l → some xs ≡ some bytes → length bytes ≤ l
    of_list xs h q = subst (λ b. length b ≤ l) (some_inj xs bytes q) h

larger-Asked :
    (a b c d size : ℕ)
    → larger_size (calc_mem_size64 a b) (calc_mem_size64 c d) ≡ (size, false)
    → (x : ℕ) × (y : ℕ) × Asked a b x × Asked c d y × (x ≤ size) × (y ≤ size)
unfolding larger_size
larger-Asked a b c d size e = on_sizes (calc_mem_size64 a b) (calc_mem_size64 c d) refl refl e
  where
    apart : {x y : ℕ} → ◌≡◌ {A = ℕ × Bool} (x, true) (y, false) → ⊥
    apart h = wrong (ap (λ r. r.1) h)
      where
        wrong : true ≡ false → ⊥
        wrong h = cc

    on_sizes :
        (p q : ℕ × Bool)
        → calc_mem_size64 a b ≡ p
        → calc_mem_size64 c d ≡ q
        → larger_size p q ≡ (size, false)
        → (x : ℕ) × (y : ℕ) × Asked a b x × Asked c d y × (x ≤ size) × (y ≤ size)
    on_sizes (x, true) q ep eq h = absurd (apart h)
    on_sizes (x, false) (y, true) ep eq h = absurd (apart h)
    on_sizes (x, false) (y, false) ep eq h =
        let larger = ap (λ r. r.0) h in
        (x, y, size64-Asked a b x ep, size64-Asked c d y eq, ground arith, ground arith)

module _ {W : Type 0} where
  -- an answer with at most the gas that was given
  abbrev pub IsThrifty : ℕ → Option (Called W) → Type 0
  IsThrifty gas none = ⊥
  IsThrifty gas (some r) = r.left ≤ gas

  abbrev pub IsThriftyMade : ℕ → Option (Called W × Address) → Type 0
  IsThriftyMade gas none = ⊥
  IsThriftyMade gas (some (r, addr)) = r.left ≤ gas

  -- What the instructions rely on of evm, for the calls of one contract: no panic and no more gas, on what
  -- a memory can hold
  pub record Answers (evm : Evm W) (e : Contract) : Type 0 where
    pub on_call :
        (w : W) (to : Address) (args : Bytes) (gas value : ℕ)
        → length args ≤ 2 ^ 37
        → IsThrifty gas (evm.call e w to args gas value)
    pub on_call_code :
        (w : W) (to : Address) (args : Bytes) (gas value : ℕ)
        → length args ≤ 2 ^ 37
        → IsThrifty gas (evm.call_code e w to args gas value)
    pub on_create :
        (w : W) (input : Bytes) (gas value : ℕ)
        → length input ≤ 2 ^ 37
        → IsThriftyMade gas (evm.create e w input gas value)

  -- An access that was asked for gives bytes, and no more than were asked for.
  read-Fine :
      (g off l size : ℕ) (store : Bytes) (f : Bytes → Executed W)
      → Asked off l size
      → size ≤ length store
      → size ≤ 2 ^ 37
      → ((bytes : Bytes) → length bytes ≤ 2 ^ 37 → Fine g (f bytes))
      → Fine g (or_panic (get_ptr (uint64 off) (uint64 l) store) f)
  read-Fine g off l size store f asked h k next_fine =
      let (bytes, e) =
        get_ptr_lem (uint64 off) (uint64 l) store (within off l size store asked h k) in
      let short = ptr_length (uint64 off) (uint64 l) store bytes e in
      let small = small_length off l size asked k in
      subst (λ o. Fine g (or_panic o f)) (sym e) (next_fine bytes (omega arith))

  -- a call that was answered
  answered-Fine :
      (g gas : ℕ) (o : Option (Called W)) (f : Called W → Executed W)
      → IsThrifty gas o
      → ((r : Called W) → r.left ≤ gas → Fine g (f r))
      → Fine g (or_panic o f)
  answered-Fine g gas none f h k = absurd h
  answered-Fine g gas (some r) f h k = k r h

  finish-Fine :
      (off l size back : ℕ) (r : Called W) (m : Machine W)
      → Asked off l size
      → size ≤ length m.memory.store
      → size ≤ 2 ^ 37
      → length m.stack ≤ 1023
      → r.left ≤ back
      → Fine (m.gas + back) (finish_call off l r m)
  unfolding finish_call push
  finish-Fine off l size back r m asked h k low left =
      or_panic-Fine (m.gas + back) _ _ stored (λ s. (omega arith, omega arith))
    where
      stored :
          (s : Bytes) × ((if is_copied r.err
              then set_memory (uint64 off) (uint64 l) r.ret m.memory.store
              else some m.memory.store)
            ≡ some s)
      stored =
          if-cases (λ o. (s : Bytes) × (o ≡ some s)) (is_copied r.err)
            (λ t.
              set_memory_lem (uint64 off) (uint64 l) r.ret m.memory.store
                (small_length off l size asked k) (within off l size m.memory.store asked h k))
            (λ t. (m.memory.store, refl))

  -- the call itself, on the words that were taken from the stack
  answered-call :
      (evm : Evm W) (e : Contract)
      → (off l size back : ℕ) (o : Option (Called W)) (m : Machine W) → Asked off l size
      → size ≤ length m.memory.store
      → size ≤ 2 ^ 37
      → length m.stack ≤ 1023
      → IsThrifty back o
      → Fine (m.gas + back) (or_panic o λ r. finish_call off l r m)
  answered-call evm e off l size back o m asked h k low thrifty =
      answered-Fine (m.gas + back) back o _ thrifty
        λ r left. finish-Fine off l size back r m asked h k low left

  pub call-Fine :
      (evm : Evm W) (e : Contract)
      → Answers evm e
      → (m : Machine W) (size : ℕ) → 7 ≤ length m.stack
      → length m.stack ≤ 1030
      → memory_call m.stack ≡ some (size, false)
      → size ≤ length m.memory.store
      → size ≤ 2 ^ 37
      → Fine (m.gas + call_back m.stack m.call_gas_temp) (op_call evm e m)
  unfolding op_call memory_call
  call-Fine evm e ok m size lo hi asked h k =
      seven
        (λ st.
          length st ≤ 1030
          → memory_call st ≡ some (size, false)
          → Fine (m.gas + call_back st m.call_gas_temp) (op_call evm e (record m { stack = st })))
        m.stack lo on_words hi asked
    where
      on_words :
          (temp addr v a b x y : ℕ) (s : List ℕ)
          → length (temp ∷ addr ∷ v ∷ a ∷ b ∷ x ∷ y ∷ s) ≤ 1030
          → memory_call (temp ∷ addr ∷ v ∷ a ∷ b ∷ x ∷ y ∷ s) ≡ some (size, false)
          → Fine
              (m.gas + with_stipend v m.call_gas_temp)
              (op_call evm e (record m { stack = temp ∷ addr ∷ v ∷ a ∷ b ∷ x ∷ y ∷ s }))
      on_words temp addr v a b x y s high q =
          let (p, r, ret, arg, lp, lr) = larger-Asked x y a b size (some_inj _ _ q) in
          let back = with_stipend v m.call_gas_temp in
          read-Fine (m.gas + back) a b r m.memory.store _ arg (omega arith) (omega arith)
            λ args short.
              if-cases (Fine (m.gas + back)) (e.read_only && not (v == 0)) (λ t. omega arith)
                λ t.
                  answered-call evm e x y p back _ (record m { stack = s }) ret (omega arith)
                    (omega arith) (omega arith)
                    (ok.on_call m.world (addr % 2 ^ 160) args back v short)

  pub call_code-Fine :
      (evm : Evm W) (e : Contract)
      → Answers evm e
      → (m : Machine W) (size : ℕ) → 7 ≤ length m.stack
      → length m.stack ≤ 1030
      → memory_call m.stack ≡ some (size, false)
      → size ≤ length m.memory.store
      → size ≤ 2 ^ 37
      → Fine (m.gas + call_back m.stack m.call_gas_temp) (op_call_code evm e m)
  unfolding op_call_code memory_call
  call_code-Fine evm e ok m size lo hi asked h k =
      seven
        (λ st.
          length st ≤ 1030
          → memory_call st ≡ some (size, false)
          → Fine (m.gas + call_back st m.call_gas_temp)
              (op_call_code evm e (record m { stack = st })))
        m.stack lo on_words hi asked
    where
      on_words :
          (temp addr v a b x y : ℕ) (s : List ℕ)
          → length (temp ∷ addr ∷ v ∷ a ∷ b ∷ x ∷ y ∷ s) ≤ 1030
          → memory_call (temp ∷ addr ∷ v ∷ a ∷ b ∷ x ∷ y ∷ s) ≡ some (size, false)
          → Fine
              (m.gas + with_stipend v m.call_gas_temp)
              (op_call_code evm e (record m { stack = temp ∷ addr ∷ v ∷ a ∷ b ∷ x ∷ y ∷ s }))
      on_words temp addr v a b x y s high q =
          let (p, r, ret, arg, lp, lr) = larger-Asked x y a b size (some_inj _ _ q) in
          let back = with_stipend v m.call_gas_temp in
          read-Fine (m.gas + back) a b r m.memory.store _ arg (omega arith) (omega arith)
            λ args short.
              answered-call evm e x y p back _ (record m { stack = s }) ret (omega arith)
                (omega arith) (omega arith)
                (ok.on_call_code m.world (addr % 2 ^ 160) args back v short)

  -- CREATE gives back at most what it took.
  created-Fine :
      (e : Contract) (gas : ℕ) (o : Option (Called W × Address)) (m : Machine W)
      → gas ≤ m.gas
      → length m.stack ≤ 1023
      → IsThriftyMade gas o
      → Fine m.gas (
          or_panic o λ (r, addr). next (
            push (created e.is_homestead r.err addr) (record m {
              world = r.world;
              gas = (m.gas - gas + r.left) % 2 ^ 64;
              return_data = reverted_data r.err r.ret;
            })))
  unfolding push
  created-Fine e gas none m h low thrifty = absurd thrifty
  created-Fine e gas (some (r, addr)) m h low thrifty = (omega arith, omega arith)

  pub create-Fine :
      (evm : Evm W) (e : Contract)
      → Answers evm e
      → (m : Machine W) (size : ℕ) → 3 ≤ length m.stack
      → length m.stack ≤ 1026
      → memory_at 1 2 m.stack ≡ some (size, false)
      → size ≤ length m.memory.store
      → size ≤ 2 ^ 37
      → Fine m.gas (op_create evm e m)
  unfolding op_create memory_at
  create-Fine evm e ok m size lo hi asked h k =
      if-cases (Fine m.gas) e.read_only (λ t. omega arith)
        λ t.
          three
            (λ st.
              length st ≤ 1026
              → memory_at 1 2 st ≡ some (size, false)
              → Fine m.gas (taken (record m { stack = st })))
            m.stack lo on_words hi asked
    where
      taken : Machine W → Executed W
      taken m = pop m (λ value m. pop m (λ offset m. pop m (λ size m.
          or_panic (get_ptr (uint64 offset) (uint64 size) m.memory.store) (λ input.
            let gas = if e.is_eip150 then m.gas - m.gas / 64 else m.gas in
            or_panic (evm.create e m.world input gas value) (λ (r, addr). next (
              push (created e.is_homestead r.err addr) (record m {
                world = r.world;
                gas = (m.gas - gas + r.left) % 2 ^ 64;
                return_data = reverted_data r.err r.ret;
              })))))))

      on_words :
          (v off l : ℕ) (s : List ℕ)
          → length (v ∷ off ∷ l ∷ s) ≤ 1026
          → memory_at 1 2 (v ∷ off ∷ l ∷ s) ≡ some (size, false)
          → Fine m.gas (taken (record m { stack = v ∷ off ∷ l ∷ s }))
      on_words v off l s high q =
          let gas = if e.is_eip150 then m.gas - m.gas / 64 else m.gas in
          let small : gas ≤ m.gas = ground arith in
          read-Fine m.gas off l size m.memory.store _ (size64-Asked off l size (some_inj _ _ q)) h k
            λ input short.
              created-Fine e gas _ (record m { stack = s }) small (omega arith)
                (ok.on_create m.world input gas v short)
