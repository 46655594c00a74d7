-- ===== src/Vm/Sizes.antt =====
-- core/vm/common.go and core/vm/memory_table.go: the memory that an instruction needs, and whether a
-- uint64 overflows. `none` is a Go panic, of a stack that is too short.
use zond.Prelude.{
  ℕ, ◌+◌, ◌-◌, ◌*◌, ◌/◌, ◌%◌, ◌^◌, Bool, true, false, Option, some, List, ◌==◌, ltb, leb,
  if◌then◌else◌, bind,
}
use zond.Vm.{back, overflows}

-- calcMemSize64WithUint
unfoldable pub calc_mem_size64_with_uint : ℕ → ℕ → ℕ × Bool
calc_mem_size64_with_uint off length64 =
    if length64 == 0
    then (0, false)
    else if overflows off
    then (0, true)
    else ((off + length64) % 2 ^ 64, ltb ((off + length64) % 2 ^ 64) off)

-- calcMemSize64
unfoldable pub calc_mem_size64 : ℕ → ℕ → ℕ × Bool
unfolding calc_mem_size64_with_uint
calc_mem_size64 off l = if overflows l then (0, true) else calc_mem_size64_with_uint off l

-- toWordSize
unfoldable pub to_word_size : ℕ → ℕ
to_word_size size = if ltb (2 ^ 64 - 1 - 31) size then (2 ^ 64 - 1) / 32 + 1 else (size + 31) / 32

-- math.SafeMul and math.SafeAdd
unfoldable pub safe_mul : ℕ → ℕ → ℕ × Bool
safe_mul x y = (x * y % 2 ^ 64, leb (2 ^ 64) (x * y))

unfoldable pub safe_add : ℕ → ℕ → ℕ × Bool
safe_add x y = ((x + y) % 2 ^ 64, leb (2 ^ 64) (x + y))

-- memoryKeccak256, memoryCallDataCopy, memoryCodeCopy, memoryReturn and memoryLog: the positions of the
-- offset and of the length on the stack
unfoldable pub memory_at : ℕ → ℕ → List ℕ → Option (ℕ × Bool)
unfolding calc_mem_size64
memory_at i j s = bind (back s i) λ off. bind (back s j) λ l. some (calc_mem_size64 off l)

-- memoryMLoad, memoryMStore and memoryMStore8
unfoldable pub memory_fixed : ℕ → List ℕ → Option (ℕ × Bool)
unfolding calc_mem_size64_with_uint
memory_fixed l s = bind (back s 0) λ off. some (calc_mem_size64_with_uint off l)

-- the larger of two sizes, unless one overflows
unfoldable pub larger_size : ℕ × Bool → ℕ × Bool → ℕ × Bool
larger_size (x, over) (y, over') =
    if over
    then (0, true)
    else if over'
    then (0, true)
    else if ltb y x
    then (x, false)
    else (y, false)

-- memoryCall
unfoldable pub memory_call : List ℕ → Option (ℕ × Bool)
unfolding calc_mem_size64 larger_size
memory_call s = bind (back s 5) λ ret_off. bind (back s 6) λ ret_size. bind (back s 3) λ in_off.
    bind (back s 4) λ in_size.
      some (larger_size (calc_mem_size64 ret_off ret_size) (calc_mem_size64 in_off in_size))
