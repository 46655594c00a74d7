-- ===== src/Vm/Memory/Bounds.antt =====
-- core/vm/memory.go: accesses within the memory do not panic, and keep its length.
use zond.Prelude.{
  ℕ, ◌+◌, ◌-◌, ◌^◌, ◌≤◌, ◌<◌, ◌≡◌, ◌≢◌, refl, Option, none, some, length, replicate, length-append,
  length-replicate, arith,
}
use zond.Vm.{Bytes, Library}
use zond.Vm.Memory.{overwrite, set_memory, set32, resize, get_ptr, get_data}

some_of {ℓ} : {A : Type ℓ} (o : Option A) → o ≢ none → (a : A) × (o ≡ some a)
some_of none h = absurd (h refl)
some_of (some a) h = (a, refl)

pub length-resize :
    (size : ℕ) (store : Bytes)
    → (length store ≤ length (resize size store)) × (size ≤ length (resize size store))
unfolding resize
length-resize size store =
    let e = length-append store (replicate (size - length store) 0) in
    let r = length-replicate {A = ℕ} (size - length store) 0 in ground (arith, e, r)

pub set_memory_lem :
    (offset size : ℕ) (value store : Bytes)
    → size ≤ 2 ^ 37
    → (size ≢ 0 → (offset < 2 ^ 37) × (offset + size ≤ length store))
    → (s : Bytes) × (set_memory offset size value store ≡ some s)
unfolding set_memory
set_memory_lem offset size value store k l = some_of _ (ground arith)

pub set32_lem :
    (lib : Library) (offset v : ℕ) (store : Bytes)
    → offset < 2 ^ 37
    → offset + 32 ≤ length store
    → (s : Bytes) × (set32 lib offset v store ≡ some s)
unfolding set32
set32_lem lib offset v store b h = (overwrite store offset (lib.write_to_slice v), ground arith)

pub get_ptr_lem :
    (offset size : ℕ) (store : Bytes)
    → (size ≢ 0 → (offset < 2 ^ 37) × (offset + size ≤ length store))
    → (s : Bytes) × (get_ptr offset size store ≡ some s)
unfolding get_ptr
get_ptr_lem offset size store h = some_of _ (ground arith)

pub get_data_lem :
    (content : Bytes) (start size : ℕ)
    → length content < 2 ^ 63
    → size ≤ 2 ^ 37
    → (s : Bytes) × (get_data content start size ≡ some s)
unfolding get_data
get_data_lem content start size h k = some_of _ (ground arith)
