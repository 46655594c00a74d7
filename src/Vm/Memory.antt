-- ===== src/Vm/Memory.antt =====
-- core/vm/memory.go and, of core/vm/common.go, getData. `none` is a Go panic; a slice that ends behind the
-- memory is one too, also where Go's slice would have room behind its end.
pub mod Bounds
pub mod Words
use zond.Prelude.{
  ℕ, zero, suc, ◌+◌, ◌-◌, ◌*◌, ◌/◌, ◌%◌, ◌^◌, Bool, true, false, ◌||◌, Option, none, some, List, [],
  ◌∷◌, ◌++◌, ◌==◌, ltb, leb, if◌then◌else◌, length, take, drop, replicate,
}
use Prim.Native.Nat.{min}
use zond.Vm.{Bytes, Library}

-- copy(store[offset:], bytes)
unfoldable pub overwrite : Bytes → ℕ → Bytes → Bytes
overwrite store offset bytes = take offset store ++ bytes ++ drop (offset + length bytes) store

-- Memory.Set
unfoldable pub set_memory : ℕ → ℕ → Bytes → Bytes → Option Bytes
unfolding overwrite
set_memory offset size value store =
    if size == 0
    then some store
    else if ltb (length store) ((offset + size) % 2 ^ 64) || ltb ((offset + size) % 2 ^ 64) offset
    then none
    else some (overwrite store offset (take size value))

-- Memory.Set32
unfoldable pub set32 : Library → ℕ → ℕ → Bytes → Option Bytes
unfolding overwrite
set32 lib offset v store =
    if ltb (length store) ((offset + 32) % 2 ^ 64) || ltb ((offset + 32) % 2 ^ 64) offset
    then none
    else some (overwrite store offset (lib.write_to_slice v))

-- scope.Memory.store[offset] = b
unfoldable pub set_byte : ℕ → ℕ → Bytes → Option Bytes
unfolding overwrite
set_byte offset b store =
    if ltb offset (length store) then some (overwrite store offset (b ∷ [])) else none

-- Memory.Resize
unfoldable pub resize : ℕ → Bytes → Bytes
resize size store =
    if ltb (length store) size then store ++ replicate (size - length store) 0 else store

-- Memory.GetPtr and Memory.GetCopy, on what the int64 of an offset and of a size are made of: an offset
-- of 2^63 or more is negative.
unfoldable pub get_ptr : ℕ → ℕ → Bytes → Option Bytes
get_ptr offset size store =
    if size == 0
    then some []
    else if leb (2 ^ 63) offset
    then none
    else if ltb offset (length store)
    then if leb (offset + size) (length store) then some (take size (drop offset store)) else none
    else some []

-- RightPadBytes(slice, int(size))
unfoldable pub right_pad_bytes : Bytes → ℕ → Bytes
right_pad_bytes slice size =
    if leb (2 ^ 63) size || leb size (length slice)
    then slice
    else slice ++ replicate (size - length slice) 0

-- getData
unfoldable pub get_data : Bytes → ℕ → ℕ → Option Bytes
unfolding right_pad_bytes
get_data content start size =
    let s = min start (length content) in
    let e = min ((s + size) % 2 ^ 64) (length content) in
    if ltb e s then none else some (right_pad_bytes (take (e - s) (drop s content)) size)
