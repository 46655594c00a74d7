-- ===== src/Vm/Analysis.antt =====
-- core/vm/analysis.go, and validJumpdest of core/vm/contract.go: which positions of a code are
-- instructions. A bit vector is its list of bytes, and `none` is an index out of range. The cache of the
-- analysis is left out.
pub mod Bounds
pub mod Masks
pub mod Marks
pub mod Writing
pub mod Rounds
pub mod Starts
use zond.Prelude.{
  ℕ, zero, suc, ◌+◌, ◌-◌, ◌*◌, ◌/◌, ◌%◌, ◌^◌, Bool, true, false, not, ◌||◌, Option, none, some,
  List, [], ◌∷◌, ◌==◌, ltb, leb, if◌then◌else◌, length, bind, get_elem?, set, replicate,
}
use Prim.Native.Nat.{bit_or}
use zond.Vm.{Bytes, overflows, uint64, get_op}

-- bits[i] = b
unfoldable pub write_bits : Bytes → ℕ → ℕ → Option Bytes
write_bits bits i b = if ltb i (length bits) then some (set bits i b) else none

-- bits[i] |= b
unfoldable pub or_bits : Bytes → ℕ → ℕ → Option Bytes
or_bits bits i b = bind (get_elem? bits i) λ a. some (set bits i (bit_or a b))

-- setN, and set1 with the flag 1
unfoldable pub set_n : ℕ → ℕ → Bytes → Option Bytes
unfolding or_bits write_bits
set_n flag pos bits =
    let a = flag * 2 ^ (pos % 8) % 2 ^ 16 in
    bind (or_bits bits (pos / 8) (a % 256)) λ bits.
      if a / 256 % 256 == 0 then some bits else write_bits bits (pos / 8 + 1) (a / 256 % 256)

unfoldable pub set8 : ℕ → Bytes → Option Bytes
unfolding or_bits write_bits
set8 pos bits =
    let a = 255 * 2 ^ (pos % 8) % 256 in
    bind (or_bits bits (pos / 8) a) λ bits. write_bits bits (pos / 8 + 1) (255 - a)

unfoldable pub set16 : ℕ → Bytes → Option Bytes
unfolding or_bits write_bits
set16 pos bits =
    let a = 255 * 2 ^ (pos % 8) % 256 in
    bind (or_bits bits (pos / 8) a) λ bits.
      bind (write_bits bits (pos / 8 + 1) 255) λ bits. write_bits bits (pos / 8 + 2) (255 - a)

-- the switch over what is left of numbits
unfoldable pub mark_rest : ℕ → ℕ → Bytes → Option Bytes
unfolding set_n
mark_rest n pc bits = if n == 0 then some bits else set_n (2 ^ n - 1) pc bits

-- the loop of set8
unfoldable pub mark8 : ℕ → ℕ → ℕ → Bytes → Option Bytes
unfolding set8 mark_rest
mark8 zero n pc bits = mark_rest n pc bits
mark8 (suc rounds) n pc bits =
    if ltb n 8
    then mark_rest n pc bits
    else bind (set8 pc bits) (λ bits. mark8 rounds (n - 8) (pc + 8) bits)

-- the loop of set16
unfoldable pub mark16 : ℕ → ℕ → ℕ → Bytes → Option Bytes
unfolding set16 mark8
mark16 zero n pc bits = mark8 2 n pc bits
mark16 (suc rounds) n pc bits =
    if ltb n 16
    then mark8 2 n pc bits
    else bind (set16 pc bits) (λ bits. mark16 rounds (n - 16) (pc + 16) bits)

-- op - PUSH1 + 1, or no data
unfoldable pub numbits : ℕ → ℕ
numbits op = if ltb op 96 || ltb 127 op then 0 else op - 96 + 1

-- codeBitmapInternal, on `rounds` rounds
unfoldable pub code_bitmap_loop : ℕ → Bytes → ℕ → Bytes → Option Bytes
unfolding mark16 numbits get_op
code_bitmap_loop zero code pc bits = some bits
code_bitmap_loop (suc rounds) code pc bits =
    let n = numbits (get_op code pc) in
    if ltb pc (length code)
    then bind (mark16 3 n (pc + 1) bits) (λ bits. code_bitmap_loop rounds code (pc + 1 + n) bits)
    else some bits

-- codeBitmap
unfoldable pub code_bitmap : Bytes → Option Bytes
unfolding code_bitmap_loop
code_bitmap code = code_bitmap_loop (length code) code 0 (replicate (length code / 8 + 1 + 4) 0)

-- codeSegment
unfoldable pub code_segment : Bytes → ℕ → Option Bool
code_segment bits pos = bind (get_elem? bits (pos / 8)) λ b. some (b / 2 ^ (pos % 8) % 2 == 0)

-- validJumpdest
unfoldable pub valid_jumpdest : Bytes → ℕ → Option Bool
unfolding code_bitmap code_segment get_op
valid_jumpdest code dest =
    if overflows dest || leb (length code) (uint64 dest)
    then some false
    else if not (get_op code (uint64 dest) == 91)
    then some false
    else bind (code_bitmap code) (λ bits. code_segment bits (uint64 dest))
