-- ===== src/Prelude/Bytes.antt =====
-- Facts about the bit operations on nibbles, from tables that evaluation checks.
use Prim.Native.Nat.{ℕ, zero, suc, ◌+◌, ◌-◌, ◌*◌, ◌%◌, ◌^◌, ◌≤◌, ◌<◌, bit_or}
use mathlib.Core.Path.{◌≡◌, refl}
use mathlib.Core.Bool.{Bool, true, ◌&&◌, ◌||◌}
use zond.Prelude.Tests.{◌==◌, ltb, ==_iff}
use native.Mathlib.Omega.{arith}

-- The test passes on every number of the table, which is as long as the second argument says.
unfoldable pub table : (ℕ → Bool) → ℕ → Bool
table test zero = true
table test (suc size) = table test size && test size

pub table-entry : (test : ℕ → Bool) (i size : ℕ) → i < size → table test size ≡ true → test i ≡ true
unfolding table
table-entry test i zero below full = absurd (omega arith)
table-entry test i (suc size) below full =
    let earlier = table-entry test i size in ground (arith, earlier)

-- `a<<4 | b` on two nibbles, as a byte, is the byte with these digits.
abbrev joins : ℕ → ℕ → Bool
joins a b = bit_or (a * 16 % 256) b == a * 16 + b

joins-table : table (λ a. table (joins a) 16) 16 ≡ true
unfolding table
joins-table = refl

pub join_nibbles : (a b : ℕ) → a < 16 → b < 16 → bit_or (a * 16 % 256) b ≡ a * 16 + b
join_nibbles a b ha hb =
    let row = table-entry (λ a. table (joins a) 16) a 16 ha joins-table in
    (==_iff _ _).0 (table-entry (joins a) b 16 hb row)

abbrev flags_odd : ℕ → Bool
flags_odd x = bit_or 16 x == 16 + x && bit_or 48 x == 48 + x

flags_odd-table : table flags_odd 16 ≡ true
unfolding table
flags_odd-table = refl

-- 1<<4 | x and 1<<5 | 1<<4 | x on a nibble
pub odd_flags : (x : ℕ) → x < 16 → (bit_or 16 x ≡ 16 + x) × (bit_or 48 x ≡ 48 + x)
odd_flags x h = ground (arith, table-entry flags_odd x 16 h flags_odd-table)

-- A mask of `n` bits that is shifted within a byte stays below 256.
abbrev masks : ℕ → ℕ → Bool
masks n r = ltb 8 (n + r) || ltb ((2 ^ n - 1) * 2 ^ r) 256

masks-table : table (λ n. table (masks n) 9) 9 ≡ true
unfolding table
masks-table = refl

pub short_mask : (n r : ℕ) → n + r ≤ 8 → (2 ^ n - 1) * 2 ^ r < 256
short_mask n r h =
    let row = table-entry (λ n. table (masks n) 9) n 9 (omega arith) masks-table in
    let entry = table-entry (masks n) r 9 (omega arith) row in ground arith
