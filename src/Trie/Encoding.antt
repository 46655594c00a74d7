-- ===== src/Trie/Encoding.antt =====
-- trie/encoding.go. A byte slice is a list of numbers below 256; `none` is a Go panic (an index out
-- of range, or the explicit panic of `hexToKeybytes`).
pub mod RoundTrip
pub mod InPlace
pub mod Prefix
use zond.Prelude.{
  ℕ, zero, suc, ◌+◌, ◌-◌, ◌*◌, ◌/◌, ◌%◌, Bool, true, false, Option, none, some, List, [], ◌∷◌, ◌++◌,
  ltb, ◌==◌, if◌then◌else◌, length, get_elem?, set, drop,
}
use Prim.Native.Nat.{bit_or}

-- hex[len(hex)-1] == 16, false on an empty key
pub has_term : List ℕ → Bool
has_term [] = false
has_term (x ∷ []) = x == 16
has_term (x ∷ (y ∷ s)) = has_term (y ∷ s)

-- s[:len(s)-1], for the callers that have seen a last element
pub but_last : List ℕ → List ℕ
but_last [] = []
but_last (x ∷ []) = []
but_last (x ∷ (y ∷ s)) = x ∷ but_last (y ∷ s)

-- The bytes written into the target, whose length is len(nibbles)/2. An odd number of nibbles makes
-- the last read of nibbles[ni+1] panic.
pub decode_nibbles : List ℕ → Option (List ℕ)
decode_nibbles [] = some []
decode_nibbles (a ∷ []) = none
decode_nibbles (a ∷ (b ∷ r)) =
    let rest = decode_nibbles r in
    elim rest [ none ↦ none | some bs ↦ some (bit_or (a * 16 % 256) b ∷ bs) ]

-- buf[0] and the nibbles that are left for buf[1:]
pub compact_parts : Bool → List ℕ → ℕ → ℕ × List ℕ
compact_parts odd [] flag = (flag, [])
compact_parts true (x ∷ r) flag = (bit_or (bit_or flag 16) x, r)
compact_parts false (x ∷ r) flag = (flag, x ∷ r)

-- decodeNibbles(hex, buf[1:]) behind the first byte
pub pack_parts : ℕ × List ℕ → Option (List ℕ)
pack_parts (first, r) = elim (decode_nibbles r) [ none ↦ none | some bs ↦ some (first ∷ bs) ]

-- The compact key of a hex key without its terminator.
pub pack_key : ℕ → List ℕ → Option (List ℕ)
unfolding compact_parts pack_parts
pack_key flag key = pack_parts (compact_parts (length key % 2 == 1) key flag)

-- hex[:len(hex)-1] if hasTerm(hex)
pub without_term : List ℕ → List ℕ
unfolding has_term but_last
without_term hex = if has_term hex then but_last hex else hex

pub hex_to_compact : List ℕ → Option (List ℕ)
unfolding pack_key
hex_to_compact hex = pack_key (if has_term hex then 32 else 0) (without_term hex)

unfoldable pub keybytes_digits : List ℕ → List ℕ
keybytes_digits [] = []
keybytes_digits (b ∷ r) = b / 16 ∷ (b % 16 ∷ keybytes_digits r)

unfoldable pub keybytes_to_hex : List ℕ → List ℕ
unfolding keybytes_digits
keybytes_to_hex str = keybytes_digits str ++ (16 ∷ [])

compact_to_hex_base : List ℕ → List ℕ
compact_to_hex_base [] = []
compact_to_hex_base (x ∷ r) = drop (2 - x % 2) (if ltb x 2 then but_last (x ∷ r) else x ∷ r)

pub compact_to_hex : List ℕ → List ℕ
unfolding keybytes_to_hex compact_to_hex_base but_last
compact_to_hex [] = []
compact_to_hex (c ∷ r) = compact_to_hex_base (keybytes_to_hex (c ∷ r))

pub hex_to_keybytes : List ℕ → Option (List ℕ)
hex_to_keybytes hex =
    let key = without_term hex in if length key % 2 == 0 then decode_nibbles key else none

-- the common prefix of a and b
unfoldable pub prefix_len : List ℕ → List ℕ → ℕ
prefix_len [] b = 0
prefix_len (x ∷ a) [] = 0
prefix_len (x ∷ a) (y ∷ b) = let n = prefix_len a b in if x == y then suc n else 0

-- for ; ni < hexLen; bi, ni = bi+1, ni+2 { hex[bi] = hex[ni]<<4 | hex[ni+1] }
-- on `rounds` rounds; a read out of range panics.
pub in_place_loop : ℕ → ℕ → ℕ → List ℕ → Option (List ℕ)
in_place_loop zero bi ni hex = some hex
in_place_loop (suc k) bi ni hex = elim (get_elem? hex ni) [
  | none ↦ none
  | some a ↦ elim (get_elem? hex (ni + 1)) [
    | none ↦ none
    | some b ↦ in_place_loop k (bi + 1) (ni + 2) (set hex bi (bit_or (a * 16 % 256) b))
  ]
]

-- ni starts at 1 behind the nibble that the first byte takes, or at 0.
pub odd_start : Bool → ℕ → List ℕ → Option (ℕ × ℕ)
odd_start false flag hex = some (flag, 0)
odd_start true flag [] = none
odd_start true flag (x ∷ r) = some (bit_or (bit_or flag 16) x, 1)

-- hex[0] = firstByte, and the length binLen
pub write_first : ℕ → ℕ → Option (List ℕ) → Option (List ℕ × ℕ)
write_first first half none = none
write_first first half (some buf) = some (set buf 0 first, half + 1)

pub in_place_from : ℕ → List ℕ → Option (ℕ × ℕ) → Option (List ℕ × ℕ)
unfolding write_first
in_place_from hex_len hex none = none
in_place_from hex_len hex (some (first, ni)) =
    write_first first (hex_len / 2) (in_place_loop (hex_len / 2) 1 ni hex)

-- The buffer after the call, and the length of the compact key in it. The last write panics on an
-- empty buffer.
pub hex_to_compact_in_place : List ℕ → Option (List ℕ × ℕ)
unfolding odd_start in_place_from
hex_to_compact_in_place [] = none
hex_to_compact_in_place (x ∷ r) =
    let hex = x ∷ r in
    let hex_len : ℕ = if has_term hex then length hex - 1 else length hex in
    let flag : ℕ = if has_term hex then 32 else 0 in
    in_place_from hex_len hex (odd_start (hex_len % 2 == 1) flag hex)
