-- ===== src/Tests/Keys.antt =====
-- trie/encoding.go: the key theorems at concrete keys.
use zond.Prelude.{ℕ, ◌≤◌, ◌≡◌, true, some, List, [], ◌∷◌, All, arith, take, length}
use zond.Trie.Encoding.{
  hex_to_compact, compact_to_hex, hex_to_compact_in_place, hex_to_keybytes, keybytes_to_hex,
  prefix_len, has_term,
}
use zond.Trie.Encoding.RoundTrip.{
  IsByte, IsNibble, hex_key, compact_to_hex-hex_to_compact, hex_to_keybytes-keybytes_to_hex,
}
use zond.Trie.Encoding.InPlace.{in_place-eq-hex_to_compact}
use zond.Trie.Encoding.Prefix.{prefix_len_longest}

abbrev path : List ℕ
path = 1 ∷ 2 ∷ 15 ∷ []

abbrev other : List ℕ
other = 1 ∷ 2 ∷ []

path-IsNibble : All IsNibble path
path-IsNibble = (omega arith, (omega arith, (omega arith, tt)))

compact_to_hex-hex_to_compact_example :
    (c : List ℕ) × (hex_to_compact (hex_key path true) ≡ some c)
    × (compact_to_hex c ≡ hex_key path true)
    × All IsByte c
compact_to_hex-hex_to_compact_example = compact_to_hex-hex_to_compact path true path-IsNibble

in_place-eq-hex_to_compact_example :
    (buf : List ℕ) × (n : ℕ) × (hex_to_compact_in_place (hex_key path true) ≡ some (buf, n))
    × (hex_to_compact (hex_key path true) ≡ some (take n buf))
    × (length buf ≡ length (hex_key path true))
in_place-eq-hex_to_compact_example =
    in_place-eq-hex_to_compact path true path-IsNibble (omega arith)

hex_to_keybytes-keybytes_to_hex_example :
    (hex_to_keybytes (keybytes_to_hex (18 ∷ 255 ∷ [])) ≡ some (18 ∷ 255 ∷ []))
    × (has_term (keybytes_to_hex (18 ∷ 255 ∷ [])) ≡ true)
hex_to_keybytes-keybytes_to_hex_example =
    hex_to_keybytes-keybytes_to_hex (18 ∷ 255 ∷ []) (omega arith, (omega arith, tt))

prefix_len_longest_example :
    (take (prefix_len path other) path ≡ take (prefix_len path other) other)
    × (prefix_len path other ≤ length path)
    × (prefix_len path other ≤ length other)
    × ((n : ℕ)
        → n ≤ length path
        → n ≤ length other
        → take n path ≡ take n other
        → n ≤ prefix_len path other)
prefix_len_longest_example = prefix_len_longest path other
