-- ===== src/Trie/Nodes/Meaning/Keys.antt =====
-- trie/encoding.go, keybytesToHex: the keys that Get and Update make are keys of a trie.
use zond.Prelude.{ℕ, true, false, refl, List, [], ◌∷◌, ◌++◌, All, arith}
use zond.Trie.Encoding.{keybytes_digits, keybytes_to_hex}
use zond.Trie.Encoding.RoundTrip.{IsByte}
use zond.Trie.Nodes.Meaning.{IsKey}

digits-IsKey : (str : List ℕ) → All IsByte str → IsKey true (keybytes_digits str ++ 16 ∷ [])
unfolding keybytes_digits
digits-IsKey [] h = (false, refl, tt)
digits-IsKey (b ∷ str) (h, hs) = (true, omega arith, (true, omega arith, digits-IsKey str hs))

pub keybytes_to_hex-IsKey : (str : List ℕ) → All IsByte str → IsKey true (keybytes_to_hex str)
unfolding keybytes_to_hex
keybytes_to_hex-IsKey str h = digits-IsKey str h
