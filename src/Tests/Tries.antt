-- ===== src/Tests/Tries.antt =====
-- trie/trie.go: a trie of one key, and a second one that parts from it behind a nibble.
use zond.Prelude.{ℕ, ◌≡◌, refl, Bool, true, false, Option, none, some, List, [], ◌∷◌, arith}
use zond.Trie.Encoding.{keybytes_digits, keybytes_to_hex}
use zond.Trie.Nodes.{Node, value, short, ok, insert, try_get, strip}
use zond.Trie.Nodes.Delete.{delete}
use zond.Trie.Nodes.Delete.Deleted.{delete-try_get}
use zond.Trie.Nodes.Meaning.{lookup, IsTrie}
use zond.Trie.Nodes.Meaning.Keys.{keybytes_to_hex-IsKey}
use zond.Trie.Nodes.Meaning.Written.{plain, try_get-lookup, insert-try_get}

abbrev no_nodes : ℕ → Option Node
no_nodes h = none

abbrev one_key : Node
one_key = short (1 ∷ 2 ∷ 16 ∷ []) (value (5 ∷ []))

one_key-IsTrie : IsTrie one_key true
unfolding IsTrie
one_key-IsTrie = (refl, false, (omega arith, (omega arith, refl)), refl)

abbrev old_key : List ℕ
old_key = keybytes_to_hex (18 ∷ [])

abbrev new_key : List ℕ
new_key = keybytes_to_hex (19 ∷ [])

try_get-lookup_example : try_get no_nodes 4 one_key old_key ≡ plain one_key (lookup one_key old_key)
unfolding keybytes_to_hex keybytes_digits
try_get-lookup_example =
    try_get-lookup no_nodes 4 one_key true old_key one_key-IsTrie
      (keybytes_to_hex-IsKey (18 ∷ []) (omega arith, tt)) (omega arith)

insert-try_get_example :
    (dirty : Bool) × (n' : Node) × (insert no_nodes 4 one_key new_key (value (7 ∷ []))
      ≡ ok (dirty, n'))
    × IsTrie n' true
    × (try_get no_nodes 4 n' old_key ≡ plain n' (some (5 ∷ [])))
unfolding lookup strip keybytes_to_hex keybytes_digits
insert-try_get_example =
    insert-try_get no_nodes 4 4 one_key new_key old_key (7 ∷ []) one_key-IsTrie
      (keybytes_to_hex-IsKey (19 ∷ []) (omega arith, tt))
      (keybytes_to_hex-IsKey (18 ∷ []) (omega arith, tt)) (omega arith) (omega arith)

delete-try_get_example :
    (dirty : Bool) × (n' : Node) × (delete no_nodes 4 one_key old_key ≡ ok (dirty, n'))
    × IsTrie n' true
    × (try_get no_nodes 4 n' old_key ≡ plain n' none)
unfolding keybytes_to_hex keybytes_digits
delete-try_get_example =
    delete-try_get no_nodes 4 4 one_key old_key old_key one_key-IsTrie
      (keybytes_to_hex-IsKey (18 ∷ []) (omega arith, tt))
      (keybytes_to_hex-IsKey (18 ∷ []) (omega arith, tt)) (omega arith) (omega arith)
