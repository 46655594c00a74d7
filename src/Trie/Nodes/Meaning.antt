-- ===== src/Trie/Nodes/Meaning.antt =====
-- trie/trie.go: what a trie without hash nodes means, a map from keys to values, and its shape.
pub mod Paths
pub mod Changed
pub mod Parted
pub mod Below
pub mod Insert
pub mod Written
pub mod Keys
use zond.Prelude.{
  ℕ, ◌<◌, ◌≡◌, ◌≢◌, refl, sym, ap, ◌∙◌, Bool, true, false, Option, none, some, List, [], ◌∷◌, ◌++◌,
  ◌==◌, if◌then◌else◌, bind,
}
use zond.Trie.Nodes.{Bytes, Node, empty, value, short, full, hash, strip}

-- The value that a trie without hash nodes has at a key
unfoldable pub lookup : Node → List ℕ → Option Bytes
lookup empty key = none
lookup (value v) [] = some v
lookup (value v) (x ∷ key) = none
lookup (short k child) key = bind (strip k key) (λ rest. lookup child rest)
lookup (full children) [] = none
lookup (full children) (x ∷ key) = lookup (children x) key
lookup (hash h) key = none

-- A nibble leads on, and the terminator ends a key.
abbrev pub Leads : Bool → ℕ → Type 0
Leads true x = x < 16
Leads false x = x ≡ 16

-- What is left of a key: nibbles and the terminator, or behind it nothing
abbrev pub IsKey : Bool → List ℕ → Type 0
IsKey true [] = ⊥
IsKey true (x ∷ key) = (b : Bool) × Leads b x × IsKey b key
IsKey false [] = Unit {0}
IsKey false (x ∷ key) = ⊥

-- The key of a short node: it is not empty, and it leads on or ends with the terminator.
abbrev pub IsPath : Bool → List ℕ → Type 0
IsPath c [] = ⊥
IsPath c (x ∷ []) = Leads c x
IsPath c (x ∷ y ∷ k) = (x < 16) × IsPath c (y ∷ k)

-- A trie without hash nodes, above the terminator or behind it
unfoldable pub IsTrie : Node → Bool → Type 0
IsTrie empty b = Unit {0}
IsTrie (value v) b = b ≡ false
IsTrie (short k child) b = (b ≡ true) × (c : Bool) × IsPath c k × IsTrie child c
IsTrie (full children) b = (b ≡ true) × ((c : Bool) (i : ℕ) → Leads c i → IsTrie (children i) c)
IsTrie (hash h) b = ⊥
