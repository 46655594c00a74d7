-- ===== src/Trie/Nodes/Delete.antt =====
-- trie/trie.go, delete. As in insert, the depth of the recursion is an argument.
pub mod Reduced
pub mod Below
pub mod Shorts
pub mod Deleted
use zond.Prelude.{
  ℕ, zero, suc, Bool, true, false, Option, none, some, List, [], ◌∷◌, ◌++◌, ◌==◌, ltb, leb,
  if◌then◌else◌, length, drop,
}
use zond.Prelude.Maps.{update}
use zond.Trie.Encoding.{prefix_len}
use zond.Trie.Nodes.{
  Node, empty, value, short, full, hash, Result, ok, panicked, unfinished, then_with, resolve_hash,
  inserted_below,
}

-- pos: -1, the index of the only child that is left, or -2
pub data Left : Type 0 where
  no_child : Left
  one_child : ℕ → Left
  more_children : Left

abbrev pub is_nil : Node → Bool
is_nil empty = true
is_nil n = false

-- a child that is not nil; `later` is the rest of the loop
unfoldable pub seen_child : ℕ → Left → (Left → Left) → Left
seen_child i no_child later = later (one_child i)
seen_child i (one_child j) later = more_children
seen_child i more_children later = more_children

-- the loop over the children, from `i` on
unfoldable pub scan : (ℕ → Node) → ℕ → ℕ → Left → Left
unfolding seen_child
scan children zero i pos = pos
scan children (suc k) i pos =
    if is_nil (children i)
    then scan children k (suc i) pos
    else seen_child i pos (λ p. scan children k (suc i) p)

-- a short node above what is left of its child
unfoldable pub merged : List ℕ → Node → Node
merged k (short k' child) = short (k ++ k') child
merged k child = short k child

-- a short node in place of a full node
unfoldable pub lifted : ℕ → Node → Node → Node
lifted pos (short k child) n = short (pos ∷ k) child
lifted pos cnode n = short (pos ∷ []) n

module _ (db : ℕ → Option Node) where
  unfoldable pub resolve : Node → Result Node
  unfolding resolve_hash
  resolve (hash h) = resolve_hash h (db h)
  resolve n = ok n

  -- the reduction of a full node
  unfoldable pub reduce : (ℕ → Node) → Left → Result (Bool × Node)
  unfolding resolve lifted
  reduce children (one_child pos) =
      if pos == 16
      then ok (true, short (pos ∷ []) (children pos))
      else then_with (resolve (children pos)) (λ cnode. ok (true, lifted pos cnode (children pos)))
  reduce children pos = ok (true, full children)

  unfoldable pub full_deleted : (ℕ → Node) → ℕ → Bool × Node → Result (Bool × Node)
  unfolding reduce scan
  full_deleted children x (false, nn) = ok (false, full children)
  full_deleted children x (true, nn) =
      let left = update children x nn in
      if is_nil nn then reduce left (scan left 17 0 no_child) else ok (true, full left)

  unfoldable pub delete : ℕ → Node → List ℕ → Result (Bool × Node)
  unfolding inserted_below merged full_deleted resolve_hash
  delete zero n key = unfinished
  delete (suc fuel) empty key = ok (false, empty)
  delete (suc fuel) (value v) key = ok (true, empty)
  delete (suc fuel) (short k child) key =
      let m = prefix_len key k in
      let below = delete fuel child (drop (length k) key) in
      if ltb m (length k)
      then ok (false, short k child)
      else if m == length key
      then ok (true, empty)
      else then_with below (λ r. ok (inserted_below (short k child) (merged k) r))
  delete (suc fuel) (full children) [] = panicked
  delete (suc fuel) (full children) (x ∷ key) =
      let below = delete fuel (children x) key in
      if leb x 16 then then_with below (full_deleted children x) else panicked
  delete (suc fuel) (hash h) key =
      then_with (resolve_hash h (db h))
        λ n. then_with (delete fuel n key) λ r. ok (inserted_below n (λ m. m) r)
