-- ===== src/Trie/Nodes.antt =====
-- trie/node.go and trie/trie.go: the nodes of a trie, tryGet and insert. The cached hashes and the dirty
-- flags of nodes are left out; the 17 children of a full node are a function of the index. The
-- database, which gives the node of a hash, is an argument, and so is the depth of the recursion: a
-- call that goes deeper is `unfinished`. The path that an error carries is left out. Keys are what is
-- left of them: key[pos:] in tryGet.
pub mod Meaning
pub mod Delete
use zond.Prelude.{
  ℕ, zero, suc, ◌+◌, Bool, true, false, not, ◌&&◌, Option, none, some, List, [], ◌∷◌, ◌==◌, leb,
  if◌then◌else◌, length, take, drop,
}
use zond.Prelude.Maps.{update}
use zond.Trie.Encoding.{prefix_len}

abbrev pub Bytes : Type 0
Bytes = List ℕ

pub data Node : Type 0 where
  empty : Node
  value : Bytes → Node
  short : List ℕ → Node → Node
  full : (ℕ → Node) → Node
  hash : ℕ → Node

-- A result, MissingNodeError, a Go panic, or a recursion that is too deep
pub data Result {ℓ} (A : Type ℓ) : Type ℓ where
  ok : A → Result A
  missing_node : ℕ → Result A
  panicked : Result A
  unfinished : Result A

abbrev pub then_with {ℓ κ} : {A : Type ℓ} {B : Type κ} → Result A → (A → Result B) → Result B
then_with (ok a) f = f a
then_with (missing_node h) f = missing_node h
then_with panicked f = panicked
then_with unfinished f = unfinished

-- bytes.Equal
abbrev pub equal_bytes : List ℕ → List ℕ → Bool
equal_bytes [] [] = true
equal_bytes [] (y ∷ ys) = false
equal_bytes (x ∷ xs) [] = false
equal_bytes (x ∷ xs) (y ∷ ys) = x == y && equal_bytes xs ys

-- make([]node, 17), or the array of a new full node
abbrev pub no_children : ℕ → Node
no_children i = empty

-- what follows the prefix in a key, if it is one
unfoldable pub strip : List ℕ → List ℕ → Option (List ℕ)
strip [] key = some key
strip (x ∷ xs) [] = none
strip (x ∷ xs) (y ∷ ys) = if x == y then strip xs ys else none

-- The answer of tryGet: the value, the new node and whether a hash was resolved
pub record Got : Type 0 where
  pub found : Option Bytes
  pub new_node : Node
  pub did_resolve : Bool

-- resolveHash
unfoldable pub resolve_hash : ℕ → Option Node → Result Node
resolve_hash h none = missing_node h
resolve_hash h (some n) = ok n

-- n.Val = newnode, if it was resolved
unfoldable pub got_below : Node → (Node → Node) → Got → Got
got_below n set_child r = record r { new_node = if r.did_resolve then set_child r.new_node else n }

module _ (db : ℕ → Option Node) where
  unfoldable pub try_get : ℕ → Node → List ℕ → Result Got
  unfolding strip resolve_hash got_below
  try_get zero n key = unfinished
  try_get (suc fuel) empty key = ok (record { found = none; new_node = empty; did_resolve = false })
  try_get (suc fuel) (value v) key =
      ok (record { found = some v; new_node = value v; did_resolve = false })
  try_get (suc fuel) (short k child) key = elim (strip k key) [
    | none ↦ ok (record { found = none; new_node = short k child; did_resolve = false })
    | some rest ↦
        then_with (try_get fuel child rest) λ r. ok (got_below (short k child) (short k) r)
  ]
  try_get (suc fuel) (full children) [] = panicked
  try_get (suc fuel) (full children) (x ∷ key) =
      let rest = try_get fuel (children x) key in
      if leb x 16
      then then_with rest (λ r. ok (got_below (full children) (λ n. full (update children x n)) r))
      else panicked
  try_get (suc fuel) (hash h) key =
      then_with (resolve_hash h (db h))
        λ child. then_with (try_get fuel child key) λ r. ok (record r { did_resolve = true })

-- insert of an empty key
unfoldable pub insert_here : Node → Node → Result (Bool × Node)
insert_here (value old) (value new) = ok (not (equal_bytes old new), value new)
insert_here (value old) new = panicked
insert_here n new = ok (true, new)

-- a node that was changed below, or the node as it was
unfoldable pub inserted_below : Node → (Node → Node) → Bool × Node → Bool × Node
inserted_below n set_child (dirty, child) = if dirty then (true, set_child child) else (false, n)

-- the children of a new branch, at the two keys that part; a nibble over 16 is out of range
unfoldable pub branch : ℕ → Node → ℕ → Node → Result Node
branch x n y m =
    if leb x 16 && leb y 16 then ok (full (update (update no_children x n) y m)) else panicked

-- a branch below a common prefix
unfoldable pub under : List ℕ → Node → Node
under [] n = n
under (x ∷ xs) n = short (x ∷ xs) n

-- insert into nil
unfoldable pub insert_new : List ℕ → Node → Node
insert_new [] new = new
insert_new (x ∷ key) new = short (x ∷ key) new

-- a short node that parts from the key behind a prefix; an index out of range panics
unfoldable pub parted : List ℕ → List ℕ → Node → List ℕ → Node → Result (Bool × Node)
unfolding branch under insert_new
parted p (y ∷ k) child (x ∷ key) new =
    then_with (branch y (insert_new k child) x (insert_new key new)) λ n. ok (true, under p n)
parted p k child key new = panicked

module _ (db : ℕ → Option Node) where
  unfoldable pub insert : ℕ → Node → List ℕ → Node → Result (Bool × Node)
  unfolding insert_here inserted_below insert_new parted resolve_hash
  insert zero n key new = unfinished
  insert (suc fuel) n [] new = insert_here n new
  insert (suc fuel) empty (x ∷ key) new = ok (true, insert_new (x ∷ key) new)
  insert (suc fuel) (value v) (x ∷ key) new = panicked
  insert (suc fuel) (short k child) (x ∷ key) new =
      let m = prefix_len (x ∷ key) k in
      let below = insert fuel child (drop m (x ∷ key)) new in
      if m == length k
      then then_with below (λ r. ok (inserted_below (short k child) (short k) r))
      else parted (take m (x ∷ key)) (drop m k) child (drop m (x ∷ key)) new
  insert (suc fuel) (full children) (x ∷ key) new =
      let below = insert fuel (children x) key new in
      if leb x 16
      then then_with below
          (λ r. ok (inserted_below (full children) (λ n. full (update children x n)) r))
      else panicked
  insert (suc fuel) (hash h) (x ∷ key) new =
      then_with (resolve_hash h (db h))
        λ n. then_with (insert fuel n (x ∷ key) new) λ r. ok (inserted_below n (λ m. m) r)
