-- ===== src/Trie/Nodes/Delete/Deleted.antt =====
-- trie/trie.go, delete: on tries without hash nodes it ends, and takes a key from what a trie means.
use zond.Prelude.{
  ℕ, zero, suc, ◌<◌, ◌≡◌, refl, sym, ap, subst, ◌∙◌, Bool, true, false, Option, none, some, List,
  [], ◌∷◌, if◌then◌else◌, length, arith,
}
use zond.Trie.Nodes.{
  Bytes, Node, empty, value, short, full, hash, ok, panicked, then_with, equal_bytes, strip,
  try_get,
}
use zond.Trie.Nodes.Delete.{full_deleted, delete}
use zond.Trie.Nodes.Meaning.{lookup, IsKey, IsTrie}
use zond.Trie.Nodes.Meaning.Changed.{hit}
use zond.Trie.Nodes.Meaning.Parted.{Leads-low}
use zond.Trie.Nodes.Meaning.Written.{plain, try_get-lookup, hit_key}
use zond.Trie.Nodes.Delete.Below.{Deletes, unhit, deleted_full}
use zond.Trie.Nodes.Delete.Shorts.{short_lem}

ended : (v : Bytes) (q : List ℕ) → IsKey false q → none ≡ hit none (some q) (lookup (value v) q)
ended v [] i = refl
ended v (x ∷ q) i = elim i [ ]

delete_lem :
    (db : ℕ → Option Node) (fuel : ℕ) (n : Node) (b : Bool) (key : List ℕ)
    → IsTrie n b
    → IsKey b key
    → length key < fuel
    → Deletes b n key (delete db fuel n key)
unfolding delete IsTrie lookup strip
delete_lem db zero n b key t i h = absurd (omega arith)
delete_lem db (suc fuel) empty b key t i h = (
  false,
  empty,
  refl,
  record { shape = tt; found = λ q j. unhit (strip key q); same = λ e q. refl },
)
delete_lem db (suc fuel) (value v) true key t i h = cc
delete_lem db (suc fuel) (value v) false [] t i h =
    (true, empty, refl, record { shape = tt; found = λ q j. ended v q j; same = λ e. cc })
delete_lem db (suc fuel) (value v) false (x ∷ key) t i h = elim i [ ]
delete_lem db (suc fuel) (short k child) false key t i h = cc
delete_lem db (suc fuel) (short k child) true key (e, c, p, t) i h =
    short_lem db fuel k key child c i p t h (λ a j l. delete_lem db fuel child c a t j l)
delete_lem db (suc fuel) (full children) false key t i h = cc
delete_lem db (suc fuel) (full children) true [] t i h = elim i [ ]
delete_lem db (suc fuel) (full children) true (x ∷ key) (e, t) (c, l, i) h =
    subst (Deletes true (full children) (x ∷ key))
      (sym (
        ap
          (λ b.
            if b
            then then_with (delete db fuel (children x) key) (full_deleted db children x)
            else panicked)
          (Leads-low c x l)))
      (deleted_full db children x key c (e, t) l (delete db fuel (children x) key)
        (delete_lem db fuel (children x) c key (t c x l) i (omega arith)))
delete_lem db (suc fuel) (hash w) b key t i h = elim t [ ]

-- On a trie without hash nodes, with keys of nibbles that end with the terminator, and a depth of
-- recursion over the length of the key: delete ends without an error or a panic in a trie of the
-- same shape, in which tryGet, also with a depth over the length of its key, answers nothing at
-- the deleted key and at each other key what the trie meant before, also where nodes were merged.
pub delete-try_get :
    (db : ℕ → Option Node) (fuel more : ℕ) (n : Node) (key q : List ℕ)
    → IsTrie n true
    → IsKey true key
    → IsKey true q
    → length key < fuel
    → length q < more
    → (dirty : Bool) × (n' : Node) × (delete db fuel n key ≡ ok (dirty, n'))
      × IsTrie n' true
      × (try_get db more n' q ≡ plain n' (if equal_bytes q key then none else lookup n q))
delete-try_get db fuel more n key q t i j h l =
    let (dirty, n', e, s) = delete_lem db fuel n true key t i h in
    (
      dirty,
      n',
      e,
      s.shape,
      try_get-lookup db more n' true q s.shape j l
          ∙ ap (plain n') (s.found q j ∙ hit_key true key q none (lookup n q) i j),
    )
