-- ===== src/Trie/Nodes/Meaning/Below.antt =====
-- trie/trie.go, insert: the end of a key, a new short node, and a node above a subtree.
use zond.Prelude.{
  ℕ, ◌≡◌, refl, sym, ap, subst, ◌∙◌, Bool, true, false, not, Bool-cases, Option, none, some, List,
  [], ◌∷◌, ◌++◌, ◌==◌, ==_iff, if◌then◌else◌, arith, inl, inr,
}
use zond.Prelude.Maps.{update}
use zond.Trie.Nodes.{
  Bytes, Node, empty, value, short, full, hash, Result, ok, then_with, equal_bytes, strip,
  insert_here, inserted_below, insert_new,
}
use zond.Trie.Nodes.Meaning.{lookup, Leads, IsKey, IsPath, IsTrie}
use zond.Trie.Nodes.Meaning.Paths.{Leads-same}
use zond.Trie.Nodes.Meaning.Changed.{
  hit, Inserted, equal_bytes_eq, key-IsPath, lookup_value, full_changed, short_changed,
}

-- A result of insert, and what it leaves
abbrev pub Inserts : Bool → Node → List ℕ → Bytes → Result (Bool × Node) → Type 0
Inserts b n key v r = (d : Bool) × (n' : Node) × (r ≡ ok (d, n')) × Inserted b n key (some v) d n'

ended :
    (v : Bytes) (q : List ℕ) (old : Option Bytes)
    → IsKey false q
    → lookup (value v) q ≡ hit (some v) (some q) old
unfolding lookup
ended v [] old k = refl
ended v (x ∷ q) old k = elim k [ ]

pub here_lem :
    (n : Node) (v : Bytes) → IsTrie n false → Inserts false n [] v (insert_here n (value v))
unfolding insert_here IsTrie lookup strip
here_lem empty v t =
    (true, value v, refl, record { shape = refl; found = λ q k. ended v q none k; same = λ e. cc })
here_lem (value old) v t = (
  not (equal_bytes old v),
  value v,
  refl,
  record { shape = refl; found = λ q k. ended v q (lookup (value old) q) k; same = λ e q. eq e q },
)
  where
    eq : not (equal_bytes old v) ≡ false → (q : List ℕ) → lookup (value v) q ≡ lookup (value old) q
    eq e q = ap (λ w. lookup (value w) q) (sym (equal_bytes_eq old v (ground arith)))
here_lem (short k child) v t = cc
here_lem (full children) v t = cc
here_lem (hash h) v t = elim t [ ]

pub new_lem :
    (x : ℕ) (key : List ℕ) (v : Bytes)
    → IsKey true (x ∷ key)
    → Inserted true empty (x ∷ key) (some v) true (insert_new (x ∷ key) (value v))
unfolding insert_new IsTrie lookup
new_lem x key v i = record {
  shape = (refl, false, key-IsPath (x ∷ key) i, refl);
  found = λ q k. lookup_value v (strip (x ∷ key) q);
  same = λ e. cc;
}

-- A child that was not changed, below a full node
pub full_same :
    (children : ℕ → Node) (x : ℕ) (key : List ℕ) (v : Option Bytes) (c : Bool)
    → Leads c x
    → ((q : List ℕ)
        → IsKey c q
        → lookup (children x) q ≡ hit v (strip key q) (lookup (children x) q))
    → (q : List ℕ) → IsKey true q
    → lookup (full children) q ≡ hit v (strip (x ∷ key) q) (lookup (full children) q)
unfolding lookup strip
full_same children x key v c l s [] k = elim k [ ]
full_same children x key v c l s (y ∷ q) (d, m, i) = elim (Bool-cases (x == y)) [
  | inl h ↦
      let xy : x ≡ y = (==_iff x y).0 h in
      let i' : IsKey c q = subst (λ b. IsKey b q) (Leads-same d c y m (subst (Leads c) xy l)) i in
      ap (λ w. lookup (children w) q) (sym xy)
      ∙ s q i'
      ∙ ap (λ w. hit v (strip key q) (lookup (children w) q)) xy
      ∙ ap (λ b. hit v (if b then strip key q else none) (lookup (children y) q)) (sym h)
  | inr h ↦ ap (λ b. hit v (if b then strip key q else none) (lookup (children y) q)) (sym h)
]

-- A child that was changed or not, below a full node
pub below_full :
    (children : ℕ → Node) (x : ℕ) (key : List ℕ) (v : Bytes) (c : Bool)
    → IsTrie (full children) true
    → Leads c x
    → (r : Result (Bool × Node)) → Inserts c (children x) key v r
    → Inserts true
        (full children)
        (x ∷ key)
        v
        (then_with r (λ p. ok (inserted_below (full children) (λ n. full (update children x n)) p)))
unfolding inserted_below lookup strip
below_full children x key v c t l r (true, n', e, s) =
    let (shapes, values) = full_changed children x key (some v) c n' t l s.shape s.found in
    (
      true,
      full (update children x n'),
      ap
          (λ r.
            then_with r
              (λ p. ok (inserted_below (full children) (λ n. full (update children x n)) p)))
          e,
      record { shape = shapes; found = values; same = λ e. cc },
    )
below_full children x key v c t l r (false, n', e, s) = (
  false,
  full children,
  ap
      (λ r.
        then_with r (λ p. ok (inserted_below (full children) (λ n. full (update children x n)) p)))
      e,
  record {
    shape = t;
    found = full_same children x key (some v) c l (λ q i. sym (s.same refl q) ∙ s.found q i);
    same = λ e q. refl;
  },
)

-- A child that was changed or not, below a short node
pub below_short :
    (k a : List ℕ) (child : Node) (v : Bytes) (c : Bool)
    → IsPath c k
    → IsTrie child c
    → (r : Result (Bool × Node)) → Inserts c child a v r
    → Inserts true
        (short k child)
        (k ++ a)
        v
        (then_with r (λ p. ok (inserted_below (short k child) (short k) p)))
unfolding inserted_below IsTrie
below_short k a child v c h t r (true, n', e, s) = (
  true,
  short k n',
  ap (λ r. then_with r (λ p. ok (inserted_below (short k child) (short k) p))) e,
  record {
    shape = (refl, c, h, s.shape);
    found = short_changed k a child (some v) c n' h s.shape s.found;
    same = λ e. cc;
  },
)
below_short k a child v c h t r (false, n', e, s) = (
  false,
  short k child,
  ap (λ r. then_with r (λ p. ok (inserted_below (short k child) (short k) p))) e,
  record {
    shape = (refl, c, h, t);
    found = short_changed k a child (some v) c child h t (λ q i. sym (s.same refl q) ∙ s.found q i);
    same = λ e q. refl;
  },
)
