-- ===== src/Trie/Nodes/Delete/Reduced.antt =====
-- trie/trie.go, delete: nodes that are merged mean what they meant.
use zond.Prelude.{
  ℕ, zero, suc, ◌+◌, ◌<◌, ◌≡◌, ◌≢◌, refl, sym, ap, subst, ◌∙◌, Bool, true, false, Bool-cases,
  Option, none, some, List, [], ◌∷◌, ◌++◌, ◌==◌, ==_iff, if◌then◌else◌, bind, arith, inl, inr,
}
use zond.Trie.Nodes.{Node, empty, value, short, full, hash, ok, then_with, strip}
use zond.Trie.Nodes.Delete.{
  Left, no_child, one_child, more_children, is_nil, seen_child, scan, merged, lifted, resolve,
  reduce,
}
use zond.Trie.Nodes.Meaning.{lookup, IsKey, IsPath, IsTrie}
use zond.Trie.Nodes.Meaning.Paths.{strip-append}
use zond.Trie.Nodes.Meaning.Parted.{Leads-low}
use native.Mathlib.Decide.{ℕ_discrete}

nil_eq : (n : Node) → is_nil n ≡ true → n ≡ empty
nil_eq empty h = refl
nil_eq (value v) h = cc
nil_eq (short k n) h = cc
nil_eq (full c) h = cc
nil_eq (hash w) h = cc

-- The children before `i`, but for the one that was seen, are nil.
abbrev Seen : (ℕ → Node) → ℕ → Left → Type 0
Seen children i no_child = (j : ℕ) → j < i → children j ≡ empty
Seen children i (one_child p) = (p < i) × ((j : ℕ) → j < i → j ≢ p → children j ≡ empty)
Seen children i more_children = Unit {0}

one_more :
    (children : ℕ → Node) (i : ℕ) (pos : Left)
    → children i ≡ empty
    → Seen children i pos
    → Seen children (suc i) pos
one_more children i no_child e s =
    λ j l. elim (ℕ_discrete j i) [ yes h ↦ ap children h ∙ e | no h ↦ s j (omega arith) ]
one_more children i (one_child p) e (l, s) = (
  omega arith,
  λ j m h. elim (ℕ_discrete j i) [ yes g ↦ ap children g ∙ e | no g ↦ s j (omega arith) h ],
)
one_more children i more_children e s = tt

scan-Seen :
    (children : ℕ → Node) (k i m : ℕ) (pos : Left)
    → k + i ≡ m
    → Seen children i pos
    → Seen children m (scan children k i pos)
unfolding scan seen_child
scan-Seen children zero i m pos e s =
    let same : i ≡ m = omega arith in subst (λ n. Seen children n pos) same s
scan-Seen children (suc k) i m pos e s = elim (Bool-cases (is_nil (children i))) [
  | inl h ↦ rw h (
      scan-Seen children k (suc i) m pos (omega arith)
        (one_more children i pos (nil_eq (children i) h) s))
  | inr h ↦ rw h (on_seen pos s λ p t. scan-Seen children k (suc i) m p (omega arith) t)
]
  where
    on_seen :
        (p : Left)
        → Seen children i p
        → ((p : Left) → Seen children (suc i) p → Seen children m (scan children k (suc i) p))
        → Seen children m (seen_child i p (λ p. scan children k (suc i) p))
    on_seen no_child s later = later (one_child i) (omega arith, λ j l h. s j (omega arith))
    on_seen (one_child p) s later = tt
    on_seen more_children s later = tt

IsPath-append : (c : Bool) (k k' : List ℕ) → IsPath true k → IsPath c k' → IsPath c (k ++ k')
IsPath-append c [] k' h h' = elim h [ ]
IsPath-append c (x ∷ []) [] h h' = elim h' [ ]
IsPath-append c (x ∷ []) (y ∷ k') h h' = (h, h')
IsPath-append c (x ∷ z ∷ k) k' (l, h) h' = (l, IsPath-append c (z ∷ k) k' h h')

pub joined_shape :
    (k : List ℕ) (n : Node) (c : Bool) → IsPath c k → IsTrie n c → IsTrie (merged k n) true
unfolding merged IsTrie
joined_shape k empty c h t = (refl, c, h, t)
joined_shape k (value v) c h t = (refl, c, h, t)
joined_shape k (short k' n) c h (e, d, h', t) =
    (refl, d, IsPath-append d k k' (subst (λ m. IsPath m k) e h) h', t)
joined_shape k (full s) c h t = (refl, c, h, t)
joined_shape k (hash w) c h t = elim t [ ]

pub joined_values :
    (k : List ℕ) (n : Node) (q : List ℕ) → lookup (merged k n) q ≡ lookup (short k n) q
unfolding merged lookup
joined_values k empty q = refl
joined_values k (value v) q = refl
joined_values k (short k' n) q =
    ap (λ r. bind r (λ rest. lookup n rest)) (strip-append k k' q) ∙ assoc (strip k q)
  where
    assoc :
        (r : Option (List ℕ))
        → bind (bind r (strip k')) (λ rest. lookup n rest)
          ≡ bind r (λ s. bind (strip k' s) (λ rest. lookup n rest))
    assoc none = refl
    assoc (some s) = refl
joined_values k (full s) q = refl
joined_values k (hash w) q = refl

resolve_lem : (db : ℕ → Option Node) (n : Node) (b : Bool) → IsTrie n b → resolve db n ≡ ok n
unfolding resolve IsTrie
resolve_lem db empty b t = refl
resolve_lem db (value v) b t = refl
resolve_lem db (short k child) b t = refl
resolve_lem db (full children) b t = refl
resolve_lem db (hash h) b t = elim t [ ]

lifted-joined : (p : ℕ) (n : Node) → lifted p n n ≡ merged (p ∷ []) n
unfolding lifted merged
lifted-joined p empty = refl
lifted-joined p (value v) = refl
lifted-joined p (short k n) = refl
lifted-joined p (full s) = refl
lifted-joined p (hash h) = refl

-- A full node with one child means what a short node above it means.
lone_values :
    (children : ℕ → Node) (p : ℕ)
    → ((j : ℕ) → j < 17 → j ≢ p → children j ≡ empty)
    → (q : List ℕ) → IsKey true q
    → lookup (short (p ∷ []) (children p)) q ≡ lookup (full children) q
unfolding lookup strip
lone_values children p s [] i = elim i [ ]
lone_values children p s (y ∷ q) (c, l, i) = elim (ℕ_discrete y p) [
  | yes e ↦
      let test : (p == y) ≡ true = (==_iff p y).1 (sym e) in
      ap (λ b. bind (if b then some q else none) (λ rest. lookup (children p) rest)) test
      ∙ ap (λ w. lookup (children w) q) (sym e)
  | no h ↦
      let test : (p == y) ≡ false = ground arith in
      let low = Leads-low c y l in
      ap (λ b. bind (if b then some q else none) (λ rest. lookup (children p) rest)) test
      ∙ ap (λ n. lookup n q) (sym (s y (ground arith) h))
]

-- A reduction ends, and keeps what a full node means.
pub reduce_lem :
    (db : ℕ → Option Node) (children : ℕ → Node)
    → IsTrie (full children) true
    → (n' : Node) × (reduce db children (scan children 17 0 no_child) ≡ ok (true, n'))
      × IsTrie n' true
      × ((q : List ℕ) → IsKey true q → lookup n' q ≡ lookup (full children) q)
unfolding reduce IsTrie
reduce_lem db children t =
    on_left (scan children 17 0 no_child)
      (scan-Seen children 17 0 17 no_child refl (λ j l. absurd (omega arith)))
  where
    on_left :
        (pos : Left)
        → Seen children 17 pos
        → (n' : Node) × (reduce db children pos ≡ ok (true, n'))
          × IsTrie n' true
          × ((q : List ℕ) → IsKey true q → lookup n' q ≡ lookup (full children) q)
    on_left no_child s = (full children, refl, t, λ q i. refl)
    on_left more_children s = (full children, refl, t, λ q i. refl)
    on_left (one_child p) (l, s) = elim (ℕ_discrete p 16) [
      | yes e ↦ (
        short (p ∷ []) (children p),
        ap
            (λ b.
              if b
              then ok (true, short (p ∷ []) (children p))
              else then_with (resolve db (children p))
                  (λ cnode. ok (true, lifted p cnode (children p))))
            ((==_iff p 16).1 e),
        (refl, false, e, t.1 false p e),
        lone_values children p s,
      )
      | no h ↦
          let low : p < 16 = omega arith in
          let test : (p == 16) ≡ false = ground arith in
          (
            merged (p ∷ []) (children p),
            ap
                  (λ b.
                    if b
                    then ok (true, short (p ∷ []) (children p))
                    else then_with (resolve db (children p))
                        (λ cnode. ok (true, lifted p cnode (children p))))
                  test
                ∙ ap (λ r. then_with r (λ cnode. ok (true, lifted p cnode (children p))))
                    (resolve_lem db (children p) true (t.1 true p low))
                ∙ ap (λ n. ok (true, n)) (lifted-joined p (children p)),
            joined_shape (p ∷ []) (children p) true low (t.1 true p low),
            λ q i. joined_values (p ∷ []) (children p) q ∙ lone_values children p s q i,
          )
    ]
