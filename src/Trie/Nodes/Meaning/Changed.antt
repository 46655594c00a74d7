-- ===== src/Trie/Nodes/Meaning/Changed.antt =====
-- trie/trie.go, insert: a subtree that changed below a node.
use zond.Prelude.{
  ℕ, ◌≡◌, refl, sym, ap, subst, ◌∙◌, Bool, true, false, Option, none, some, List, [], ◌∷◌, ◌++◌,
  ◌==◌, ==_iff, if◌then◌else◌, bind, arith,
}
use zond.Prelude.Maps.{update, update_self, update_ne}
use zond.Trie.Nodes.{Bytes, Node, value, short, full, equal_bytes, strip}
use zond.Trie.Nodes.Meaning.{lookup, Leads, IsKey, IsPath, IsTrie}
use zond.Trie.Nodes.Meaning.Paths.{strip-append, strip-IsKey, Leads-same}
use native.Mathlib.Decide.{ℕ_discrete}

-- The value at a key where `v` has been written, where `rest` is what follows the written key in it
abbrev pub hit : Option Bytes → Option (List ℕ) → Option Bytes → Option Bytes
hit v none old = old
hit v (some []) old = v
hit v (some (x ∷ rest)) old = old

-- What insert and delete leave
pub record Inserted (b : Bool) (n : Node) (key : List ℕ) (v : Option Bytes) (dirty : Bool)
    (n' : Node) : Type 0 where
  pub shape : IsTrie n' b
  pub found : (q : List ℕ) → IsKey b q → lookup n' q ≡ hit v (strip key q) (lookup n q)
  pub same : dirty ≡ false → (q : List ℕ) → lookup n' q ≡ lookup n q

pub equal_bytes_eq : (x y : Bytes) → equal_bytes x y ≡ true → x ≡ y
equal_bytes_eq [] [] h = refl
equal_bytes_eq [] (y ∷ ys) h = cc
equal_bytes_eq (x ∷ xs) [] h = cc
equal_bytes_eq (x ∷ xs) (y ∷ ys) h =
    let head : x ≡ y = ground arith in
    let tail = equal_bytes_eq xs ys (ground arith) in λ i. head i ∷ tail i

pub key-IsPath : (k : List ℕ) → IsKey true k → IsPath false k
key-IsPath [] h = elim h [ ]
key-IsPath (x ∷ []) (true, l, i) = elim i [ ]
key-IsPath (x ∷ []) (false, l, i) = l
key-IsPath (x ∷ y ∷ k) (true, l, i) = (l, key-IsPath (y ∷ k) i)
key-IsPath (x ∷ y ∷ k) (false, l, i) = elim i [ ]

pub lookup_value :
    (v : Bytes) (rest : Option (List ℕ))
    → bind rest (λ r. lookup (value v) r) ≡ hit (some v) rest none
unfolding lookup
lookup_value v none = refl
lookup_value v (some []) = refl
lookup_value v (some (x ∷ r)) = refl

-- A subtree changed below a full node
pub full_changed :
    (children : ℕ → Node) (x : ℕ) (key : List ℕ) (v : Option Bytes) (c : Bool) (n' : Node)
    → IsTrie (full children) true
    → Leads c x
    → IsTrie n' c
    → ((q : List ℕ) → IsKey c q → lookup n' q ≡ hit v (strip key q) (lookup (children x) q))
    → IsTrie (full (update children x n')) true
      × ((q : List ℕ)
          → IsKey true q
          → lookup (full (update children x n')) q
            ≡ hit v (strip (x ∷ key) q) (lookup (full children) q))
unfolding IsTrie lookup strip
full_changed children x key v c n' t l s f = ((refl, shapes), values)
  where
    shapes : (d : Bool) (i : ℕ) → Leads d i → IsTrie (update children x n' i) d
    shapes d i m = elim (ℕ_discrete i x) [
      | yes e ↦
          let mode = Leads-same c d x l (subst (Leads d) e m) in
          subst (λ w. IsTrie w d) (sym (ap (update children x n') e ∙ update_self children x n'))
            (subst (IsTrie n') mode s)
      | no away ↦ subst (λ w. IsTrie w d) (sym (update_ne children x i n' away)) (t.1 d i m)
    ]

    values :
        (q : List ℕ)
        → IsKey true q
        → lookup (full (update children x n')) q
          ≡ hit v (strip (x ∷ key) q) (lookup (full children) q)
    values [] i = elim i [ ]
    values (y ∷ q) (d, m, i) = elim (ℕ_discrete y x) [
      | yes e ↦
          let mode = Leads-same d c x (subst (Leads d) e m) l in
          let test : (x == y) ≡ true = (==_iff x y).1 (sym e) in
          ap (λ w. lookup w q) (ap (update children x n') e ∙ update_self children x n')
          ∙ f q (subst (λ b. IsKey b q) mode i)
          ∙ ap (λ w. hit v (strip key q) (lookup (children w) q)) (sym e)
          ∙ ap (λ b. hit v (if b then strip key q else none) (lookup (children y) q)) (sym test)
      | no away ↦
          let test : (x == y) ≡ false = ground arith in
          ap (λ w. lookup w q) (update_ne children x y n' away)
          ∙ ap (λ b. hit v (if b then strip key q else none) (lookup (children y) q)) (sym test)
    ]

-- A subtree changed below a short node
pub short_changed :
    (k a : List ℕ) (child : Node) (v : Option Bytes) (c : Bool) (n' : Node)
    → IsPath c k
    → IsTrie n' c
    → ((q : List ℕ) → IsKey c q → lookup n' q ≡ hit v (strip a q) (lookup child q))
    → (q : List ℕ) → IsKey true q
    → lookup (short k n') q ≡ hit v (strip (k ++ a) q) (lookup (short k child) q)
unfolding lookup
short_changed k a child v c n' p s f q i =
    by_rest (strip k q) refl
    ∙ ap (λ r. hit v r (bind (strip k q) (λ rest. lookup child rest))) (sym (strip-append k a q))
  where
    by_rest :
        (r : Option (List ℕ))
        → strip k q ≡ r
        → bind (strip k q) (λ rest. lookup n' rest)
          ≡ hit v
              (bind (strip k q) (λ rest. strip a rest))
              (bind (strip k q) (λ rest. lookup child rest))
    by_rest none e = rw e refl
    by_rest (some rest) e = rw e (f rest (strip-IsKey c k q rest p i e))
