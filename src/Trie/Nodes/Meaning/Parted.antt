-- ===== src/Trie/Nodes/Meaning/Parted.antt =====
-- trie/trie.go, insert: a short node that parts from the key becomes a branch.
use zond.Prelude.{
  ℕ, ◌≡◌, ◌≢◌, refl, sym, ap, subst, ◌∙◌, Bool, true, false, Option, none, some, List, [], ◌∷◌,
  ◌++◌, ◌==◌, ◌&&◌, leb, ==_iff, if◌then◌else◌, bind, arith,
}
use zond.Prelude.Maps.{update, update_self, update_ne}
use zond.Trie.Nodes.{
  Bytes, Node, value, short, full, ok, panicked, then_with, no_children, strip, branch, under,
  insert_new, parted,
}
use zond.Trie.Nodes.Meaning.{lookup, Leads, IsKey, IsPath, IsTrie}
use zond.Trie.Nodes.Meaning.Paths.{
  strip-append, Leads-same, IsKey-after, IsPath-before, After, IsPath-After,
}
use zond.Trie.Nodes.Meaning.Changed.{hit, Inserted, key-IsPath, lookup_value}
use native.Mathlib.Decide.{ℕ_discrete}

pub Leads-low : (b : Bool) (x : ℕ) → Leads b x → leb x 16 ≡ true
Leads-low true x h = ground arith
Leads-low false x h = ground arith

-- The old subtree below its nibble
old_shape :
    (b : List ℕ) (child : Node) (c d : Bool)
    → IsTrie child c
    → After c d b
    → IsTrie (insert_new b child) d
unfolding insert_new IsTrie
old_shape [] child c d t e = subst (IsTrie child) (sym e) t
old_shape (w ∷ b) child c d t (e, p) = (e, c, p, t)

old_values :
    (b q : List ℕ) (child : Node)
    → lookup (insert_new b child) q ≡ bind (strip b q) (λ rest. lookup child rest)
unfolding insert_new lookup strip
old_values [] q child = refl
old_values (w ∷ b) q child = refl

-- The new value below its nibble
new_shape : (a : List ℕ) (v : Bytes) (d : Bool) → IsKey d a → IsTrie (insert_new a (value v)) d
unfolding insert_new IsTrie
new_shape [] v true i = elim i [ ]
new_shape [] v false i = refl
new_shape (w ∷ a) v true i = (refl, false, key-IsPath (w ∷ a) i, refl)
new_shape (w ∷ a) v false i = elim i [ ]

new_values :
    (a q : List ℕ) (v : Bytes) → lookup (insert_new a (value v)) q ≡ hit (some v) (strip a q) none
new_values a q v = old_values a q (value v) ∙ lookup_value v (strip a q)

-- The branch of both
abbrev forked : ℕ → Node → ℕ → Node → ℕ → Node
forked y n z m = update (update no_children y n) z m

fork_shape :
    (y z : ℕ) (n m : Node) (d e : Bool)
    → Leads d y
    → Leads e z
    → IsTrie n d
    → IsTrie m e
    → IsTrie (full (forked y n z m)) true
unfolding IsTrie
fork_shape y z n m d e ly lz tn tm = (refl, shapes)
  where
    shapes : (c : Bool) (i : ℕ) → Leads c i → IsTrie (forked y n z m i) c
    shapes c i l = elim (ℕ_discrete i z) [
      | yes same ↦
          subst (λ w. IsTrie w c)
            (sym (ap (forked y n z m) same ∙ update_self (update no_children y n) z m))
            (subst (IsTrie m) (Leads-same e c z lz (subst (Leads c) same l)) tm)
      | no off ↦
          subst (λ w. IsTrie w c) (sym (update_ne (update no_children y n) z i m off))
            (elim (ℕ_discrete i y) [
              | yes same ↦
                  subst (λ w. IsTrie w c)
                    (sym (ap (update no_children y n) same ∙ update_self no_children y n))
                    (subst (IsTrie n) (Leads-same d c y ly (subst (Leads c) same l)) tn)
              | no away ↦ subst (λ w. IsTrie w c) (sym (update_ne no_children y i n away)) tt
            ])
    ]

fork_values :
    (y z : ℕ) (a b : List ℕ) (child : Node) (v : Bytes)
    → z ≢ y
    → (q : List ℕ)
    → lookup (full (forked y (insert_new b child) z (insert_new a (value v)))) q
      ≡ hit (some v) (strip (z ∷ a) q) (bind (strip (y ∷ b) q) (λ rest. lookup child rest))
unfolding lookup strip
fork_values y z a b child v apart [] = refl
fork_values y z a b child v apart (w ∷ q) = elim (ℕ_discrete w z) [
  | yes same ↦
      let here : (z == w) ≡ true = (==_iff z w).1 (sym same) in
      let there : (y == w) ≡ false = other y w (λ e. apart (sym same ∙ sym e)) in
      ap (λ x. lookup x q)
        (ap (forked y (insert_new b child) z (insert_new a (value v))) same
          ∙ update_self (update no_children y (insert_new b child)) z (insert_new a (value v)))
      ∙ new_values a q v
      ∙ tests true false here there
  | no off ↦
      let here : (z == w) ≡ false = other z w (λ e. off (sym e)) in
      ap (λ x. lookup x q)
        (update_ne (update no_children y (insert_new b child)) z w (insert_new a (value v)) off)
      ∙ (elim (ℕ_discrete w y) [
        | yes same ↦
            let there : (y == w) ≡ true = (==_iff y w).1 (sym same) in
            ap (λ x. lookup x q)
              (ap (update no_children y (insert_new b child)) same
                ∙ update_self no_children y (insert_new b child))
            ∙ old_values b q child
            ∙ tests false true here there
        | no away ↦
            let there : (y == w) ≡ false = other y w (λ e. away (sym e)) in
            ap (λ x. lookup x q) (update_ne no_children y w (insert_new b child) away)
            ∙ tests false false here there
      ])
]
  where
    other : (i j : ℕ) → i ≢ j → (i == j) ≡ false
    other i j h = ground arith

    tests :
        (s t : Bool)
        → (z == w) ≡ s
        → (y == w) ≡ t
        → hit
            (some v)
            (if s then strip a q else none)
            (bind (if t then strip b q else none) (λ rest. lookup child rest))
          ≡ hit
              (some v)
              (if z == w then strip a q else none)
              (bind (if y == w then strip b q else none) (λ rest. lookup child rest))
    tests s t h k =
        ap
          (λ x.
            hit (some v) (if x then strip a q else none)
              (bind (if t then strip b q else none) (λ rest. lookup child rest)))
          (sym h)
        ∙ ap
            (λ x.
              hit (some v) (if z == w then strip a q else none)
                (bind (if x then strip b q else none) (λ rest. lookup child rest)))
            (sym k)

under_shape :
    (c : Bool) (p b : List ℕ) (y : ℕ) (n : Node)
    → IsPath c (p ++ y ∷ b)
    → IsTrie n true
    → IsTrie (under p n) true
unfolding under IsTrie
under_shape c [] b y n h t = t
under_shape c (x ∷ p) b y n h t = (refl, true, IsPath-before c x p b y h, t)

under_values :
    (p q : List ℕ) (n : Node) → lookup (under p n) q ≡ bind (strip p q) (λ rest. lookup n rest)
unfolding under lookup strip
under_values [] q n = refl
under_values (x ∷ p) q n = refl

pub parted_lem :
    (p a b : List ℕ) (y z : ℕ) (child : Node) (v : Bytes) (c : Bool)
    → IsKey true (p ++ z ∷ a)
    → IsPath c (p ++ y ∷ b)
    → IsTrie child c
    → z ≢ y
    → (n' : Node) × (parted p (y ∷ b) child (z ∷ a) (value v) ≡ ok (true, n'))
      × Inserted true (short (p ++ y ∷ b) child) (p ++ z ∷ a) (some v) true n'
unfolding parted branch lookup
parted_lem p a b y z child v c i h t apart =
    let (e, lz, ia) = IsKey-after c p (z ∷ a) b y i h in
    let (d, ly, after) = IsPath-After c p b y h in
    let low : (leb y 16 && leb z 16) ≡ true = both (Leads-low d y ly) (Leads-low e z lz) in
    let n = full (forked y (insert_new b child) z (insert_new a (value v))) in
    (
      under p n,
      ap (λ t. then_with (if t then ok n else panicked) (λ m. ok (true, under p m))) low,
      record {
        shape =
            under_shape c p b y n h
              (fork_shape y z _ _ d e ly lz (old_shape b child c d t after) (new_shape a v e ia));
        found = λ q k. values q;
        same = λ x. absurd (off x);
      },
    )
  where
    off : true ≡ false → ⊥
    off x = cc

    both : {s t : Bool} → s ≡ true → t ≡ true → (s && t) ≡ true
    both s t = ground arith

    by_rest :
        (r : Option (List ℕ))
        → bind r
            (λ rest. lookup (full (forked y (insert_new b child) z (insert_new a (value v)))) rest)
          ≡ hit
              (some v)
              (bind r (strip (z ∷ a)))
              (bind (bind r (strip (y ∷ b))) (λ rest. lookup child rest))
    by_rest none = refl
    by_rest (some rest) = fork_values y z a b child v apart rest

    values :
        (q : List ℕ)
        → lookup (under p (full (forked y (insert_new b child) z (insert_new a (value v))))) q
          ≡ hit (some v) (strip (p ++ z ∷ a) q) (lookup (short (p ++ y ∷ b) child) q)
    values q =
        under_values p q (full (forked y (insert_new b child) z (insert_new a (value v))))
        ∙ by_rest (strip p q)
        ∙ ap
            (λ r.
              hit (some v) r (bind (bind (strip p q) (strip (y ∷ b))) (λ rest. lookup child rest)))
            (sym (strip-append p (z ∷ a) q))
        ∙ ap (λ r. hit (some v) (strip (p ++ z ∷ a) q) (bind r (λ rest. lookup child rest)))
            (sym (strip-append p (y ∷ b) q))
