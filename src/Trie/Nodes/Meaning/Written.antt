-- ===== src/Trie/Nodes/Meaning/Written.antt =====
-- trie/trie.go: tryGet reads what a trie means, and insert writes it.
use zond.Prelude.{
  ℕ, zero, suc, ◌<◌, ◌≡◌, refl, sym, ap, subst, ◌∙◌, Bool, true, false, Bool-cases, Option, none,
  some, List, [], ◌∷◌, ◌==◌, ◌&&◌, ==_iff, if◌then◌else◌, bind, length, arith, inl, inr,
}
use zond.Prelude.Maps.{update}
use zond.Trie.Nodes.{
  Bytes, Node, empty, value, short, full, hash, Result, ok, panicked, then_with, equal_bytes, strip,
  Got, got_below, try_get, insert,
}
use zond.Trie.Nodes.Meaning.{lookup, Leads, IsKey, IsTrie}
use zond.Trie.Nodes.Meaning.Paths.{strip-IsKey, Leads-same, strip-length}
use zond.Trie.Nodes.Meaning.Changed.{hit}
use zond.Trie.Nodes.Meaning.Parted.{Leads-low}
use zond.Trie.Nodes.Meaning.Insert.{insert_lem}

-- What tryGet answers where no hash is resolved
abbrev pub plain : Node → Option Bytes → Result Got
plain n found = ok (record { found = found; new_node = n; did_resolve = false })

-- On a trie without hash nodes, at a key that fits, with a depth of recursion over the length of
-- the key: tryGet ends without an error or a panic, answers the value that the trie has at the
-- key as a map, and resolves nothing and leaves the node as it was.
pub try_get-lookup :
    (db : ℕ → Option Node) (fuel : ℕ) (n : Node) (b : Bool) (key : List ℕ)
    → IsTrie n b
    → IsKey b key
    → length key < fuel
    → try_get db fuel n key ≡ plain n (lookup n key)
unfolding try_get IsTrie lookup got_below
try_get-lookup db zero n b key t i h = absurd (omega arith)
try_get-lookup db (suc fuel) empty b key t i h = refl
try_get-lookup db (suc fuel) (value v) true key t i h = cc
try_get-lookup db (suc fuel) (value v) false [] t i h = refl
try_get-lookup db (suc fuel) (value v) false (x ∷ key) t i h = elim i [ ]
try_get-lookup db (suc fuel) (short k child) b key (e, c, p, t) i h =
    on_strip (strip k key) refl λ rest s.
      try_get-lookup db fuel child c rest t
        (strip-IsKey c k key rest p (subst (λ m. IsKey m key) e i) s)
        (strip-length c k key rest fuel p s h)
  where
    on_strip :
        (r : Option (List ℕ))
        → strip k key ≡ r
        → ((rest : List ℕ)
            → strip k key ≡ some rest
            → try_get db fuel child rest ≡ plain child (lookup child rest))
        → (elim r [
          | none ↦ plain (short k child) none
          | some rest ↦
              then_with (try_get db fuel child rest) λ g. ok (got_below (short k child) (short k) g)
        ])
          ≡ plain (short k child) (bind r (λ rest. lookup child rest))
    on_strip none s below = refl
    on_strip (some rest) s below =
        ap (λ r. then_with r (λ g. ok (got_below (short k child) (short k) g))) (below rest s)
try_get-lookup db (suc fuel) (full children) true [] t i h = elim i [ ]
try_get-lookup db (suc fuel) (full children) false key (e, t) i h = cc
try_get-lookup db (suc fuel) (full children) true (x ∷ key) (e, t) (c, l, i) h =
    ap
      (λ b.
        if b
        then then_with (try_get db fuel (children x) key)
            (λ g. ok (got_below (full children) (λ n. full (update children x n)) g))
        else panicked)
      (Leads-low c x l)
    ∙ ap
        (λ r. then_with r (λ g. ok (got_below (full children) (λ n. full (update children x n)) g)))
        (try_get-lookup db fuel (children x) c key (t c x l) i (omega arith))
try_get-lookup db (suc fuel) (hash w) b key t i h = elim t [ ]

-- On keys, a prefix is the whole key.
pub hit_key :
    (b : Bool) (key q : List ℕ) (v : Option Bytes) (old : Option Bytes)
    → IsKey b key
    → IsKey b q
    → hit v (strip key q) old ≡ (if equal_bytes q key then v else old)
unfolding strip
hit_key true [] q v old i j = elim i [ ]
hit_key false [] [] v old i j = refl
hit_key false [] (y ∷ q) v old i j = elim j [ ]
hit_key false (x ∷ key) q v old i j = elim i [ ]
hit_key true (x ∷ key) [] v old i j = elim j [ ]
hit_key true (x ∷ key) (y ∷ q) v old (b, l, i) (c, m, j) = elim (Bool-cases (x == y)) [
  | inl e ↦
      let xy = (==_iff x y).0 e in
      let back : (y == x) ≡ true = (==_iff y x).1 (sym xy) in
      ap (λ t. hit v (if t then strip key q else none) old) e
      ∙ hit_key b key q v old i
          (subst (λ d. IsKey d q) (Leads-same c b y m (subst (Leads b) xy l)) j)
      ∙ ap (λ t. if (t && equal_bytes q key) then v else old) (sym back)
  | inr e ↦
      let back : (y == x) ≡ false = ground arith in
      ap (λ t. hit v (if t then strip key q else none) old) e
      ∙ ap (λ t. if (t && equal_bytes q key) then v else old) (sym back)
]

-- On a trie without hash nodes, with keys of nibbles that end with the terminator, and a depth of
-- recursion over the length of the key: insert of a value ends without an error or a panic in a
-- trie of the same shape, in which tryGet, also with a depth over the length of its key, answers
-- the new value at the inserted key and at each other key what the trie meant before.
pub insert-try_get :
    (db : ℕ → Option Node) (fuel more : ℕ) (n : Node) (key q : List ℕ) (v : Bytes)
    → IsTrie n true
    → IsKey true key
    → IsKey true q
    → length key < fuel
    → length q < more
    → (dirty : Bool) × (n' : Node) × (insert db fuel n key (value v) ≡ ok (dirty, n'))
      × IsTrie n' true
      × (try_get db more n' q ≡ plain n' (if equal_bytes q key then some v else lookup n q))
insert-try_get db fuel more n key q v t i j h l =
    let (dirty, n', e, s) = insert_lem db fuel n true key v t i h in
    (
      dirty,
      n',
      e,
      s.shape,
      try_get-lookup db more n' true q s.shape j l
          ∙ ap (plain n') (s.found q j ∙ hit_key true key q (some v) (lookup n q) i j),
    )
