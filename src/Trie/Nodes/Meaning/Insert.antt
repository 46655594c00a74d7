-- ===== src/Trie/Nodes/Meaning/Insert.antt =====
-- trie/trie.go, insert: on tries without hash nodes it ends, and adds a key to what a trie means.
use zond.Prelude.{
  ℕ, zero, suc, ◌+◌, ◌<◌, ◌≡◌, refl, sym, ap, subst, ◌∙◌, Bool, true, false, Option, List, [], ◌∷◌,
  ◌++◌, ◌==◌, ==_refl, if◌then◌else◌, length, take, drop, take-append, drop-append, length-append,
  arith,
}
use zond.Prelude.Maps.{update}
use zond.Trie.Encoding.{prefix_len}
use zond.Trie.Nodes.{
  Bytes, Node, empty, value, short, full, hash, Result, ok, panicked, then_with, inserted_below,
  insert_new, parted, insert,
}
use zond.Trie.Nodes.Meaning.{IsKey, IsPath, IsTrie}
use zond.Trie.Nodes.Meaning.Paths.{strip-IsKey, strip_self, split, IsKey-after, Parts}
use zond.Trie.Nodes.Meaning.Parted.{Leads-low, parted_lem}
use zond.Trie.Nodes.Meaning.Below.{Inserts, here_lem, new_lem, below_full, below_short}

pub append_empty : (p : List ℕ) → p ++ [] ≡ p
append_empty [] = refl
append_empty (x ∷ p) = ap (λ l. x ∷ l) (append_empty p)

module _ (db : ℕ → Option Node) (fuel : ℕ) where
  -- What insert does at a short node whose path agrees with the key on `m` nibbles
  abbrev short_step : List ℕ → Node → List ℕ → Bytes → ℕ → Result (Bool × Node)
  short_step k child key v m =
      let below = insert db fuel child (drop m key) (value v) in
      if m == length k
      then then_with below (λ r. ok (inserted_below (short k child) (short k) r))
      else parted (take m key) (drop m k) child (drop m key) (value v)

  short_same :
      (p a : List ℕ) (child : Node) (v : Bytes) (c : Bool)
      → IsPath c p
      → IsTrie child c
      → Inserts c child a v (insert db fuel child a (value v))
      → Inserts true (short p child) (p ++ a) v (short_step p child (p ++ a) v (length p))
  short_same p a child v c h t s =
      let goes = below_short p a child v c h t (insert db fuel child a (value v)) s in
      subst (Inserts true (short p child) (p ++ a) v)
        (sym (
          ap
            (λ b.
              if b
              then then_with (insert db fuel child (drop (length p) (p ++ a)) (value v))
                  (λ r. ok (inserted_below (short p child) (short p) r))
              else parted (take (length p) (p ++ a)) (drop (length p) p) child
                  (drop (length p) (p ++ a)) (value v))
            (==_refl (length p))))
        (subst
          (λ l. Inserts true (short p child) (p ++ a) v (
            then_with (insert db fuel child l (value v))
              (λ r. ok (inserted_below (short p child) (short p) r))))
          (sym (drop-append p a)) goes)

  short_forks :
      (p a b : List ℕ) (y : ℕ) (child : Node) (v : Bytes) (c : Bool)
      → IsKey true (p ++ a)
      → IsPath c (p ++ y ∷ b)
      → IsTrie child c
      → Parts a (y ∷ b)
      → Inserts true
          (short (p ++ y ∷ b) child)
          (p ++ a)
          v
          (short_step (p ++ y ∷ b) child (p ++ a) v (length p))
  short_forks p [] b y child v c i h t s = absurd (IsKey-after c p [] b y i h)
  short_forks p (z ∷ a) b y child v c i h t s =
      let (n', e, ins) = parted_lem p a b y z child v c i h t s in (true, n', goes ∙ e, ins)
    where
      apart : (length p == length (p ++ y ∷ b)) ≡ false
      apart =
          let l : length (p ++ y ∷ b) ≡ length p + suc (length b) = length-append p (y ∷ b) in
          ground (arith, l)

      goes :
          short_step (p ++ y ∷ b) child (p ++ z ∷ a) v (length p)
          ≡ parted p (y ∷ b) child (z ∷ a) (value v)
      goes =
          ap
            (λ t.
              if t
              then then_with (insert db fuel child (drop (length p) (p ++ z ∷ a)) (value v))
                  (λ r. ok (inserted_below (short (p ++ y ∷ b) child) (short (p ++ y ∷ b)) r))
              else parted (take (length p) (p ++ z ∷ a)) (drop (length p) (p ++ y ∷ b)) child
                  (drop (length p) (p ++ z ∷ a)) (value v))
            apart
          ∙ ap
              (λ l.
                parted l (drop (length p) (p ++ y ∷ b)) child (drop (length p) (p ++ z ∷ a))
                  (value v))
              (take-append p (z ∷ a))
          ∙ ap (λ l. parted p l child (drop (length p) (p ++ z ∷ a)) (value v))
              (drop-append p (y ∷ b))
          ∙ ap (λ l. parted p (y ∷ b) child l (value v)) (drop-append p (z ∷ a))

  pub shorter :
      (c : Bool) (p a : List ℕ) → IsPath c p → length (p ++ a) < suc fuel → length a < fuel
  shorter c [] a h l = elim h [ ]
  shorter c (x ∷ p) a h l = omega (arith, l, length-append p a)

  short_lem :
      (k key : List ℕ) (child : Node) (v : Bytes) (c : Bool)
      → IsKey true key
      → IsPath c k
      → IsTrie child c
      → length key < suc fuel
      → ((a : List ℕ)
          → IsKey c a
          → length a < fuel
          → Inserts c child a v (insert db fuel child a (value v)))
      → Inserts true (short k child) key v (short_step k child key v (prefix_len key k))
  short_lem k key child v c i h t l below =
      let s = split key k in
      subst (λ m. Inserts true (short k child) key v (short_step k child key v m)) (sym s.len_eq)
        (subst (λ q. Inserts true (short k child) q v (short_step k child q v (length s.common)))
          (sym s.key_eq)
          (on_path s.common s.key_rest s.path_rest s.path_eq s.parts (subst (IsKey true) s.key_eq i)
            (subst (λ q. length q < suc fuel) s.key_eq l)))
    where
      on_path :
          (p a r : List ℕ)
          → k ≡ p ++ r
          → Parts a r
          → IsKey true (p ++ a)
          → length (p ++ a) < suc fuel
          → Inserts true (short k child) (p ++ a) v (short_step k child (p ++ a) v (length p))
      on_path p a [] e s j m =
          let e' = e ∙ append_empty p in
          let path = subst (IsPath c) e' h in
          let rest = strip-IsKey c p (p ++ a) a path j (strip_self p a) in
          subst
            (λ w.
              Inserts true (short w child) (p ++ a) v (short_step w child (p ++ a) v (length p)))
            (sym e') (short_same p a child v c path t (below a rest (shorter c p a path m)))
      on_path p a (y ∷ b) e s j m =
          subst
            (λ w.
              Inserts true (short w child) (p ++ a) v (short_step w child (p ++ a) v (length p)))
            (sym e) (short_forks p a b y child v c j (subst (IsPath c) e h) t s)

pub insert_lem :
    (db : ℕ → Option Node) (fuel : ℕ) (n : Node) (b : Bool) (key : List ℕ) (v : Bytes)
    → IsTrie n b
    → IsKey b key
    → length key < fuel
    → Inserts b n key v (insert db fuel n key (value v))
unfolding insert IsTrie
insert_lem db zero n b key v t i h = absurd (omega arith)
insert_lem db (suc fuel) n true [] v t i h = elim i [ ]
insert_lem db (suc fuel) n false [] v t i h = here_lem n v t
insert_lem db (suc fuel) n false (x ∷ key) v t i h = elim i [ ]
insert_lem db (suc fuel) empty true (x ∷ key) v t i h =
    (true, insert_new (x ∷ key) (value v), refl, new_lem x key v i)
insert_lem db (suc fuel) (value w) true (x ∷ key) v t i h = cc
insert_lem db (suc fuel) (short k child) true (x ∷ key) v (e, c, p, t) i h =
    short_lem db fuel k (x ∷ key) child v c i p t h (λ a j l. insert_lem db fuel child c a v t j l)
insert_lem db (suc fuel) (full children) true (x ∷ key) v (e, t) (c, l, i) h =
    subst (Inserts true (full children) (x ∷ key) v)
      (sym (
        ap
          (λ b.
            if b
            then then_with (insert db fuel (children x) key (value v))
                (λ r. ok (inserted_below (full children) (λ n. full (update children x n)) r))
            else panicked)
          (Leads-low c x l)))
      (below_full children x key v c (e, t) l (insert db fuel (children x) key (value v))
        (insert_lem db fuel (children x) c key v (t c x l) i (omega arith)))
insert_lem db (suc fuel) (hash w) true (x ∷ key) v t i h = elim t [ ]
