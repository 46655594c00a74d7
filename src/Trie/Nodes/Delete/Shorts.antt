-- ===== src/Trie/Nodes/Delete/Shorts.antt =====
-- trie/trie.go, delete: a short node, whose path parts from the key, is the key, or leads on.
use zond.Prelude.{
  ℕ, suc, ◌+◌, ◌<◌, ◌≡◌, refl, sym, ap, subst, ◌∙◌, Bool, true, false, Option, none, some, List, [],
  ◌∷◌, ◌++◌, ◌==◌, ltb, if◌then◌else◌, bind, length, drop, drop-append, length-append, arith,
}
use zond.Trie.Encoding.{prefix_len}
use zond.Trie.Nodes.{Node, empty, short, Result, ok, then_with, strip, inserted_below}
use zond.Trie.Nodes.Delete.{merged, delete}
use zond.Trie.Nodes.Meaning.{lookup, IsKey, IsPath, IsTrie}
use zond.Trie.Nodes.Meaning.Paths.{strip-append, strip-IsKey, strip_self, split, IsKey-after, Parts}
use zond.Trie.Nodes.Meaning.Changed.{hit, Inserted}
use zond.Trie.Nodes.Meaning.Insert.{append_empty, shorter}
use zond.Trie.Nodes.Delete.Below.{Deletes, nothing_there, deleted_short}

module _ (db : ℕ → Option Node) (fuel : ℕ) where
  -- What delete does at a short node whose path agrees with the key on `m` nibbles
  abbrev short_step : List ℕ → Node → List ℕ → ℕ → Result (Bool × Node)
  short_step k child key m =
      let below = delete db fuel child (drop (length k) key) in
      if ltb m (length k)
      then ok (false, short k child)
      else if m == length key
      then ok (true, empty)
      else then_with below (λ r. ok (inserted_below (short k child) (merged k) r))

  absent :
      (p a b : List ℕ) (y : ℕ) (child : Node) (c : Bool)
      → IsKey true (p ++ a)
      → IsPath c (p ++ y ∷ b)
      → Parts a (y ∷ b)
      → lookup (short (p ++ y ∷ b) child) (p ++ a) ≡ none
  unfolding lookup strip
  absent p [] b y child c i h s = absurd (IsKey-after c p [] b y i h)
  absent p (z ∷ a) b y child c i h s =
      let apart : (y == z) ≡ false = ground arith in
      ap (λ r. bind r (λ rest. lookup child rest))
        (strip-append p (y ∷ b) (p ++ z ∷ a)
          ∙ ap (λ r. bind r (strip (y ∷ b))) (strip_self p (z ∷ a))
          ∙ ap (λ t. if t then strip b a else none) apart)

  not_found :
      (p a b : List ℕ) (y : ℕ) (child : Node) (c : Bool)
      → IsKey true (p ++ a)
      → IsPath c (p ++ y ∷ b)
      → IsTrie child c
      → Parts a (y ∷ b)
      → Deletes true
          (short (p ++ y ∷ b) child)
          (p ++ a)
          (short_step (p ++ y ∷ b) child (p ++ a) (length p))
  unfolding IsTrie
  not_found p a b y child c i h t s =
      let l : length (p ++ y ∷ b) ≡ length p + suc (length b) = length-append p (y ∷ b) in
      let test : ltb (length p) (length (p ++ y ∷ b)) ≡ true = ground (arith, l) in
      (
        false,
        short (p ++ y ∷ b) child,
        ap
            (λ t.
              if t
              then ok (false, short (p ++ y ∷ b) child)
              else if length p == length (p ++ a)
              then ok (true, empty)
              else then_with (delete db fuel child (drop (length (p ++ y ∷ b)) (p ++ a)))
                  (λ r. ok (inserted_below (short (p ++ y ∷ b) child) (merged (p ++ y ∷ b)) r)))
            test,
        record {
          shape = (refl, c, h, t);
          found =
              nothing_there (short (p ++ y ∷ b) child) (p ++ a) i (absent p a b y child c i h s);
          same = λ e q. refl;
        },
      )

  whole :
      (p : List ℕ) (child : Node) (c : Bool)
      → IsPath c p
      → IsTrie child c
      → IsKey c []
      → Inserted true (short p child) p none true empty
  unfolding IsTrie lookup
  whole p child c h t i = record {
    shape = tt;
    found = λ q j. at (strip p q) λ x r e. behind c x r i (strip-IsKey c p q (x ∷ r) h j e);
    same = λ e. cc;
  }
    where
      behind : (c : Bool) (x : ℕ) (r : List ℕ) → IsKey c [] → IsKey c (x ∷ r) → ⊥
      behind true x r i j = i
      behind false x r i j = j

      at :
          (s : Option (List ℕ))
          → ((x : ℕ) (r : List ℕ) → s ≡ some (x ∷ r) → ⊥)
          → none ≡ hit none s (bind s (λ rest. lookup child rest))
      at none off = refl
      at (some []) off = refl
      at (some (x ∷ r)) off = absurd (off x r refl)

  short_whole :
      (p a : List ℕ) (child : Node) (c : Bool)
      → IsPath c p
      → IsTrie child c
      → IsKey c a
      → Deletes c child a (delete db fuel child a)
      → Deletes true (short p child) (p ++ a) (short_step p child (p ++ a) (length p))
  short_whole p [] child c h t i below =
      let l : length (p ++ []) ≡ length p = length-append p [] ∙ omega arith in
      let apart : ltb (length p) (length p) ≡ false = ground arith in
      let ends : (length p == length (p ++ [])) ≡ true = ground (arith, l) in
      (
        true,
        empty,
        ap
              (λ t.
                if t
                then ok (false, short p child)
                else if length p == length (p ++ [])
                then ok (true, empty)
                else then_with (delete db fuel child (drop (length p) (p ++ [])))
                    (λ r. ok (inserted_below (short p child) (merged p) r)))
              apart
            ∙ ap
                (λ t.
                  if t
                  then ok (true, empty)
                  else then_with (delete db fuel child (drop (length p) (p ++ [])))
                      (λ r. ok (inserted_below (short p child) (merged p) r)))
                ends,
        subst (λ k. Inserted true (short p child) k none true empty) (sym (append_empty p))
            (whole p child c h t i),
      )
  short_whole p (x ∷ a) child c h t i below =
      let l : length (p ++ x ∷ a) ≡ length p + suc (length a) = length-append p (x ∷ a) in
      let apart : ltb (length p) (length p) ≡ false = ground arith in
      let more : (length p == length (p ++ x ∷ a)) ≡ false = ground (arith, l) in
      let (d, n', e, s) =
        deleted_short p (x ∷ a) child c h t (delete db fuel child (x ∷ a)) below in
      (
        d,
        n',
        ap
              (λ t.
                if t
                then ok (false, short p child)
                else if length p == length (p ++ x ∷ a)
                then ok (true, empty)
                else then_with (delete db fuel child (drop (length p) (p ++ x ∷ a)))
                    (λ r. ok (inserted_below (short p child) (merged p) r)))
              apart
            ∙ ap
                (λ t.
                  if t
                  then ok (true, empty)
                  else then_with (delete db fuel child (drop (length p) (p ++ x ∷ a)))
                      (λ r. ok (inserted_below (short p child) (merged p) r)))
                more
            ∙ ap
                (λ l.
                  then_with (delete db fuel child l)
                    (λ r. ok (inserted_below (short p child) (merged p) r)))
                (drop-append p (x ∷ a))
            ∙ e,
        s,
      )

  pub short_lem :
      (k key : List ℕ) (child : Node) (c : Bool)
      → IsKey true key
      → IsPath c k
      → IsTrie child c
      → length key < suc fuel
      → ((a : List ℕ) → IsKey c a → length a < fuel → Deletes c child a (delete db fuel child a))
      → Deletes true (short k child) key (short_step k child key (prefix_len key k))
  short_lem k key child c i h t l below =
      let s = split key k in
      subst (λ m. Deletes true (short k child) key (short_step k child key m)) (sym s.len_eq)
        (subst (λ q. Deletes true (short k child) q (short_step k child q (length s.common)))
          (sym s.key_eq)
          (on_path s.common s.key_rest s.path_rest s.path_eq s.parts (subst (IsKey true) s.key_eq i)
            (subst (λ q. length q < suc fuel) s.key_eq l)))
    where
      on_path :
          (p a r : List ℕ)
          → k ≡ p ++ r
          → Parts a r
          → IsKey true (p ++ a)
          → length (p ++ a) < suc fuel
          → Deletes true (short k child) (p ++ a) (short_step k child (p ++ a) (length p))
      on_path p a [] e s j m =
          let e' = e ∙ append_empty p in
          let path = subst (IsPath c) e' h in
          let rest = strip-IsKey c p (p ++ a) a path j (strip_self p a) in
          subst
            (λ w. Deletes true (short w child) (p ++ a) (short_step w child (p ++ a) (length p)))
            (sym e')
            (short_whole p a child c path t rest (below a rest (shorter db fuel c p a path m)))
      on_path p a (y ∷ b) e s j m =
          subst
            (λ w. Deletes true (short w child) (p ++ a) (short_step w child (p ++ a) (length p)))
            (sym e) (not_found p a b y child c j (subst (IsPath c) e h) t s)
