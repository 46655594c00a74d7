-- ===== src/Trie/Nodes/Delete/Below.antt =====
-- trie/trie.go, delete: a key that is missing, and a node above a subtree.
use zond.Prelude.{
  ℕ, ◌≡◌, refl, sym, ap, ◌∙◌, Bool, true, false, Bool-cases, Option, none, some, List, [], ◌∷◌,
  ◌++◌, if◌then◌else◌, inl, inr,
}
use zond.Prelude.Maps.{update}
use zond.Trie.Nodes.{Node, short, full, Result, ok, then_with, equal_bytes, strip, inserted_below}
use zond.Trie.Nodes.Delete.{is_nil, no_child, scan, merged, reduce, full_deleted}
use zond.Trie.Nodes.Delete.Reduced.{joined_shape, joined_values, reduce_lem}
use zond.Trie.Nodes.Meaning.{lookup, Leads, IsKey, IsPath, IsTrie}
use zond.Trie.Nodes.Meaning.Changed.{hit, Inserted, equal_bytes_eq, full_changed, short_changed}
use zond.Trie.Nodes.Meaning.Below.{full_same}
use zond.Trie.Nodes.Meaning.Written.{hit_key}

-- A result of delete, and what it leaves
abbrev pub Deletes : Bool → Node → List ℕ → Result (Bool × Node) → Type 0
Deletes b n key r = (d : Bool) × (n' : Node) × (r ≡ ok (d, n')) × Inserted b n key none d n'

pub unhit : (r : Option (List ℕ)) → none ≡ hit none r none
unhit none = refl
unhit (some []) = refl
unhit (some (x ∷ r)) = refl

-- A key that a trie does not have
pub nothing_there :
    (n : Node) (key : List ℕ)
    → IsKey true key
    → lookup n key ≡ none
    → (q : List ℕ) → IsKey true q
    → lookup n q ≡ hit none (strip key q) (lookup n q)
nothing_there n key i e q j = elim (Bool-cases (equal_bytes q key)) [
  | inl h ↦
      let gone : lookup n q ≡ none = ap (lookup n) (equal_bytes_eq q key h) ∙ e in
      gone ∙ unhit (strip key q) ∙ ap (hit none (strip key q)) (sym gone)
  | inr h ↦
      sym (hit_key true key q none (lookup n q) i j ∙ ap (λ b. if b then none else lookup n q) h)
]

-- A subtree of a full node that was changed or not
pub deleted_full :
    (db : ℕ → Option Node) (children : ℕ → Node) (x : ℕ) (key : List ℕ) (c : Bool)
    → IsTrie (full children) true
    → Leads c x
    → (r : Result (Bool × Node)) → Deletes c (children x) key r
    → Deletes true (full children) (x ∷ key) (then_with r (full_deleted db children x))
unfolding full_deleted
deleted_full db children x key c t l r (false, n', e, s) = (
  false,
  full children,
  ap (λ r. then_with r (full_deleted db children x)) e,
  record {
    shape = t;
    found = full_same children x key none c l (λ q i. sym (s.same refl q) ∙ s.found q i);
    same = λ e q. refl;
  },
)
deleted_full db children x key c t l r (true, n', e, s) =
    let (shapes, values) = full_changed children x key none c n' t l s.shape s.found in
    let left = update children x n' in
    let (m, red, shape', same') = reduce_lem db left shapes in
    elim (Bool-cases (is_nil n')) [
      | inl h ↦ (
        true,
        m,
        ap (λ r. then_with r (full_deleted db children x)) e
            ∙ ap (λ b. if b then reduce db left (scan left 17 0 no_child) else ok (true, full left))
                h
            ∙ red,
        record { shape = shape'; found = λ q i. same' q i ∙ values q i; same = λ e. cc },
      )
      | inr h ↦ (
        true,
        full left,
        ap (λ r. then_with r (full_deleted db children x)) e
            ∙ ap (λ b. if b then reduce db left (scan left 17 0 no_child) else ok (true, full left))
                h,
        record { shape = shapes; found = values; same = λ e. cc },
      )
    ]

-- A subtree of a short node that was changed or not
pub deleted_short :
    (k a : List ℕ) (child : Node) (c : Bool)
    → IsPath c k
    → IsTrie child c
    → (r : Result (Bool × Node)) → Deletes c child a r
    → Deletes true
        (short k child)
        (k ++ a)
        (then_with r (λ p. ok (inserted_below (short k child) (merged k) p)))
unfolding inserted_below IsTrie
deleted_short k a child c h t r (true, n', e, s) = (
  true,
  merged k n',
  ap (λ r. then_with r (λ p. ok (inserted_below (short k child) (merged k) p))) e,
  record {
    shape = joined_shape k n' c h s.shape;
    found = λ q i. joined_values k n' q ∙ short_changed k a child none c n' h s.shape s.found q i;
    same = λ e. cc;
  },
)
deleted_short k a child c h t r (false, n', e, s) = (
  false,
  short k child,
  ap (λ r. then_with r (λ p. ok (inserted_below (short k child) (merged k) p))) e,
  record {
    shape = (refl, c, h, t);
    found = short_changed k a child none c child h t (λ q i. sym (s.same refl q) ∙ s.found q i);
    same = λ e q. refl;
  },
)
