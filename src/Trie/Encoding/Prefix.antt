-- ===== src/Trie/Encoding/Prefix.antt =====
-- trie/encoding.go, prefixLen: the length of the common prefix.
use zond.Prelude.{
  ℕ, zero, suc, ◌≤◌, ◌≡◌, refl, List, [], ◌∷◌, arith, ◌==◌, ==_iff, length, take, Bool-cases, inl,
  inr,
}
use zond.Trie.Encoding.{prefix_len}

take_agree : (a b : List ℕ) → take (prefix_len a b) a ≡ take (prefix_len a b) b
unfolding prefix_len
take_agree [] [] = refl
take_agree [] (y ∷ b) = refl
take_agree (x ∷ a) [] = refl
take_agree (x ∷ a) (y ∷ b) = elim (Bool-cases (x == y)) [
  | inl e ↦ rw e (cc ((==_iff x y).0 e, take_agree a b))
  | inr e ↦ rw e refl
]

within : (a b : List ℕ) → (prefix_len a b ≤ length a) × (prefix_len a b ≤ length b)
unfolding prefix_len
within [] b = omega arith
within (x ∷ a) [] = omega arith
within (x ∷ a) (y ∷ b) = ground (arith, within a b)

longest :
    (a b : List ℕ) (n : ℕ) → n ≤ length a → n ≤ length b → take n a ≡ take n b → n ≤ prefix_len a b
unfolding prefix_len
longest a b zero p q e = omega arith
longest [] b (suc n) p q e = absurd (omega arith)
longest (x ∷ a) [] (suc n) p q e = absurd (omega arith)
longest (x ∷ a) (y ∷ b) (suc n) p q e =
    ground (arith, longest a b n (omega arith) (omega arith) (tails e), heads e)
  where
    tails : x ∷ take n a ≡ y ∷ take n b → take n a ≡ take n b
    tails p = cc

    heads : x ∷ take n a ≡ y ∷ take n b → x ≡ y
    heads p = cc

-- prefixLen is the length of the longest common prefix: the keys agree up to it, it stays within
-- both, and any common prefix is at most as long.
pub prefix_len_longest :
    (a b : List ℕ)
    → (take (prefix_len a b) a ≡ take (prefix_len a b) b)
      × (prefix_len a b ≤ length a)
      × (prefix_len a b ≤ length b)
      × ((n : ℕ) → n ≤ length a → n ≤ length b → take n a ≡ take n b → n ≤ prefix_len a b)
prefix_len_longest a b = (take_agree a b, (within a b).0, (within a b).1, longest a b)
