-- ===== src/Rlp/Size.antt =====
-- rlp/raw.go, IntSize, against AppendUint64.
use zond.Prelude.{
  ℕ, ◌^◌, ◌≤◌, ◌<◌, ◌≡◌, List, [], ltb, ◌==◌, if◌then◌else◌, length, Bool-cases, inl, inr, ltb→lt,
  arith,
}
use zond.Rlp.{append_uint64, intsize, intsize_loop, int_size}

module _ (i : ℕ) where
  -- The condition of one width, for the conditional that tests for it
  by_width :
      (m n : ℕ) (x y : List ℕ)
      → (i < n → length x ≡ m)
      → (n ≤ i → length y ≡ m)
      → length (if ltb i n then x else y) ≡ m
  by_width m n x y f g = elim (Bool-cases (ltb i n)) [
    | inl h ↦ rw h (f (ltb→lt i n h))
    | inr h ↦ rw h (g (ground arith))
  ]

-- For every 64-bit integer, IntSize is the number of bytes that AppendUint64 appends.
pub length-append_uint64 : (i : ℕ) → i < 2 ^ 64 → length (append_uint64 [] i) ≡ int_size i
unfolding append_uint64 int_size intsize intsize_loop
length-append_uint64 i hi = elim (Bool-cases (i == 0)) [
  | inl h ↦ rw h (ground arith)
  | inr h ↦ rw h (
      by_width i _ 128 _ _ (λ hi. ground arith)
        λ lo.
          by_width i _ (2 ^ 8) _ _ (λ hi. ground arith)
            λ lo.
              by_width i _ (2 ^ 16) _ _ (λ hi. ground arith)
                λ lo.
                  by_width i _ (2 ^ 24) _ _ (λ hi. ground arith)
                    λ lo.
                      by_width i _ (2 ^ 32) _ _ (λ hi. ground arith)
                        λ lo.
                          by_width i _ (2 ^ 40) _ _ (λ hi. ground arith)
                            λ lo.
                              by_width i _ (2 ^ 48) _ _ (λ hi. ground arith)
                                λ lo.
                                  by_width i _ (2 ^ 56) _ _ (λ hi. ground arith) λ lo. ground arith)
]
