-- ===== src/Tests/Numbers.antt =====
-- rlp/raw.go: the theorems at concrete bytes.
use zond.Prelude.{ℕ, ◌≤◌, ◌≡◌, List, [], ◌∷◌, ◌++◌, length, arith}
use zond.Rlp.{Result, counted, ok, split_uint64, append_uint64, count_values, count_loop}
use zond.Rlp.RoundTrip.{split_uint64-append_uint64}
use zond.Rlp.Count.{count_values_total}

split_uint64-append_uint64_example :
    split_uint64 (append_uint64 [] 70000 ++ 7 ∷ []) ≡ ok (70000, 7 ∷ [])
split_uint64-append_uint64_example = split_uint64-append_uint64 70000 (7 ∷ []) (omega arith)

-- a string of two bytes, and a byte
abbrev encoded : List ℕ
encoded = 0x82 ∷ 1 ∷ 0 ∷ 5 ∷ []

count_values_total_example :
    (r : Result ℕ) × (count_values encoded ≡ counted r)
    × ((fuel : ℕ) → length encoded ≤ fuel → count_loop fuel 0 encoded ≡ counted r)
count_values_total_example = count_values_total encoded (omega arith)
