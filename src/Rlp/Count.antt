-- ===== src/Rlp/Count.antt =====
-- rlp/raw.go, CountValues: the loop ends, without a slice out of range, and counts integers.
use zond.Prelude.{
  ℕ, zero, suc, ◌+◌, ◌-◌, ◌%◌, ◌^◌, ◌≤◌, ◌<◌, ◌≡◌, refl, ap, ◌∙◌, ◌||◌, List, [], ◌∷◌, ltb, ◌==◌,
  length, take, drop, length-drop, if-cases, if◌then◌else◌, ◌&&◌, arith,
}
use zond.Rlp.{
  Kind, string, list, Result, ok, error, and_then, big_endian, starts_with_zero, read_size,
  read_tag, small_head, check_fits, read_kind, Counted, counted, out_of_range, count_loop,
  after_value, count_values,
}

-- The tag lies within the input, and the value has at least one byte.
abbrev IsTagged : ℕ → Result (Kind × ℕ × ℕ) → Type 0
IsTagged l (error e) = Unit {0}
IsTagged l (ok q) = (0 < q.1 + q.2) × (q.1 ≤ l)

-- The value lies within the input, and has at least one byte.
abbrev IsWithin : ℕ → Result (Kind × ℕ × ℕ) → Type 0
IsWithin l (error e) = Unit {0}
IsWithin l (ok q) = (0 < q.1 + q.2) × (q.1 + q.2 ≤ l)

sized-IsTagged :
    (rest : List ℕ) (slen : ℕ) (k : Kind)
    → IsTagged (suc (length rest)) (and_then (read_size rest slen) (λ s. ok (k, slen + 1, s)))
unfolding and_then read_size
sized-IsTagged rest slen k =
    if-cases (λ r. IsTagged (suc (length rest)) (and_then r (λ s. ok (k, slen + 1, s))))
      (ltb (length rest) slen) (λ t. tt)
      (λ t.
        if-cases (λ r. IsTagged (suc (length rest)) (and_then r (λ s. ok (k, slen + 1, s))))
          (ltb (big_endian 0 (take slen rest)) 56 || starts_with_zero rest) (λ u. tt)
          (λ u. (omega arith, ground (arith, t))))

read_tag-IsTagged : (b : ℕ) (rest : List ℕ) → IsTagged (suc (length rest)) (read_tag b rest)
unfolding read_tag
read_tag-IsTagged b rest =
    let Fits : Result (Kind × ℕ × ℕ) → Type 0 = IsTagged (suc (length rest)) in
    if-cases Fits (ltb b 0x80) (λ t. (omega arith, omega arith))
      (λ t.
        if-cases Fits (ltb b 0xB8)
          (λ u.
            if-cases Fits (b - 0x80 == 1 && small_head rest) (λ v. tt)
              (λ v. (omega arith, omega arith)))
          (λ u.
            if-cases Fits (ltb b 0xC0) (λ v. sized-IsTagged rest (b - 0xB7) string)
              (λ v.
                if-cases Fits (ltb b 0xF8) (λ w. (omega arith, omega arith))
                  (λ w. sized-IsTagged rest (b - 0xF7) list))))

check_fits-IsWithin :
    (size : ℕ) (r : Result (Kind × ℕ × ℕ))
    → IsTagged size r
    → IsWithin size (and_then r (check_fits size))
unfolding and_then check_fits
check_fits-IsWithin size (error e) h = tt
check_fits-IsWithin size (ok (k, tag, n)) (positive, short) =
    if-cases (IsWithin size) (ltb (size - tag) n) (λ t. tt) (λ t. (positive, ground (arith, t)))

read_kind-IsWithin : (b : List ℕ) → IsWithin (length b) (read_kind b)
unfolding read_kind
read_kind-IsWithin [] = tt
read_kind-IsWithin (b ∷ rest) =
    check_fits-IsWithin (suc (length rest)) (read_tag b rest) (read_tag-IsTagged b rest)

-- What follows a value is a shorter input.
after_value_lem :
    (b : List ℕ) (q : Result (Kind × ℕ × ℕ)) (P : Counted → Type 0) (later : List ℕ → Counted)
    → length b < 2 ^ 63
    → IsWithin (length b) q
    → ((e : Result ℕ) → P (counted e))
    → ((rest : List ℕ) → length rest < length b → P (later rest))
    → P (after_value q b later)
unfolding after_value
after_value_lem b (error e) P later short h f g = f (error e)
after_value_lem b (ok (k, tag, n)) P later short (positive, fits) f g =
    let l = length-drop ((tag + n) % 2 ^ 64) b in
    if-cases P (ltb (length b) ((tag + n) % 2 ^ 64)) (λ t. absurd (ground arith))
      (λ t. g (drop ((tag + n) % 2 ^ 64) b) (omega arith))

-- Fuel for each byte is enough, at any count.
count_loop_total :
    (fuel i : ℕ) (b : List ℕ)
    → length b < 2 ^ 63
    → length b ≤ fuel
    → (r : Result ℕ) × (count_loop fuel i b ≡ counted r)
unfolding count_loop
count_loop_total fuel i [] short h = (ok i, refl)
count_loop_total zero i (b ∷ bs) short h = absurd (omega arith)
count_loop_total (suc fuel) i (b ∷ bs) short h =
    after_value_lem (b ∷ bs) (read_kind (b ∷ bs)) (λ c. (r : Result ℕ) × (c ≡ counted r))
      (count_loop fuel (i + 1)) short (read_kind-IsWithin (b ∷ bs)) (λ e. (e, refl))
      (λ rest l. count_loop_total fuel (i + 1) rest (omega arith) (omega arith))

-- More fuel than needed changes nothing.
count_loop_more :
    (fuel more i : ℕ) (b : List ℕ)
    → length b < 2 ^ 63
    → length b ≤ fuel
    → length b ≤ more
    → count_loop fuel i b ≡ count_loop more i b
unfolding count_loop
count_loop_more fuel more i [] short h k = refl
count_loop_more zero more i (b ∷ bs) short h k = absurd (omega arith)
count_loop_more (suc fuel) zero i (b ∷ bs) short h k = absurd (omega arith)
count_loop_more (suc fuel) (suc more) i (b ∷ bs) short h k =
    same (read_kind (b ∷ bs)) (read_kind-IsWithin (b ∷ bs))
      (λ rest l. count_loop_more fuel more (i + 1) rest (omega arith) (omega arith) (omega arith))
  where
    same :
        (q : Result (Kind × ℕ × ℕ))
        → IsWithin (length (b ∷ bs)) q
        → ((rest : List ℕ)
            → length rest < length (b ∷ bs)
            → count_loop fuel (i + 1) rest ≡ count_loop more (i + 1) rest)
        → after_value q (b ∷ bs) (count_loop fuel (i + 1))
          ≡ after_value q (b ∷ bs) (count_loop more (i + 1))
    same (error e) w later = unfold after_value in refl
    same (ok (kind, tag, n)) (positive, fits) later =
        let skipped = (tag + n) % 2 ^ 64 in
        let l = length-drop skipped (b ∷ bs) in
        unfold after_value in
        ap (λ c. if ltb (length (b ∷ bs)) skipped then out_of_range else c)
          (later (drop skipped (b ∷ bs)) (omega arith))

-- On an input that a Go slice can have, CountValues ends with a count or an error, and no slice
-- is out of range: as much fuel as there are bytes is enough, and more fuel gives the same
-- result.
pub count_values_total :
    (b : List ℕ)
    → length b < 2 ^ 63
    → (r : Result ℕ) × (count_values b ≡ counted r)
      × ((fuel : ℕ) → length b ≤ fuel → count_loop fuel 0 b ≡ counted r)
unfolding count_values
count_values_total b short =
    let (r, e) = count_loop_total (length b) 0 b short (omega arith) in
    (r, e, λ fuel h. count_loop_more fuel (length b) 0 b short h (omega arith) ∙ e)
