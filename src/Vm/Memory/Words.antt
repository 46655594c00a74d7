-- ===== src/Vm/Memory/Words.antt =====
-- core/vm/memory.go: the bytes of a word that Set32 writes are read back, and no other byte changes.
use zond.Prelude.{
  ℕ, zero, suc, ◌+◌, ◌-◌, ◌%◌, ◌^◌, ◌≤◌, ◌<◌, ◌≡◌, refl, sym, ap, ◌∙◌, ◌||◌, some, [], ◌∷◌, ◌++◌,
  ltb, leb, if-cases, length, length-append, length-take, length-drop, take, drop, take-append,
  drop-append, get_elem?, arith,
}
use mathlib.Core.List.{append_assoc}
use native.Mathlib.Decide.{dec_le}
use zond.Vm.{Bytes, Library}
use zond.Vm.Memory.{overwrite, set32, get_ptr}

get_elem?-take_append :
    (n j : ℕ) (xs ys : Bytes)
    → n ≤ length xs
    → j < n
    → get_elem? (take n xs ++ ys) j ≡ get_elem? xs j
get_elem?-take_append zero j xs ys h k = absurd (omega arith)
get_elem?-take_append (suc n) j [] ys h k = absurd (omega arith)
get_elem?-take_append (suc n) zero (x ∷ xs) ys h k = refl
get_elem?-take_append (suc n) (suc j) (x ∷ xs) ys h k =
    get_elem?-take_append n j xs ys (omega arith) (omega arith)

get_elem?-append_ge :
    (xs ys : Bytes) (k j : ℕ) → j ≡ length xs + k → get_elem? (xs ++ ys) j ≡ get_elem? ys k
get_elem?-append_ge [] ys k j h = ap (get_elem? ys) (omega arith)
get_elem?-append_ge (x ∷ xs) ys k zero h = absurd (omega arith)
get_elem?-append_ge (x ∷ xs) ys k (suc j) h = get_elem?-append_ge xs ys k j (omega arith)

get_elem?-drop : (n k j : ℕ) (xs : Bytes) → j ≡ n + k → get_elem? (drop n xs) k ≡ get_elem? xs j
get_elem?-drop zero k j xs h = ap (get_elem? xs) (omega arith)
get_elem?-drop (suc n) k j [] h = refl
get_elem?-drop (suc n) k zero (x ∷ xs) h = absurd (omega arith)
get_elem?-drop (suc n) k (suc j) (x ∷ xs) h = get_elem?-drop n k j xs (omega arith)

module _ (lib : Library) (start v : ℕ) (store : Bytes) (long : length (lib.write_to_slice v) ≡ 32)
    (h : start + 32 ≤ length store) where
  grouped :
      overwrite store start (lib.write_to_slice v)
      ≡ take start store
        ++ (lib.write_to_slice v ++ drop (start + length (lib.write_to_slice v)) store)
  unfolding overwrite
  grouped =
      append_assoc (take start store) (lib.write_to_slice v)
        (drop (start + length (lib.write_to_slice v)) store)

  length_before : length (take start store) ≡ start
  length_before = length-take start store ∙ omega arith

  length-overwrite : length (overwrite store start (lib.write_to_slice v)) ≡ length store
  length-overwrite =
      let a =
        length-append (take start store)
          (lib.write_to_slice v ++ drop (start + length (lib.write_to_slice v)) store) in
      let b =
        length-append (lib.write_to_slice v) (drop (start + length (lib.write_to_slice v)) store) in
      let c = length-drop (start + length (lib.write_to_slice v)) store in
      let d = length_before in ap length grouped ∙ omega arith

  word_back :
      take 32 (drop start (overwrite store start (lib.write_to_slice v))) ≡ lib.write_to_slice v
  word_back =
      let rest = drop (start + length (lib.write_to_slice v)) store in
      ap (λ l. take 32 (drop start l)) grouped
      ∙ ap (take 32) (
          ap (λ n. drop n (take start store ++ (lib.write_to_slice v ++ rest))) (sym length_before)
          ∙ drop-append (take start store) (lib.write_to_slice v ++ rest))
      ∙ ap (λ n. take n (lib.write_to_slice v ++ rest)) (sym long)
      ∙ take-append (lib.write_to_slice v) rest

  others_kept :
      (j : ℕ)
      → (start ≤ j → start + 32 ≤ j)
      → get_elem? (overwrite store start (lib.write_to_slice v)) j ≡ get_elem? store j
  others_kept j out =
      let rest = drop (start + length (lib.write_to_slice v)) store in
      ap (λ l. get_elem? l j) grouped ∙ elim (dec_le start j) [
        | yes l ↦
            let far = out l in
            let a = length_before in
            get_elem?-append_ge (take start store) (lib.write_to_slice v ++ rest) (j - start) j
              (omega arith)
            ∙ get_elem?-append_ge (lib.write_to_slice v) rest (j - (start + 32)) (j - start)
                (omega arith)
            ∙ get_elem?-drop (start + length (lib.write_to_slice v)) (j - (start + 32)) j store
                (omega arith)
        | no g ↦
            get_elem?-take_append start j store (lib.write_to_slice v ++ rest) (omega arith)
              (omega arith)
      ]

-- Where WriteToSlice gives 32 bytes: Set32 of a word at a place below 2^37 within the memory does
-- not panic; the memory keeps its length and every byte outside of the 32 from that place on, and
-- GetPtr of these does not panic and gives the bytes of the word.
pub set32-get_ptr :
    (lib : Library) (start v : ℕ) (store : Bytes)
    → length (lib.write_to_slice v) ≡ 32
    → start < 2 ^ 37
    → start + 32 ≤ length store
    → (store' : Bytes) × (set32 lib start v store ≡ some store')
      × (length store' ≡ length store)
      × ((j : ℕ) → (start ≤ j → start + 32 ≤ j) → get_elem? store' j ≡ get_elem? store j)
      × (get_ptr start 32 store' ≡ some (lib.write_to_slice v))
unfolding set32 get_ptr
set32-get_ptr lib start v store long low h =
    let store' = overwrite store start (lib.write_to_slice v) in
    let same = length-overwrite lib start v store long h in
    (
      store',
      if-cases (λ o. o ≡ some store')
          (ltb (length store) ((start + 32) % 2 ^ 64) || ltb ((start + 32) % 2 ^ 64) start)
          (λ t. absurd (ground arith)) (λ t. refl),
      same,
      others_kept lib start v store long h,
      if-cases (λ o. o ≡ some (lib.write_to_slice v)) (leb (2 ^ 63) start)
          (λ t. absurd (ground arith))
          (λ t.
            if-cases (λ o. o ≡ some (lib.write_to_slice v)) (ltb start (length store'))
              (λ u.
                if-cases (λ o. o ≡ some (lib.write_to_slice v)) (leb (start + 32) (length store'))
                  (λ w. ap some (word_back lib start v store long h)) (λ w. absurd (ground arith)))
              (λ u. absurd (ground arith))),
    )
