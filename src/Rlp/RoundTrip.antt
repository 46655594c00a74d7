-- ===== src/Rlp/RoundTrip.antt =====
-- rlp/raw.go: SplitUint64 reads what AppendUint64 writes.
use zond.Prelude.{
  ℕ, suc, ◌+◌, ◌-◌, ◌/◌, ◌%◌, ◌^◌, ◌≤◌, ◌<◌, ◌≡◌, ◌≢◌, refl, sym, ap, subst, ◌∙◌, false, List, [],
  ◌∷◌, ◌++◌, ltb, ◌==◌, if◌then◌else◌, take, drop, length, length-append, take-append, drop-append,
  le→ltb, lt→ltb, ltb→lt, Bool-cases, inl, inr, ==_iff, arith,
}
use zond.Rlp.{
  Kind, byte, string, Result, ok, and_then, big_endian, starts_with_zero, read_size, read_tag,
  small_head, check_fits, read_kind, split, only_string, split_string, as_integer, integer_of,
  split_uint64, append_uint64,
}

-- A string of 2 to 55 bytes has a tag of one byte.
read_tag_short :
    (n : ℕ) (rest : List ℕ) → 2 ≤ n → n < 56 → read_tag (0x80 + n) rest ≡ ok (string, 1, n)
unfolding read_tag
read_tag_short n rest lo hi = ground arith

check_fits_lem :
    (size : ℕ) (k : Kind) (tag content : ℕ)
    → content ≤ size - tag
    → check_fits size (k, tag, content) ≡ ok (k, tag, content)
unfolding check_fits
check_fits_lem size k tag content h = ground arith

read_kind_short :
    (content rest : List ℕ)
    → 2 ≤ length content
    → length content < 56
    → read_kind ((0x80 + length content) ∷ (content ++ rest)) ≡ ok (string, 1, length content)
unfolding read_kind and_then
read_kind_short content rest lo hi =
    rw (read_tag_short (length content) (content ++ rest) lo hi, and_then)
      (check_fits_lem (suc (length (content ++ rest))) string 1 (length content)
        (omega (arith, length-append content rest)))

drop_one_more : (n x : ℕ) (l : List ℕ) → drop (1 + n) (x ∷ l) ≡ drop n l
drop_one_more n x l = ap (λ m. drop m (x ∷ l)) one_more
  where
    one_more : 1 + n ≡ suc n
    one_more = omega arith

split_string_short :
    (content rest : List ℕ)
    → 2 ≤ length content
    → length content < 56
    → split_string ((0x80 + length content) ∷ (content ++ rest)) ≡ ok (content, rest)
unfolding split_string split
split_string_short content rest lo hi = rw (read_kind_short content rest lo hi) (
    ap (λ l. ok (l, drop (1 + length content) ((0x80 + length content) ∷ (content ++ rest))))
      (take-append content rest)
    ∙ ap (λ l. ok (content, l))
        (drop_one_more (length content) (0x80 + length content) (content ++ rest)
          ∙ drop-append content rest))

-- Content of 2 to 8 bytes without a leading zero is an integer.
integer_of_lem :
    (c d : ℕ) (cs rest : List ℕ) (i : ℕ)
    → length cs ≤ 6
    → big_endian 0 (c ∷ (d ∷ cs)) ≡ i
    → c ≢ 0
    → 56 ≤ i
    → integer_of (c ∷ (d ∷ cs), rest) ≡ ok (i, rest)
unfolding integer_of read_size as_integer starts_with_zero
integer_of_lem c d cs rest i short value head big =
    let whole = take_all cs in rw (whole) (rw (value) (ground arith))
  where
    take_all : {A : Type 0} (l : List A) → take (length l) l ≡ l
    take_all [] = refl
    take_all (x ∷ xs) = ap (λ r. x ∷ r) (take_all xs)

split_uint64_long :
    (c d : ℕ) (cs rest : List ℕ) (i : ℕ)
    → length cs ≤ 6
    → big_endian 0 (c ∷ (d ∷ cs)) ≡ i
    → c ≢ 0
    → 56 ≤ i
    → split_uint64 ((0x80 + length (c ∷ d ∷ cs)) ∷ c ∷ d ∷ (cs ++ rest)) ≡ ok (i, rest)
unfolding split_uint64 and_then
split_uint64_long c d cs rest i short value head big =
    ap (λ r. and_then r integer_of)
      (split_string_short (c ∷ (d ∷ cs)) rest (omega arith) (omega arith))
    ∙ integer_of_lem c d cs rest i short value head big

split_2_bytes :
    (i : ℕ) (rest : List ℕ)
    → 2 ^ 8 ≤ i
    → i < 2 ^ 16
    → split_uint64 (130 ∷ i / 2 ^ 8 % 256 ∷ i % 256 ∷ rest) ≡ ok (i, rest)
split_2_bytes i rest lo hi =
    split_uint64_long (i / 2 ^ 8 % 256) (i % 256) ([]) rest i (omega arith)
      (unfold big_endian in omega arith) (omega arith) (omega arith)

split_3_bytes :
    (i : ℕ) (rest : List ℕ)
    → 2 ^ 16 ≤ i
    → i < 2 ^ 24
    → split_uint64 (131 ∷ i / 2 ^ 16 % 256 ∷ i / 2 ^ 8 % 256 ∷ i % 256 ∷ rest) ≡ ok (i, rest)
split_3_bytes i rest lo hi =
    split_uint64_long (i / 2 ^ 16 % 256) (i / 2 ^ 8 % 256) (i % 256 ∷ []) rest i (omega arith)
      (unfold big_endian in omega arith) (omega arith) (omega arith)

split_4_bytes :
    (i : ℕ) (rest : List ℕ)
    → 2 ^ 24 ≤ i
    → i < 2 ^ 32
    → split_uint64 (132 ∷ i / 2 ^ 24 % 256 ∷ i / 2 ^ 16 % 256 ∷ i / 2 ^ 8 % 256 ∷ i % 256 ∷ rest)
      ≡ ok (i, rest)
split_4_bytes i rest lo hi =
    split_uint64_long (i / 2 ^ 24 % 256) (i / 2 ^ 16 % 256) (i / 2 ^ 8 % 256 ∷ i % 256 ∷ []) rest i
      (omega arith) (unfold big_endian in omega arith) (omega arith) (omega arith)

split_5_bytes :
    (i : ℕ) (rest : List ℕ)
    → 2 ^ 32 ≤ i
    → i < 2 ^ 40
    → split_uint64 (
        133
        ∷ i / 2 ^ 32 % 256
        ∷ i / 2 ^ 24 % 256
        ∷ i / 2 ^ 16 % 256
        ∷ i / 2 ^ 8 % 256
        ∷ i % 256
        ∷ rest)
      ≡ ok (i, rest)
split_5_bytes i rest lo hi =
    split_uint64_long (i / 2 ^ 32 % 256) (i / 2 ^ 24 % 256)
      (i / 2 ^ 16 % 256 ∷ i / 2 ^ 8 % 256 ∷ i % 256 ∷ []) rest i (omega arith)
      (unfold big_endian in omega arith) (omega arith) (omega arith)

split_6_bytes :
    (i : ℕ) (rest : List ℕ)
    → 2 ^ 40 ≤ i
    → i < 2 ^ 48
    → split_uint64 (
        134
        ∷ i / 2 ^ 40 % 256
        ∷ i / 2 ^ 32 % 256
        ∷ i / 2 ^ 24 % 256
        ∷ i / 2 ^ 16 % 256
        ∷ i / 2 ^ 8 % 256
        ∷ i % 256
        ∷ rest)
      ≡ ok (i, rest)
split_6_bytes i rest lo hi =
    split_uint64_long (i / 2 ^ 40 % 256) (i / 2 ^ 32 % 256)
      (i / 2 ^ 24 % 256 ∷ i / 2 ^ 16 % 256 ∷ i / 2 ^ 8 % 256 ∷ i % 256 ∷ []) rest i (omega arith)
      (unfold big_endian in omega arith) (omega arith) (omega arith)

split_7_bytes :
    (i : ℕ) (rest : List ℕ)
    → 2 ^ 48 ≤ i
    → i < 2 ^ 56
    → split_uint64 (
        135
        ∷ i / 2 ^ 48 % 256
        ∷ i / 2 ^ 40 % 256
        ∷ i / 2 ^ 32 % 256
        ∷ i / 2 ^ 24 % 256
        ∷ i / 2 ^ 16 % 256
        ∷ i / 2 ^ 8 % 256
        ∷ i % 256
        ∷ rest)
      ≡ ok (i, rest)
split_7_bytes i rest lo hi =
    split_uint64_long (i / 2 ^ 48 % 256) (i / 2 ^ 40 % 256)
      (i / 2 ^ 32 % 256 ∷ i / 2 ^ 24 % 256 ∷ i / 2 ^ 16 % 256 ∷ i / 2 ^ 8 % 256 ∷ i % 256 ∷ []) rest
      i (omega arith) (unfold big_endian in omega arith) (omega arith) (omega arith)

split_8_bytes :
    (i : ℕ) (rest : List ℕ)
    → 2 ^ 56 ≤ i
    → i < 2 ^ 64
    → split_uint64 (
        136
        ∷ i / 2 ^ 56 % 256
        ∷ i / 2 ^ 48 % 256
        ∷ i / 2 ^ 40 % 256
        ∷ i / 2 ^ 32 % 256
        ∷ i / 2 ^ 24 % 256
        ∷ i / 2 ^ 16 % 256
        ∷ i / 2 ^ 8 % 256
        ∷ i % 256
        ∷ rest)
      ≡ ok (i, rest)
split_8_bytes i rest lo hi =
    split_uint64_long (i / 2 ^ 56 % 256) (i / 2 ^ 48 % 256)
      (i / 2 ^ 40 % 256
        ∷ i / 2 ^ 32 % 256
        ∷ i / 2 ^ 24 % 256
        ∷ i / 2 ^ 16 % 256
        ∷ i / 2 ^ 8 % 256
        ∷ i % 256
        ∷ [])
      rest i (omega arith) (unfold big_endian in omega arith) (omega arith) (omega arith)

not_lt : (a b : ℕ) → ltb a b ≡ false → b ≤ a
not_lt a b h = ground arith

-- SplitUint64 goes on from the tag.
from_kind :
    (b : List ℕ) (k : Kind) (tag n : ℕ)
    → read_kind b ≡ ok (k, tag, n)
    → split_uint64 b ≡ and_then (only_string (k, take n (drop tag b), drop (tag + n) b)) integer_of
unfolding split_uint64 split_string split and_then
from_kind b k tag n h =
    ap
      (λ (r : Result (Kind × ℕ × ℕ)).
        and_then
          (and_then
            (and_then r (λ (q : Kind × ℕ × ℕ). ok (q.0, take q.2 (drop q.1 b), drop (q.1 + q.2) b)))
            only_string)
          integer_of)
      h

one_byte : (c : ℕ) (rest : List ℕ) → 0 < c → integer_of (c ∷ [], rest) ≡ ok (c, rest)
unfolding integer_of
one_byte c rest lo = ground arith

split_byte : (c : ℕ) (rest : List ℕ) → 0 < c → c < 128 → split_uint64 (c ∷ rest) ≡ ok (c, rest)
unfolding read_kind read_tag and_then only_string
split_byte c rest lo hi = from_kind (c ∷ rest) byte 0 1 kind ∙ one_byte c rest lo
  where
    kind : read_kind (c ∷ rest) ≡ ok (byte, 0, 1)
    kind = rw (lt→ltb c 128 hi) (check_fits_lem (suc (length rest)) byte 0 1 (omega arith))

split_tagged_byte :
    (c : ℕ) (rest : List ℕ) → 128 ≤ c → split_uint64 (0x81 ∷ c ∷ rest) ≡ ok (c, rest)
unfolding read_kind read_tag and_then only_string small_head
split_tagged_byte c rest lo =
    from_kind (0x81 ∷ c ∷ rest) string 1 1 kind ∙ one_byte c rest (omega arith)
  where
    kind : read_kind (0x81 ∷ c ∷ rest) ≡ ok (string, 1, 1)
    kind = rw (le→ltb c 128 lo) (check_fits_lem (suc (suc (length rest))) string 1 1 (omega arith))

split_zero : (rest : List ℕ) → split_uint64 (0x80 ∷ rest) ≡ ok (0, rest)
unfolding read_kind read_tag and_then only_string integer_of
split_zero rest = from_kind (0x80 ∷ rest) string 1 0 kind
  where
    kind : read_kind (0x80 ∷ rest) ≡ ok (string, 1, 0)
    kind = check_fits_lem (suc (length rest)) string 1 0 (omega arith)

module _ (i : ℕ) (rest : List ℕ) where
  abbrev Reads : List ℕ → Type 0
  Reads e = split_uint64 (e ++ rest) ≡ ok (i, rest)

  by_size :
      (n : ℕ) (x y : List ℕ)
      → (i < n → Reads x)
      → (n ≤ i → Reads y)
      → Reads (if ltb i n then x else y)
  by_size n x y f g = elim (Bool-cases (ltb i n)) [
    | inl h ↦ rw h (f (ltb→lt i n h))
    | inr h ↦ rw h (g (not_lt i n h))
  ]

  Reads-small : 0 < i → i < 128 → Reads (i % 256 ∷ [])
  Reads-small lo hi =
      subst (λ c. split_uint64 (c ∷ rest) ≡ ok (i, rest)) whole (split_byte i rest lo hi)
    where
      whole : i ≡ i % 256
      whole = omega arith

  Reads-byte : 128 ≤ i → i < 2 ^ 8 → Reads (0x81 ∷ i % 256 ∷ [])
  Reads-byte lo hi =
      subst (λ c. split_uint64 (0x81 ∷ c ∷ rest) ≡ ok (i, rest)) whole (split_tagged_byte i rest lo)
    where
      whole : i ≡ i % 256
      whole = omega arith

  Reads-zero : i ≡ 0 → Reads (0x80 ∷ [])
  Reads-zero z = split_zero rest ∙ ap (λ n. ok (n, rest)) (sym z)

-- SplitUint64 reads back any 64-bit integer that AppendUint64 wrote, in front of any bytes, and
-- returns those bytes as the rest.
pub split_uint64-append_uint64 :
    (i : ℕ) (rest : List ℕ) → i < 2 ^ 64 → split_uint64 (append_uint64 [] i ++ rest) ≡ ok (i, rest)
unfolding append_uint64
split_uint64-append_uint64 i rest hi = elim (Bool-cases (i == 0)) [
  | inl h ↦ rw h (Reads-zero i rest ((==_iff i 0).0 h))
  | inr h ↦ rw h (
      let pos : 0 < i = ground arith in
      by_size i rest 128 _ _ (Reads-small i rest pos) λ lo.
        by_size i rest (2 ^ 8) _ _ (Reads-byte i rest lo) λ lo.
          by_size i rest (2 ^ 16) _ _ (split_2_bytes i rest lo) λ lo.
            by_size i rest (2 ^ 24) _ _ (split_3_bytes i rest lo) λ lo.
              by_size i rest (2 ^ 32) _ _ (split_4_bytes i rest lo) λ lo.
                by_size i rest (2 ^ 40) _ _ (split_5_bytes i rest lo) λ lo.
                  by_size i rest (2 ^ 48) _ _ (split_6_bytes i rest lo) λ lo.
                    by_size i rest (2 ^ 56) _ _ (split_7_bytes i rest lo)
                      λ lo. split_8_bytes i rest lo hi)
]
