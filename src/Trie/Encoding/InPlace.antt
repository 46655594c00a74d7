-- ===== src/Trie/Encoding/InPlace.antt =====
-- trie/encoding.go, hexToCompactInPlace: the routine that overwrites its input agrees with
-- hexToCompact.
use zond.Prelude.{
  ℕ, zero, suc, ◌+◌, ◌-◌, ◌*◌, ◌/◌, ◌%◌, ◌≤◌, ◌<◌, ◌≡◌, refl, sym, ap, subst, ◌∙◌, Bool, true,
  false, some, List, [], ◌∷◌, ◌++◌, arith, ◌==◌, if◌then◌else◌, length, length-append, length-set,
  get_elem?, set, take, drop, take-suc-set, drop-set_lt, All,
}
use zond.Trie.Encoding.{
  has_term, decode_nibbles, pack_parts, pack_key, without_term, hex_to_compact, in_place_loop,
  write_first, in_place_from, odd_start, hex_to_compact_in_place,
}
use zond.Trie.Encoding.RoundTrip.{
  IsNibble, hex_key, pack_key_even, pack_key_odd, pack_parts_lem, has_term-hex_key,
  without_term-hex_key, flag_of,
}
use Prim.Native.Nat.{bit_or}
use mathlib.Core.List.{append_assoc, append-nil}
use native.Mathlib.Nat.{add-zero}
use native.Mathlib.Decide.{ℕ_discrete}
use native.Mathlib.Numerals.{add-one}

module _ {ℓ} {A : Type ℓ} where
  get_elem?-drop :
      (xs : List A) (n : ℕ) {x : A} {r : List A} → drop n xs ≡ x ∷ r → get_elem? xs n ≡ some x
  get_elem?-drop [] zero e = cc
  get_elem?-drop [] (suc n) e = cc
  get_elem?-drop (y ∷ xs) zero e = cc
  get_elem?-drop (y ∷ xs) (suc n) e = get_elem?-drop xs n e

  drop-suc : (xs : List A) (n : ℕ) {x : A} {r : List A} → drop n xs ≡ x ∷ r → drop (suc n) xs ≡ r
  drop-suc [] zero e = cc
  drop-suc [] (suc n) e = cc
  drop-suc (y ∷ xs) zero e = cc
  drop-suc (y ∷ xs) (suc n) e = drop-suc xs n e

  lt-length-drop : (xs : List A) (n : ℕ) {x : A} {r : List A} → drop n xs ≡ x ∷ r → n < length xs
  lt-length-drop [] zero e = cc
  lt-length-drop [] (suc n) e = cc
  lt-length-drop (y ∷ xs) zero e = omega arith
  lt-length-drop (y ∷ xs) (suc n) e = omega (arith, lt-length-drop xs n e)

-- The result of the loop: what it packed, behind the part of the buffer before `bi`.
abbrev Packed : List ℕ → ℕ → List ℕ → List ℕ → ℕ → List ℕ → Type 0
Packed hex bi key bs k buf =
    (decode_nibbles key ≡ some bs)
    × (take (bi + k) buf ≡ take bi hex ++ bs)
    × (length buf ≡ length hex)

loop_lem :
    (k bi ni : ℕ) (hex key tail : List ℕ)
    → drop ni hex ≡ key ++ tail
    → length key ≡ 2 * k
    → bi ≤ ni + 1
    → (buf : List ℕ) × (bs : List ℕ) × (in_place_loop k bi ni hex ≡ some buf)
      × (Packed hex bi key bs k buf)
unfolding in_place_loop decode_nibbles
loop_lem zero bi ni hex [] tail e l h =
    (hex, [], refl, (refl, rw add-zero (sym (append-nil (take bi hex))), refl))
loop_lem zero bi ni hex (a ∷ r) tail e l h = absurd (omega arith)
loop_lem (suc k) bi ni hex [] tail e l h = absurd (omega arith)
loop_lem (suc k) bi ni hex (a ∷ []) tail e l h = absurd (omega arith)
loop_lem (suc k) bi ni hex (a ∷ (b ∷ r)) tail e l h =
    let v = bit_or (a * 16 % 256) b in
    let (buf, bs, run, packed) =
      loop_lem k (bi + 1) (ni + 2) (set hex bi v) r tail (later v) (omega arith) (omega arith) in
    (
      buf,
      v ∷ bs,
      rw (read_a, read_b, in_place_loop) run,
      (rw packed.0, grown v buf bs packed.1, packed.2 ∙ length-set hex bi v),
    )
  where
    next : drop (suc ni) hex ≡ b ∷ (r ++ tail)
    next = drop-suc hex ni e

    read_a : get_elem? hex ni ≡ some a
    read_a = get_elem?-drop hex ni e

    read_b : get_elem? hex (ni + 1) ≡ some b
    read_b = rw add-one (get_elem?-drop hex (suc ni) next)

    later : (v : ℕ) → drop (ni + 2) (set hex bi v) ≡ r ++ tail
    later v =
        let two : ni + 2 ≡ suc (suc ni) = omega arith in
        drop-set_lt hex (ni + 2) bi v (omega arith) ∙ rw two (drop-suc hex (suc ni) next)

    grown :
        (v : ℕ) (buf bs : List ℕ)
        → take (bi + 1 + k) buf ≡ take (bi + 1) (set hex bi v) ++ bs
        → take (bi + suc k) buf ≡ take bi hex ++ v ∷ bs
    grown v buf bs p =
        let shift : bi + suc k ≡ bi + 1 + k = omega arith in
        let one : bi + 1 ≡ suc bi = omega arith in
        let fits : bi < length hex = omega (arith, lt-length-drop hex (suc ni) next) in
        rw shift (
          p
          ∙ ap (λ n. take n (set hex bi v) ++ bs) one
          ∙ ap (λ l. l ++ bs) (take-suc-set hex bi v fits)
          ∙ append_assoc (take bi hex) (v ∷ []) bs)

first_write :
    (n first : ℕ) (hex buf bs : List ℕ)
    → take (1 + n) buf ≡ take 1 hex ++ bs
    → length buf ≡ length hex
    → 0 < length hex
    → take (n + 1) (set buf 0 first) ≡ first ∷ bs
first_write n first [] buf bs e l h = absurd (omega arith)
first_write n first (x ∷ r) [] bs e l h = absurd (omega arith)
first_write n first (x ∷ r) (y ∷ buf) bs e l h =
    let one : n + 1 ≡ suc n = omega arith in
    let one' : 1 + n ≡ suc n = omega arith in
    let tails : y ∷ take n buf ≡ x ∷ bs = subst (λ m. take m (y ∷ buf) ≡ x ∷ bs) one' e in
    rw one (ap (λ l. first ∷ l) (∷_tail tails))
  where
    ∷_tail : {x y : ℕ} {xs ys : List ℕ} → x ∷ xs ≡ y ∷ ys → xs ≡ ys
    ∷_tail p = cc

-- The loop and the last write, on a key that starts at `ni`.
in_place_from_lem :
    (hex_len first ni : ℕ) (hex key tail : List ℕ)
    → drop ni hex ≡ key ++ tail
    → length key ≡ 2 * (hex_len / 2)
    → 0 < length hex
    → (buf : List ℕ) × (in_place_from hex_len hex (some (first, ni)) ≡ some (buf, hex_len / 2 + 1))
      × (pack_parts (first, key) ≡ some (take (hex_len / 2 + 1) buf))
      × (length buf ≡ length hex)
unfolding in_place_from
in_place_from_lem hex_len first ni hex key tail e l h =
    let (buf, bs, run, packed) = loop_lem (hex_len / 2) 1 ni hex key tail e l (omega arith) in
    (
      set buf 0 first,
      ap (write_first first (hex_len / 2)) run,
      pack_parts_lem first key bs packed.0
          ∙ ap some (sym (first_write (hex_len / 2) first hex buf bs packed.1 packed.2 h)),
      length-set buf 0 first ∙ packed.2,
    )

-- The start of the routine, and what it packs, for a key `ns` and the rest of the buffer.
abbrev PackedAs : ℕ → List ℕ → List ℕ → Type 0
PackedAs flag ns tail =
    (buf : List ℕ) × (in_place_from (length ns) (ns ++ tail)
        (odd_start (length ns % 2 == 1) flag (ns ++ tail))
      ≡ some (buf, length ns / 2 + 1))
    × (pack_key flag ns ≡ some (take (length ns / 2 + 1) buf))
    × (length buf ≡ length (ns ++ tail))

start_even :
    (flag : ℕ) (ns tail : List ℕ)
    → 0 < length (ns ++ tail)
    → length ns % 2 ≡ 0
    → PackedAs flag ns tail
unfolding odd_start
start_even flag ns tail h e =
    let (buf, run, packs, l) =
      in_place_from_lem (length ns) flag 0 (ns ++ tail) ns tail refl (omega arith) h in
    (
      buf,
      ap (λ b. in_place_from (length ns) (ns ++ tail) (odd_start b flag (ns ++ tail))) even ∙ run,
      pack_key_even flag ns e ∙ packs,
      l,
    )
  where
    even : (length ns % 2 == 1) ≡ false
    even = ground arith

start_odd : (flag x : ℕ) (r tail : List ℕ) → length r % 2 ≡ 0 → PackedAs flag (x ∷ r) tail
unfolding odd_start
start_odd flag x r tail e =
    let first = bit_or (bit_or flag 16) x in
    let ns = x ∷ r in
    let (buf, run, packs, l) =
      in_place_from_lem (length ns) first 1 (ns ++ tail) r tail refl (omega arith) (omega arith) in
    (
      buf,
      ap (λ b. in_place_from (length ns) (ns ++ tail) (odd_start b flag (ns ++ tail))) odd ∙ run,
      pack_key_odd flag x r e ∙ packs,
      l,
    )
  where
    odd : (length (x ∷ r) % 2 == 1) ≡ true
    odd = ground arith

start_lem : (flag : ℕ) (ns tail : List ℕ) → 0 < length (ns ++ tail) → PackedAs flag ns tail
start_lem flag [] tail h = start_even flag [] tail h refl
start_lem flag (x ∷ r) tail h = elim (ℕ_discrete (length r % 2) 0) [
  | yes e ↦ start_odd flag x r tail e
  | no n ↦ start_even flag (x ∷ r) tail h (omega arith)
]

-- The terminator is no part of the key, and stays in the buffer.
abbrev term_of : Bool → List ℕ
term_of t = if t then 16 ∷ [] else []

hex_key-append : (ns : List ℕ) (t : Bool) → hex_key ns t ≡ ns ++ term_of t
hex_key-append ns true = refl
hex_key-append ns false = sym (append-nil ns)

-- `hexToCompactInPlace` without its tests on the terminator
in_place_lem :
    (hex ns : List ℕ) (t : Bool)
    → hex ≡ ns ++ term_of t
    → has_term hex ≡ t
    → 0 < length hex
    → hex_to_compact_in_place hex
      ≡ in_place_from (length ns) hex (odd_start (length ns % 2 == 1) (flag_of t) hex)
unfolding hex_to_compact_in_place
in_place_lem [] ns t e ht h = absurd (omega arith)
in_place_lem (x ∷ r) ns t e ht h =
    rw ht (ap (λ n. in_place_from n (x ∷ r) (odd_start (n % 2 == 1) (flag_of t) (x ∷ r))) (len t e))
  where
    len :
        (t : Bool)
        → x ∷ r ≡ ns ++ term_of t
        → (if t then length (x ∷ r) - 1 else length (x ∷ r)) ≡ length ns
    len true e = omega (arith, ap length e, length-append ns (16 ∷ []))
    len false e = omega (arith, ap length e, length-append ns [])

-- On every nonempty hex key the in-place routine does not panic, keeps the buffer's length, and
-- leaves in the prefix that it announces what the allocating routine returns.
pub in_place-eq-hex_to_compact :
    (ns : List ℕ) (t : Bool)
    → All IsNibble ns
    → 0 < length (hex_key ns t)
    → (buf : List ℕ) × (n : ℕ) × (hex_to_compact_in_place (hex_key ns t) ≡ some (buf, n))
      × (hex_to_compact (hex_key ns t) ≡ some (take n buf))
      × (length buf ≡ length (hex_key ns t))
unfolding hex_to_compact
in_place-eq-hex_to_compact ns t a h =
    let p = hex_key-append ns t in
    let marked : has_term (ns ++ term_of t) ≡ t =
      subst (λ l. has_term l ≡ t) p (has_term-hex_key ns t a) in
    let key : without_term (ns ++ term_of t) ≡ ns =
      subst (λ l. without_term l ≡ ns) p (without_term-hex_key ns t a) in
    let some_bytes : 0 < length (ns ++ term_of t) = subst (λ l. 0 < length l) p h in
    let (buf, run, packs, l) = start_lem (flag_of t) ns (term_of t) some_bytes in
    (
      buf,
      length ns / 2 + 1,
      rw p (in_place_lem (ns ++ term_of t) ns t refl marked some_bytes ∙ run),
      rw p (rw (marked, key) packs),
      rw p l,
    )
