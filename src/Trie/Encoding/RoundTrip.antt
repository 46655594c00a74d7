-- ===== src/Trie/Encoding/RoundTrip.antt =====
-- trie/encoding.go: the encodings of trie keys are inverse to one another.
use zond.Prelude.{
  ℕ, ◌+◌, ◌*◌, ◌/◌, ◌%◌, ◌<◌, ◌≡◌, refl, ap, ◌∙◌, Bool, true, false, none, some, List, [], ◌∷◌,
  ◌++◌, arith, ◌==◌, if◌then◌else◌, length, All, drop,
}
use zond.Prelude.Bytes.{join_nibbles, odd_flags}
use zond.Trie.Encoding.{
  has_term, but_last, decode_nibbles, compact_parts, pack_parts, pack_key, without_term,
  hex_to_compact, keybytes_digits, keybytes_to_hex, compact_to_hex, compact_to_hex_base,
  hex_to_keybytes,
}
use Prim.Native.Nat.{bit_or}
use native.Mathlib.Decide.{ℕ_discrete}

abbrev pub IsNibble : ℕ → Type 0
IsNibble x = x < 16

abbrev pub IsByte : ℕ → Type 0
IsByte x = x < 256

-- A hex key: its nibbles, and the terminator if the key holds a value.
abbrev pub hex_key : List ℕ → Bool → List ℕ
hex_key ns t = if t then ns ++ 16 ∷ [] else ns

has_term-append : (ns : List ℕ) → has_term (ns ++ 16 ∷ []) ≡ true
unfolding has_term
has_term-append [] = refl
has_term-append (x ∷ []) = refl
has_term-append (x ∷ (y ∷ r)) = has_term-append (y ∷ r)

pub has_term_nibbles : (ns : List ℕ) → All IsNibble ns → has_term ns ≡ false
unfolding has_term
has_term_nibbles [] h = refl
has_term_nibbles (x ∷ []) h = ground arith
has_term_nibbles (x ∷ (y ∷ r)) (h, hs) = has_term_nibbles (y ∷ r) hs

pub has_term-hex_key : (ns : List ℕ) (t : Bool) → All IsNibble ns → has_term (hex_key ns t) ≡ t
has_term-hex_key ns true h = has_term-append ns
has_term-hex_key ns false h = has_term_nibbles ns h

pub but_last-append : (ns : List ℕ) (x : ℕ) → but_last (ns ++ x ∷ []) ≡ ns
unfolding but_last
but_last-append [] x = refl
but_last-append (y ∷ []) x = refl
but_last-append (y ∷ (z ∷ r)) x = ap (λ l. y ∷ l) (but_last-append (z ∷ r) x)

-- An even number of nibbles packs into bytes, whose digits are the nibbles.
pub decode_nibbles_total :
    (ns : List ℕ)
    → All IsNibble ns
    → length ns % 2 ≡ 0
    → (bs : List ℕ) × (decode_nibbles ns ≡ some bs) × (keybytes_digits bs ≡ ns) × All IsByte bs
unfolding decode_nibbles keybytes_digits
decode_nibbles_total [] h e = ([], refl, refl, tt)
decode_nibbles_total (a ∷ []) h e = absurd (omega arith)
decode_nibbles_total (a ∷ (b ∷ r)) (ha, (hb, hr)) e =
    let (bs, d, k, w) = decode_nibbles_total r hr (omega arith) in
    (bit_or (a * 16 % 256) b ∷ bs, rw d, digits bs k, (byte, w))
  where
    joined : bit_or (a * 16 % 256) b ≡ a * 16 + b
    joined = join_nibbles a b ha hb

    byte : bit_or (a * 16 % 256) b < 256
    byte = omega (arith, joined)

    digits :
        (bs : List ℕ)
        → keybytes_digits bs ≡ r
        → bit_or (a * 16 % 256) b / 16 ∷ (bit_or (a * 16 % 256) b % 16 ∷ keybytes_digits bs)
          ≡ a ∷ (b ∷ r)
    digits bs k = rw (joined, k) (ground arith)

pub decode_nibbles-digits :
    (bs : List ℕ) → All IsByte bs → decode_nibbles (keybytes_digits bs) ≡ some bs
unfolding decode_nibbles keybytes_digits
decode_nibbles-digits [] h = refl
decode_nibbles-digits (b ∷ r) (hb, hr) = rw (decode_nibbles-digits r hr) (rw joined refl)
  where
    joined : bit_or (b / 16 * 16 % 256) (b % 16) ≡ b
    joined = join_nibbles (b / 16) (b % 16) (omega arith) (omega arith) ∙ omega arith

pub length-digits : (bs : List ℕ) → length (keybytes_digits bs) ≡ 2 * length bs
unfolding keybytes_digits
length-digits [] = refl
length-digits (b ∷ r) = omega (arith, length-digits r)

pub without_term-hex_key :
    (ns : List ℕ) (t : Bool) → All IsNibble ns → without_term (hex_key ns t) ≡ ns
unfolding without_term
without_term-hex_key ns true h = rw (has_term-append ns) (but_last-append ns 16)
without_term-hex_key ns false h = rw (has_term_nibbles ns h) refl

abbrev pub flag_of : Bool → ℕ
flag_of t = if t then 32 else 0

-- The nibbles that a compact key is read as, by the digits of its first byte.
base_digits :
    (d x : ℕ) (bs : List ℕ)
    → x < 16
    → compact_to_hex ((d * 16 + x) ∷ bs)
      ≡ compact_to_hex_base (d ∷ (x ∷ (keybytes_digits bs ++ 16 ∷ [])))
unfolding compact_to_hex keybytes_to_hex
base_digits d x bs h = λ i. compact_to_hex_base (high i ∷ (low i ∷ (keybytes_digits bs ++ 16 ∷ [])))
  where
    high : (d * 16 + x) / 16 ≡ d
    high = omega arith

    low : (d * 16 + x) % 16 ≡ x
    low = omega arith

base_even :
    (t : Bool) (bs : List ℕ) → compact_to_hex (flag_of t ∷ bs) ≡ hex_key (keybytes_digits bs) t
unfolding compact_to_hex
base_even true bs = refl
base_even false bs = ap (drop 1) (but_last-append (0 ∷ keybytes_digits bs) 16)

base_odd :
    (t : Bool) (x : ℕ) (bs : List ℕ)
    → x < 16
    → compact_to_hex (bit_or (bit_or (flag_of t) 16) x ∷ bs) ≡ hex_key (x ∷ keybytes_digits bs) t
unfolding compact_to_hex_base but_last
base_odd true x bs h = rw (odd_flags x h).1 (base_digits 3 x bs h)
base_odd false x bs h =
    rw (odd_flags x h).0 (base_digits 1 x bs h ∙ but_last-append (x ∷ keybytes_digits bs) 16)

-- What is proved of the compact form `c` of a hex key.
abbrev IsCompactOf : List ℕ → Bool → List ℕ → Type 0
IsCompactOf ns t c = (compact_to_hex c ≡ hex_key ns t) × All IsByte c

compact_parts_even : (ns : List ℕ) (flag : ℕ) → compact_parts false ns flag ≡ (flag, ns)
unfolding compact_parts
compact_parts_even [] flag = refl
compact_parts_even (x ∷ r) flag = refl

pub pack_parts_lem :
    (first : ℕ) (r bs : List ℕ)
    → decode_nibbles r ≡ some bs
    → pack_parts (first, r) ≡ some (first ∷ bs)
unfolding pack_parts
pack_parts_lem first r bs d = rw (d, pack_parts)

pub pack_key_even :
    (flag : ℕ) (ns : List ℕ) → length ns % 2 ≡ 0 → pack_key flag ns ≡ pack_parts (flag, ns)
unfolding pack_key
pack_key_even flag ns e =
    ap (λ b. pack_parts (compact_parts b ns flag)) even ∙ ap pack_parts (compact_parts_even ns flag)
  where
    even : (length ns % 2 == 1) ≡ false
    even = ground arith

pub pack_key_odd :
    (flag x : ℕ) (r : List ℕ)
    → length r % 2 ≡ 0
    → pack_key flag (x ∷ r) ≡ pack_parts (bit_or (bit_or flag 16) x, r)
unfolding pack_key
pack_key_odd flag x r e = ap (λ b. pack_parts (compact_parts b (x ∷ r) flag)) odd
  where
    odd : (length (x ∷ r) % 2 == 1) ≡ true
    odd = ground arith

flag_byte : (t : Bool) → flag_of t < 256
flag_byte true = omega arith
flag_byte false = omega arith

odd_byte : (t : Bool) (x : ℕ) → x < 16 → bit_or (bit_or (flag_of t) 16) x < 256
odd_byte true x h = omega (arith, (odd_flags x h).1)
odd_byte false x h = omega (arith, (odd_flags x h).0)

pack_key_compact :
    (ns : List ℕ) (t : Bool)
    → All IsNibble ns
    → (c : List ℕ) × (pack_key (flag_of t) ns ≡ some c) × IsCompactOf ns t c
pack_key_compact ns t h = split ns h (ℕ_discrete (length ns % 2) 0)
  where
    even :
        (ns : List ℕ)
        → All IsNibble ns
        → length ns % 2 ≡ 0
        → (c : List ℕ) × (pack_key (flag_of t) ns ≡ some c) × IsCompactOf ns t c
    even ns h e =
        let (bs, d, k, w) = decode_nibbles_total ns h e in
        (
          flag_of t ∷ bs,
          pack_key_even (flag_of t) ns e ∙ pack_parts_lem (flag_of t) ns bs d,
          (base_even t bs ∙ ap (λ l. hex_key l t) k, (flag_byte t, w)),
        )

    split :
        (ns : List ℕ)
        → All IsNibble ns
        → Dec (length ns % 2 ≡ 0)
        → (c : List ℕ) × (pack_key (flag_of t) ns ≡ some c) × IsCompactOf ns t c
    split ns h (yes e) = even ns h e
    split [] h (no n) = even [] h refl
    split (x ∷ r) h (no n) =
        let hx = h.0 in
        let hr = h.1 in
        let e : length r % 2 ≡ 0 = omega arith in
        let (bs, d, k, w) = decode_nibbles_total r hr e in
        (
          bit_or (bit_or (flag_of t) 16) x ∷ bs,
          pack_key_odd (flag_of t) x r e ∙ pack_parts_lem _ r bs d,
          (base_odd t x bs hx ∙ ap (λ l. hex_key (x ∷ l) t) k, (odd_byte t x hx, w)),
        )

-- For every list of nibbles, with or without the terminator, the compact encoding does not panic,
-- consists of bytes, and is decoded to the key that it was made from.
pub compact_to_hex-hex_to_compact :
    (ns : List ℕ) (t : Bool)
    → All IsNibble ns
    → (c : List ℕ) × (hex_to_compact (hex_key ns t) ≡ some c)
      × (compact_to_hex c ≡ hex_key ns t)
      × All IsByte c
unfolding hex_to_compact
compact_to_hex-hex_to_compact ns t h =
    let (c, e, good) = pack_key_compact ns t h in
    (c, rw (has_term-hex_key ns t h, without_term-hex_key ns t h) e, good.0, good.1)

without_term_lem : (ns : List ℕ) → without_term (ns ++ 16 ∷ []) ≡ ns
unfolding without_term
without_term_lem ns = rw (has_term-append ns) (but_last-append ns 16)

hex_to_keybytes_even :
    (hex ns bs : List ℕ)
    → without_term hex ≡ ns
    → length ns % 2 ≡ 0
    → decode_nibbles ns ≡ some bs
    → hex_to_keybytes hex ≡ some bs
unfolding hex_to_keybytes
hex_to_keybytes_even hex ns bs w e d = rw w (rw even d)
  where
    even : (length ns % 2 == 0) ≡ true
    even = ground arith

-- Key bytes survive the way to hex and back without a panic, and their hex form ends in the
-- terminator.
pub hex_to_keybytes-keybytes_to_hex :
    (str : List ℕ)
    → All IsByte str
    → (hex_to_keybytes (keybytes_to_hex str) ≡ some str) × (has_term (keybytes_to_hex str) ≡ true)
unfolding keybytes_to_hex
hex_to_keybytes-keybytes_to_hex str h =
    let ns = keybytes_digits str in
    let even : length ns % 2 ≡ 0 = omega (arith, length-digits str) in
    (
      hex_to_keybytes_even (ns ++ 16 ∷ []) ns str (without_term_lem ns) even
          (decode_nibbles-digits str h),
      has_term-append ns,
    )

-- A key of an even number of nibbles, with or without the terminator, has key bytes, and their
-- hex form is the key with the terminator; a key of an odd number of nibbles panics.
pub keybytes_to_hex-hex_to_keybytes :
    (ns : List ℕ) (t : Bool)
    → All IsNibble ns
    → (length ns % 2 ≡ 0
        → (str : List ℕ) × (hex_to_keybytes (hex_key ns t) ≡ some str)
          × (keybytes_to_hex str ≡ hex_key ns true))
      × (length ns % 2 ≡ 1 → hex_to_keybytes (hex_key ns t) ≡ none)
unfolding keybytes_to_hex
keybytes_to_hex-hex_to_keybytes ns t h = (
  λ e.
      let (bs, d, k, w) = decode_nibbles_total ns h e in
      (
        bs,
        hex_to_keybytes_even (hex_key ns t) ns bs (without_term-hex_key ns t h) e d,
        ap (λ l. l ++ 16 ∷ []) k,
      ),
  λ o. unfold hex_to_keybytes in rw (without_term-hex_key ns t h) (odd_none o),
)
  where
    odd_none : length ns % 2 ≡ 1 → (if length ns % 2 == 0 then decode_nibbles ns else none) ≡ none
    odd_none o = rw o refl
