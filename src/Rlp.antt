-- ===== src/Rlp.antt =====
-- rlp/raw.go and the size functions of rlp/encode.go. A byte slice is a list of numbers below 256. The
-- bytes of a size do not overlap, so their `|` is a sum.
pub mod RoundTrip
pub mod Size
pub mod Count
use zond.Prelude.{
  ℕ, zero, suc, ◌+◌, ◌-◌, ◌*◌, ◌/◌, ◌%◌, ◌^◌, Bool, true, false, ◌&&◌, ◌||◌, Option, none, some,
  List, [], ◌∷◌, ◌++◌, ltb, leb, ◌==◌, if◌then◌else◌, take, drop, length,
}

pub data Kind : Type 0 where
  byte : Kind
  string : Kind
  list : Kind

-- io.ErrUnexpectedEOF and the errors of the package
pub data Fault : Type 0 where
  unexpected_eof : Fault
  canon_size : Fault
  value_too_large : Fault
  canon_int : Fault
  uint_overflow : Fault
  expected_string : Fault
  expected_list : Fault

pub data Result {ℓ} (A : Type ℓ) : Type ℓ where
  ok : A → Result A
  error : Fault → Result A

-- The callers go on with the result, or return the error.
unfoldable pub and_then {ℓ κ} : {A : Type ℓ} {B : Type κ} → Result A → (A → Result B) → Result B
and_then (ok a) f = f a
and_then (error e) f = error e

-- b[0]<<8 | b[1] and so on, over all the bytes
unfoldable pub big_endian : ℕ → List ℕ → ℕ
big_endian high [] = high
big_endian high (b ∷ bs) = big_endian (high * 256 + b) bs

-- b[0] == 0
unfoldable pub starts_with_zero : List ℕ → Bool
starts_with_zero [] = false
starts_with_zero (b ∷ bs) = b == 0

unfoldable pub read_size : List ℕ → ℕ → Result ℕ
unfolding big_endian starts_with_zero
read_size b slen =
    let s = big_endian 0 (take slen b) in
    if ltb (length b) slen
    then error unexpected_eof
    else if ltb s 56 || starts_with_zero b
    then error canon_size
    else ok s

-- len(buf) > 1 && buf[1] < 128
unfoldable pub small_head : List ℕ → Bool
small_head [] = false
small_head (c ∷ cs) = ltb c 128

-- the kind, the tag's size and the content's, before the check against the input
unfoldable pub read_tag : ℕ → List ℕ → Result (Kind × ℕ × ℕ)
unfolding and_then read_size small_head
read_tag b rest =
    if ltb b 0x80
    then ok (byte, 0, 1)
    else if ltb b 0xB8
    then if b - 0x80 == 1 && small_head rest then error canon_size else ok (string, 1, b - 0x80)
    else if ltb b 0xC0
    then and_then (read_size rest (b - 0xB7)) (λ s. ok (string, b - 0xB7 + 1, s))
    else if ltb b 0xF8
    then ok (list, 1, b - 0xC0)
    else and_then (read_size rest (b - 0xF7)) (λ s. ok (list, b - 0xF7 + 1, s))

-- `size` is the input's; the tag is never longer, since the size was read from behind it.
unfoldable pub check_fits : ℕ → Kind × ℕ × ℕ → Result (Kind × ℕ × ℕ)
check_fits size (k, tag, content) =
    if ltb (size - tag) content then error value_too_large else ok (k, tag, content)

unfoldable pub read_kind : List ℕ → Result (Kind × ℕ × ℕ)
unfolding read_tag check_fits
read_kind [] = error unexpected_eof
read_kind (b ∷ rest) = and_then (read_tag b rest) (check_fits (suc (length rest)))

unfoldable pub split : List ℕ → Result (Kind × List ℕ × List ℕ)
unfolding read_kind
split b =
    and_then (read_kind b) λ (r : Kind × ℕ × ℕ). ok (r.0, take r.2 (drop r.1 b), drop (r.1 + r.2) b)

unfoldable pub only_string : Kind × List ℕ × List ℕ → Result (List ℕ × List ℕ)
only_string (byte, content, rest) = ok (content, rest)
only_string (string, content, rest) = ok (content, rest)
only_string (list, content, rest) = error expected_string

unfoldable pub only_list : Kind × List ℕ × List ℕ → Result (List ℕ × List ℕ)
only_list (byte, content, rest) = error expected_list
only_list (string, content, rest) = error expected_list
only_list (list, content, rest) = ok (content, rest)

unfoldable pub split_string : List ℕ → Result (List ℕ × List ℕ)
unfolding split only_string
split_string b = and_then (split b) only_string

unfoldable pub split_list : List ℕ → Result (List ℕ × List ℕ)
unfolding split only_list
split_list b = and_then (split b) only_list

-- any error of readSize becomes ErrCanonInt
unfoldable pub as_integer : Result ℕ → List ℕ → Result (ℕ × List ℕ)
as_integer (ok x) rest = ok (x, rest)
as_integer (error e) rest = error canon_int

-- SplitUint64 on the content and the rest
unfoldable pub integer_of : List ℕ × List ℕ → Result (ℕ × List ℕ)
unfolding as_integer read_size
integer_of ([], rest) = ok (0, rest)
integer_of (c ∷ [], rest) = if c == 0 then error canon_int else ok (c, rest)
integer_of (c ∷ (d ∷ cs), rest) =
    let content = c ∷ (d ∷ cs) in
    if ltb 8 (length content)
    then error uint_overflow
    else as_integer (read_size content (length content)) rest

unfoldable pub split_uint64 : List ℕ → Result (ℕ × List ℕ)
unfolding split_string integer_of
split_uint64 b = and_then (split_string b) integer_of

-- AppendUint64: byte(i>>8) is i / 2 ^ 8 % 256.
unfoldable pub append_uint64 : List ℕ → ℕ → List ℕ
append_uint64 b i =
    if i == 0
    then b ++ 0x80 ∷ []
    else if ltb i 128
    then b ++ i % 256 ∷ []
    else if ltb i (2 ^ 8)
    then b ++ 0x81 ∷ i % 256 ∷ []
    else if ltb i (2 ^ 16)
    then b ++ 0x82 ∷ i / 2 ^ 8 % 256 ∷ i % 256 ∷ []
    else if ltb i (2 ^ 24)
    then b ++ 0x83 ∷ i / 2 ^ 16 % 256 ∷ i / 2 ^ 8 % 256 ∷ i % 256 ∷ []
    else if ltb i (2 ^ 32)
    then b ++ 0x84 ∷ i / 2 ^ 24 % 256 ∷ i / 2 ^ 16 % 256 ∷ i / 2 ^ 8 % 256 ∷ i % 256 ∷ []
    else if ltb i (2 ^ 40)
    then b
      ++ 0x85
        ∷ i / 2 ^ 32 % 256
        ∷ i / 2 ^ 24 % 256
        ∷ i / 2 ^ 16 % 256
        ∷ i / 2 ^ 8 % 256
        ∷ i % 256
        ∷ []
    else if ltb i (2 ^ 48)
    then b
      ++ 0x86
        ∷ i / 2 ^ 40 % 256
        ∷ i / 2 ^ 32 % 256
        ∷ i / 2 ^ 24 % 256
        ∷ i / 2 ^ 16 % 256
        ∷ i / 2 ^ 8 % 256
        ∷ i % 256
        ∷ []
    else if ltb i (2 ^ 56)
    then b
      ++ 0x87
        ∷ i / 2 ^ 48 % 256
        ∷ i / 2 ^ 40 % 256
        ∷ i / 2 ^ 32 % 256
        ∷ i / 2 ^ 24 % 256
        ∷ i / 2 ^ 16 % 256
        ∷ i / 2 ^ 8 % 256
        ∷ i % 256
        ∷ []
    else b
      ++ 0x88
        ∷ i / 2 ^ 56 % 256
        ∷ i / 2 ^ 48 % 256
        ∷ i / 2 ^ 40 % 256
        ∷ i / 2 ^ 32 % 256
        ∷ i / 2 ^ 24 % 256
        ∷ i / 2 ^ 16 % 256
        ∷ i / 2 ^ 8 % 256
        ∷ i % 256
        ∷ []

-- The loop of intsize on `rounds` rounds; eight are enough for 64 bits.
unfoldable pub intsize_loop : ℕ → ℕ → ℕ → ℕ
intsize_loop zero size i = size
intsize_loop (suc rounds) size i =
    let later = intsize_loop rounds (size + 1) (i / 256) in if i / 256 == 0 then size else later

unfoldable pub intsize : ℕ → ℕ
unfolding intsize_loop
intsize i = intsize_loop 8 1 i

unfoldable pub headsize : ℕ → ℕ
unfolding intsize
headsize size = if ltb size 56 then 1 else 1 + intsize size

unfoldable pub list_size : ℕ → ℕ
unfolding headsize
list_size content_size = (headsize content_size + content_size) % 2 ^ 64

unfoldable pub int_size : ℕ → ℕ
unfolding intsize
int_size x = if ltb x 0x80 then 1 else 1 + intsize x

-- How CountValues ends: it returns, a slice is out of range, or the fuel is used up
pub data Counted : Type 0 where
  counted : Result ℕ → Counted
  out_of_range : Counted
  out_of_fuel : Counted

-- b[tagsize+size:] behind the test of the error; the sum is a uint64, and a slice that would begin behind
-- the end of `b` panics
unfoldable pub after_value : Result (Kind × ℕ × ℕ) → List ℕ → (List ℕ → Counted) → Counted
after_value (error e) b later = counted (error e)
after_value (ok (k, tag, size)) b later =
    let skipped = (tag + size) % 2 ^ 64 in
    if ltb (length b) skipped then out_of_range else later (drop skipped b)

-- CountValues, on the loop's counter
unfoldable pub count_loop : ℕ → ℕ → List ℕ → Counted
unfolding read_kind after_value
count_loop fuel i [] = counted (ok i)
count_loop zero i (b ∷ bs) = out_of_fuel
count_loop (suc fuel) i (b ∷ bs) =
    after_value (read_kind (b ∷ bs)) (b ∷ bs) (count_loop fuel (i + 1))

unfoldable pub count_values : List ℕ → Counted
unfolding count_loop
count_values b = count_loop (length b) 0 b
