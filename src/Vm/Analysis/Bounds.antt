-- ===== src/Vm/Analysis/Bounds.antt =====
-- core/vm/analysis.go: the bit vector is long enough for the code and the data behind its end.
use zond.Prelude.{
  ℕ, zero, suc, ◌+◌, ◌-◌, ◌*◌, ◌/◌, ◌%◌, ◌^◌, ◌≤◌, ◌<◌, ◌≡◌, refl, sym, subst, ◌∙◌, Bool, false,
  not, ◌||◌, Option, none, some, List, [], ◌∷◌, ◌==◌, ltb, leb, length, bind, get_elem?, set,
  length-set, length-replicate, if-cases, arith,
}
use native.Mathlib.Decide.{dec_le}
use Prim.Native.Nat.{bit_or}
use zond.Prelude.Bytes.{short_mask}
use zond.Vm.{Bytes, get_op, overflows, uint64}
use zond.Vm.Analysis.{
  write_bits, or_bits, set_n, set8, set16, mark_rest, mark8, mark16, numbits, code_bitmap_loop,
  code_bitmap, code_segment, valid_jumpdest,
}

-- A write that does not panic, and leaves this many bytes
abbrev Writes : ℕ → Option Bytes → Type 0
Writes l none = ⊥
Writes l (some bits) = length bits ≡ l

Writes-bind :
    (l : ℕ) (o : Option Bytes) (f : Bytes → Option Bytes)
    → Writes l o
    → ((b : Bytes) → length b ≡ l → Writes l (f b))
    → Writes l (bind o f)
Writes-bind l none f h k = absurd h
Writes-bind l (some b) f h k = k b h

write_bits-Writes :
    (l : ℕ) (bits : Bytes) (i b : ℕ) → length bits ≡ l → i < l → Writes l (write_bits bits i b)
unfolding write_bits
write_bits-Writes l bits i b e h =
    if-cases (Writes l) (ltb i (length bits)) (λ t. length-set bits i b ∙ e)
      (λ t. ground (arith, e, h, t))

pub get_elem?_lem {ℓ} :
    {A : Type ℓ} (xs : List A) (i : ℕ) → i < length xs → (a : A) × (get_elem? xs i ≡ some a)
get_elem?_lem [] i h = absurd (omega arith)
get_elem?_lem (x ∷ xs) zero h = (x, refl)
get_elem?_lem (x ∷ xs) (suc i) h = get_elem?_lem xs i (omega arith)

or_bits-Writes :
    (l : ℕ) (bits : Bytes) (i b : ℕ) → length bits ≡ l → i < l → Writes l (or_bits bits i b)
unfolding or_bits
or_bits-Writes l bits i b e h =
    let (a, found) = get_elem?_lem bits i (omega arith) in
    subst (λ o. Writes l (bind o (λ a. some (set bits i (bit_or a b))))) (sym found)
      (length-set bits i (bit_or a b) ∙ e)

-- A flag that stays within a byte
short_flag : (n r : ℕ) → n + r ≤ 8 → (2 ^ n - 1) * 2 ^ r % 2 ^ 16 / 256 % 256 ≡ 0
short_flag n r h = let p = short_mask n r h in omega arith

-- The second byte is written only where there is one.
pub second_byte :
    (n pos l : ℕ)
    → pos + n < 8 * l
    → ((2 ^ n - 1) * 2 ^ (pos % 8) % 2 ^ 16 / 256 % 256 == 0) ≡ false
    → pos / 8 + 1 < l
second_byte n pos l k t = elim (dec_le (n + pos % 8) 8) [
  | yes m ↦ absurd (apart (short_flag n (pos % 8) m) t)
  | no m ↦ omega arith
]
  where
    apart : {x : ℕ} → x ≡ 0 → (x == 0) ≡ false → ⊥
    apart e t = ground arith

set_n-Writes :
    (n pos l : ℕ) (bits : Bytes)
    → length bits ≡ l
    → pos + n < 8 * l
    → Writes l (set_n (2 ^ n - 1) pos bits)
unfolding set_n
set_n-Writes n pos l bits e k =
    Writes-bind l _ _ (or_bits-Writes l bits (pos / 8) _ e (omega arith)) λ b g.
      if-cases (Writes l) ((2 ^ n - 1) * 2 ^ (pos % 8) % 2 ^ 16 / 256 % 256 == 0) (λ t. g)
        (λ t. write_bits-Writes l b (pos / 8 + 1) _ g (second_byte n pos l k t))

set8-Writes :
    (pos l : ℕ) (bits : Bytes) → length bits ≡ l → pos + 8 < 8 * l → Writes l (set8 pos bits)
unfolding set8
set8-Writes pos l bits e k =
    Writes-bind l _ _ (or_bits-Writes l bits (pos / 8) _ e (omega arith))
      λ b g. write_bits-Writes l b (pos / 8 + 1) _ g (omega arith)

set16-Writes :
    (pos l : ℕ) (bits : Bytes) → length bits ≡ l → pos + 16 < 8 * l → Writes l (set16 pos bits)
unfolding set16
set16-Writes pos l bits e k =
    Writes-bind l _ _ (or_bits-Writes l bits (pos / 8) _ e (omega arith)) λ b g.
      Writes-bind l _ _ (write_bits-Writes l b (pos / 8 + 1) _ g (omega arith))
        λ b' g'. write_bits-Writes l b' (pos / 8 + 2) _ g' (omega arith)

mark_rest-Writes :
    (n pos l : ℕ) (bits : Bytes)
    → n < 8
    → length bits ≡ l
    → pos + n < 8 * l
    → Writes l (mark_rest n pos bits)
unfolding mark_rest
mark_rest-Writes n pos l bits h e k =
    if-cases (Writes l) (n == 0) (λ t. e) (λ t. set_n-Writes n pos l bits e k)

mark8-Writes :
    (rounds n pos l : ℕ) (bits : Bytes)
    → n < 8 * suc rounds
    → length bits ≡ l
    → pos + n < 8 * l
    → Writes l (mark8 rounds n pos bits)
unfolding mark8
mark8-Writes zero n pos l bits h e k = mark_rest-Writes n pos l bits (omega arith) e k
mark8-Writes (suc rounds) n pos l bits h e k =
    if-cases (Writes l) (ltb n 8) (λ t. mark_rest-Writes n pos l bits (ground (arith, t)) e k)
      (λ t.
        let big : 8 ≤ n = ground (arith, t) in
        Writes-bind l _ _ (set8-Writes pos l bits e (omega arith))
          λ b g. mark8-Writes rounds (n - 8) (pos + 8) l b (omega arith) g (omega arith))

mark16-Writes :
    (rounds n pos l : ℕ) (bits : Bytes)
    → n < 16 * suc rounds
    → length bits ≡ l
    → pos + n < 8 * l
    → Writes l (mark16 rounds n pos bits)
unfolding mark16
mark16-Writes zero n pos l bits h e k = mark8-Writes 2 n pos l bits (omega arith) e k
mark16-Writes (suc rounds) n pos l bits h e k =
    if-cases (Writes l) (ltb n 16) (λ t. mark8-Writes 2 n pos l bits (ground (arith, t)) e k)
      (λ t.
        let big : 16 ≤ n = ground (arith, t) in
        Writes-bind l _ _ (set16-Writes pos l bits e (omega arith))
          λ b g. mark16-Writes rounds (n - 16) (pos + 16) l b (omega arith) g (omega arith))

numbits_le : (op : ℕ) → numbits op ≤ 32
unfolding numbits
numbits_le op = ground arith

loop-Writes :
    (rounds : ℕ) (code : Bytes) (pc l : ℕ) (bits : Bytes)
    → length bits ≡ l
    → length code + 32 < 8 * l
    → Writes l (code_bitmap_loop rounds code pc bits)
unfolding code_bitmap_loop
loop-Writes zero code pc l bits e k = e
loop-Writes (suc rounds) code pc l bits e k =
    let n = numbits (get_op code pc) in
    let small = numbits_le (get_op code pc) in
    if-cases (Writes l) (ltb pc (length code))
      (λ t.
        Writes-bind l _ _
          (mark16-Writes 3 n (pc + 1) l bits (omega (arith, small)) e
            (let low : pc < length code = ground (arith, t) in omega (arith, small, low, k)))
          λ b g. loop-Writes rounds code (pc + 1 + n) l b g k)
      (λ t. e)

pub code_bitmap-Writes : (code : Bytes) → Writes (length code / 8 + 5) (code_bitmap code)
unfolding code_bitmap
code_bitmap-Writes code =
    loop-Writes (length code) code 0 (length code / 8 + 5) _
      (length-replicate (length code / 8 + 1 + 4) 0 ∙ omega arith) (omega arith)

Answers : Option Bool → Type 0
Answers none = ⊥
Answers (some b) = Unit {0}

answer : (o : Option Bool) → Answers o → (b : Bool) × (o ≡ some b)
unfolding Answers
answer none h = absurd h
answer (some b) h = (b, refl)

segment-Answers :
    (code : Bytes) (pos : ℕ) (o : Option Bytes)
    → pos < length code
    → Writes (length code / 8 + 5) o
    → Answers (bind o (λ bits. code_segment bits pos))
unfolding code_segment Answers
segment-Answers code pos none h w = w
segment-Answers code pos (some bits) h w =
    let (b, found) = get_elem?_lem bits (pos / 8) (omega arith) in
    subst (λ o. Answers (bind o (λ b. some (b / 2 ^ (pos % 8) % 2 == 0)))) (sym found) tt

pub valid_jumpdest_lem :
    (code : Bytes) (dest : ℕ) → (b : Bool) × (valid_jumpdest code dest ≡ some b)
unfolding valid_jumpdest Answers
valid_jumpdest_lem code dest = answer (valid_jumpdest code dest) (
    if-cases Answers (overflows dest || leb (length code) (uint64 dest)) (λ t. tt)
      λ t.
        if-cases Answers (not (get_op code (uint64 dest) == 91)) (λ u. tt)
          λ u.
            segment-Answers code (uint64 dest) (code_bitmap code) (ground (arith, t))
              (code_bitmap-Writes code))
