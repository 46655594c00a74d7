-- ===== src/Vm/Analysis/Masks.antt =====
-- core/vm/analysis.go: the two bytes that a mark of at most eight bits writes, by tables of their values.
use zond.Prelude.{
  ℕ, ◌+◌, ◌-◌, ◌*◌, ◌/◌, ◌%◌, ◌^◌, ◌≤◌, ◌<◌, ◌≡◌, refl, ap, ◌∙◌, Bool, true, ◌||◌, ◌&&◌, ◌==◌,
  ==_iff, ltb, leb, if◌then◌else◌, arith,
}
use Prim.Native.Nat.{bit_or}
use zond.Prelude.Bytes.{table, table-entry}

-- the bit of a byte
abbrev pub bit : ℕ → ℕ → ℕ
bit b i = b / 2 ^ i % 2

-- `n` ones from bit `r` on, over two bytes
abbrev pub mask : ℕ → ℕ → ℕ
mask n r = (2 ^ n - 1) * 2 ^ r % 2 ^ 16

abbrev pub low : ℕ → ℕ → ℕ → ℕ
low n r a = bit_or a (mask n r % 256)

abbrev pub high : ℕ → ℕ → ℕ
high n r = mask n r / 256 % 256

abbrev adds : ℕ → ℕ → ℕ → Bool
adds n r a = low n r a == a + mask n r % 256

adds-table : table (λ n. table (λ r. table (adds n r) (2 ^ r)) 8) 9 ≡ true
unfolding table
adds-table = refl

low_lem : (n r a : ℕ) → n < 9 → r < 8 → a < 2 ^ r → low n r a ≡ a + mask n r % 256
low_lem n r a hn hr ha = (==_iff _ _).0 (
    table-entry (adds n r) a (2 ^ r) ha (
      table-entry (λ r. table (adds n r) (2 ^ r)) r 8 hr
        (table-entry (λ n. table (λ r. table (adds n r) (2 ^ r)) 8) n 9 hn adds-table)))

abbrev low_bits : ℕ → ℕ → ℕ → ℕ → Bool
low_bits n r i a =
    bit (a + mask n r % 256) i == (if ltb i r then bit a i else if ltb i (r + n) then 1 else 0)

low_bits-table : table (λ n. table (λ r. table (λ i. table (low_bits n r i) (2 ^ r)) 8) 8) 9 ≡ true
unfolding table
low_bits-table = refl

pub low-bit :
    (n r a i : ℕ)
    → n < 9
    → r < 8
    → a < 2 ^ r
    → i < 8
    → bit (low n r a) i ≡ (if ltb i r then bit a i else if ltb i (r + n) then 1 else 0)
low-bit n r a i hn hr ha hi =
    ap (λ b. bit b i) (low_lem n r a hn hr ha)
    ∙ (==_iff _ _).0 (
        table-entry (low_bits n r i) a (2 ^ r) ha (
          table-entry (λ i. table (low_bits n r i) (2 ^ r)) i 8 hi
            (table-entry (λ r. table (λ i. table (low_bits n r i) (2 ^ r)) 8) r 8 hr
              (table-entry (λ n. table (λ r. table (λ i. table (low_bits n r i) (2 ^ r)) 8) 8) n 9
                hn low_bits-table))))

abbrev high_bits : ℕ → ℕ → ℕ → Bool
high_bits n r i = bit (high n r) i == (if ltb (i + 8) (r + n) then 1 else 0)

high_bits-table : table (λ n. table (λ r. table (high_bits n r) 8) 8) 9 ≡ true
unfolding table
high_bits-table = refl

pub high-bit :
    (n r i : ℕ) → n < 9 → r < 8 → i < 8 → bit (high n r) i ≡ (if ltb (i + 8) (r + n) then 1 else 0)
high-bit n r i hn hr hi = (==_iff _ _).0 (
    table-entry (high_bits n r) i 8 hi (
      table-entry (λ r. table (high_bits n r) 8) r 8 hr
        (table-entry (λ n. table (λ r. table (high_bits n r) 8) 8) n 9 hn high_bits-table)))

-- within a byte nothing is left for the next one; beyond it, the next one is as long as the ones are
abbrev ends : ℕ → ℕ → Bool
ends n r =
    if ltb (r + n) 8
    then leb (2 ^ r + mask n r % 256) (2 ^ (r + n)) && high n r == 0
    else ltb (high n r) (2 ^ (r + n - 8))

ends-table : table (λ n. table (ends n) 8) 9 ≡ true
unfolding table
ends-table = refl

ends_lem : (n r : ℕ) → n < 9 → r < 8 → ends n r ≡ true
ends_lem n r hn hr =
    table-entry (ends n) r 8 hr (table-entry (λ n. table (ends n) 8) n 9 hn ends-table)

pub low_lt :
    (n r a : ℕ) → n < 9 → r < 8 → a < 2 ^ r → r + n < 8 → (low n r a < 2 ^ (r + n)) × (high n r ≡ 0)
low_lt n r a hn hr ha h =
    let e = low_lem n r a hn hr ha in let t = ends_lem n r hn hr in ground arith

pub high_lt : (n r : ℕ) → n < 9 → r < 8 → 8 ≤ r + n → high n r < 2 ^ (r + n - 8)
high_lt n r hn hr h = let t = ends_lem n r hn hr in ground arith

-- a byte below the power of two has no bit from there on
abbrev empties : ℕ → ℕ → ℕ → Bool
empties r i a = ltb i r || bit a i == 0

empties-table : table (λ r. table (λ i. table (empties r i) (2 ^ r)) 8) 8 ≡ true
unfolding table
empties-table = refl

pub bit-zero : (r a i : ℕ) → r < 8 → i < 8 → a < 2 ^ r → r ≤ i → bit a i ≡ 0
bit-zero r a i hr hi ha h =
    let t = table-entry (empties r i) a (2 ^ r) ha (
      table-entry (λ i. table (empties r i) (2 ^ r)) i 8 hi
        (table-entry (λ r. table (λ i. table (empties r i) (2 ^ r)) 8) r 8 hr empties-table)) in
    ground arith

-- what set8 and set16 write are the same bytes
abbrev inverted : ℕ → Bool
inverted r =
    (255 * 2 ^ r % 256 == mask 8 r % 256)
    && (255 - 255 * 2 ^ r % 256 == high 8 r)
    && (low 8 r (high 8 r) == 255)

inverted-table : table inverted 8 ≡ true
unfolding table
inverted-table = refl

pub inverted_lem :
    (r : ℕ)
    → r < 8
    → (255 * 2 ^ r % 256 ≡ mask 8 r % 256)
      × (255 - 255 * 2 ^ r % 256 ≡ high 8 r)
      × (low 8 r (high 8 r) ≡ 255)
inverted_lem r h = let t = table-entry inverted r 8 h inverted-table in ground arith
