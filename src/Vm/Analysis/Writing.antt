-- ===== src/Vm/Analysis/Writing.antt =====
-- core/vm/analysis.go: setN, set8 and set16 mark the bits that they are to mark.
use zond.Prelude.{
  ℕ, suc, ◌+◌, ◌-◌, ◌*◌, ◌/◌, ◌%◌, ◌^◌, ◌<◌, ◌≡◌, refl, sym, ap, subst, ◌∙◌, Option, none, some,
  ◌==◌, ==_iff, ltb, if◌then◌else◌, if-cases, length, bind, get_elem?, get_elem?-set_self,
  get_elem?-set_ne, set, length-set, arith,
}
use Prim.Native.Nat.{bit_or}
use zond.Vm.{Bytes}
use zond.Vm.Analysis.{write_bits, or_bits, set_n, set8, set16}
use zond.Vm.Analysis.Bounds.{get_elem?_lem, second_byte}
use zond.Vm.Analysis.Masks.{mask, low, high, inverted_lem}
use zond.Vm.Analysis.Marks.{Clean, Marked, Marked-trans, Marked-cong, step, step-Marked}

abbrev pub or_zero : Option ℕ → ℕ
or_zero none = 0
or_zero (some b) = b

-- the bytes of a bit vector, and nothing behind them
abbrev pub byte : Bytes → ℕ → ℕ
byte bits j = or_zero (get_elem? bits j)

byte-set :
    (bits : Bytes) (i b j : ℕ)
    → i < length bits
    → byte (set bits i b) j ≡ (if j == i then b else byte bits j)
byte-set bits i b j h =
    if-cases (λ x. byte (set bits i b) j ≡ x) (j == i)
      (λ t.
        ap (byte (set bits i b)) ((==_iff j i).0 t) ∙ ap or_zero (get_elem?-set_self bits i b h))
      (λ t. ap or_zero (get_elem?-set_ne bits i j b (ground (arith, t))))

write_bits_lem :
    (bits : Bytes) (i b : ℕ) → i < length bits → write_bits bits i b ≡ some (set bits i b)
unfolding write_bits
write_bits_lem bits i b h =
    if-cases (λ o. o ≡ some (set bits i b)) (ltb i (length bits)) (λ t. refl)
      (λ t. absurd (ground arith))

or_bits_lem :
    (bits : Bytes) (i b : ℕ)
    → i < length bits
    → or_bits bits i b ≡ some (set bits i (bit_or (byte bits i) b))
unfolding or_bits
or_bits_lem bits i b h =
    let (a, found) = get_elem?_lem bits i h in
    subst
      (λ o. bind o (λ a. some (set bits i (bit_or a b))) ≡ some (set bits i (bit_or (or_zero o) b)))
      (sym found) refl

-- The option is a bit vector of this many bytes with these marks.
abbrev pub Marks : ℕ → ℕ → ℕ → (ℕ → ℕ) → Option Bytes → Type 0
Marks l pos n f none = ⊥
Marks l pos n f (some bits) = (length bits ≡ l) × Marked pos n f (byte bits)

Marks-behind :
    (l pos n k : ℕ) (f g : ℕ → ℕ) (o : Option Bytes)
    → Marked pos n f g
    → Marks l (pos + n) k g o
    → Marks l pos (n + k) f o
Marks-behind l pos n k f g none m h = h
Marks-behind l pos n k f g (some bits) m (e, h) = (e, Marked-trans pos n k f g (byte bits) m h)

pub Marks-bind :
    (l pos n k : ℕ) (f : ℕ → ℕ) (o : Option Bytes) (next : Bytes → Option Bytes)
    → Marks l pos n f o
    → ((b : Bytes) → length b ≡ l → Marked pos n f (byte b) → Marks l (pos + n) k (byte b) (next b))
    → Marks l pos (n + k) f (bind o next)
Marks-bind l pos n k f none next h g = absurd h
Marks-bind l pos n k f (some b) next (e, m) g =
    Marks-behind l pos n k f (byte b) (next b) m (g b e m)

-- the bytes of a mark, where both are written
two_writes :
    (n pos lo hi : ℕ) (bits : Bytes)
    → pos / 8 + 1 < length bits
    → lo ≡ low n (pos % 8) (byte bits (pos / 8))
    → hi ≡ high n (pos % 8)
    → (j : ℕ) → byte (set (set bits (pos / 8) lo) (pos / 8 + 1) hi) j ≡ step n pos (byte bits) j
two_writes n pos lo hi bits k el eh j =
    let first = byte-set bits (pos / 8) lo j (omega arith) in
    let second =
      byte-set (set bits (pos / 8) lo) (pos / 8 + 1) hi j
        (let s = length-set bits (pos / 8) lo in omega arith) in
    ground arith

-- the bytes of a mark that leaves the second one as it was
one_write :
    (n pos lo : ℕ) (bits : Bytes)
    → pos / 8 < length bits
    → Clean pos (byte bits)
    → lo ≡ low n (pos % 8) (byte bits (pos / 8))
    → high n (pos % 8) ≡ 0
    → (j : ℕ) → byte (set bits (pos / 8) lo) j ≡ step n pos (byte bits) j
one_write n pos lo bits k (last, none_on) el eh j =
    let first = byte-set bits (pos / 8) lo j k in
    let none_there : j ≡ suc (pos / 8) → byte bits j ≡ 0 =
      λ e. ap (byte bits) e ∙ none_on (suc (pos / 8)) (omega arith) in
    ground arith

pub set_n-Marks :
    (n pos l : ℕ) (bits : Bytes)
    → n < 8
    → length bits ≡ l
    → pos + n < 8 * l
    → Clean pos (byte bits)
    → Marks l pos n (byte bits) (set_n (2 ^ n - 1) pos bits)
unfolding set_n
set_n-Marks n pos l bits h e k c =
    let lo = low n (pos % 8) (byte bits (pos / 8)) in
    let marked = step-Marked n pos (byte bits) (omega arith) c in
    subst
      (λ o. Marks l pos n (byte bits) (
        bind o (λ b.
          if high n (pos % 8) == 0 then some b else write_bits b (pos / 8 + 1) (high n (pos % 8)))))
      (sym (or_bits_lem bits (pos / 8) (mask n (pos % 8) % 256) (omega arith)))
      (if-cases (Marks l pos n (byte bits)) (high n (pos % 8) == 0)
        (λ t. (
          length-set bits (pos / 8) lo ∙ e,
          Marked-cong pos n (byte bits) _ _
              (one_write n pos lo bits (omega arith) c refl ((==_iff _ _).0 t)) marked,
        ))
        (λ t.
          subst (Marks l pos n (byte bits))
            (sym (
              write_bits_lem (set bits (pos / 8) lo) (pos / 8 + 1) _ (
                let s = length-set bits (pos / 8) lo in
                let r = second_byte n pos l k t in omega arith)))
            (
              length-set (set bits (pos / 8) lo) (pos / 8 + 1) _ ∙ length-set bits (pos / 8) lo ∙ e,
              Marked-cong pos n (byte bits) _ _
                  (two_writes n pos lo _ bits (let r = second_byte n pos l k t in omega arith) refl
                    refl)
                  marked,
            )))

pub set8-Marks :
    (pos l : ℕ) (bits : Bytes)
    → length bits ≡ l
    → pos + 8 < 8 * l
    → Clean pos (byte bits)
    → Marks l pos 8 (byte bits) (set8 pos bits)
unfolding set8
set8-Marks pos l bits e k c =
    let a = 255 * 2 ^ (pos % 8) % 256 in
    let lo = bit_or (byte bits (pos / 8)) a in
    let (el, eh, both) = inverted_lem (pos % 8) (omega arith) in
    subst (λ o. Marks l pos 8 (byte bits) (bind o (λ b. write_bits b (pos / 8 + 1) (255 - a))))
      (sym (or_bits_lem bits (pos / 8) a (omega arith)))
      (subst (Marks l pos 8 (byte bits))
        (sym (
          write_bits_lem (set bits (pos / 8) lo) (pos / 8 + 1) _
            (let s = length-set bits (pos / 8) lo in omega arith)))
        (
          length-set (set bits (pos / 8) lo) (pos / 8 + 1) _ ∙ length-set bits (pos / 8) lo ∙ e,
          Marked-cong pos 8 (byte bits) _ _
              (two_writes 8 pos lo _ bits (omega arith) (ap (bit_or (byte bits (pos / 8))) el) eh)
              (step-Marked 8 pos (byte bits) (omega arith) c),
        ))

three_writes :
    (pos lo : ℕ) (bits : Bytes)
    → pos / 8 + 2 < length bits
    → lo ≡ low 8 (pos % 8) (byte bits (pos / 8))
    → (j : ℕ)
    → byte
        (set
          (set (set bits (pos / 8) lo) (pos / 8 + 1) 255)
          (pos / 8 + 2)
          (255 - 255 * 2 ^ (pos % 8) % 256))
        j
      ≡ step 8 (pos + 8) (step 8 pos (byte bits)) j
three_writes pos lo bits k el j =
    let q = pos / 8 in
    let hi = 255 - 255 * 2 ^ (pos % 8) % 256 in
    let f1 = step 8 pos (byte bits) in
    let (mask_is, eh, both) = inverted_lem (pos % 8) (omega arith) in
    let next_byte : (pos + 8) / 8 ≡ suc q = omega arith in
    let same_bit : (pos + 8) % 8 ≡ pos % 8 = omega arith in
    let there : f1 (suc q) ≡ high 8 (pos % 8) =
      if-cases (λ b. b ≡ high 8 (pos % 8)) (suc q == q) (λ t. absurd (ground arith))
        (λ t.
          if-cases (λ b. b ≡ high 8 (pos % 8)) (suc q == suc q) (λ u. refl)
            (λ u. absurd (ground arith))) in
    let full : low 8 ((pos + 8) % 8) (f1 ((pos + 8) / 8)) ≡ 255 =
      ap (λ r. low 8 r (f1 ((pos + 8) / 8))) same_bit
      ∙ ap (low 8 (pos % 8)) (ap f1 next_byte ∙ there)
      ∙ both in
    let last : high 8 ((pos + 8) % 8) ≡ hi = ap (high 8) same_bit ∙ sym eh in
    let s1 = length-set bits q lo in
    let s2 = length-set (set bits q lo) (q + 1) 255 in
    let w1 = byte-set bits q lo j (omega arith) in
    let w2 = byte-set (set bits q lo) (q + 1) 255 j (omega arith) in
    let w3 = byte-set (set (set bits q lo) (q + 1) 255) (q + 2) hi j (omega arith) in ground arith

pub set16-Marks :
    (pos l : ℕ) (bits : Bytes)
    → length bits ≡ l
    → pos + 16 < 8 * l
    → Clean pos (byte bits)
    → Marks l pos 16 (byte bits) (set16 pos bits)
unfolding set16
set16-Marks pos l bits e k c =
    let q = pos / 8 in
    let a = 255 * 2 ^ (pos % 8) % 256 in
    let lo = bit_or (byte bits q) a in
    let (el, eh, both) = inverted_lem (pos % 8) (omega arith) in
    let first = step-Marked 8 pos (byte bits) (omega arith) c in
    let s1 = length-set bits q lo in
    let s2 = length-set (set bits q lo) (q + 1) 255 in
    subst
      (λ o.
        Marks l pos 16 (byte bits)
          (bind o (λ b. bind (write_bits b (q + 1) 255) (λ b. write_bits b (q + 2) (255 - a)))))
      (sym (or_bits_lem bits q a (omega arith)))
      (subst (λ o. Marks l pos 16 (byte bits) (bind o (λ b. write_bits b (q + 2) (255 - a))))
        (sym (write_bits_lem (set bits q lo) (q + 1) 255 (omega arith)))
        (subst (Marks l pos 16 (byte bits))
          (sym (write_bits_lem (set (set bits q lo) (q + 1) 255) (q + 2) (255 - a) (omega arith)))
          (
            length-set (set (set bits q lo) (q + 1) 255) (q + 2) (255 - a) ∙ s2 ∙ s1 ∙ e,
            Marked-cong pos 16 (byte bits) _ _
                (three_writes pos lo bits (omega arith) (ap (bit_or (byte bits q)) el))
                (Marked-trans pos 8 8 (byte bits) _ _ first
                  (step-Marked 8 (pos + 8) _ (omega arith) first.0)),
          )))
