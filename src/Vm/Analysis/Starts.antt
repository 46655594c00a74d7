-- ===== src/Vm/Analysis/Starts.antt =====
-- core/vm/analysis.go and core/vm/contract.go: the positions that validJumpdest accepts are those where an
-- instruction starts, and it is JUMPDEST.
use zond.Prelude.{
  ℕ, zero, suc, ◌+◌, ◌-◌, ◌*◌, ◌/◌, ◌%◌, ◌^◌, ◌≤◌, ◌<◌, ◌≡◌, refl, sym, subst, ◌∙◌, Bool, true,
  false, not, ◌||◌, ◌&&◌, Option, none, some, ◌==◌, ==_iff, ltb, leb, if◌then◌else◌, if-cases,
  length, bind, replicate, length-replicate, ◌↔◌, arith,
}
use native.Mathlib.Decide.{dec_le}
use zond.Vm.{Bytes, get_op, overflows, uint64}
use zond.Vm.Analysis.{mark16, numbits, code_bitmap_loop, code_bitmap, code_segment, valid_jumpdest}
use zond.Vm.Analysis.Bounds.{get_elem?_lem}
use zond.Vm.Analysis.Marks.{bit_at, Clean, Clean-bit_at, Marked}
use zond.Vm.Analysis.Writing.{or_zero, byte, Marks}
use zond.Vm.Analysis.Rounds.{mark16-Marks}

-- How many bytes of data follow an opcode: PUSH1 to PUSH32 have 1 to 32.
abbrev pub immediate : ℕ → ℕ
immediate op = if leb 96 op && leb op 127 then op - 95 else 0

numbits-immediate : (op : ℕ) → numbits op ≡ immediate op
unfolding numbits
numbits-immediate op = ground arith

immediate_le : (op : ℕ) → immediate op ≤ 32
immediate_le op = ground arith

-- From a start of an instruction, the next ones: behind it and its data
pub data Walk (code : Bytes) (q : ℕ) : ℕ → Type 0 where
  here : Walk code q q
  on : (p : ℕ) → Walk code q (p + 1 + immediate (get_op code p)) → Walk code q p

Walk-le : (code : Bytes) (q p : ℕ) → Walk code q p → p ≤ q
Walk-le code q _ here = omega arith
Walk-le code q _ (on p w) =
    let h = Walk-le code q (p + 1 + immediate (get_op code p)) w in omega arith

Walk-on :
    (code : Bytes) (q p : ℕ)
    → p < q
    → Walk code q p
    → Walk code q (p + 1 + immediate (get_op code p))
Walk-on code q _ h here = absurd (omega arith)
Walk-on code q _ h (on p w) = w

Clean-suc : (pos : ℕ) (f : ℕ → ℕ) → Clean pos f → Clean (pos + 1) f
Clean-suc pos f (last, none_on) = elim (dec_le 7 (pos % 8)) [
  | yes l ↦
      let empty = none_on ((pos + 1) / 8) (omega arith) in
      (
        subst (λ k. f ((pos + 1) / 8) < 2 ^ k) (let z : 0 ≡ (pos + 1) % 8 = omega arith in z)
            (omega arith),
        λ j h. none_on j (omega arith),
      )
  | no g ↦
      let same : pos / 8 ≡ (pos + 1) / 8 = omega arith in
      (
        subst (λ j. f j < 2 ^ ((pos + 1) % 8)) same
            (subst (λ k. f (pos / 8) < 2 ^ k)
              (let z : suc (pos % 8) ≡ (pos + 1) % 8 = omega arith in z) (omega arith)),
        λ j h. none_on j (omega arith),
      )
]

-- What the loop answers from a position on: the bits before it are kept, and from there on the ones
-- without a mark are where instructions start.
abbrev Read : ℕ → Bytes → ℕ → Bytes → Option Bytes → Type 0
Read l code pc bits none = ⊥
Read l code pc bits (some out) =
    (length out ≡ l)
    × ((i : ℕ) → i < pc → bit_at (byte out) i ≡ bit_at (byte bits) i)
    × ((i : ℕ) → pc ≤ i → i < length code → (bit_at (byte out) i ≡ 0) ↔ Walk code i pc)

Read-before :
    (l : ℕ) (code : Bytes) (pc : ℕ) (bits b : Bytes) (o : Option Bytes)
    → Clean pc (byte bits)
    → Marked (pc + 1) (immediate (get_op code pc)) (byte bits) (byte b)
    → Read l code (pc + 1 + immediate (get_op code pc)) b o
    → Read l code pc bits o
Read-before l code pc bits b none c m h = h
Read-before l code pc bits b (some out) c (m, marks) (e, kept, starts) = (
  e,
  (λ i h. kept i (omega arith) ∙ (let x = marks i in ground arith)),
  λ i h short. elim (dec_le (pc + 1 + immediate (get_op code pc)) i) [
    | yes l ↦ (
      (λ z. on pc ((starts i l short).0 z)),
      (λ w. (starts i l short).1 (Walk-on code i pc (omega arith) w)),
    )
    | no g ↦ elim (dec_le i pc) [
      | yes l ↦
          let unmarked : bit_at (byte out) i ≡ 0 =
            kept i (omega arith)
            ∙ (let x = marks i in let z = Clean-bit_at pc i (byte bits) c h in ground arith) in
          ((λ z. subst (Walk code i) (let s : i ≡ pc = omega arith in s) here), (λ w. unmarked))
      | no g' ↦
          let marked : bit_at (byte out) i ≡ 1 =
            kept i (omega arith) ∙ (let x = marks i in ground arith) in
          (
            (λ z. absurd (omega arith)),
            (λ w.
                absurd
                  (let y = Walk-le code i _ (Walk-on code i pc (omega arith) w) in omega arith)),
          )
    ]
  ],
)

Read-bind :
    (l : ℕ) (code : Bytes) (pc : ℕ) (bits : Bytes) (o : Option Bytes) (next : Bytes → Option Bytes)
    → Clean pc (byte bits)
    → Marks l (pc + 1) (immediate (get_op code pc)) (byte bits) o
    → ((b : Bytes)
        → length b ≡ l
        → Clean (pc + 1 + immediate (get_op code pc)) (byte b)
        → Read l code (pc + 1 + immediate (get_op code pc)) b (next b))
    → Read l code pc bits (bind o next)
Read-bind l code pc bits none next c h f = absurd h
Read-bind l code pc bits (some b) next c (e, m) f =
    Read-before l code pc bits b (next b) c m (f b e m.0)

loop-Read :
    (rounds : ℕ) (code : Bytes) (pc l : ℕ) (bits : Bytes)
    → length code ≤ pc + rounds
    → length bits ≡ l
    → length code + 32 < 8 * l
    → Clean pc (byte bits)
    → Read l code pc bits (code_bitmap_loop rounds code pc bits)
unfolding code_bitmap_loop
loop-Read zero code pc l bits h e k c = (e, (λ i x. refl), λ i x y. absurd (omega arith))
loop-Read (suc rounds) code pc l bits h e k c =
    let n = immediate (get_op code pc) in
    let small = immediate_le (get_op code pc) in
    subst
      (λ n. Read l code pc bits (
        if ltb pc (length code)
        then bind (mark16 3 n (pc + 1) bits) (λ b. code_bitmap_loop rounds code (pc + 1 + n) b)
        else some bits))
      (sym (numbits-immediate (get_op code pc)))
      (if-cases (Read l code pc bits) (ltb pc (length code))
        (λ t.
          let low : pc < length code = ground (arith, t) in
          Read-bind l code pc bits (mark16 3 n (pc + 1) bits) _ c
            (mark16-Marks 3 n (pc + 1) l bits (omega arith) e (omega arith)
              (Clean-suc pc (byte bits) c))
            λ b g m. loop-Read rounds code (pc + 1 + n) l b (omega arith) g k m)
        (λ t. (e, (λ i x. refl), λ i x y. absurd (ground arith))))

byte-replicate : (n j : ℕ) → byte (replicate n 0) j ≡ 0
byte-replicate zero j = refl
byte-replicate (suc n) zero = refl
byte-replicate (suc n) (suc j) = byte-replicate n j

code_bitmap-Read :
    (code : Bytes)
    → Read (length code / 8 + 5) code 0 (replicate (length code / 8 + 1 + 4) 0) (code_bitmap code)
unfolding code_bitmap
code_bitmap-Read code =
    let size = length code / 8 + 1 + 4 in
    loop-Read (length code) code 0 (length code / 8 + 5) (replicate size 0) (omega arith)
      (length-replicate size 0 ∙ omega arith) (omega arith)
      ((let z = byte-replicate size 0 in omega arith), λ j h. byte-replicate size j)

-- An answer, and when it is true
abbrev Tells : Type 0 → Option Bool → Type 0
Tells X none = ⊥
Tells X (some b) = (b ≡ true) ↔ X

told : (X : Type 0) (o : Option Bool) → Tells X o → (b : Bool) × (o ≡ some b) × ((b ≡ true) ↔ X)
told X none h = absurd h
told X (some b) h = (b, refl, h)

-- a position that holds JUMPDEST where an instruction starts
abbrev pub IsDestination : Bytes → ℕ → Type 0
IsDestination code dest = (dest < length code) × (get_op code dest ≡ 91) × Walk code dest 0

segment-Tells :
    (code : Bytes) (dest : ℕ) (bits : Bytes) (o : Option Bytes)
    → dest < length code
    → get_op code dest ≡ 91
    → Read (length code / 8 + 5) code 0 bits o
    → Tells (IsDestination code dest) (bind o (λ out. code_segment out dest))
unfolding code_segment
segment-Tells code dest bits none h op r = r
segment-Tells code dest bits (some out) h op (e, kept, starts) =
    let (a, found) = get_elem?_lem out (dest / 8) (omega arith) in
    let (to, from) = starts dest (omega arith) h in
    let same : bit_at (byte out) dest ≡ a / 2 ^ (dest % 8) % 2 =
      subst (λ o. or_zero o / 2 ^ (dest % 8) % 2 ≡ a / 2 ^ (dest % 8) % 2) (sym found) refl in
    subst (λ o. Tells (IsDestination code dest) (bind o (λ b. some (b / 2 ^ (dest % 8) % 2 == 0))))
      (sym found)
      (
        (λ t. (h, op, to (same ∙ (==_iff _ 0).0 t))),
        (λ (x, y, w). (==_iff _ 0).1 (sym same ∙ from w)),
      )

-- On a code that fits a Go slice, validJumpdest does not panic, and accepts a word exactly if it
-- is a position of the code that holds JUMPDEST and where an instruction starts: from the first
-- one on, each starts behind the one before and its data, of PUSH1 to PUSH32.
pub valid_jumpdest-IsDestination :
    (code : Bytes) (dest : ℕ)
    → length code < 2 ^ 63
    → (b : Bool) × (valid_jumpdest code dest ≡ some b) × ((b ≡ true) ↔ IsDestination code dest)
unfolding valid_jumpdest
valid_jumpdest-IsDestination code dest short =
    told (IsDestination code dest) (valid_jumpdest code dest) (
      if-cases (Tells (IsDestination code dest)) (overflows dest || leb (length code) (uint64 dest))
        (λ t. ((λ u. absurd (ground arith)), λ (h, op, w). absurd (ground (arith, t))))
        (λ t.
          let inside : dest < 2 ^ 64 = ground (arith, t) in
          let same : uint64 dest ≡ dest = omega arith in
          let h : dest < length code = ground (arith, t) in
          subst
            (λ d. Tells (IsDestination code dest) (
              if not (get_op code d == 91)
              then some false
              else bind (code_bitmap code) (λ bits. code_segment bits d)))
            (sym same)
            (if-cases (Tells (IsDestination code dest)) (not (get_op code dest == 91))
              (λ u. ((λ v. absurd (ground arith)), λ (h, op, w). absurd (ground (arith, u))))
              (λ u.
                segment-Tells code dest _ (code_bitmap code) h (ground (arith, u))
                  (code_bitmap-Read code)))))
