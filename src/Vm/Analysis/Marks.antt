-- ===== src/Vm/Analysis/Marks.antt =====
-- core/vm/analysis.go: a bit vector as a function from positions to bytes, and what a mark of bits does to
-- one that has no bit from there on.
use zond.Prelude.{
  ℕ, suc, ◌+◌, ◌-◌, ◌/◌, ◌%◌, ◌^◌, ◌≤◌, ◌<◌, ◌≡◌, refl, sym, ap, subst, ◌∙◌, ◌==◌, ==_iff, ltb,
  if◌then◌else◌, if-cases, arith,
}
use native.Mathlib.Decide.{dec_le}
use zond.Vm.Analysis.Masks.{bit, low, high, low-bit, high-bit, low_lt, high_lt, bit-zero}

abbrev pub bit_at : (ℕ → ℕ) → ℕ → ℕ
bit_at f i = bit (f (i / 8)) (i % 8)

-- no bit from a position on
abbrev pub Clean : ℕ → (ℕ → ℕ) → Type 0
Clean pos f = (f (pos / 8) < 2 ^ (pos % 8)) × ((j : ℕ) → pos / 8 < j → f j ≡ 0)

-- `n` ones from a position on, and nothing behind them
abbrev pub Marked : ℕ → ℕ → (ℕ → ℕ) → (ℕ → ℕ) → Type 0
Marked pos n f f' =
    Clean (pos + n) f'
    × ((i : ℕ) → bit_at f' i ≡ (if ltb i pos then bit_at f i else if ltb i (pos + n) then 1 else 0))

pub Clean-bit_at : (pos i : ℕ) (f : ℕ → ℕ) → Clean pos f → pos ≤ i → bit_at f i ≡ 0
Clean-bit_at pos i f (last, none_on) h = elim (dec_le (i / 8) (pos / 8)) [
  | yes l ↦
      let same : pos / 8 ≡ i / 8 = omega arith in
      bit-zero (pos % 8) (f (i / 8)) (i % 8) (omega arith) (omega arith)
        (subst (λ j. f j < 2 ^ (pos % 8)) same last) (omega arith)
  | no g ↦
      bit-zero 0 (f (i / 8)) (i % 8) (omega arith) (omega arith)
        (let e = none_on (i / 8) (omega arith) in omega arith) (omega arith)
]

pub Marked-zero : (pos : ℕ) (f : ℕ → ℕ) → Clean pos f → Marked pos 0 f f
Marked-zero pos f c = (
  subst (λ p. Clean p f) (omega arith) c,
  λ i.
      if-cases (λ b. bit_at f i ≡ b) (ltb i pos) (λ t. refl)
        (λ t.
          if-cases (λ b. bit_at f i ≡ b) (ltb i (pos + 0)) (λ u. absurd (ground arith))
            (λ u. Clean-bit_at pos i f c (ground arith))),
)

pub Marked-trans :
    (pos n k : ℕ) (f g h : ℕ → ℕ)
    → Marked pos n f g
    → Marked (pos + n) k g h
    → Marked pos (n + k) f h
Marked-trans pos n k f g h (c, before) (c', behind) = (
  subst (λ p. Clean p h) (omega arith) c',
  λ i. let x = before i in let y = behind i in ground arith,
)

pub Marked-cong :
    (pos n : ℕ) (f g h : ℕ → ℕ) → ((j : ℕ) → h j ≡ g j) → Marked pos n f g → Marked pos n f h
Marked-cong pos n f g h e ((last, none_on), bits) = (
  (subst (λ b. b < 2 ^ ((pos + n) % 8)) (sym (e ((pos + n) / 8))) last, λ j l. e j ∙ none_on j l),
  λ i. ap (λ b. bit b (i % 8)) (e (i / 8)) ∙ bits i,
)

-- a mark of at most eight bits, on bytes
abbrev pub step : ℕ → ℕ → (ℕ → ℕ) → ℕ → ℕ
step n pos f j =
    if j == pos / 8
    then low n (pos % 8) (f (pos / 8))
    else if j == suc (pos / 8)
    then high n (pos % 8)
    else f j

-- the bit that a mark leaves at a place, in a byte of its own
abbrev IsLeft : ℕ → ℕ → ℕ → (ℕ → ℕ) → ℕ → Type 0
IsLeft n pos i f b =
    bit b (i % 8) ≡ (if ltb i pos then bit_at f i else if ltb i (pos + n) then 1 else 0)

step-bit_at :
    (n pos i : ℕ) (f : ℕ → ℕ)
    → n < 9
    → Clean pos f
    → bit_at (step n pos f) i ≡ (if ltb i pos then bit_at f i else if ltb i (pos + n) then 1 else 0)
step-bit_at n pos i f hn c =
    if-cases (IsLeft n pos i f) (i / 8 == pos / 8)
      (λ t.
        low-bit n (pos % 8) (f (pos / 8)) (i % 8) hn (omega arith) c.0 (omega arith)
        ∙ here (bit (f (pos / 8)) (i % 8)) (bit_at f i) (ground (arith, t))
            (ap (λ j. bit (f j) (i % 8)) (sym ((==_iff _ _).0 t))))
      (λ t.
        if-cases (IsLeft n pos i f) (i / 8 == suc (pos / 8))
          (λ u.
            high-bit n (pos % 8) (i % 8) hn (omega arith) (omega arith)
            ∙ beyond (bit_at f i) (ground (arith, u)))
          (λ u. elsewhere (λ l. Clean-bit_at pos i f c l) (ground (arith, t)) (ground (arith, u))))
  where
    here :
        (x y : ℕ)
        → i / 8 ≡ pos / 8
        → x ≡ y
        → (if ltb (i % 8) (pos % 8) then x else if ltb (i % 8) (pos % 8 + n) then 1 else 0)
          ≡ (if ltb i pos then y else if ltb i (pos + n) then 1 else 0)
    here x y e h = ground arith

    beyond :
        (y : ℕ)
        → i / 8 ≡ suc (pos / 8)
        → (if ltb (i % 8 + 8) (pos % 8 + n) then 1 else 0)
          ≡ (if ltb i pos then y else if ltb i (pos + n) then 1 else 0)
    beyond y e = ground arith

    elsewhere :
        {x : ℕ}
        → (pos ≤ i → x ≡ 0)
        → (i / 8 ≡ pos / 8 → ⊥)
        → (i / 8 ≡ suc (pos / 8) → ⊥)
        → x ≡ (if ltb i pos then x else if ltb i (pos + n) then 1 else 0)
    elsewhere z a b = ground arith

pub step-Marked : (n pos : ℕ) (f : ℕ → ℕ) → n < 9 → Clean pos f → Marked pos n f (step n pos f)
step-Marked n pos f hn (last, none_on) = (
  elim (dec_le 8 (pos % 8 + n)) [
    | yes l ↦
        let e : (pos + n) % 8 ≡ pos % 8 + n - 8 = omega arith in
        let small = high_lt n (pos % 8) hn (omega arith) l in
        (
          if-cases (λ b. b < 2 ^ ((pos + n) % 8)) ((pos + n) / 8 == pos / 8)
              (λ t. absurd (ground arith))
              (λ t.
                if-cases (λ b. b < 2 ^ ((pos + n) % 8)) ((pos + n) / 8 == suc (pos / 8))
                  (λ u. subst (λ k. high n (pos % 8) < 2 ^ k) (sym e) small)
                  (λ u. absurd (ground arith))),
          λ j h.
              if-cases (λ b. b ≡ 0) (j == pos / 8) (λ t. absurd (ground arith))
                (λ t.
                  if-cases (λ b. b ≡ 0) (j == suc (pos / 8)) (λ u. absurd (ground arith))
                    (λ u. none_on j (omega arith))),
        )
    | no g ↦
        let e : (pos + n) % 8 ≡ pos % 8 + n = omega arith in
        let (small, empty) = low_lt n (pos % 8) (f (pos / 8)) hn (omega arith) last (omega arith) in
        (
          if-cases (λ b. b < 2 ^ ((pos + n) % 8)) ((pos + n) / 8 == pos / 8)
              (λ t. subst (λ k. low n (pos % 8) (f (pos / 8)) < 2 ^ k) (sym e) small)
              (λ t. absurd (ground arith)),
          λ j h.
              if-cases (λ b. b ≡ 0) (j == pos / 8) (λ t. absurd (ground arith))
                (λ t.
                  if-cases (λ b. b ≡ 0) (j == suc (pos / 8)) (λ u. empty)
                    (λ u. none_on j (omega arith))),
        )
  ],
  λ i. step-bit_at n pos i f hn (last, none_on),
)
