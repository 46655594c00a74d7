-- ===== src/Staking/Apply/Conserve.antt =====
-- core/state_processor.go: the coins that addresses hold together are kept, or change by a reward.
use zond.Prelude.{
  ◌≡◌, ◌≢◌, refl, sym, ap, ◌∙◌, Bool, true, false, not, List, [], ◌∷◌, arith, ◌==◌, ◌||◌, ◌&&◌,
  subst,
}
use zond.Prelude.Int.{ℤ, pos, ◌+ℤ◌, int_laws}
use zond.Prelude.Maps.{update_self, update_ne}
use zond.State.Account.{Address}
use zond.State.Ledger.{Holding, Ledger, change}
use native.Mathlib.Decide.{ℕ_discrete}

-- All the coins of an address
abbrev pub wealth : Holding → ℤ
wealth h = h.balance +ℤ h.stake_balance +ℤ h.pending_stake_balance

abbrev pub total : List Address → Ledger → ℤ
total [] l = pos 0
total (a ∷ rest) l = wealth (l a) +ℤ total rest l

abbrev pub is_in : Address → List Address → Bool
is_in a [] = false
is_in a (b ∷ bs) = a == b || is_in a bs

abbrev pub are_distinct : List Address → Bool
are_distinct [] = true
are_distinct (a ∷ rest) = not (is_in a rest) && are_distinct rest

total_outside :
    (accounts : List Address) (l : Ledger) (a : Address) (f : Holding → Holding)
    → is_in a accounts ≡ false
    → total accounts (change l a f) ≡ total accounts l
total_outside [] l a f h = refl
total_outside (b ∷ bs) l a f h =
    let away : b ≢ a = λ e. ground arith in
    ap (λ x. wealth x +ℤ total bs (change l a f)) (update_ne l a b (f (l a)) away)
    ∙ ap (λ x. wealth (l b) +ℤ x) (total_outside bs l a f (ground arith))

total_here :
    (bs : List Address) (l : Ledger) (a : Address) (f : Holding → Holding)
    → is_in a bs ≡ false
    → total (a ∷ bs) (change l a f) +ℤ wealth (l a) ≡ total (a ∷ bs) l +ℤ wealth (f (l a))
total_here bs l a f h =
    ap (λ x. wealth x +ℤ total bs (change l a f) +ℤ wealth (l a)) (update_self l a (f (l a)))
    ∙ ap (λ x. wealth (f (l a)) +ℤ x +ℤ wealth (l a)) (total_outside bs l a f h)
    ∙ swap (wealth (f (l a))) (total bs l) (wealth (l a))
  where
    swap : (x y z : ℤ) → x +ℤ y +ℤ z ≡ z +ℤ y +ℤ x
    swap x y z = omega int_laws

later : (x y z u v : ℤ) → u +ℤ y ≡ v +ℤ z → x +ℤ u +ℤ y ≡ x +ℤ v +ℤ z
later x y z u v h =
    let left : x +ℤ u +ℤ y ≡ x +ℤ (u +ℤ y) = omega int_laws in
    let right : x +ℤ (v +ℤ z) ≡ x +ℤ v +ℤ z = omega int_laws in left ∙ ap (λ w. x +ℤ w) h ∙ right

-- A change of one entry shows in the total once.
pub total-change :
    (accounts : List Address) (l : Ledger) (a : Address) (f : Holding → Holding)
    → are_distinct accounts ≡ true
    → is_in a accounts ≡ true
    → total accounts (change l a f) +ℤ wealth (l a) ≡ total accounts l +ℤ wealth (f (l a))
total-change [] l a f d h = cc
total-change (b ∷ bs) l a f d h = elim (ℕ_discrete b a) [
  | yes e ↦
      subst
        (λ x. total (x ∷ bs) (change l a f) +ℤ wealth (l a) ≡ total (x ∷ bs) l +ℤ wealth (f (l a)))
        (sym e) (total_here bs l a f (subst (λ x. is_in x bs ≡ false) e (ground arith)))
  | no n ↦
      ap (λ x. wealth x +ℤ total bs (change l a f) +ℤ wealth (l a)) (update_ne l a b (f (l a)) n)
      ∙ later (wealth (l b)) (wealth (l a)) (wealth (f (l a))) (total bs (change l a f))
          (total bs l) (total-change bs l a f (ground arith) (ground arith))
]

-- A change that keeps the wealth of the address keeps the total.
pub total_kept :
    (accounts : List Address) (l : Ledger) (a : Address) (f : Holding → Holding)
    → ((h : Holding) → wealth (f h) ≡ wealth h)
    → total accounts (change l a f) ≡ total accounts l
total_kept [] l a f h = refl
total_kept (b ∷ bs) l a f h =
    let rest = total_kept bs l a f h in
    let here : wealth (change l a f b) ≡ wealth (l b) = elim (ℕ_discrete b a) [
      | yes e ↦
          subst (λ x. wealth (change l a f x) ≡ wealth (l x)) (sym e)
            (ap wealth (update_self l a (f (l a))) ∙ h (l a))
      | no n ↦ ap wealth (update_ne l a b (f (l a)) n)
    ] in
    ap (λ x. x +ℤ total bs (change l a f)) here ∙ ap (λ x. wealth (l b) +ℤ x) rest
