-- ===== src/Staking/Epoch/Validators.antt =====
-- metadata/epoch.go: AddValidators and RemoveValidators on a list without repetitions.
use zond.Prelude.{
  ◌≡◌, refl, sym, ap, subst, ◌∙◌, true, false, not, ◌&&◌, ◌||◌, Bool-cases, List, [], ◌∷◌, ◌++◌,
  inl, inr, if◌then◌else◌, arith,
}
use zond.Transactions.{Bytes}
use zond.Staking.{same_bytes}
use zond.Staking.Keys.{same_bytes_eq, are_once}
use zond.Staking.Epoch.{EpochMetaData, has_validator, add_validators, without, remove_validators}

has_validator-append :
    (k pk : Bytes) (vs : List Bytes)
    → has_validator k (vs ++ pk ∷ []) ≡ (has_validator k vs || same_bytes k pk)
unfolding has_validator
has_validator-append k pk [] = ground arith
has_validator-append k pk (v ∷ vs) =
    let rest = has_validator-append k pk vs in
    elim (Bool-cases (same_bytes k v)) [ inl e ↦ rw e refl | inr e ↦ rw e rest ]

same_bytes_sym : (j k : Bytes) → same_bytes j k ≡ same_bytes k j
same_bytes_sym [] [] = refl
same_bytes_sym [] (y ∷ ys) = refl
same_bytes_sym (x ∷ xs) [] = refl
same_bytes_sym (x ∷ xs) (y ∷ ys) = let rest = same_bytes_sym xs ys in ground arith

append_once :
    (pk : Bytes) (vs : List Bytes)
    → has_validator pk vs ≡ false
    → are_once vs ≡ true
    → are_once (vs ++ pk ∷ []) ≡ true
unfolding has_validator
append_once pk [] h o = refl
append_once pk (v ∷ vs) h o =
    let turn = same_bytes_sym v pk in
    let rest : has_validator pk vs ≡ false → are_once (vs ++ pk ∷ []) ≡ true =
      λ g. append_once pk vs g (ground arith) in
    rw (has_validator-append v pk vs) (ground (arith, turn, rest))

abbrev pub IsWithout : Bytes → List Bytes → List Bytes → Type 0
IsWithout pk vs ws =
    (are_once ws ≡ true)
    × ((k : Bytes) → has_validator k ws ≡ (has_validator k vs && not (same_bytes k pk)))

without_head :
    (pk v : Bytes) (vs : List Bytes)
    → pk ≡ v
    → are_once (v ∷ vs) ≡ true
    → (k : Bytes) → has_validator k vs ≡ (has_validator k (v ∷ vs) && not (same_bytes k pk))
unfolding has_validator
without_head pk v vs e o k = elim (Bool-cases (same_bytes k v)) [
  | inl x ↦
      let gone : has_validator k vs ≡ false =
        subst (λ j. has_validator j vs ≡ false) (sym (same_bytes_eq k v x)) (ground arith) in
      let same : same_bytes k pk ≡ true = subst (λ j. same_bytes k j ≡ true) (sym e) x in
      ground arith
  | inr x ↦
      let other : same_bytes k pk ≡ false = subst (λ j. same_bytes k j ≡ false) (sym e) x in
      ground arith
]

IsWithout-cons :
    (pk v : Bytes) (vs ws : List Bytes)
    → same_bytes pk v ≡ false
    → are_once (v ∷ vs) ≡ true
    → IsWithout pk vs ws
    → IsWithout pk (v ∷ vs) (v ∷ ws)
unfolding has_validator
IsWithout-cons pk v vs ws other o (once, has) = (
  let here = has v in ground arith,
  λ k. elim (Bool-cases (same_bytes k v)) [
    | inl x ↦
        let apart : same_bytes k pk ≡ false =
          subst (λ j. same_bytes j pk ≡ false) (sym (same_bytes_eq k v x))
            (same_bytes_sym v pk ∙ other) in
        ground arith
    | inr x ↦ let here = has k in ground arith
  ],
)

without-IsWithout :
    (pk : Bytes) (vs : List Bytes) → are_once vs ≡ true → IsWithout pk vs (without pk vs)
unfolding without has_validator
without-IsWithout pk [] o = (refl, λ k. refl)
without-IsWithout pk (v ∷ vs) o = elim (Bool-cases (same_bytes pk v)) [
  | inl e ↦
      subst (IsWithout pk (v ∷ vs)) (sym (ap (λ b. if b then vs else v ∷ without pk vs) e))
        (ground arith, without_head pk v vs (same_bytes_eq pk v e) o)
  | inr e ↦
      subst (IsWithout pk (v ∷ vs)) (sym (ap (λ b. if b then vs else v ∷ without pk vs) e))
        (IsWithout-cons pk v vs (without pk vs) e o (without-IsWithout pk vs (ground arith)))
]

-- On a list without repetitions, AddValidators and RemoveValidators leave one without
-- repetitions; the key is among the validators after the first and not after the second, and for
-- any other key it is as before.
pub validators_lem :
    (e : EpochMetaData) (pk : Bytes)
    → are_once e.validators ≡ true
    → (are_once (add_validators e pk).validators ≡ true)
      × ((k : Bytes)
          → has_validator k (add_validators e pk).validators
            ≡ (has_validator k e.validators || same_bytes k pk))
      × IsWithout pk e.validators (remove_validators e pk).validators
unfolding add_validators remove_validators
validators_lem e pk o = elim (Bool-cases (has_validator pk e.validators)) [
  | inl there ↦ rw there (o, kept there, without-IsWithout pk e.validators o)
  | inr new ↦ rw new (
    append_once pk e.validators new o,
    λ k. has_validator-append k pk e.validators,
    without-IsWithout pk e.validators o,
  )
]
  where
    kept :
        has_validator pk e.validators ≡ true
        → (k : Bytes)
        → has_validator k e.validators ≡ (has_validator k e.validators || same_bytes k pk)
    kept there k = elim (Bool-cases (same_bytes k pk)) [
      | inl x ↦
          let here : has_validator k e.validators ≡ true =
            subst (λ j. has_validator j e.validators ≡ true) (sym (same_bytes_eq k pk x)) there in
          ground arith
      | inr x ↦ ground arith
    ]
