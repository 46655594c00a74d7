-- ===== src/Staking/Keys.antt =====
-- Equality of public keys, and maps whose keys they are.
use zond.Prelude.{
  ◌≡◌, ◌↔◌, ◌⊎◌, refl, Bool, true, false, not, Option, some, List, [], ◌∷◌, ◌&&◌, ==_refl, arith,
}
use zond.Transactions.{Bytes}
use zond.Staking.{same_bytes}
use zond.Staking.Epoch.{put_key, has_validator}

pub same_bytes_refl : (k : Bytes) → same_bytes k k ≡ true
same_bytes_refl [] = refl
same_bytes_refl (x ∷ xs) = rw (==_refl x, same_bytes_refl xs) refl

pub same_bytes_eq : (j k : Bytes) → same_bytes j k ≡ true → j ≡ k
same_bytes_eq [] [] h = refl
same_bytes_eq [] (y ∷ ys) h = cc
same_bytes_eq (x ∷ xs) [] h = cc
same_bytes_eq (x ∷ xs) (y ∷ ys) h =
    let head : x ≡ y = ground arith in
    let tail = same_bytes_eq xs ys (ground arith) in λ i. head i ∷ tail i

module _ {ℓ} {A : Type ℓ} where
  pub put_key_self : (m : Bytes → Option A) (k : Bytes) (v : A) → put_key m k v k ≡ some v
  put_key_self m k v = rw (same_bytes_refl k) refl

  pub put_key_ne :
      (m : Bytes → Option A) (k j : Bytes) (v : A) → same_bytes j k ≡ false → put_key m k v j ≡ m j
  put_key_ne m k j v h = rw h refl

pub has_validator-cons :
    (j k : Bytes) (ks : List Bytes)
    → (has_validator j (k ∷ ks) ≡ true) ↔ ((same_bytes j k ≡ true) ⊎ (has_validator j ks ≡ true))
unfolding has_validator
has_validator-cons j k ks = ground arith

-- No key twice
abbrev pub are_once : List Bytes → Bool
are_once [] = true
are_once (k ∷ ks) = not (has_validator k ks) && are_once ks
