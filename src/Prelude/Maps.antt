-- ===== src/Prelude/Maps.antt =====
-- Go maps with numbers for keys, as functions: an absent key has the value that reading it gives.
use Prim.Native.Nat.{ℕ}
use mathlib.Core.Path.{◌≡◌, fun_ext}
use mathlib.Core.Logic.{◌≢◌}
use native.Mathlib.Omega.{arith}
use zond.Prelude.Tests.{◌==◌, if◌then◌else◌}

module _ {ℓ} {A : Type ℓ} where
  -- m[k] = v
  abbrev pub update : (ℕ → A) → ℕ → A → ℕ → A
  update m k v j = if j == k then v else m j

  pub update_self : (m : ℕ → A) (k : ℕ) (v : A) → update m k v k ≡ v
  update_self m k v = ground arith

  pub update_ne : (m : ℕ → A) (k j : ℕ) (v : A) → j ≢ k → update m k v j ≡ m j
  update_ne m k j v h = ground arith

  -- Writing the old value back undoes a write.
  pub update_undo : (m : ℕ → A) (k : ℕ) (v w : A) → w ≡ m k → update (update m k v) k w ≡ m
  update_undo m k v w h = fun_ext λ j. ground arith

  pub update_twice : (m : ℕ → A) (k : ℕ) (v w : A) → update (update m k v) k w ≡ update m k w
  update_twice m k v w = fun_ext λ j. ground arith

  -- Writing the value that is there changes nothing.
  pub update_same : (m : ℕ → A) (k : ℕ) (v : A) → m k ≡ v → update m k v ≡ m
  update_same m k v h = fun_ext λ j. ground arith
