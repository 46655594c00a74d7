-- ===== src/Pool/Bounds.antt =====
-- transactions/pool: the pool never holds a hash twice, nor more than one transaction over its size.
use zond.Prelude.{
  ℕ, zero, suc, ◌+◌, ◌≤◌, ◌≡◌, refl, ap, subst, ◌∙◌, Bool, true, false, not, ◌&&◌, ◌||◌, Bool-cases,
  Option, none, some, List, [], ◌∷◌, ◌++◌, ◌==◌, ltb, if◌then◌else◌, length, take, length-append,
  bind, bind-some, some_inj, arith, inl, inr,
}
use zond.State.Account.{Hash}
use zond.Transactions.{Crypto, Transaction, addr_from}
use zond.Staking.{same_bytes}
use zond.Pool.{
  TransactionInfo, Fault, Outcome, ok, error, full, find_clash, pushed, push, pop_last, remove,
  remove_all, contains_hash, TransactionPool, delete_nonce_data, delete_nonces, already_exists,
  same_ots_key, check_ots_exist,
}

abbrev pub are_apart : List TransactionInfo → Bool
are_apart [] = true
are_apart (ti ∷ rest) = not (contains_hash rest ti.info_hash) && are_apart rest

-- At most one over the size, and no hash twice
pub record IsBounded (size : ℕ) (pq : List TransactionInfo) : Type 0 where
  pub short : length pq ≤ size + 1
  pub apart : are_apart pq ≡ true

-- The test of Push on one transaction of the queue
tested :
    (same both : Bool) (o : Option Bool) (f g : Fault) (later : Option (Option Fault))
    → (if same
        then some (some f)
        else if both
        then bind o (λ s. if s then some (some g) else later)
        else later)
      ≡ some none
    → (same ≡ false) × (later ≡ some none)
tested true both o f g later h = cc
tested false false o f g later h = (refl, h)
tested false true none f g later h = cc
tested false true (some true) f g later h = cc
tested false true (some false) f g later h = (refl, h)

no_clash :
    (x : Bool) (new : TransactionInfo) (pq : List TransactionInfo)
    → find_clash x new pq ≡ some none
    → contains_hash pq new.info_hash ≡ false
unfolding find_clash contains_hash
no_clash x new [] h = refl
no_clash x new (ti ∷ rest) h =
    let (differs, later) =
      tested (ti.info_hash == new.info_hash) (x && same_bytes ti.tx.pk new.tx.pk)
        (check_ots_exist ti new.tx) already_exists same_ots_key (find_clash x new rest) h in
    ap (λ b. if b then true else contains_hash rest new.info_hash) differs
    ∙ no_clash x new rest later

contains_hash-append :
    (pq : List TransactionInfo) (new : TransactionInfo) (h : Hash)
    → contains_hash (pq ++ new ∷ []) h ≡ (contains_hash pq h || new.info_hash == h)
unfolding contains_hash
contains_hash-append [] new h = ground arith
contains_hash-append (ti ∷ rest) new h =
    let later = contains_hash-append rest new h in ground (arith, later)

append_apart :
    (pq : List TransactionInfo) (new : TransactionInfo)
    → contains_hash pq new.info_hash ≡ false
    → are_apart pq ≡ true
    → are_apart (pq ++ new ∷ []) ≡ true
unfolding contains_hash
append_apart [] new h o = refl
append_apart (ti ∷ rest) new h o =
    let later : contains_hash rest new.info_hash ≡ false → are_apart (rest ++ new ∷ []) ≡ true =
      λ g. append_apart rest new g (ground arith) in
    rw (contains_hash-append rest new ti.info_hash) (ground (arith, later))

-- A queue with some transactions less
pub record Keeps (pq left : List TransactionInfo) : Type 0 where
  pub shorter : length left ≤ length pq
  pub absent : (h : Hash) → contains_hash pq h ≡ false → contains_hash left h ≡ false
  pub still : are_apart pq ≡ true → are_apart left ≡ true

Keeps-refl : (pq : List TransactionInfo) → Keeps pq pq
Keeps-refl pq = record { shorter = omega arith; absent = λ h a. a; still = λ a. a }

Keeps-cons :
    (ti : TransactionInfo) (pq left : List TransactionInfo)
    → Keeps pq left
    → Keeps (ti ∷ pq) (ti ∷ left)
unfolding contains_hash
Keeps-cons ti pq left k = record {
  shorter = let short = k.shorter in omega arith;
  absent = λ h a. let less = k.absent h in ground arith;
  still = λ a. let less = k.absent ti.info_hash in let more = k.still in ground arith;
}

Keeps-tail : (ti : TransactionInfo) (pq : List TransactionInfo) → Keeps (ti ∷ pq) pq
unfolding contains_hash
Keeps-tail ti pq = record {
  shorter = omega arith;
  absent = λ h a. ground arith;
  still = λ a. ground arith;
}

Keeps-trans : (p q r : List TransactionInfo) → Keeps p q → Keeps q r → Keeps p r
Keeps-trans p q r h k = record {
  shorter = let a = h.shorter in let b = k.shorter in omega arith;
  absent = λ x a. k.absent x (h.absent x a);
  still = λ a. k.still (h.still a);
}

take-Keeps : (n : ℕ) (pq : List TransactionInfo) → Keeps pq (take n pq)
unfolding contains_hash
take-Keeps zero pq = record { shorter = omega arith; absent = λ h a. refl; still = λ a. refl }
take-Keeps (suc n) [] = Keeps-refl []
take-Keeps (suc n) (ti ∷ rest) = Keeps-cons ti rest (take n rest) (take-Keeps n rest)

pub remove-Keeps : (pq : List TransactionInfo) (h : Hash) → Keeps pq (remove pq h).1
unfolding remove
remove-Keeps [] h = Keeps-refl []
remove-Keeps (ti ∷ rest) h = elim (Bool-cases (ti.info_hash == h)) [
  | inl e ↦ rw e (Keeps-tail ti rest)
  | inr e ↦ rw e (Keeps-cons ti rest (remove rest h).1 (remove-Keeps rest h))
]

pub remove_all-Keeps :
    (pq : List TransactionInfo) (txs : List Transaction) → Keeps pq (remove_all pq txs)
unfolding remove_all
remove_all-Keeps pq [] = Keeps-refl pq
remove_all-Keeps pq (tx ∷ txs) =
    let left = (remove pq tx.hash).1 in
    Keeps-trans pq left (remove_all left txs) (remove-Keeps pq tx.hash) (remove_all-Keeps left txs)

pub Keeps-IsBounded :
    (size : ℕ) (pq left : List TransactionInfo)
    → Keeps pq left
    → IsBounded size pq
    → IsBounded size left
Keeps-IsBounded size pq left k v = record {
  short = let a = k.shorter in let b = v.short in omega arith;
  apart = k.still v.apart;
}

pub pop_last-Keeps :
    (pq left : List TransactionInfo) (ti : TransactionInfo)
    → pop_last pq ≡ some (ti, left)
    → Keeps pq left
unfolding pop_last
pop_last-Keeps [] left ti h = cc
pop_last-Keeps (x ∷ rest) left ti h =
    subst (λ (l : List TransactionInfo). Keeps (x ∷ rest) l)
      (ap (λ (r : TransactionInfo × List TransactionInfo). r.1) (some_inj _ (ti, left) h))
      (take-Keeps (length rest) (x ∷ rest))

module _ (c : Crypto) (size : ℕ) where
  pub delete_nonces_pool :
      (t : TransactionPool) (txs : List Transaction)
      → (delete_nonces c size t txs).tx_pool ≡ t.tx_pool
  unfolding delete_nonces delete_nonce_data
  delete_nonces_pool t [] = refl
  delete_nonces_pool t (tx ∷ txs) =
      delete_nonces_pool (delete_nonce_data c size t tx.pk tx.nonce) txs

  pub push-IsBounded :
      (pq pq' : List TransactionInfo) (new : TransactionInfo)
      → full size pq ≡ false
      → are_apart pq ≡ true
      → push c pq new ≡ some (ok pq')
      → IsBounded size pq'
  unfolding push full pushed
  push-IsBounded pq pq' new room o h =
      let (from, e, h1) = bind-some (addr_from c new.tx) _ (ok pq') h in
      let (clash, e', h2) =
        bind-some (find_clash (c.is_valid_xmss_address from) new pq) _ (ok pq') h1 in
      on_clash clash from e' (some_inj (pushed pq new clash) (ok pq') h2)
    where
      room_for : (n : ℕ) → ltb size n ≡ false → n ≤ size
      room_for n h = ground arith

      value : Outcome (List TransactionInfo) → List TransactionInfo
      value (ok l) = l
      value (error f) = []

      on_clash :
          (clash : Option Fault) (from : ℕ)
          → find_clash (c.is_valid_xmss_address from) new pq ≡ some clash
          → pushed pq new clash ≡ ok pq'
          → IsBounded size pq'
      on_clash (some f) from e h = cc
      on_clash none from e h = subst (IsBounded size) (ap value h) (record {
        short =
            let l = length-append pq (new ∷ []) in let r = room_for (length pq) room in omega arith;
        apart = append_apart pq new (no_clash (c.is_valid_xmss_address from) new pq e) o;
      })
