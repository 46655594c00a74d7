-- ===== src/Transactions/Signing.antt =====
-- transactions: which transactions share the bytes that are signed.
use zond.Prelude.{
  ℕ, zero, suc, ◌+◌, ◌*◌, ◌/◌, ◌%◌, ◌<◌, ◌^◌, ◌≡◌, refl, sym, ap, ◌∙◌, Option, none, some, [], ◌∷◌,
  ◌++◌, length, arith, length-append,
}
use mathlib.Core.List.{append-nil}
use zond.State.Account.{Address, Hash}
use zond.Transactions.{
  Bytes, Transaction, Stake, Transfer, Attest, to_bytes, signed_head, stake_message, address_bytes,
  transfer_message, attest_message,
}

-- The numbers that so many bytes hold
abbrev pub bound : ℕ → ℕ
bound zero = 1
bound (suc width) = 256 * bound width

abbrev number : ℕ → Bytes → ℕ
number acc [] = acc
number acc (b ∷ bs) = number (acc * 256 + b) bs

number-snoc : (acc b : ℕ) (bs : Bytes) → number acc (bs ++ b ∷ []) ≡ number acc bs * 256 + b
number-snoc acc b [] = refl
number-snoc acc b (x ∷ bs) = number-snoc (acc * 256 + x) b bs

number-to_bytes : (width x : ℕ) → x < bound width → number 0 (to_bytes width x) ≡ x
unfolding to_bytes
number-to_bytes zero x h = omega arith
number-to_bytes (suc width) x h =
    let earlier = number-to_bytes width (x / 256) (omega arith) in
    number-snoc 0 (x % 256) (to_bytes width (x / 256)) ∙ omega (arith, earlier)

length-to_bytes : (width x : ℕ) → length (to_bytes width x) ≡ width
unfolding to_bytes
length-to_bytes zero x = refl
length-to_bytes (suc width) x =
    length-append (to_bytes width (x / 256)) (x % 256 ∷ [])
    ∙ omega (arith, length-to_bytes width (x / 256))

abbrev tail : Bytes → Bytes
tail [] = []
tail (x ∷ xs) = xs

abbrev first : Bytes → ℕ
first [] = 0
first (x ∷ xs) = x

split_same :
    (xs ys us vs : Bytes) → length xs ≡ length ys → xs ++ us ≡ ys ++ vs → (xs ≡ ys) × (us ≡ vs)
split_same [] [] us vs l e = (refl, e)
split_same [] (y ∷ ys) us vs l e = absurd (omega arith)
split_same (x ∷ xs) [] us vs l e = absurd (omega arith)
split_same (x ∷ xs) (y ∷ ys) us vs l e =
    let (same, rest) = split_same xs ys us vs (omega arith) (ap tail e) in
    ((λ i. ap first e i ∷ same i), rest)

peel_bytes :
    (width x y : ℕ) (us vs : Bytes)
    → to_bytes width x ++ us ≡ to_bytes width y ++ vs
    → (to_bytes width x ≡ to_bytes width y) × (us ≡ vs)
peel_bytes width x y us vs e =
    split_same (to_bytes width x) (to_bytes width y) us vs
      (length-to_bytes width x ∙ sym (length-to_bytes width y)) e

to_bytes_inj :
    (width x y : ℕ)
    → x < bound width
    → y < bound width
    → to_bytes width x ≡ to_bytes width y
    → x ≡ y
to_bytes_inj width x y h k e =
    sym (number-to_bytes width x h) ∙ ap (number 0) e ∙ number-to_bytes width y k

pub peel :
    (width x y : ℕ) (us vs : Bytes)
    → x < bound width
    → y < bound width
    → to_bytes width x ++ us ≡ to_bytes width y ++ vs
    → (x ≡ y) × (us ≡ vs)
peel width x y us vs h k e =
    let (same, rest) = peel_bytes width x y us vs e in (to_bytes_inj width x y h k same, rest)

-- The fields of a transaction that are 64-bit words
pub record IsWords (tx : Transaction) : Type 0 where
  pub chain_id_lt : tx.chain_id < 2 ^ 64
  pub gas_lt : tx.gas < 2 ^ 64
  pub gas_price_lt : tx.gas_price < 2 ^ 64
  pub nonce_lt : tx.nonce < 2 ^ 64

-- The fields that a signature covers
pub record SameFields (x y : Transaction) : Type 0 where
  pub chain_id_eq : x.chain_id ≡ y.chain_id
  pub gas_eq : x.gas ≡ y.gas
  pub gas_price_eq : x.gas_price ≡ y.gas_price
  pub nonce_eq : x.nonce ≡ y.nonce

signed_head_inj :
    (x y : Transaction) (us vs : Bytes)
    → IsWords x
    → IsWords y
    → signed_head x us ≡ signed_head y vs
    → SameFields x y × (us ≡ vs)
unfolding signed_head
signed_head_inj x y us vs h k e =
    let (chain, e1) = peel 8 x.chain_id y.chain_id _ _ h.chain_id_lt k.chain_id_lt e in
    let (nonce, e2) = peel 8 x.nonce y.nonce _ _ h.nonce_lt k.nonce_lt e1 in
    let (gas, e3) = peel 8 x.gas y.gas _ _ h.gas_lt k.gas_lt e2 in
    let (price, e4) = peel 8 x.gas_price y.gas_price us vs h.gas_price_lt k.gas_price_lt e3 in
    (record { chain_id_eq = chain; gas_eq = gas; gas_price_eq = price; nonce_eq = nonce }, e4)

pub stake_message_inj :
    (x y : Stake)
    → IsWords x.stake_tx
    → IsWords y.stake_tx
    → x.amount < 2 ^ 64
    → y.amount < 2 ^ 64
    → stake_message x ≡ stake_message y
    → SameFields x.stake_tx y.stake_tx × (x.amount ≡ y.amount)
unfolding stake_message
stake_message_inj x y h k hx hy e =
    let (same, rest) =
      signed_head_inj x.stake_tx y.stake_tx (to_bytes 8 x.amount) (to_bytes 8 y.amount) h k e in
    (same, to_bytes_inj 8 x.amount y.amount hx hy rest)

-- Two contract creations, or two transfers to addresses
abbrev pub IsAlike : Option Address → Option Address → Type 0
IsAlike none none = Unit {0}
IsAlike none (some b) = ⊥
IsAlike (some a) none = ⊥
IsAlike (some a) (some b) = (a < bound 20) × (b < bound 20)

address_bytes_inj :
    (a b : Option Address) (us vs : Bytes)
    → IsAlike a b
    → address_bytes a ++ us ≡ address_bytes b ++ vs
    → (a ≡ b) × (us ≡ vs)
unfolding address_bytes
address_bytes_inj none none us vs h e = (refl, e)
address_bytes_inj none (some b) us vs h e = elim h [ ]
address_bytes_inj (some a) none us vs h e = elim h [ ]
address_bytes_inj (some a) (some b) us vs (ha, hb) e =
    let (same, rest) = peel 20 a b us vs ha hb e in (ap (λ x. some x) same, rest)

-- Two transfers to addresses, or two contract creations, with 64-bit fields that are signed over
-- the same bytes have the same chain id, nonce, gas, gas price, receiver, value and data.
pub transfer_message_inj :
    (x y : Transfer)
    → IsWords x.transfer_tx
    → IsWords y.transfer_tx
    → x.value < 2 ^ 64
    → y.value < 2 ^ 64
    → IsAlike x.to y.to
    → transfer_message x ≡ transfer_message y
    → SameFields x.transfer_tx y.transfer_tx
      × (x.to ≡ y.to)
      × (x.value ≡ y.value)
      × (x.payload ≡ y.payload)
unfolding transfer_message
transfer_message_inj x y h k hx hy alike e =
    let (same, e1) = signed_head_inj x.transfer_tx y.transfer_tx _ _ h k e in
    let (to_eq, e2) = address_bytes_inj x.to y.to _ _ alike e1 in
    let (value_eq, e3) = peel 8 x.value y.value x.payload y.payload hx hy e2 in
    (same, to_eq, value_eq, e3)

-- The contract creation whose signed bytes are those of a transfer to an address
abbrev shift : ℕ → ℕ → ℕ
shift zero x = x
shift (suc n) x = shift n (x / 256)

abbrev pub creation_of : Transfer → Address → Transfer
creation_of tx a = record tx {
  to = none;
  value = shift 12 a;
  payload = to_bytes 12 a ++ (to_bytes 8 tx.value ++ tx.payload);
}

-- For every transfer to an address there is a contract creation that is signed over the same
-- bytes: its value is the first 8 bytes of the address, and its data the rest of the address, the
-- value and the data.
pub transfer_message-creation :
    (tx : Transfer) (a : Address)
    → tx.to ≡ some a
    → transfer_message tx ≡ transfer_message (creation_of tx a)
unfolding transfer_message address_bytes to_bytes
transfer_message-creation tx a h = rw h refl

pub stake_message-transfer :
    (tx : Stake)
    → stake_message tx
      ≡ transfer_message
          (record { transfer_tx = tx.stake_tx; to = none; value = tx.amount; payload = [] })
unfolding stake_message transfer_message address_bytes
stake_message-transfer tx = ap (signed_head tx.stake_tx) (sym (append-nil (to_bytes 8 tx.amount)))

pub attest_message_inj :
    (x y : Attest) (g h : Hash)
    → x.attest_tx.chain_id < 2 ^ 64
    → y.attest_tx.chain_id < 2 ^ 64
    → x.attest_tx.nonce < 2 ^ 64
    → y.attest_tx.nonce < 2 ^ 64
    → g < 2 ^ 256
    → h < 2 ^ 256
    → attest_message x g ≡ attest_message y h
    → (g ≡ h)
      × (x.attest_tx.chain_id ≡ y.attest_tx.chain_id)
      × (x.attest_tx.nonce ≡ y.attest_tx.nonce)
unfolding attest_message
attest_message_inj x y g h cx cy nx ny hg hh e =
    let (hash_eq, e1) = peel 32 g h _ _ hg hh e in
    let (chain, e2) = peel 8 x.attest_tx.chain_id y.attest_tx.chain_id _ _ cx cy e1 in
    (hash_eq, chain, to_bytes_inj 8 x.attest_tx.nonce y.attest_tx.nonce nx ny e2)
