-- ===== src/Trie/Nodes/Meaning/Paths.antt =====
-- Keys and the paths of short nodes: where they part.
use zond.Prelude.{
  ℕ, zero, suc, ◌<◌, ◌≡◌, ◌≢◌, refl, sym, ap, subst, subst₂, some_inj, ◌∙◌, Bool, true, false,
  Bool-cases, none, some, List, [], ◌∷◌, ◌++◌, ◌==◌, ==_iff, ==_refl, if◌then◌else◌, bind, length,
  arith, inl, inr,
}
use zond.Trie.Encoding.{prefix_len}
use zond.Trie.Nodes.{strip}
use zond.Trie.Nodes.Meaning.{Leads, IsKey, IsPath}

pub strip-append : (p b q : List ℕ) → strip (p ++ b) q ≡ bind (strip p q) (λ rest. strip b rest)
unfolding strip
strip-append [] b q = refl
strip-append (x ∷ p) b [] = refl
strip-append (x ∷ p) b (y ∷ q) = elim (Bool-cases (x == y)) [
  | inl e ↦ rw e (strip-append p b q)
  | inr e ↦ rw e refl
]

pub strip-cons :
    (x y : ℕ) (k q rest : List ℕ)
    → strip (x ∷ k) (y ∷ q) ≡ some rest
    → (x ≡ y) × (strip k q ≡ some rest)
unfolding strip
strip-cons x y k q rest e = elim (Bool-cases (x == y)) [
  | inl t ↦ ((==_iff x y).0 t, sym (ap (λ b. if b then strip k q else none) t) ∙ e)
  | inr f ↦ absurd (apart (sym (ap (λ b. if b then strip k q else none) f) ∙ e))
]
  where
    apart : none ≡ some rest → ⊥
    apart h = cc

pub strip_self : (p a : List ℕ) → strip p (p ++ a) ≡ some a
unfolding strip
strip_self [] a = refl
strip_self (x ∷ p) a = ap (λ b. if b then strip p (p ++ a) else none) (==_refl x) ∙ strip_self p a

pub Leads-same : (b c : Bool) (x : ℕ) → Leads b x → Leads c x → b ≡ c
Leads-same true true x h k = refl
Leads-same true false x h k = absurd (omega arith)
Leads-same false true x h k = absurd (omega arith)
Leads-same false false x h k = refl

-- What follows a path in a key is the rest of a key.
pub strip-IsKey :
    (c : Bool) (k q rest : List ℕ)
    → IsPath c k
    → IsKey true q
    → strip k q ≡ some rest
    → IsKey c rest
unfolding strip
strip-IsKey c [] q rest h i e = elim h [ ]
strip-IsKey c (x ∷ k) [] rest h i e = cc
strip-IsKey c (x ∷ []) (y ∷ q) rest h (b, l, i) e =
    let (same, e') = strip-cons x y [] q rest e in
    let mode = Leads-same b c y l (subst (Leads c) same h) in
    subst₂ IsKey mode (some_inj q rest e') i
strip-IsKey c (x ∷ z ∷ k) (y ∷ q) rest (l', h) (b, l, i) e =
    let (same, e') = strip-cons x y (z ∷ k) q rest e in
    let mode = Leads-same b true y l (subst (λ w. w < 16) same l') in
    strip-IsKey c (z ∷ k) q rest h (subst (λ m. IsKey m q) mode i) e'

abbrev pub Parts : List ℕ → List ℕ → Type 0
Parts [] b = Unit {0}
Parts (x ∷ a) [] = Unit {0}
Parts (x ∷ a) (y ∷ b) = x ≢ y

-- The longest common prefix of two keys, and what follows it
pub record Split (key k : List ℕ) : Type 0 where
  pub common : List ℕ
  pub key_rest : List ℕ
  pub path_rest : List ℕ
  pub key_eq : key ≡ common ++ key_rest
  pub path_eq : k ≡ common ++ path_rest
  pub len_eq : prefix_len key k ≡ length common
  pub parts : Parts key_rest path_rest

pub split : (key k : List ℕ) → Split key k
unfolding prefix_len
split [] k = record {
  common = [];
  key_rest = [];
  path_rest = k;
  key_eq = refl;
  path_eq = refl;
  len_eq = refl;
  parts = tt;
}
split (x ∷ key) [] = record {
  common = [];
  key_rest = x ∷ key;
  path_rest = [];
  key_eq = refl;
  path_eq = refl;
  len_eq = refl;
  parts = tt;
}
split (x ∷ key) (y ∷ k) = elim (Bool-cases (x == y)) [
  | inl e ↦
      let s = split key k in
      record {
        common = x ∷ s.common;
        key_rest = s.key_rest;
        path_rest = s.path_rest;
        key_eq = ap (λ l. x ∷ l) s.key_eq;
        path_eq = λ i. sym ((==_iff x y).0 e) i ∷ s.path_eq i;
        len_eq = ap (λ b. if b then suc (prefix_len key k) else 0) e ∙ ap suc s.len_eq;
        parts = s.parts;
      }
  | inr e ↦ record {
    common = [];
    key_rest = x ∷ key;
    path_rest = y ∷ k;
    key_eq = refl;
    path_eq = refl;
    len_eq = ap (λ b. if b then suc (prefix_len key k) else 0) e;
    parts = λ q. ground arith;
  }
]

IsPath-head :
    (c : Bool) (x y : ℕ) (p b : List ℕ)
    → IsPath c (x ∷ (p ++ y ∷ b))
    → (x < 16) × IsPath c (p ++ y ∷ b)
IsPath-head c x y [] b h = h
IsPath-head c x y (w ∷ p) b h = h

-- A key that agrees with a path up to `p` is a key behind `p`.
pub IsKey-after :
    (c : Bool) (p a b : List ℕ) (y : ℕ) → IsKey true (p ++ a) → IsPath c (p ++ y ∷ b) → IsKey true a
IsKey-after c [] a b y i h = i
IsKey-after c (x ∷ p) a b y (d, l, i) h =
    let (low, h') = IsPath-head c x y p b h in
    IsKey-after c p a b y (subst (λ m. IsKey m (p ++ a)) (Leads-same d true x l low) i) h'

pub IsPath-before :
    (c : Bool) (x : ℕ) (p b : List ℕ) (y : ℕ) → IsPath c (x ∷ (p ++ y ∷ b)) → IsPath true (x ∷ p)
IsPath-before c x [] b y h = h.0
IsPath-before c x (w ∷ p) b y h = (h.0, IsPath-before c w p b y h.1)

-- What follows a nibble of a path
abbrev pub After : Bool → Bool → List ℕ → Type 0
After c d [] = d ≡ c
After c d (w ∷ b) = (d ≡ true) × IsPath c (w ∷ b)

pub IsPath-After :
    (c : Bool) (p b : List ℕ) (y : ℕ) → IsPath c (p ++ y ∷ b) → (d : Bool) × Leads d y × After c d b
IsPath-After c [] [] y h = (c, h, refl)
IsPath-After c [] (w ∷ b) y h = (true, h.0, (refl, h.1))
IsPath-After c (x ∷ p) b y h = IsPath-After c p b y (IsPath-head c x y p b h).1

pub strip-length :
    (c : Bool) (k q rest : List ℕ) (m : ℕ)
    → IsPath c k
    → strip k q ≡ some rest
    → length q < suc m
    → length rest < m
unfolding strip
strip-length c [] q rest m h e l = elim h [ ]
strip-length c (x ∷ k) [] rest m h e l = cc
strip-length c (x ∷ []) (y ∷ q) rest m h e l =
    let same = some_inj q rest (strip-cons x y [] q rest e).1 in
    subst (λ r. length r < m) same (omega arith)
strip-length c (x ∷ z ∷ k) (y ∷ q) rest zero h e l = absurd (omega arith)
strip-length c (x ∷ z ∷ k) (y ∷ q) rest (suc m) h e l =
    let lower =
      strip-length c (z ∷ k) q rest m h.1 (strip-cons x y (z ∷ k) q rest e).1 (omega arith) in
    omega arith
