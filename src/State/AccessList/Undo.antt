-- ===== src/State/AccessList/Undo.antt =====
-- core/state/access_list.go: a deletion undoes the addition that came right before it.
use zond.Prelude.{
  ℕ, zero, suc, ◌<◌, ◌≡◌, refl, ap, ◌∙◌, false, none, some, List, [], ◌∷◌, ◌++◌, arith, get_elem?,
  set, length, take-append, sym, subst, All, All-append, get_elem?-set_self,
}
use zond.Prelude.Maps.{update, update_undo, update_self, update_twice}
use zond.State.Account.{Address, Hash}
use zond.State.AccessList.{
  AccessList, has_slot, delete_key, delete_slot, delete_address, drop_map, add_map, add_key,
}

delete_key-append :
    (k : Hash) (m : List Hash) → has_slot k m ≡ false → delete_key k (m ++ k ∷ []) ≡ m
unfolding has_slot delete_key
delete_key-append k [] h = ground arith
delete_key-append k (j ∷ m) h = ground (arith, delete_key-append k m)

get_elem?-append_end :
    {A : Type 0} (xs : List A) (x : A) → get_elem? (xs ++ x ∷ []) (length xs) ≡ some x
get_elem?-append_end [] x = refl
get_elem?-append_end (y ∷ xs) x = get_elem?-append_end xs x

set_twice :
    {A : Type 0} (xs : List A) (i : ℕ) (v w : A)
    → get_elem? xs i ≡ some w
    → set (set xs i v) i w ≡ xs
set_twice [] i v w h = refl
set_twice (x ∷ xs) zero v w h = cc
set_twice (x ∷ xs) (suc i) v w h = ap (λ l. x ∷ l) (set_twice xs i v w h)

-- No slot map is empty: DeleteSlot drops a map with its last key.
abbrev pub IsFull : List Hash → Type 0
IsFull [] = ⊥
IsFull (k ∷ m) = Unit {0}

abbrev pub IsValid : AccessList → Type 0
IsValid al = All IsFull al.slots

IsFull-append : (m : List Hash) (k : Hash) → IsFull (m ++ k ∷ [])
IsFull-append [] k = tt
IsFull-append (j ∷ m) k = tt

All-set :
    (slots : List (List Hash)) (i : ℕ) (m : List Hash)
    → All IsFull slots
    → IsFull m
    → All IsFull (set slots i m)
All-set [] i m h f = tt
All-set (x ∷ slots) zero m (h, hs) f = (f, hs)
All-set (x ∷ slots) (suc i) m (h, hs) f = (h, All-set slots i m hs f)

IsFull-at :
    (slots : List (List Hash)) (i : ℕ) (m : List Hash)
    → All IsFull slots
    → get_elem? slots i ≡ some m
    → IsFull m
IsFull-at [] i m h e = absurd (none_some e)
  where
    none_some : {m : List Hash} → none ≡ some m → ⊥
    none_some e = cc
IsFull-at (x ∷ slots) zero m (h, hs) e = subst IsFull (same e) h
  where
    same : {x m : List Hash} → some x ≡ some m → x ≡ m
    same e = cc
IsFull-at (x ∷ slots) (suc i) m (h, hs) e = IsFull-at slots i m hs e

-- DeleteAddress after AddAddress of an absent address
pub delete-add_address :
    (al : AccessList) (a : Address)
    → al.addresses a ≡ none
    → delete_address (record al { addresses = update al.addresses a (some none) }) a ≡ al
unfolding delete_address
delete-add_address al a h = λ i. record {
  addresses = update_undo al.addresses a (some none) none (sym h) i;
  slots = al.slots;
}

delete_slot_lem :
    (al : AccessList) (a : Address) (k : Hash) (i : ℕ) (m : List Hash)
    → al.addresses a ≡ some (some i)
    → get_elem? al.slots i ≡ some m
    → delete_slot al a k ≡ some (drop_map al a i (delete_key k m))
unfolding delete_slot
delete_slot_lem al a k i m e g = rw (e, delete_slot) (rw g refl)

-- DeleteSlot takes away the map that AddSlot made, and leaves the address with -1.
pub delete_slot-add_map :
    (al : AccessList) (a : Address) (k : Hash)
    → delete_slot (add_map al a k) a k
      ≡ some (record al { addresses = update al.addresses a (some none) })
delete_slot-add_map al a k =
    delete_slot_lem (add_map al a k) a k (length al.slots) (k ∷ [])
      (update_self al.addresses a (some (some (length al.slots))))
      (get_elem?-append_end al.slots (k ∷ []))
    ∙ ap (λ m. some (drop_map (add_map al a k) a (length al.slots) m))
        (delete_key-append k [] (unfold has_slot in refl))
    ∙ dropped
  where
    dropped :
        some (drop_map (add_map al a k) a (length al.slots) [])
        ≡ some (record al { addresses = update al.addresses a (some none) })
    dropped = λ i. some (record {
      addresses = update_twice al.addresses a (some (some (length al.slots))) (some none) i;
      slots = take-append al.slots ((k ∷ []) ∷ []) i;
    })

-- In a list without empty slot maps, DeleteSlot of a slot that AddSlot has just put into an
-- address's slot map does not panic and gives back the list.
pub delete_slot-add_key :
    (al : AccessList) (a : Address) (k : Hash) (i : ℕ) (m : List Hash)
    → IsValid al
    → al.addresses a ≡ some (some i)
    → get_elem? al.slots i ≡ some m
    → has_slot k m ≡ false
    → delete_slot (add_key al i k m) a k ≡ some al
delete_slot-add_key al a k i m v e g f =
    delete_slot_lem (add_key al i k m) a k i (m ++ k ∷ []) e
      (get_elem?-set_self al.slots i (m ++ k ∷ []) (lt_length al.slots i m g))
    ∙ ap (λ l. some (drop_map (add_key al i k m) a i l)) (delete_key-append k m f)
    ∙ kept m (IsFull-at al.slots i m v g) g
  where
    lt_length :
        (xs : List (List Hash)) (i : ℕ) (m : List Hash) → get_elem? xs i ≡ some m → i < length xs
    lt_length [] i m g = cc
    lt_length (x ∷ xs) zero m g = omega arith
    lt_length (x ∷ xs) (suc i) m g = omega (arith, lt_length xs i m g)

    kept :
        (m : List Hash)
        → IsFull m
        → get_elem? al.slots i ≡ some m
        → some (drop_map (add_key al i k m) a i m) ≡ some al
    kept [] f g = elim f [ ]
    kept (j ∷ m) f g = λ t. some (record {
      addresses = al.addresses;
      slots = set_twice al.slots i (j ∷ (m ++ k ∷ [])) (j ∷ m) g t;
    })

pub IsValid-add_map :
    (al : AccessList) (a : Address) (k : Hash) → IsValid al → IsValid (add_map al a k)
IsValid-add_map al a k v = All-append IsFull al.slots ((k ∷ []) ∷ []) v (tt, tt)

pub IsValid-add_key :
    (al : AccessList) (i : ℕ) (k : Hash) (m : List Hash) → IsValid al → IsValid (add_key al i k m)
IsValid-add_key al i k m v = All-set al.slots i (m ++ k ∷ []) v (IsFull-append m k)
