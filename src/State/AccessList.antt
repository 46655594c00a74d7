-- ===== src/State/AccessList.antt =====
-- core/state/access_list.go. `none` is Go's -1, an address with no slots; a slot map is the list of
-- its keys.
pub mod Undo
use zond.Prelude.{
  ℕ, ◌+◌, Bool, true, false, not, Option, none, some, List, [], ◌∷◌, ◌++◌, ◌==◌, ◌||◌,
  if◌then◌else◌, get_elem?, set, take, length,
}
use zond.Prelude.Maps.{update}
use zond.State.Account.{Address, Hash}

pub record AccessList : Type 0 where
  pub addresses : Address → Option (Option ℕ)
  pub slots : List (List Hash)

abbrev pub new_access_list : AccessList
new_access_list = record { addresses = λ a. none; slots = [] }

-- _, ok := slotmap[slot]
unfoldable pub has_slot : Hash → List Hash → Bool
has_slot k [] = false
has_slot k (j ∷ r) = j == k || has_slot k r

-- delete(slotmap, slot)
unfoldable pub delete_key : Hash → List Hash → List Hash
delete_key k [] = []
delete_key k (j ∷ r) = let rest = delete_key k r in if j == k then rest else j ∷ rest

unfoldable pub contains_address : AccessList → Address → Bool
contains_address al a = elim (al.addresses a) [ none ↦ false | some i ↦ true ]

-- Contains; an index out of range is a panic.
unfoldable pub contains : AccessList → Address → Hash → Option (Bool × Bool)
unfolding has_slot
contains al a k = elim (al.addresses a) [
  | none ↦ some (false, false)
  | some none ↦ some (true, false)
  | some (some i) ↦ elim (get_elem? al.slots i) [ none ↦ none | some m ↦ some (true, has_slot k m) ]
]

unfoldable pub add_address : AccessList → Address → AccessList × Bool
add_address al a = elim (al.addresses a) [
  | some i ↦ (al, false)
  | none ↦ (record al { addresses = update al.addresses a (some none) }, true)
]

-- The address gets a slot map of its own, at the end.
abbrev pub add_map : AccessList → Address → Hash → AccessList
add_map al a k = record {
  addresses = update al.addresses a (some (some (length al.slots)));
  slots = al.slots ++ (k ∷ []) ∷ [];
}

abbrev pub add_key : AccessList → ℕ → Hash → List Hash → AccessList
add_key al i k m = record al { slots = set al.slots i (m ++ k ∷ []) }

-- AddSlot: the list, whether the address was added, whether the slot was. The index out of range is
-- a panic.
unfoldable pub add_slot : AccessList → Address → Hash → Option (AccessList × Bool × Bool)
unfolding has_slot
add_slot al a k = elim (al.addresses a) [
  | none ↦ some (add_map al a k, true, true)
  | some none ↦ some (add_map al a k, false, true)
  | some (some i) ↦ elim (get_elem? al.slots i) [
    | none ↦ none
    | some m ↦
        if has_slot k m then some (al, false, false) else some (add_key al i k m, false, true)
  ]
]

abbrev pub drop_map : AccessList → Address → ℕ → List Hash → AccessList
drop_map al a i [] = record {
  addresses = update al.addresses a (some none);
  slots = take i al.slots;
}
drop_map al a i (j ∷ m) = record al { slots = set al.slots i (j ∷ m) }

-- DeleteSlot; the address that is absent, and the index -1 or out of range, are panics.
unfoldable pub delete_slot : AccessList → Address → Hash → Option AccessList
unfolding delete_key
delete_slot al a k = elim (al.addresses a) [
  | none ↦ none
  | some none ↦ none
  | some (some i) ↦ elim (get_elem? al.slots i) [
    | none ↦ none
    | some m ↦ some (drop_map al a i (delete_key k m))
  ]
]

unfoldable pub delete_address : AccessList → Address → AccessList
delete_address al a = record al { addresses = update al.addresses a none }
