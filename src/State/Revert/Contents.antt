-- ===== src/State/Revert/Contents.antt =====
-- core/state/statedb.go, SetCode, SetState and Suicide.
use zond.Prelude.{
  ◌≡◌, refl, sym, ap, subst, ◌∙◌, Bool, true, false, Option, none, some, ◌==◌, ==_iff,
  if◌then◌else◌, Bool-cases, inl, inr, ◌⊎◌, arith,
}
use zond.Prelude.Int.{ℤ, pos}
use zond.State.Account.{
  Address, Hash, Code, Backend, StateObject, code_from, code_of, load_code, get_state,
  get_committed_state, cache_state, set_balance, set_code, set_state,
}
use zond.State.Db.{
  StateDb, storage_change, code_change, suicide_change, put_object, revert_entry, on_object,
  if_object, put_if, get_state_object, live,
}
use zond.State.Ops.{
  journaled, get_or_new_state_object, set_code_op, set_state_op, suicide_of, suicide,
}
use zond.State.Revert.{
  view, destructed, ObjSame, ObjSame-trans, OptSame-refl, Same-refl, IsValidDb, Undoes,
  Undoes-trans, Undoes_silent,
}
use zond.State.Revert.Cache.{Cached-Undoes, keyed_put, get_state_object_lem}
use zond.State.Revert.Objects.{journaled-Undoes, Same-put, Rest-Same}
use zond.State.Revert.Creation.{view_address}
use zond.State.Revert.Accounts.{Obtained, get_or_new_lem, live-some}
use mathlib.Core.Option

module _ (db : Backend) where
  -- The cached code is what Code answers with again.
  code_again :
      (c : Option Code) (o : StateObject) (p : StateObject)
      → c ≡ code_of db o
      → p.code ≡ c
      → p.data_of.code_hash ≡ o.data_of.code_hash
      → code_of db p ≡ code_of db o
  unfolding code_of
  code_again c o p e h k =
      ap (λ (x : Option Code). code_from db x p.data_of.code_hash) h
      ∙ ap (code_from db c) k
      ∙ again c o.code e
    where
      again :
          (c x : Option Code)
          → c ≡ code_from db x o.data_of.code_hash
          → code_from db c o.data_of.code_hash ≡ code_from db x o.data_of.code_hash
      again (some c) x e = e
      again none none e = refl
      again none (some c) e = cc

  get_state-cache :
      (d : Bool) (o : StateObject) (key k : Hash)
      → (get_state db d (cache_state db d o key) k ≡ get_state db d o k)
        × (get_committed_state db d (cache_state db d o key) k ≡ get_committed_state db d o k)
  unfolding get_state cache_state
  get_state-cache d o key k = ground arith

  -- Readers do not see the cache.
  ObjSame-cache :
      (d : Bool) (o : StateObject) (key : Hash) → ObjSame db d o (cache_state db d o key)
  unfolding cache_state code_of
  ObjSame-cache d o key = record {
    address_eq = ground arith;
    data_eq = ground arith;
    code_eq = ground arith;
    state_eq = λ k. sym (get_state-cache d o key k).0;
    committed_eq = λ k. sym (get_state-cache d o key k).1;
    suicided_eq = ground arith;
    deleted_eq = ground arith;
  }

  get_state-set_state :
      (d : Bool) (o : StateObject) (key k : Hash) (value : Hash)
      → get_state db d (set_state key value o) k ≡ (if k == key then value else get_state db d o k)
  unfolding get_state set_state
  get_state-set_state d o key k value = ground arith

  -- The old value, written back, is what readers saw before.
  restore_slot :
      (d : Bool) (o p : StateObject) (key value : Hash)
      → ObjSame db d (set_state key value o) p
      → ObjSame db d o (set_state key (get_state db d o key) p)
  unfolding set_state code_of
  restore_slot d o p key value h = record {
    address_eq = h.address_eq;
    data_eq = h.data_eq;
    code_eq = h.code_eq;
    state_eq = λ k. at k (Bool-cases (k == key));
    committed_eq = λ k. unfold get_committed_state in h.committed_eq k;
    suicided_eq = h.suicided_eq;
    deleted_eq = h.deleted_eq;
  }
    where
      at :
          (k : Hash)
          → ((k == key) ≡ true) ⊎ ((k == key) ≡ false)
          → get_state db d o k ≡ get_state db d (set_state key (get_state db d o key) p) k
      at k (inl e) =
          ap (get_state db d o) ((==_iff k key).0 e)
          ∙ sym (get_state-set_state d p key k (get_state db d o key) ∙ rw e refl)
      at k (inr e) =
          sym (rw e refl)
          ∙ sym (get_state-set_state d o key k value)
          ∙ h.state_eq k
          ∙ sym (get_state-set_state d p key k (get_state db d o key) ∙ rw e refl)

  -- On a valid database, SetState can be undone by its journal entries: each slot reads as
  -- before, whether or not the value changed, although the read of the old value fills a cache
  -- and an account may be created.
  pub set_state-Undoes :
      (s : StateDb) (a : Address) (key value : Hash)
      → IsValidDb db s
      → Undoes db s (set_state_op db s a key value)
  unfolding set_state_op revert_entry set_state
  set_state-Undoes s a key value v = elim (Bool-cases (prev == value)) [
    | inl e ↦ rw e (Undoes-trans db ob.step cached)
    | inr e ↦ rw e (Undoes-trans db ob.step written)
  ]
    where
      o : StateObject
      o = (get_or_new_state_object db s a).0

      t : StateDb
      t = (get_or_new_state_object db s a).1

      ob : Obtained db s a o t
      ob = get_or_new_lem db s a v

      d : Bool
      d = destructed db t a

      prev : Hash
      prev = get_state db d o key

      o' : StateObject
      o' = cache_state db d o key

      like : ObjSame db d o o'
      like = ObjSame-cache d o key

      cached : Undoes db t (put_object t a o')
      cached =
          Undoes_silent db
            (Same-put db t t a o o' (λ b n. OptSame-refl db _ (view db t b))
              (Rest-Same db (Same-refl db t)) ob.seen like)
            refl refl refl
            (record {
              keyed = keyed_put db t a o' (sym like.address_eq ∙ ob.addr) ob.step.valid.keyed;
              slots_full = ob.step.valid.slots_full;
              log_size_lt = ob.step.valid.log_size_lt;
            })

      written : Undoes db t (journaled t a (storage_change a key prev) (set_state key value o'))
      written =
          journaled-Undoes db t a o (set_state key value o') (storage_change a key prev)
            (set_state key prev) ob.step.valid ob.seen (sym like.address_eq ∙ ob.addr)
            (sym like.deleted_eq ∙ ob.alive) (λ x u h. h)
            (λ p h. ObjSame-trans db like (
              subst (λ c. ObjSame db d o' (set_state key c p)) (sym (like.state_eq key))
                (restore_slot d o' p key value h)))

  -- SetCode journals the code that Code loaded, and the hash.
  restore_code :
      (d : Bool) (o p : StateObject) (hash : Hash) (code : Code)
      → ObjSame db d (set_code hash (some code) (load_code db o)) p
      → ObjSame db d o (set_code o.data_of.code_hash (code_of db o) p)
  unfolding set_code load_code get_state
  restore_code d o p hash code h = record {
    address_eq = loaded.0 ∙ h.address_eq;
    data_eq = loaded.1 ∙ (λ i. record (h.data_eq i) { code_hash = o.data_of.code_hash });
    code_eq = sym (
        code_again (code_of db o) o (set_code o.data_of.code_hash (code_of db o) p) refl refl refl);
    state_eq = λ k. loaded.4 k ∙ h.state_eq k;
    committed_eq = λ k. loaded.5 k ∙ h.committed_eq k;
    suicided_eq = loaded.2 ∙ h.suicided_eq;
    deleted_eq = loaded.3 ∙ h.deleted_eq;
  }
    where
      l : StateObject
      l = load_code db o

      loaded :
          (o.address ≡ l.address)
          × (o.data_of ≡ record l.data_of { code_hash = o.data_of.code_hash })
          × (o.suicided ≡ l.suicided)
          × (o.deleted ≡ l.deleted)
          × ((k : Hash) → get_state db d o k ≡ get_state db d (set_code hash (some code) l) k)
          × ((k : Hash)
              → get_committed_state db d o k
                ≡ get_committed_state db d (set_code hash (some code) l) k)
      loaded = (
        ground arith,
        ground arith,
        ground arith,
        ground arith,
        λ k. ground arith,
        λ k. ground arith,
      )

  load_code_kept :
      (o : StateObject)
      → ((load_code db o).address ≡ o.address) × ((load_code db o).deleted ≡ o.deleted)
  unfolding load_code
  load_code_kept o = ground arith

  -- On a valid database, SetCode can be undone by its journal entries: the code hash and the code
  -- that readers load are those of before.
  pub set_code-Undoes :
      (s : StateDb) (a : Address) (hash : Hash) (code : Code)
      → IsValidDb db s
      → Undoes db s (set_code_op db s a hash code)
  unfolding set_code_op revert_entry set_code
  set_code-Undoes s a hash code v =
      let ob = get_or_new_lem db s a v in
      let o = (get_or_new_state_object db s a).0 in
      let t = (get_or_new_state_object db s a).1 in
      Undoes-trans db ob.step (
        journaled-Undoes db t a o (set_code hash (some code) (load_code db o))
          (code_change a (code_of db o) o.data_of.code_hash)
          (set_code o.data_of.code_hash (code_of db o)) ob.step.valid ob.seen
          ((load_code_kept o).0 ∙ ob.addr) ((load_code_kept o).1 ∙ ob.alive) (λ x u h. h)
          (λ p h. restore_code (destructed db t a) o p hash code h))

  -- The revert of a suicide passes a nil object over; where there is one it writes it back.
  if_object_lem :
      (t u : StateDb) (a : Address) (f : StateObject → StateObject)
      → on_object db t a f ≡ some u
      → some (if_object db t a f) ≡ some u
  unfolding on_object if_object
  if_object_lem t u a f h = by_answer (get_state_object db t a).0 h
    where
      t' : StateDb
      t' = (get_state_object db t a).1

      by_answer :
          (x : Option StateObject)
          → Option.map (λ o. put_object t' a (f o)) x ≡ some u
          → some (put_if db t' a f x) ≡ some u
      by_answer none h = cc
      by_answer (some o) h = h

  abbrev dead : StateObject → StateObject
  dead o = set_balance (pos 0) (record o { suicided = true })

  abbrev revived : Bool → ℤ → StateObject → StateObject
  revived was amount o = set_balance amount (record o { suicided = was })

  restore_dead :
      (d : Bool) (o p : StateObject)
      → ObjSame db d (dead o) p
      → ObjSame db d o (revived o.suicided o.data_of.balance p)
  unfolding set_balance code_of get_state
  restore_dead d o p h = record {
    address_eq = h.address_eq;
    data_eq = λ i. record (h.data_eq i) { balance = o.data_of.balance };
    code_eq = h.code_eq;
    state_eq = λ k. h.state_eq k;
    committed_eq = λ k. h.committed_eq k;
    suicided_eq = refl;
    deleted_eq = h.deleted_eq;
  }

  -- Suicide of what getStateObject answers with; where that is nil nothing happens.
  suicide_of-Undoes :
      (t : StateDb) (a : Address) (x : Option StateObject)
      → IsValidDb db t
      → live db (view db t a) ≡ x
      → Undoes db t (suicide_of db t a x).0
  unfolding suicide_of revert_entry set_balance
  suicide_of-Undoes t a none v e = Undoes_silent db (Same-refl db t) refl refl refl v
  suicide_of-Undoes t a (some o) v e =
      let (seen, alive) = live-some db (view db t a) o e in
      journaled-Undoes db t a o (dead o) (suicide_change a o.suicided o.data_of.balance)
        (revived o.suicided o.data_of.balance) v seen (view_address db t a o v.keyed seen) alive
        (λ x u h. if_object_lem x u a (revived o.suicided o.data_of.balance) h)
        (λ p h. restore_dead (destructed db t a) o p h)

  -- On a valid database, Suicide can be undone by its journal entries: the flag, the balance and
  -- everything that a reader sees return, and an address without a live object is left as it was.
  pub suicide-Undoes : (s : StateDb) (a : Address) → IsValidDb db s → Undoes db s (suicide db s a).0
  unfolding suicide
  suicide-Undoes s a v =
      let (answer, c) = get_state_object_lem db s a in
      let t = (get_state_object db s a).1 in
      let cached = Cached-Undoes db v c in
      Undoes-trans db cached (
        suicide_of-Undoes t a (get_state_object db s a).0 cached.valid
          (ap (live db) (c.views a) ∙ sym answer))
