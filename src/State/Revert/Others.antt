-- ===== src/State/Revert/Others.antt =====
-- core/state/statedb.go: touches, the refund counter, logs, preimages and the access list.
use zond.Prelude.{
  ℕ, suc, ◌+◌, ◌-◌, ◌%◌, ◌^◌, ◌≡◌, refl, sym, ap, subst, ◌∙◌, Bool, Option, none, some, List, [],
  ◌∷◌, ◌++◌, ◌==◌, ltb, if◌then◌else◌, Option-cases, Bool-cases, inl, inr, arith, length, take,
  take-append, length-append,
}
use zond.Prelude.Maps.{update, update_self, update_undo}
use zond.State.Account.{Address, Hash, Backend}
use zond.State.Db.{
  Log, StateDb, Entry, refund_change, add_log_change, add_preimage_change, touch_change, append,
  revert_entry, drop_last_log,
}
use zond.State.Ops.{ripemd, touch, add_refund, sub_refund, add_log, add_preimage}
use zond.State.Revert.{Same, Same-refl, IsValidDb, Undoes, Undoes_silent}
use zond.State.Revert.Objects.{undo_one, Same-dirties}
use mathlib.Core.Option

module _ (db : Backend) where
  -- One entry, whose revert takes whatever reads like the result to what reads like the start
  pub entry-Undoes :
      (s s' : StateDb) (e : Entry)
      → s'.entries ≡ s.entries ++ e ∷ []
      → s'.valid_revisions ≡ s.valid_revisions
      → s'.next_revision_id ≡ s.next_revision_id
      → IsValidDb db s'
      → ((t : StateDb)
          → Same db s' t
          → (u : StateDb) × (revert_entry db e t ≡ some u) × Same db s u)
      → Undoes db s s'
  entry-Undoes s s' e g r n v back = record {
    added = e ∷ [];
    grown = g;
    back = λ t h.
        let (u, done, same) = back t h in
        let (d, undone) = undo_one db e t u done in
        (record u { dirties = d }, undone, Same-dirties db d same);
    revisions_eq = r;
    next_eq = n;
    valid = v;
  }

  touched :
      (s : StateDb) (a : Address) (d : Address → ℕ)
      → IsValidDb db s
      → Undoes db s (record (append s (touch_change a)) { dirties = d })
  unfolding revert_entry append
  touched s a d v =
      entry-Undoes s _ (touch_change a) refl refl refl
        (record { keyed = v.keyed; slots_full = v.slots_full; log_size_lt = v.log_size_lt })
        (λ t h. (
          t,
          refl,
          record {
            objects_eq = h.objects_eq;
            destructs_eq = h.destructs_eq;
            refund_eq = h.refund_eq;
            logs_eq = h.logs_eq;
            log_size_eq = h.log_size_eq;
            preimages_eq = h.preimages_eq;
            access_list_eq = h.access_list_eq;
          },
        ))

  pub touch-Undoes : (s : StateDb) (a : Address) → IsValidDb db s → Undoes db s (touch s a)
  unfolding touch
  touch-Undoes s a v = elim (Bool-cases (a == ripemd)) [
    | inl e ↦ rw e (touched s a _ v)
    | inr e ↦ rw e (touched s a _ v)
  ]

  pub add_refund-Undoes : (s : StateDb) (gas : ℕ) → IsValidDb db s → Undoes db s (add_refund s gas)
  unfolding add_refund revert_entry append
  add_refund-Undoes s gas v =
      entry-Undoes s _ (refund_change s.refund) refl refl refl
        (record { keyed = v.keyed; slots_full = v.slots_full; log_size_lt = v.log_size_lt })
        (λ t h. (
          record t { refund = s.refund },
          refl,
          record {
            objects_eq = h.objects_eq;
            destructs_eq = h.destructs_eq;
            refund_eq = refl;
            logs_eq = h.logs_eq;
            log_size_eq = h.log_size_eq;
            preimages_eq = h.preimages_eq;
            access_list_eq = h.access_list_eq;
          },
        ))

  -- SubRefund panics, or can be undone.
  pub sub_refund-Undoes :
      (s s' : StateDb) (gas : ℕ) → IsValidDb db s → sub_refund s gas ≡ some s' → Undoes db s s'
  unfolding sub_refund revert_entry append
  sub_refund-Undoes s s' gas v h = elim (Bool-cases (ltb s.refund gas)) [
    | inl e ↦
        absurd (no_panic (subst (λ (b : Bool). (if b then none else some lowered) ≡ some s') e h))
    | inr e ↦
        subst (Undoes db s)
          (unsome (subst (λ (b : Bool). (if b then none else some lowered) ≡ some s') e h)) step
  ]
    where
      lowered : StateDb
      lowered = record (append s (refund_change s.refund)) { refund = s.refund - gas }

      no_panic : none ≡ some s' → ⊥
      no_panic e = cc

      unsome : {x y : StateDb} → some x ≡ some y → x ≡ y
      unsome e = cc

      step : Undoes db s lowered
      step =
          entry-Undoes s _ (refund_change s.refund) refl refl refl
            (record { keyed = v.keyed; slots_full = v.slots_full; log_size_lt = v.log_size_lt })
            (λ t h. (
              record t { refund = s.refund },
              refl,
              record {
                objects_eq = h.objects_eq;
                destructs_eq = h.destructs_eq;
                refund_eq = refl;
                logs_eq = h.logs_eq;
                log_size_eq = h.log_size_eq;
                preimages_eq = h.preimages_eq;
                access_list_eq = h.access_list_eq;
              },
            ))

  drop_last_log-append : (ls : List Log) (l : Log) → drop_last_log db (ls ++ l ∷ []) ≡ some ls
  unfolding drop_last_log
  drop_last_log-append [] l = refl
  drop_last_log-append (x ∷ ls) l =
      ap (λ n. some (take n (x ∷ (ls ++ l ∷ [])))) longer ∙ ap some (take-append (x ∷ ls) (l ∷ []))
    where
      longer : length (ls ++ l ∷ []) ≡ suc (length ls)
      longer = omega (arith, length-append ls (l ∷ []))

  -- On a valid database, AddLog can be undone by its journal entry: the logs of the transaction
  -- and the log counter, which wraps around at 2^64, are those of before.
  pub add_log-Undoes : (s : StateDb) (body : List ℕ) → IsValidDb db s → Undoes db s (add_log s body)
  unfolding add_log revert_entry append
  add_log-Undoes s body v =
      entry-Undoes s _ (add_log_change s.thash) refl refl refl
        (record { keyed = v.keyed; slots_full = v.slots_full; log_size_lt = omega arith })
        (λ t h. (
          record t {
            logs = update t.logs s.thash (s.logs s.thash);
            log_size = (t.log_size + 2 ^ 64 - 1) % 2 ^ 64;
          },
          ap
              (λ (x : Option (List Log)).
                Option.map
                  (λ ls. record t {
                    logs = update t.logs s.thash ls;
                    log_size = (t.log_size + 2 ^ 64 - 1) % 2 ^ 64;
                  })
                  x)
              (ap (drop_last_log db) (sym (at_hash t.logs h.logs_eq))
                ∙ drop_last_log-append (s.logs s.thash) new),
          record {
            objects_eq = h.objects_eq;
            destructs_eq = h.destructs_eq;
            refund_eq = h.refund_eq;
            logs_eq =
                sym (update_undo s.logs s.thash (s.logs s.thash ++ new ∷ []) (s.logs s.thash) refl)
                ∙ ap (λ (m : Hash → List Log). update m s.thash (s.logs s.thash)) h.logs_eq;
            log_size_eq = counted t.log_size h.log_size_eq;
            preimages_eq = h.preimages_eq;
            access_list_eq = h.access_list_eq;
          },
        ))
    where
      new : Log
      new = record { body = body; tx_hash = s.thash; tx_index = s.tx_index; index = s.log_size }

      at_hash :
          (m : Hash → List Log)
          → update s.logs s.thash (s.logs s.thash ++ new ∷ []) ≡ m
          → s.logs s.thash ++ new ∷ [] ≡ m s.thash
      at_hash m e =
          sym (update_self s.logs s.thash (s.logs s.thash ++ new ∷ []))
          ∙ ap (λ (f : Hash → List Log). f s.thash) e

      counted : (n : ℕ) → (s.log_size + 1) % 2 ^ 64 ≡ n → s.log_size ≡ (n + 2 ^ 64 - 1) % 2 ^ 64
      counted n e = omega (arith, v.log_size_lt)

  pub add_preimage-Undoes :
      (s : StateDb) (h : Hash) (preimage : List ℕ)
      → IsValidDb db s
      → Undoes db s (add_preimage s h preimage)
  unfolding add_preimage revert_entry append
  add_preimage-Undoes s h preimage v = elim (Option-cases (s.preimages h)) [
    | inl e ↦ rw (e, add_preimage) (recorded e)
    | inr (p, e) ↦ rw (e, add_preimage) (Undoes_silent db (Same-refl db s) refl refl refl v)
  ]
    where
      recorded :
          s.preimages h ≡ none
          → Undoes db s (record (append s (add_preimage_change h)) {
            preimages = update s.preimages h (some preimage);
          })
      recorded e =
          entry-Undoes s _ (add_preimage_change h) refl refl refl
            (record { keyed = v.keyed; slots_full = v.slots_full; log_size_lt = v.log_size_lt })
            (λ t r. (
              record t { preimages = update t.preimages h none },
              refl,
              record {
                objects_eq = r.objects_eq;
                destructs_eq = r.destructs_eq;
                refund_eq = r.refund_eq;
                logs_eq = r.logs_eq;
                log_size_eq = r.log_size_eq;
                preimages_eq =
                    sym (update_undo s.preimages h (some preimage) none (sym e))
                    ∙ ap (λ (m : Hash → Option (List ℕ)). update m h none) r.preimages_eq;
                access_list_eq = r.access_list_eq;
              },
            ))
