-- ===== src/Driver/Ledger/Expiry.antt =====
-- workers/assignment_expiry.go with assignment_repository.go: what a tick of the assignment expiry
-- worker does to the offers that ran out, and to their drivers.
use realtime_delivery_micros.Prelude.{
  ℕ, ◌≡◌, refl, sym, ap, ◌∙◌, inl, inr, String, Bool, true, false, Option, some, List, [], ◌∷◌, map,
  All, arith, if◌then◌else◌, ◌⊎◌,
}
use realtime_delivery_micros.Prelude.Action.{pure}
use realtime_delivery_micros.Prelude.Action.Contract.{
  Contract, >>=-Contract, handling-Contract, pure-Contract, ignore-Contract, weaken, by_state,
}
use realtime_delivery_micros.Driver.Profile.{Driver}
use realtime_delivery_micros.Driver.Assignment.{
  Assignment, AssignmentStatus, offered, accepted, active, completed, expired,
}
use realtime_delivery_micros.Driver.Collection.{find_one, find_all, has_id, update_one}
use realtime_delivery_micros.Driver.Store.{
  Store, ServiceError, DriverEvent, Action, assignment_id_of, set_status, is_stale, expire_each,
  expire_offers, assignment_not_found,
}
use realtime_delivery_micros.Driver.Env.{
  Env, at_find, at_assignment_save, at_find_assignment, alone,
}
use realtime_delivery_micros.Driver.Dispatch.{release_driver_by_assignment, settle_assignment}
use realtime_delivery_micros.Driver.Workers.{expire_all, check_expired_assignments}
use realtime_delivery_micros.Driver.Ledger.Calls.{
  perform-Contract, assignment_find-Contract, present-Contract,
}

-- The assignment that a reader finds under the id, if any, is EXPIRED.
abbrev pub IsMarked : String → List Assignment → Type 0
IsMarked id rows =
    (a : Assignment) → find_one (has_id assignment_id_of id) rows ≡ some a → a.status ≡ expired

-- A reader finds the first row or one behind it.
either_row :
    (here : Bool) (x a : Assignment) (found : Option Assignment)
    → (if here then some x else found) ≡ some a
    → ((here ≡ true) × (x ≡ a)) ⊎ ((here ≡ false) × (found ≡ some a))
either_row true x a found h = inl (refl, ground arith)
either_row false x a found h = inr (refl, h)

find_head :
    (id : String) (x a : Assignment) (rows : List Assignment)
    → find_one (has_id assignment_id_of id) (x ∷ rows) ≡ some a
    → ((has_id assignment_id_of id x ≡ true) × (x ≡ a))
      ⊎ ((has_id assignment_id_of id x ≡ false)
          × (find_one (has_id assignment_id_of id) rows ≡ some a))
unfolding find_one
find_head id x a rows h =
    either_row (has_id assignment_id_of id x) x a (find_one (has_id assignment_id_of id) rows) h

-- A row in front that is EXPIRED if it has the id.
front_row :
    (id : String) (x : Assignment) (rows : List Assignment)
    → (has_id assignment_id_of id x ≡ true → x.status ≡ expired)
    → (has_id assignment_id_of id x ≡ false → IsMarked id rows)
    → IsMarked id (x ∷ rows)
front_row id x rows first rest a h = elim (find_head id x a rows h) [
  | inl (here, same) ↦ ap (λ b. b.status) (sym same) ∙ first here
  | inr (away, found) ↦ rest away a found
]

-- The marked rows behind the first.
rest_rows :
    (id : String) (x : Assignment) (rows : List Assignment)
    → IsMarked id (x ∷ rows)
    → has_id assignment_id_of id x ≡ false
    → IsMarked id rows
unfolding find_one
rest_rows id x rows h away a found = h a (rw away found)

first_row :
    (id : String) (x : Assignment) (rows : List Assignment)
    → IsMarked id (x ∷ rows)
    → has_id assignment_id_of id x ≡ true
    → x.status ≡ expired
unfolding find_one
first_row id x rows h here = h x (rw here refl)

mark_same_step :
    (here : Bool) (id : String) (now : ℕ) (x : Assignment) (rows after : List Assignment)
    → has_id assignment_id_of id x ≡ here
    → IsMarked id after
    → IsMarked id (if here then set_status expired now x ∷ rows else x ∷ after)
mark_same_step true id now x rows after e rest =
    front_row id (set_status expired now x) rows (λ _. refl) (λ away. ground arith)
mark_same_step false id now x rows after e rest =
    front_row id x after (λ here. ground arith) (λ _. rest)

mark_same :
    (id : String) (now : ℕ) (rows : List Assignment)
    → IsMarked id (update_one assignment_id_of id (set_status expired now) rows)
unfolding update_one find_one
mark_same id now [] = λ a h. ground arith
mark_same id now (x ∷ rows) =
    mark_same_step (has_id assignment_id_of id x) id now x rows _ refl (mark_same id now rows)

mark_other_step :
    (here : Bool) (id : String) (now : ℕ) (x : Assignment) (rows after : List Assignment)
    → IsMarked id (x ∷ rows)
    → (IsMarked id rows → IsMarked id after)
    → IsMarked id (if here then set_status expired now x ∷ rows else x ∷ after)
mark_other_step true id now x rows after h rest =
    front_row id (set_status expired now x) rows (λ _. refl) (rest_rows id x rows h)
mark_other_step false id now x rows after h rest =
    front_row id x after (first_row id x rows h) (λ away. rest (rest_rows id x rows h away))

mark_other :
    (id other : String) (now : ℕ) (rows : List Assignment)
    → IsMarked id rows
    → IsMarked id (update_one assignment_id_of other (set_status expired now) rows)
unfolding update_one
mark_other id other now [] h = h
mark_other id other now (x ∷ rows) h =
    mark_other_step (has_id assignment_id_of other x) id now x rows _ h
      (mark_other id other now rows)

-- The whole loop, in which no update fails.
module _ (now : ℕ) where
  mark_kept :
      (id : String) (stale rows : List Assignment)
      → IsMarked id rows
      → IsMarked id (expire_each (λ _. false) now stale rows)
  unfolding expire_each
  mark_kept id [] rows h = h
  mark_kept id (a ∷ stale) rows h = mark_kept id stale _ (mark_other id a.id now rows h)

  mark_each :
      (stale rows : List Assignment)
      → All
          (λ id. IsMarked id (expire_each (λ _. false) now stale rows))
          (map assignment_id_of stale)
  unfolding expire_each
  mark_each [] rows = tt
  mark_each (a ∷ stale) rows = (mark_kept a.id stale _ (mark_same a.id now rows), mark_each stale _)

-- The drivers and the messages as they were, and the ids still to come marked.
abbrev Untouched : List Driver → List DriverEvent → List String → Store → Type 0
Untouched ds sent ids s =
    (s.drivers ≡ ds) × (s.published ≡ sent) × All (λ id. IsMarked id s.assignments) ids

module _ (ds : List Driver) (sent : List DriverEvent) where
  offers_marked :
      (down : Bool) (cutoff now : ℕ)
      → Contract
          (λ s. (s.drivers ≡ ds) × (s.published ≡ sent))
          (expire_offers down (λ _. false) cutoff now)
          (λ ids s. Untouched ds sent ids s)
          (λ _ s. (s.drivers ≡ ds) × (s.published ≡ sent))
  unfolding expire_offers
  offers_marked true cutoff now = record { holds = λ s h. h }
  offers_marked false cutoff now = record {
    holds =
        λ s h. (h.0, h.1, mark_each now (find_all (is_stale cutoff) s.assignments) s.assignments);
  }

  settle_none :
      {R : ServiceError → Store → Type 0} (env : Env) (ids : List String) (a : Assignment)
      (t : AssignmentStatus)
      → t ≡ expired
      → let next : Action (Unit {0}) = elim t [
        | active ↦ settle_assignment env a completed
        | accepted ↦ settle_assignment env a completed
        | offered ↦ settle_assignment env a expired
        | _ ↦ pure tt
      ] in
        Contract (Untouched ds sent ids) next (λ _ s. Untouched ds sent ids s) R
  settle_none env ids a expired h = pure-Contract (λ s p. p)
  settle_none env ids a _ h = ground arith

  release_leaves :
      (env : Env) (id : String) (ids : List String)
      → Contract
          (Untouched ds sent (id ∷ ids))
          (release_driver_by_assignment (alone env) id)
          (λ _ s. Untouched ds sent (id ∷ ids) s)
          (λ _ s. Untouched ds sent (id ∷ ids) s)
  unfolding release_driver_by_assignment
  release_leaves env id ids =
      >>=-Contract
        (perform-Contract env at_find_assignment _
          (λ down. assignment_find-Contract id down (λ s h. h)))
        (λ found. >>=-Contract (present-Contract found assignment_not_found (λ s h _. h.0)) (λ a.
          by_state (λ s h.
            let marked : a.status ≡ expired = h.0.0.2.0 a (sym h.0.1 ∙ h.1) in
            weaken (settle_none (alone env) (id ∷ ids) a a.status marked) (λ s h. h.0.0)
              (λ _ _ h. h) (λ _ _ h. h))))

  expire_all_leaves :
      (each : String → Env) (ids : List String)
      → Contract
          (Untouched ds sent ids)
          (expire_all true (λ id. alone (each id)) ids)
          (λ _ s. (s.drivers ≡ ds) × (s.published ≡ sent))
          (λ _ _. ⊥)
  unfolding expire_all
  expire_all_leaves each [] = pure-Contract (λ s h. (h.0, h.1))
  expire_all_leaves each (id ∷ ids) =
      >>=-Contract {M = λ _ s. Untouched ds sent ids s}
        (weaken (ignore-Contract {R = λ _ _. ⊥} (release_leaves (each id) id ids)) (λ s h. h)
          (λ _ s h. (h.0, h.1, h.2.1)) (λ _ _ h. h))
        (λ _. expire_all_leaves each ids)

  -- A tick of the expiry worker that has the dispatch service, in which every update of the offers
  -- succeeds and no other process is at work, changes no driver and sends no message, whatever else
  -- fails: the offers are EXPIRED before the service is asked to release their drivers.
  pub check_expired_assignments-drivers :
      (env : Env) (each : String → Env)
      → Contract
          (λ s. (s.drivers ≡ ds) × (s.published ≡ sent))
          (check_expired_assignments true (alone env) (λ _. false) (λ id. alone (each id)))
          (λ _ s. (s.drivers ≡ ds) × (s.published ≡ sent))
          (λ _ _. ⊥)
  unfolding check_expired_assignments expire_offers
  check_expired_assignments-drivers env each =
      handling-Contract {M = λ ids s. Untouched ds sent ids s}
        {N = λ _ s. (s.drivers ≡ ds) × (s.published ≡ sent)}
        (perform-Contract env at_find _
          (λ down. offers_marked down (env.now at_find) (env.now at_assignment_save)))
        (λ e. pure-Contract (λ s h. h)) (λ ids. expire_all_leaves each ids)
