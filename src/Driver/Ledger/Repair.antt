-- ===== src/Driver/Ledger/Repair.antt =====
-- workers/reconciliation.go: the drivers that a tick of the reconciliation worker repairs.
use text.Mathlib.Text.{◌==◌ as str_eq}
use text.Mathlib.TextEquality.{eq_iff}
use realtime_delivery_micros.Prelude.{
  ℕ, ◌+◌, ◌≤◌, ◌≡◌, refl, sym, ap, inl, inr, String, Bool, true, false, Option, none, some, List,
  [], ◌∷◌, arith, Bool-cases, if◌then◌else◌,
}
use realtime_delivery_micros.Prelude.Action.Contract.{
  Contract, >>=-Contract, handling-Contract, pure-Contract, ignore-Contract, weaken,
}
use realtime_delivery_micros.Driver.Profile.{Driver, busy, same_status}
use realtime_delivery_micros.Driver.Assignment.{Assignment}
use realtime_delivery_micros.Driver.Collection.{find_one, find_all, has_id}
use realtime_delivery_micros.Driver.Collection.Ids.{find_one-replace_same, find_one-replace_other}
use realtime_delivery_micros.Driver.Collection.Laws.{
  bit, count_if, count_if-find_none, count_if-find_some,
}
use realtime_delivery_micros.Driver.Store.{Store, ServiceError, driver_id_of, holds_driver}
use realtime_delivery_micros.Driver.Env.{Env, at_find, at_find_assignment, at_driver_save, alone}
use realtime_delivery_micros.Driver.Dispatch.{freed}
use realtime_delivery_micros.Driver.Workers.{repair, repair_found, repair_all, reconcile}
use realtime_delivery_micros.Driver.Ledger.{
  IsSound, driver_row, open_of, busy_of, busy_bit, busy_le_one, with_driver, with_driver-IsSound,
}
use realtime_delivery_micros.Driver.Ledger.Calls.{
  perform-Contract, driver_save-Contract, perform_up, find_active_up, find_by_status_up,
  find_by_status-Contract, driver_save_up,
}

-- A driver of a list, by the id.
abbrev listed : String → List Driver → ℕ
listed id ds = count_if (has_id driver_id_of id) ds

-- Sound, and the drivers that are BUSY with no open assignment are among those still to come.
pub record IsMended (left : List Driver) (s : Store) : Type 0 where
  pub sound : IsSound s
  pub stuck_left : (id : String) → busy_of id s ≤ open_of id s + listed id left

-- The row of a driver just freed is not BUSY.
freed_row : (d : Driver) (now : ℕ) (s : Store) → busy_of d.id (with_driver (freed now d) s) ≡ 0
freed_row d now s =
    let row : driver_row d.id (with_driver (freed now d) s) ≡ some (freed now d) =
      find_one-replace_same driver_id_of (freed now d) s.drivers in
    rw row refl

mend_free :
    (d : Driver) (ds : List Driver) (now : ℕ) (s : Store)
    → IsMended (d ∷ ds) s
    → open_of d.id s ≡ 0
    → IsMended ds (with_driver (freed now d) s)
mend_free d ds now s h idle = record {
  sound = with_driver-IsSound (freed now d) s h.sound (omega (arith, idle));
  stuck_left = λ id. elim (Bool-cases (str_eq d.id id)) [
    | inl e ↦
        let same : d.id ≡ id = (eq_iff d.id id).0 e in
        let here : busy_of id (with_driver (freed now d) s) ≡ 0 =
          rw (sym same) (freed_row d now s) in
        omega (arith, here)
    | inr e ↦
        let other : busy_of id (with_driver (freed now d) s) ≡ busy_of id s =
          ap busy_bit (find_one-replace_other driver_id_of id (freed now d) s.drivers e) in
        let apart : bit (has_id driver_id_of id d) ≡ 0 = rw e refl in
        omega (arith, h.stuck_left id, other, apart)
  ];
}

mend_held :
    (d : Driver) (ds : List Driver) (s : Store)
    → IsMended (d ∷ ds) s
    → 1 ≤ open_of d.id s
    → IsMended ds s
mend_held d ds s h held = record {
  sound = h.sound;
  stuck_left = λ id. elim (Bool-cases (str_eq d.id id)) [
    | inl e ↦
        let same : d.id ≡ id = (eq_iff d.id id).0 e in
        let held' : 1 ≤ open_of id s = rw (sym same) held in
        omega (arith, held', busy_le_one (driver_row id s))
    | inr e ↦
        let apart : bit (has_id driver_id_of id d) ≡ 0 = rw e refl in
        omega (arith, h.stuck_left id, apart)
  ];
}

idle_of :
    (d : Driver) (s : Store)
    → find_one (holds_driver d.id) s.assignments ≡ none
    → open_of d.id s ≡ 0
idle_of d s h = count_if-find_none (holds_driver d.id) s.assignments h

held_of :
    (d : Driver) (s : Store) {a : Assignment}
    → find_one (holds_driver d.id) s.assignments ≡ some a
    → 1 ≤ open_of d.id s
held_of d s h = count_if-find_some (holds_driver d.id) s.assignments h

-- Two ways to go on: with every call of the round done, and with the reads done.
module _ {R : ServiceError → Store → Type 0} (env : Env) (d : Driver) where
  repair_found-IsMended :
      (ds : List Driver) (found : Option Assignment)
      → env.down at_driver_save ≡ false
      → Contract
          (λ s. IsMended (d ∷ ds) s × (found ≡ find_one (holds_driver d.id) s.assignments))
          (repair_found (alone env) d found)
          (λ _ s. IsMended ds s)
          R
  unfolding repair_found repair
  repair_found-IsMended ds none up = ignore-Contract (
      perform_up env at_driver_save _ up (
        driver_save_up (freed (env.now at_driver_save) d)
          (λ s h. mend_free d ds (env.now at_driver_save) s h.0 (idle_of d s (sym h.1)))))
  repair_found-IsMended ds (some a) up =
      pure-Contract (λ s h. mend_held d ds s h.0 (held_of d s (sym h.1)))

  repair_found-IsSound :
      (found : Option Assignment)
      → Contract
          (λ s. IsSound s × (found ≡ find_one (holds_driver d.id) s.assignments))
          (repair_found (alone env) d found)
          (λ _ s. IsSound s)
          R
  unfolding repair_found repair
  repair_found-IsSound none = ignore-Contract (
      perform-Contract env at_driver_save _ (λ down.
        driver_save-Contract (freed (env.now at_driver_save) d) down (λ s h. h.0)
          (λ s h.
            with_driver-IsSound (freed (env.now at_driver_save) d) s h.0
              (omega (arith, idle_of d s (sym h.1))))))
  repair_found-IsSound (some a) = pure-Contract (λ s h. h.0)

module _ {R : ServiceError → Store → Type 0} (each : String → Env) where
  repair_all-IsMended :
      (ds : List Driver)
      → ((id : String) → (each id).down at_find_assignment ≡ false)
      → ((id : String) → (each id).down at_driver_save ≡ false)
      → Contract (IsMended ds) (repair_all (λ id. alone (each id)) ds) (λ _ s. IsMended [] s) R
  unfolding repair_all
  repair_all-IsMended [] reads writes = pure-Contract (λ s h. h)
  repair_all-IsMended (d ∷ ds) reads writes =
      >>=-Contract {M = λ _ s. IsMended ds s}
        (handling-Contract {N = λ _ _. ⊥}
          (perform_up (each d.id) at_find_assignment _ (reads d.id) (find_active_up d.id))
          (λ e. record { holds = λ s never. elim never [ ] })
          (λ found. repair_found-IsMended (each d.id) d ds found (writes d.id)))
        (λ _. repair_all-IsMended ds reads writes)

  repair_all-IsSound :
      (ds : List Driver)
      → ((id : String) → (each id).down at_find_assignment ≡ false)
      → Contract IsSound (repair_all (λ id. alone (each id)) ds) (λ _ s. IsSound s) R
  unfolding repair_all
  repair_all-IsSound [] reads = pure-Contract (λ s h. h)
  repair_all-IsSound (d ∷ ds) reads =
      >>=-Contract {M = λ _ s. IsSound s}
        (handling-Contract {N = λ _ _. ⊥}
          (perform_up (each d.id) at_find_assignment _ (reads d.id) (find_active_up d.id))
          (λ e. record { holds = λ s never. elim never [ ] })
          (λ found. repair_found-IsSound (each d.id) d found))
        (λ _. repair_all-IsSound ds reads)

listed_step :
    (b t : Bool) (id : String) (d : Driver) (ds : List Driver)
    → busy_bit (find_one (has_id driver_id_of id) ds)
      ≤ listed id (find_all (λ d. same_status d.status busy) ds)
    → has_id driver_id_of id d ≡ b
    → same_status d.status busy ≡ t
    → busy_bit (if b then some d else find_one (has_id driver_id_of id) ds)
      ≤ listed id (
          if t
          then d ∷ find_all (λ d. same_status d.status busy) ds
          else find_all (λ d. same_status d.status busy) ds)
listed_step true true id d ds rest e f = rw (e, f) (omega arith)
listed_step true false id d ds rest e f = rw f (omega arith)
listed_step false true id d ds rest e f = rw e (omega (arith, rest))
listed_step false false id d ds rest e f = rest

-- Every BUSY row is among those that the worker reads.
busy_listed :
    (id : String) (ds : List Driver)
    → busy_bit (find_one (has_id driver_id_of id) ds)
      ≤ listed id (find_all (λ d. same_status d.status busy) ds)
unfolding find_one find_all
busy_listed id [] = omega arith
busy_listed id (d ∷ ds) =
    listed_step (has_id driver_id_of id d) (same_status d.status busy) id d ds (busy_listed id ds)
      refl refl

module _ (env : Env) (each : String → Env) where
  -- A tick of the reconciliation worker in which every call succeeds, from a sound store and with no
  -- other process at work, leaves the store sound and a driver BUSY exactly when the driver has an
  -- open assignment: no driver is stuck.
  pub reconcile-frees :
      env.down at_find ≡ false
      → ((id : String) → (each id).down at_find_assignment ≡ false)
      → ((id : String) → (each id).down at_driver_save ≡ false)
      → Contract IsSound
          (reconcile (alone env) (λ id. alone (each id)))
          (λ _ s. IsSound s × ((id : String) → busy_of id s ≡ open_of id s))
          (λ _ _. ⊥)
  unfolding reconcile
  reconcile-frees up reads writes =
      handling-Contract {N = λ _ _. ⊥} (perform_up env at_find _ up (find_by_status_up busy))
        (λ e. record { holds = λ s never. elim never [ ] })
        (λ found.
          weaken (repair_all-IsMended each found reads writes)
            (λ s h. record {
              sound = h.0;
              stuck_left = λ id.
                  let among : busy_of id s ≤ listed id found = rw h.1 (busy_listed id s.drivers) in
                  omega (arith, among);
            })
            (λ _ s h. (h.sound, λ id. omega (arith, h.sound.held id, h.stuck_left id)))
            (λ _ _ h. h))

  -- A tick in which the reads of assignments succeed keeps a sound store sound, whatever writes fail.
  pub reconcile-IsSound :
      ((id : String) → (each id).down at_find_assignment ≡ false)
      → Contract IsSound
          (reconcile (alone env) (λ id. alone (each id)))
          (λ _ s. IsSound s)
          (λ _ s. IsSound s)
  unfolding reconcile
  reconcile-IsSound reads =
      handling-Contract {M = λ _ s. IsSound s} {N = λ _ s. IsSound s}
        (perform-Contract env at_find _ (λ down. find_by_status-Contract busy down (λ s h. h)))
        (λ e. pure-Contract (λ s h. h)) (λ found. repair_all-IsSound each found reads)
