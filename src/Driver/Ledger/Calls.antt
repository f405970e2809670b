-- ===== src/Driver/Ledger/Calls.antt =====
-- services/driver-service/internal/adapters: the contracts of the single calls on the store, for a
-- process that is alone with it.
use mathlib.Core.Path.{subst}
use realtime_delivery_micros.Prelude.{
  ℕ, ◌≡◌, refl, sym, String, Bool, true, false, Option, none, some, List, inl, inr, ◌∷◌, Bool-cases,
}
use realtime_delivery_micros.Prelude.Action.{ignore}
use realtime_delivery_micros.Prelude.Action.Contract.{Contract, Ends, ignore-Contract}
use realtime_delivery_micros.Driver.Profile.{Driver, DriverError, DriverStatus, same_status}
use realtime_delivery_micros.Driver.Assignment.{Assignment, AssignmentStatus}
use realtime_delivery_micros.Driver.Collection.{find_one, find_all}
use realtime_delivery_micros.Driver.Store.{
  Store, ServiceError, unreachable, by_driver, Action, reading, updating, driver_find_by_id,
  driver_save, assignment_find_by_id, find_active_by_driver, assignment_save, update_status,
  publish, DriverEvent, holds_driver, driver_find_by_status, lock_acquire, lock_release, lock_key,
  listed_id, without,
}
use realtime_delivery_micros.Driver.Env.{Env, Site, perform, alone, present, checked}
use realtime_delivery_micros.Driver.Ledger.{
  driver_row, assignment_row, with_driver, with_assignment, with_status,
}

module _ {P : Store → Type 0} where
  sent_or_not :
      (down : Bool) (event : DriverEvent) (s : Store)
      → P s
      → ((s : Store) (sent : List DriverEvent) → P s → P (record s { published = sent }))
      → Ends (λ _ s. P s) (λ _ s. P s) (publish down event s).0 (publish down event s).1
  unfolding publish
  sent_or_not true event s p keeps = p
  sent_or_not false event s p keeps = keeps s _ p

module _ {P : Store → Type 0} {R : ServiceError → Store → Type 0} where
  pub perform-Contract :
      {A : Type 0} {Q : A → Store → Type 0} (env : Env) (site : Site) (call : Bool → Action A)
      → ((down : Bool) → Contract P (call down) Q R)
      → Contract P (perform (alone env) site call) Q R
  unfolding perform
  perform-Contract env site call h = record { holds = (h (env.down site)).holds }

  read-Contract :
      {A : Type 0} (down : Bool) (f : Store → A)
      → ((s : Store) → P s → R unreachable s)
      → Contract P (reading down f) (λ a s. P s × (a ≡ f s)) R
  read-Contract true f h = record { holds = h }
  read-Contract false f h = record { holds = λ s p. (p, refl) }

  write-Contract :
      {Q : Unit {0} → Store → Type 0} (down : Bool) (f : Store → Store)
      → ((s : Store) → P s → R unreachable s)
      → ((s : Store) → P s → Q tt (f s))
      → Contract P (updating down f) Q R
  write-Contract true f h k = record { holds = h }
  write-Contract false f h k = record { holds = k }

  pub driver_find-Contract :
      (id : String) (down : Bool)
      → ((s : Store) → P s → R unreachable s)
      → Contract P (driver_find_by_id down id) (λ found s. P s × (found ≡ driver_row id s)) R
  unfolding driver_find_by_id
  driver_find-Contract id down h = read-Contract down _ h

  pub assignment_find-Contract :
      (id : String) (down : Bool)
      → ((s : Store) → P s → R unreachable s)
      → Contract P
          (assignment_find_by_id down id)
          (λ found s. P s × (found ≡ assignment_row id s))
          R
  unfolding assignment_find_by_id
  assignment_find-Contract id down h = read-Contract down _ h

  pub find_active-Contract :
      (id : String) (down : Bool)
      → ((s : Store) → P s → R unreachable s)
      → Contract P
          (find_active_by_driver down id)
          (λ found s. P s × (found ≡ find_one (holds_driver id) s.assignments))
          R
  unfolding find_active_by_driver
  find_active-Contract id down h = read-Contract down _ h

  pub driver_save-Contract :
      {Q : Unit {0} → Store → Type 0} (d : Driver) (down : Bool)
      → ((s : Store) → P s → R unreachable s)
      → ((s : Store) → P s → Q tt (with_driver d s))
      → Contract P (driver_save down d) Q R
  unfolding driver_save
  driver_save-Contract d down h k = write-Contract down _ h k

  pub assignment_save-Contract :
      {Q : Unit {0} → Store → Type 0} (a : Assignment) (down : Bool)
      → ((s : Store) → P s → R unreachable s)
      → ((s : Store) → P s → Q tt (with_assignment a s))
      → Contract P (assignment_save down a) Q R
  unfolding assignment_save
  assignment_save-Contract a down h k = write-Contract down _ h k

  pub update_status-Contract :
      {Q : Unit {0} → Store → Type 0} (id : String) (status : AssignmentStatus) (now : ℕ)
      (down : Bool)
      → ((s : Store) → P s → R unreachable s)
      → ((s : Store) → P s → Q tt (with_status id status now s))
      → Contract P (update_status down id status now) Q R
  unfolding update_status
  update_status-Contract id status now down h k = write-Contract down _ h k

  -- A message sent with its error dropped.
  pub announce-Contract :
      (env : Env) (site : Site) (event : DriverEvent)
      → ((s : Store) (sent : List DriverEvent) → P s → P (record s { published = sent }))
      → Contract P (ignore (perform (alone env) site (λ down. publish down event))) (λ _ s. P s) R
  unfolding perform
  announce-Contract env site event keeps =
      ignore-Contract {I = P}
        (record { holds = λ s p. sent_or_not (env.down site) event s p keeps })

  pub lock_acquire-Contract :
      {Q : Bool → Store → Type 0} (resource : String) (down : Bool)
      → ((s : Store) → P s → R unreachable s)
      → ((s : Store) → P s → Q false s)
      → ((s : Store) → P s → Q true (record s { locks = lock_key resource ∷ s.locks }))
      → Contract P (lock_acquire down resource) Q R
  unfolding lock_acquire
  lock_acquire-Contract resource true h held free = record { holds = h }
  lock_acquire-Contract resource false h held free = record {
    holds = λ s p. elim (Bool-cases (listed_id (lock_key resource) s.locks)) [
      | inl e ↦ rw e (held s p)
      | inr e ↦ rw e (free s p)
    ];
  }

  pub present-Contract :
      {A : Type 0} (found : Option A) (e : ServiceError)
      → ((s : Store) → P s → found ≡ none → R e s)
      → Contract P (present found e) (λ a s. P s × (found ≡ some a)) R
  present-Contract none e h = record { holds = λ s p. h s p refl }
  present-Contract (some a) e h = record { holds = λ s p. (p, refl) }

  pub checked-Contract :
      (out : Driver × Option DriverError)
      → ((e : DriverError) (s : Store) → P s → R (by_driver e) s)
      → Contract P (checked out) (λ d s. P s × (out ≡ (d, none))) R
  checked-Contract (d, none) h = record { holds = λ s p. (p, refl) }
  checked-Contract (d, some e) h = record { holds = h e }

-- A release changes the locks or, when it fails, nothing.
pub lock_release-keeps :
    (I : Store → Type 0) (env : Env) (site : Site) (resource token : String) (s : Store)
    → I s
    → ((locks : List String) → I (record s { locks = locks }))
    → I (perform (alone env) site (λ down. lock_release down resource token) s).1
unfolding perform lock_release
lock_release-keeps I env site resource token s here there = elim (Bool-cases (env.down site)) [
  | inl e ↦ rw e here
  | inr e ↦ rw e (there (without (lock_key resource) s.locks))
]

-- Calls that do not fail.
module _ {P : Store → Type 0} {R : ServiceError → Store → Type 0} where
  pub perform_up :
      {A : Type 0} {Q : A → Store → Type 0} (env : Env) (site : Site) (call : Bool → Action A)
      → env.down site ≡ false
      → Contract P (call false) Q R
      → Contract P (perform (alone env) site call) Q R
  unfolding perform
  perform_up {Q = Q} env site call up h = record {
    holds = λ s p. subst (λ b. Ends Q R (call b s).0 (call b s).1) (sym up) (h.holds s p);
  }

  pub find_active_up :
      (id : String)
      → Contract P
          (find_active_by_driver false id)
          (λ found s. P s × (found ≡ find_one (holds_driver id) s.assignments))
          R
  unfolding find_active_by_driver
  find_active_up id = record { holds = λ s p. (p, refl) }

  pub find_by_status-Contract :
      (status : DriverStatus) (down : Bool)
      → ((s : Store) → P s → R unreachable s)
      → Contract P (driver_find_by_status down status) (λ _ s. P s) R
  unfolding driver_find_by_status
  find_by_status-Contract status true h = record { holds = h }
  find_by_status-Contract status false h = record { holds = λ s p. p }

  pub find_by_status_up :
      (status : DriverStatus)
      → Contract P
          (driver_find_by_status false status)
          (λ found s. P s × (found ≡ find_all (λ d. same_status d.status status) s.drivers))
          R
  unfolding driver_find_by_status
  find_by_status_up status = record { holds = λ s p. (p, refl) }

  pub driver_save_up :
      {Q : Unit {0} → Store → Type 0} (d : Driver)
      → ((s : Store) → P s → Q tt (with_driver d s))
      → Contract P (driver_save false d) Q R
  unfolding driver_save
  driver_save_up d k = record { holds = k }
