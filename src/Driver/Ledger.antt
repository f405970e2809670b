-- ===== src/Driver/Ledger.antt =====
-- The driver service's store as a ledger of who is held by what: a driver with an open assignment is
-- BUSY, has no second one, and ids are unique. What the single writes do to it.
pub mod Calls
pub mod Reserve
pub mod Freeing
pub mod Lookup
pub mod Release
pub mod CommandsKeep
pub mod CommandsAnswer
pub mod Expiry
pub mod Repair
pub mod Exclusive
pub mod Sweep
pub mod Dispatching
pub mod Guarantees
mod Examples
pub mod History
pub mod Answers
use text.Mathlib.Text.{◌==◌ as str_eq}
use text.Mathlib.TextEquality.{eq_iff}
use realtime_delivery_micros.Prelude.{
  ℕ, ◌+◌, ◌≤◌, ◌≡◌, refl, sym, ap, inl, inr, String, Bool, true, false, ◌&&◌, Option, none, some,
  List, arith, Bool-cases, Option-cases,
}
use realtime_delivery_micros.Driver.Profile.{Driver, DriverStatus, busy, same_status}
use realtime_delivery_micros.Driver.Assignment.{Assignment, AssignmentStatus}
use realtime_delivery_micros.Driver.Collection.{find_one, has_id, replace_one, update_one}
use realtime_delivery_micros.Driver.Collection.Laws.{
  bit, count_if, total-replace_found, total-replace_missed, find_one-passes, count_if-find_none,
  total-update_found, total-update_lighter,
}
use realtime_delivery_micros.Driver.Collection.Ids.{
  HasUniqueIds, same_id, find_one-replace_same, find_one-replace_other, find_one-its_id,
  replace-HasUniqueIds, update-HasUniqueIds,
}
use realtime_delivery_micros.Driver.Store.{
  Store, driver_id_of, assignment_id_of, is_open, holds_driver, set_status,
}

abbrev pub driver_row : String → Store → Option Driver
driver_row id s = find_one (has_id driver_id_of id) s.drivers

abbrev pub assignment_row : String → Store → Option Assignment
assignment_row id s = find_one (has_id assignment_id_of id) s.assignments

-- How many open assignments a driver has, and 1 if the driver is BUSY.
abbrev pub open_of : String → Store → ℕ
open_of id s = count_if (holds_driver id) s.assignments

abbrev pub busy_bit : Option Driver → ℕ
busy_bit none = 0
busy_bit (some d) = bit (same_status d.status busy)

abbrev pub busy_of : String → Store → ℕ
busy_of id s = busy_bit (driver_row id s)

pub record IsSound (s : Store) : Type 0 where
  pub unique_drivers : HasUniqueIds driver_id_of s.drivers
  pub unique_assignments : HasUniqueIds assignment_id_of s.assignments
  pub held : (id : String) → open_of id s ≤ busy_of id s

abbrev pub with_driver : Driver → Store → Store
with_driver d s = record s { drivers = replace_one driver_id_of d s.drivers }

abbrev pub with_assignment : Assignment → Store → Store
with_assignment a s = record s { assignments = replace_one assignment_id_of a s.assignments }

abbrev pub with_status : String → AssignmentStatus → ℕ → Store → Store
with_status id status now s = record s {
  assignments = update_one assignment_id_of id (set_status status now) s.assignments;
}

pub busy_le_one : (o : Option Driver) → busy_bit o ≤ 1
busy_le_one none = ground arith
busy_le_one (some d) = elim (Bool-cases (same_status d.status busy)) [
  | inl e ↦ rw e ground arith
  | inr e ↦ rw e ground arith
]

pub open_le_one : (s : Store) (id : String) → IsSound s → open_of id s ≤ 1
open_le_one s id sound = omega (arith, sound.held id, busy_le_one (driver_row id s))

pub busy_of-with_driver :
    (d : Driver) (s : Store) → busy_of d.id (with_driver d s) ≡ bit (same_status d.status busy)
busy_of-with_driver d s = ap busy_bit (find_one-replace_same driver_id_of d s.drivers)

-- A driver may be written as BUSY, or as anything else when it has no open assignment.
pub with_driver-IsSound :
    (d : Driver) (s : Store)
    → IsSound s
    → open_of d.id s ≤ bit (same_status d.status busy)
    → IsSound (with_driver d s)
with_driver-IsSound d s sound h = record {
  unique_drivers = replace-HasUniqueIds driver_id_of d s.drivers sound.unique_drivers;
  unique_assignments = sound.unique_assignments;
  held = λ id. elim (Bool-cases (str_eq d.id id)) [
    | inl e ↦
        let same : d.id ≡ id = (eq_iff d.id id).0 e in
        let here : open_of d.id s ≤ busy_of d.id (with_driver d s) =
          omega (arith, h, busy_of-with_driver d s) in
        rw (sym same) here
    | inr e ↦
        let other : busy_of id (with_driver d s) ≡ busy_of id s =
          ap busy_bit (find_one-replace_other driver_id_of id d s.drivers e) in
        omega (arith, sound.held id, other)
  ];
}

-- An assignment may be written over one that holds the driver if it did.
pub with_assignment-IsSound :
    (a r : Assignment) (s : Store)
    → IsSound s
    → assignment_row a.id s ≡ some r
    → ((id : String) → bit (holds_driver id a) ≤ bit (holds_driver id r))
    → IsSound (with_assignment a s)
with_assignment-IsSound a r s sound found h = record {
  unique_drivers = sound.unique_drivers;
  unique_assignments =
      replace-HasUniqueIds assignment_id_of a s.assignments sound.unique_assignments;
  held = λ id. omega (
    arith,
    sound.held id,
    h id,
    total-replace_found (λ b. bit (holds_driver id b)) assignment_id_of a s.assignments found,
  );
}

pub bit_le_one : (b : Bool) → bit b ≤ 1
bit_le_one true = omega arith
bit_le_one false = omega arith

added :
    (a : Assignment) (id : String) (s : Store)
    → open_of id (with_assignment a s) ≤ open_of id s + bit (holds_driver id a)
added a id s = elim (Option-cases (find_one (has_id assignment_id_of a.id) s.assignments)) [
  | inl missed ↦ omega (
    arith,
    total-replace_missed (λ b. bit (holds_driver id b)) assignment_id_of a s.assignments missed,
  )
  | inr (r, found) ↦ omega (
    arith,
    total-replace_found (λ b. bit (holds_driver id b)) assignment_id_of a s.assignments found,
  )
]

pub ended_bit :
    (id : String) (a : Assignment) → is_open a.status ≡ false → bit (holds_driver id a) ≡ 0
ended_bit id a h = elim (Bool-cases (str_eq a.driver_id id)) [
  | inl e ↦ rw (e, h) refl
  | inr e ↦ rw e refl
]

-- A new open assignment, for a driver that has none and is BUSY.
pub offer-IsSound :
    (a : Assignment) (s : Store)
    → IsSound s
    → open_of a.driver_id s ≡ 0
    → busy_of a.driver_id s ≡ 1
    → IsSound (with_assignment a s)
offer-IsSound a s sound idle is_held = record {
  unique_drivers = sound.unique_drivers;
  unique_assignments =
      replace-HasUniqueIds assignment_id_of a s.assignments sound.unique_assignments;
  held = λ id.
      let grows : open_of id (with_assignment a s) ≤ open_of id s + bit (holds_driver id a) =
        added a id s in
      elim (Bool-cases (str_eq a.driver_id id)) [
        | inl e ↦
            let same : a.driver_id ≡ id = (eq_iff a.driver_id id).0 e in
            let idle' : open_of id s ≡ 0 = rw (sym same) idle in
            let busy' : busy_of id s ≡ 1 = rw (sym same) is_held in
            omega (arith, grows, idle', busy', bit_le_one (holds_driver id a))
        | inr e ↦
            let weightless : bit (holds_driver id a) ≡ 0 = rw e refl in
            omega (arith, grows, weightless, sound.held id)
      ];
}

-- A status written over an assignment never opens it, if the status is an ended one.
pub with_status-IsSound :
    (id : String) (status : AssignmentStatus) (now : ℕ) (s : Store)
    → IsSound s
    → is_open status ≡ false
    → IsSound (with_status id status now s)
with_status-IsSound id status now s sound ended = record {
  unique_drivers = sound.unique_drivers;
  unique_assignments =
      update-HasUniqueIds assignment_id_of id (set_status status now) s.assignments (λ a. refl)
        sound.unique_assignments;
  held = λ driver_id.
      let lighter : open_of driver_id (with_status id status now s) ≤ open_of driver_id s =
        total-update_lighter (λ a. bit (holds_driver driver_id a)) assignment_id_of id
          (set_status status now) s.assignments
          (λ a. omega (arith, ended_bit driver_id (set_status status now a) ended)) in
      omega (arith, sound.held driver_id, lighter);
}

-- The open assignment that a reader finds for a driver, once it is ended, was the only one.
pub completed_last :
    (driver_id : String) (status : AssignmentStatus) (now : ℕ) (a : Assignment) (s : Store)
    → IsSound s
    → find_one (holds_driver driver_id) s.assignments ≡ some a
    → is_open status ≡ false
    → open_of driver_id (with_status a.id status now s) ≡ 0
completed_last driver_id status now a s sound found ended =
    let holds : holds_driver driver_id a ≡ true =
      find_one-passes (holds_driver driver_id) s.assignments found in
    let before : bit (holds_driver driver_id a) ≡ 1 = rw holds refl in
    let after : bit (holds_driver driver_id (set_status status now a)) ≡ 0 =
      ended_bit driver_id (set_status status now a) ended in
    let here : assignment_row a.id s ≡ some a =
      find_one-its_id assignment_id_of (holds_driver driver_id) a s.assignments
        sound.unique_assignments found in
    omega (
      arith,
      before,
      after,
      open_le_one s driver_id sound,
      total-update_found (λ b. bit (holds_driver driver_id b)) assignment_id_of a.id
          (set_status status now) s.assignments here,
    )

-- An assignment that ends leaves its driver with none.
pub closed :
    (a r : Assignment) (s : Store)
    → IsSound s
    → assignment_row a.id s ≡ some r
    → holds_driver r.driver_id r ≡ true
    → is_open a.status ≡ false
    → open_of r.driver_id (with_assignment a s) ≡ 0
closed a r s sound found holds ended =
    let before : bit (holds_driver r.driver_id r) ≡ 1 = rw holds refl in
    let after : bit (holds_driver r.driver_id a) ≡ 0 = ended_bit r.driver_id a ended in
    omega (
      arith,
      before,
      after,
      open_le_one s r.driver_id sound,
      total-replace_found (λ b. bit (holds_driver r.driver_id b)) assignment_id_of a s.assignments
          found,
    )
