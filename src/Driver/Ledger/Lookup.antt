-- ===== src/Driver/Ledger/Lookup.antt =====
-- dispatch_service.go: an assignment read, and what it is to write one over it.
use text.Mathlib.Text.{◌==◌ as str_eq}
use text.Mathlib.TextEquality.{eq_iff}
use realtime_delivery_micros.Prelude.{
  ◌≤◌, ◌≡◌, refl, sym, ◌∙◌, inl, inr, String, true, false, Option, some, List, arith, Bool-cases,
}
use realtime_delivery_micros.Prelude.Action.Contract.{Contract, weaken}
use realtime_delivery_micros.Driver.Assignment.{Assignment, AssignmentStatus}
use realtime_delivery_micros.Driver.Collection.{find_one, has_id}
use realtime_delivery_micros.Driver.Collection.Ids.{find_one-replace_same, same_id}
use realtime_delivery_micros.Driver.Collection.Laws.{bit, find_one-passes}
use realtime_delivery_micros.Driver.Store.{
  Store, ServiceError, assignment_id_of, assignment_not_found, is_open, holds_driver,
  assignment_find_by_id,
}
use realtime_delivery_micros.Driver.Env.{present, Env, at_find_assignment, perform, alone}
use realtime_delivery_micros.Driver.Ledger.{
  IsSound, assignment_row, with_assignment, with_assignment-IsSound, closed, ended_bit, bit_le_one,
}
use realtime_delivery_micros.Driver.Ledger.Calls.{
  perform-Contract, assignment_find-Contract, present-Contract,
}
use realtime_delivery_micros.Driver.Ledger.Freeing.{IsIdle}

-- The assignment stands in the collection, with a status.
abbrev pub Stands : String → AssignmentStatus → List Assignment → Type 0
Stands id status rows =
    (a : Assignment) × (find_one (has_id assignment_id_of id) rows ≡ some a) × (a.status ≡ status)

abbrev pub Sound : ServiceError → Store → Type 0
Sound e s = IsSound s

-- A sound store with the assignment as a reader found it.
abbrev pub Found : String → Assignment → Store → Type 0
Found id a s = IsSound s × (a.id ≡ id) × (assignment_row a.id s ≡ some a)

pub row_at :
    (id id' : String) (a : Assignment) (s : Store)
    → id ≡ id'
    → assignment_row id' s ≡ some a
    → assignment_row id s ≡ some a
row_at id id' a s same h = rw same h

-- An open assignment that stays open with its driver weighs what it did.
pub kept_open :
    (a b : Assignment) (id : String)
    → b.driver_id ≡ a.driver_id
    → is_open a.status ≡ true
    → bit (holds_driver id b) ≤ bit (holds_driver id a)
kept_open a b id same was =
    rw (same, was)
      (elim (Bool-cases (str_eq a.driver_id id)) [
        | inl e ↦ rw e (bit_le_one (is_open b.status))
        | inr e ↦ rw e (omega arith)
      ])

-- An open assignment written over with an ended status: its driver has no open one left.
pub ended :
    (id driver_id : String) (a b : Assignment) (s : Store)
    → IsSound s
    → a.id ≡ id
    → assignment_row a.id s ≡ some a
    → a.driver_id ≡ driver_id
    → b.id ≡ a.id
    → b.driver_id ≡ a.driver_id
    → is_open a.status ≡ true
    → is_open b.status ≡ false
    → IsIdle (Stands id b.status) driver_id (with_assignment b s)
ended id driver_id a b s sound its row mine same_ids same_drivers was over =
    let row' : assignment_row b.id s ≡ some a = row_at b.id a.id a s same_ids row in
    let holds : holds_driver a.driver_id a ≡ true =
      rw ((eq_iff a.driver_id a.driver_id).1 refl, was) refl in
    let written : assignment_row b.id (with_assignment b s) ≡ some b =
      find_one-replace_same assignment_id_of b s.assignments in
    record {
      sound =
          with_assignment-IsSound b a s sound row' (λ other. omega (arith, ended_bit other b over));
      idle = rw (sym mine) (closed b a s sound row' holds over);
      known = (b, row_at id b.id b (with_assignment b s) (sym (same_ids ∙ its)) written, refl);
    }

module _ (env : Env) (assignment_id : String) where
  pub find_present :
      {R : ServiceError → Store → Type 0}
      → ((e : ServiceError) (s : Store) → IsSound s → R e s)
      → (found : Option Assignment)
      → Contract
          (λ s. IsSound s × (found ≡ assignment_row assignment_id s))
          (present found assignment_not_found)
          (λ a s. Found assignment_id a s)
          R
  find_present h found =
      weaken (present-Contract found assignment_not_found (λ s p _. h _ s p.0)) (λ s p. p)
        (λ a s p.
          let its : a.id ≡ assignment_id =
            same_id assignment_id_of assignment_id a
              (find_one-passes _ s.assignments (sym p.0.1 ∙ p.1)) in
          (p.0.0, its, row_at a.id assignment_id a s its (sym p.0.1 ∙ p.1)))
        (λ _ _ p. p)

  pub lookup :
      Contract IsSound
        (perform (alone env) at_find_assignment (λ down. assignment_find_by_id down assignment_id))
        (λ found s. IsSound s × (found ≡ assignment_row assignment_id s))
        Sound
  lookup =
      perform-Contract env at_find_assignment _
        (λ down. assignment_find-Contract assignment_id down (λ s h. h))
