-- ===== src/Driver/Assignment.antt =====
-- services/driver-service/internal/domain/assignment.go: the offer of a delivery to a driver. A method
-- takes the times that `time.Now` gives it, in nanoseconds, and returns the assignment as the call
-- leaves it, with whether it returned an error: each has one only.
pub mod Laws
use text.Mathlib.Text.{◌==◌ as str_eq}
use realtime_delivery_micros.Prelude.{
  ℕ, ◌+◌, ◌*◌, ◌^◌, String, Bool, true, false, ◌&&◌, not, Option, none, some, List, [], ◌∷◌,
  if◌then◌else◌, ltb,
}
use realtime_delivery_micros.Prelude.Int.{ℤ, pos}
use realtime_delivery_micros.Prelude.Int64.{add64}

pub data AssignmentStatus : Type 0 where
  unassigned offered accepted active completed rejected expired cancelled : AssignmentStatus

abbrev pub assignment_status_text : AssignmentStatus → String
assignment_status_text unassigned = "NONE"
assignment_status_text offered = "OFFERED"
assignment_status_text accepted = "ACCEPTED"
assignment_status_text active = "ACTIVE"
assignment_status_text completed = "COMPLETED"
assignment_status_text rejected = "REJECTED"
assignment_status_text expired = "EXPIRED"
assignment_status_text cancelled = "CANCELLED"

abbrev same_status : AssignmentStatus → AssignmentStatus → Bool
same_status a b = str_eq (assignment_status_text a) (assignment_status_text b)

pub record Assignment : Type 0 where
  pub id : String
  pub driver_id : String
  pub delivery_id : String
  pub customer_id : String
  pub status : AssignmentStatus
  pub attempt_number : ℤ
  pub offered_at : ℕ
  pub expires_at : ℕ
  pub accepted_at : Option ℕ
  pub rejected_at : Option ℕ
  pub completed_at : Option ℕ
  pub created_at : ℕ
  pub updated_at : ℕ

pub record AssignmentTransition : Type 0 where
  pub origin : AssignmentStatus
  pub action : String
  pub target : AssignmentStatus

abbrev edge : AssignmentStatus → String → AssignmentStatus → AssignmentTransition
edge from action to = record { origin = from; action = action; target = to }

abbrev pub assignment_transition_map : AssignmentStatus → List AssignmentTransition
assignment_transition_map unassigned = edge unassigned "create" offered ∷ []
assignment_transition_map offered =
    edge offered "accept" accepted
    ∷ edge offered "reject" rejected
    ∷ edge offered "expire" expired
    ∷ []
assignment_transition_map accepted = edge accepted "start" active ∷ []
assignment_transition_map active = edge active "complete" completed ∷ []
assignment_transition_map rejected = edge rejected "cancel" cancelled ∷ []
assignment_transition_map expired = edge expired "cancel" cancelled ∷ []
assignment_transition_map _ = []

listed : AssignmentStatus → AssignmentStatus → String → List AssignmentTransition → Bool
listed from to action [] = false
listed from to action (t ∷ ts) =
    if same_status t.origin from && (str_eq t.action action && same_status t.target to)
    then true
    else listed from to action ts

unfoldable pub is_valid_assignment_transition : AssignmentStatus → AssignmentStatus → String → Bool
unfolding listed
is_valid_assignment_transition from to action =
    listed from to action (assignment_transition_map from)

-- An assignment after a call, and whether the call returned nil.
abbrev pub Outcome : Type 0
Outcome = Assignment × Bool

-- `if !IsValidAssignmentTransition(...) { return errors.New(...) }`
abbrev pub guarded : Assignment → AssignmentStatus → String → Assignment → Outcome
guarded a to action changed =
    if not (is_valid_assignment_transition a.status to action) then (a, false) else (changed, true)

-- The offer stands for 30 seconds from the second reading of the clock.
unfoldable pub create_assignment : Assignment → ℕ → ℕ → ℕ → Outcome
create_assignment a now now' now'' = guarded a offered "create" (record a {
  status = offered;
  attempt_number = add64 a.attempt_number (pos 1);
  offered_at = now;
  expires_at = now' + 30 * 10 ^ 9;
  updated_at = now'';
})

unfoldable pub accept : Assignment → ℕ → ℕ → Outcome
accept a now now' =
    guarded a accepted "accept"
      (record a { status = accepted; accepted_at = some now; updated_at = now' })

unfoldable pub reject : Assignment → ℕ → ℕ → Outcome
reject a now now' =
    guarded a rejected "reject"
      (record a { status = rejected; rejected_at = some now; updated_at = now' })

unfoldable pub expire : Assignment → ℕ → Outcome
expire a now = guarded a expired "expire" (record a { status = expired; updated_at = now })

unfoldable pub start : Assignment → ℕ → Outcome
start a now = guarded a active "start" (record a { status = active; updated_at = now })

unfoldable pub complete : Assignment → ℕ → ℕ → Outcome
complete a now now' =
    guarded a completed "complete"
      (record a { status = completed; completed_at = some now; updated_at = now' })

unfoldable pub cancel : Assignment → ℕ → ℕ → Outcome
cancel a now now' = elim a.status [
  | offered ↦ (record a { status = cancelled; rejected_at = some now; updated_at = now' }, true)
  | accepted ↦ (record a { status = cancelled; accepted_at = none; updated_at = now' }, true)
  | active ↦ (record a { status = cancelled; updated_at = now' }, true)
  | _ ↦ (a, false)
]

-- `time.Now().Before(a.ExpiresAt)`
unfoldable pub validate_offer_expires : Assignment → ℕ → Bool
validate_offer_expires a now = ltb now a.expires_at
