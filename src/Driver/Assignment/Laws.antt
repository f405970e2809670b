-- ===== src/Driver/Assignment/Laws.antt =====
-- services/driver-service/internal/domain/assignment.go: sequences of calls on one assignment.
use realtime_delivery_micros.Prelude.{
  ℕ, ◌+◌, ◌≤◌, ◌<◌, ◌≡◌, ◌≢◌, ◌⊎◌, ◌↔◌, inl, inr, true, false, none, List, [], ◌∷◌, arith,
  if◌then◌else◌, Bool-cases,
}
use realtime_delivery_micros.Driver.Assignment.{
  Assignment, AssignmentStatus, Outcome, unassigned, offered, accepted, active, completed, rejected,
  expired, cancelled, is_valid_assignment_transition, create_assignment, accept, reject, expire,
  start, complete, cancel,
}

pub data AssignmentCall : Type 0 where
  create_call accept_call reject_call expire_call start_call complete_call cancel_call :
      AssignmentCall

-- A call at the readings of the clock that it takes.
unfoldable pub apply : AssignmentCall → Assignment → ℕ → ℕ → ℕ → Outcome
apply create_call a now now' now'' = create_assignment a now now' now''
apply accept_call a now now' _ = accept a now now'
apply reject_call a now now' _ = reject a now now'
apply expire_call a now _ _ = expire a now
apply start_call a now _ _ = start a now
apply complete_call a now now' _ = complete a now now'
apply cancel_call a now now' _ = cancel a now now'

edge_create :
    (s : AssignmentStatus)
    → (is_valid_assignment_transition s offered "create" ≡ true) ↔ (s ≡ unassigned)
unfolding is_valid_assignment_transition
edge_create offered = ground arith
edge_create _ = ground arith

edge_accept :
    (s : AssignmentStatus)
    → (is_valid_assignment_transition s accepted "accept" ≡ true) ↔ (s ≡ offered)
unfolding is_valid_assignment_transition
edge_accept offered = ground arith
edge_accept _ = ground arith

edge_reject :
    (s : AssignmentStatus)
    → (is_valid_assignment_transition s rejected "reject" ≡ true) ↔ (s ≡ offered)
unfolding is_valid_assignment_transition
edge_reject offered = ground arith
edge_reject _ = ground arith

edge_expire :
    (s : AssignmentStatus)
    → (is_valid_assignment_transition s expired "expire" ≡ true) ↔ (s ≡ offered)
unfolding is_valid_assignment_transition
edge_expire offered = ground arith
edge_expire _ = ground arith

edge_start :
    (s : AssignmentStatus)
    → (is_valid_assignment_transition s active "start" ≡ true) ↔ (s ≡ accepted)
unfolding is_valid_assignment_transition
edge_start offered = ground arith
edge_start _ = ground arith

edge_complete :
    (s : AssignmentStatus)
    → (is_valid_assignment_transition s completed "complete" ≡ true) ↔ (s ≡ active)
unfolding is_valid_assignment_transition
edge_complete offered = ground arith
edge_complete _ = ground arith

edge_cancel :
    (s : AssignmentStatus)
    → (is_valid_assignment_transition s cancelled "cancel" ≡ true)
      ↔ ((s ≡ rejected) ⊎ (s ≡ expired))
unfolding is_valid_assignment_transition
edge_cancel offered = ground arith
edge_cancel _ = ground arith

-- How far an assignment is on its way.
abbrev pub stage : AssignmentStatus → ℕ
stage unassigned = 0
stage offered = 1
stage accepted = 2
stage active = 3
stage _ = 4

-- What a call has done to an assignment, by whether it succeeded.
abbrev pub Advances : Assignment → Outcome → Type 0
Advances a (b, true) = (stage a.status < stage b.status) × (stage b.status ≤ 4)
Advances a (b, false) = b ≡ a

-- A call that fails leaves the assignment as it was; one that succeeds brings it further on its way.
pub apply-Advances :
    (c : AssignmentCall) (a : Assignment) (now now' now'' : ℕ)
    → Advances a (apply c a now now' now'')
unfolding apply create_assignment accept reject expire start complete cancel
apply-Advances create_call a now now' now'' = ground (arith, edge_create a.status)
apply-Advances accept_call a now now' now'' = ground (arith, edge_accept a.status)
apply-Advances reject_call a now now' now'' = ground (arith, edge_reject a.status)
apply-Advances expire_call a now now' now'' = ground (arith, edge_expire a.status)
apply-Advances start_call a now now' now'' = ground (arith, edge_start a.status)
apply-Advances complete_call a now now' now'' = ground (arith, edge_complete a.status)
apply-Advances cancel_call a now now' now'' = ground arith

-- A run of calls at one reading of the clock each, and how many of them succeed.
pub run : Assignment → List (AssignmentCall × ℕ) → Assignment
run a [] = a
run a ((c, now) ∷ calls) = run (apply c a now now now).0 calls

pub successes : Assignment → List (AssignmentCall × ℕ) → ℕ
successes a [] = 0
successes a ((c, now) ∷ calls) =
    (if (apply c a now now now).1 then 1 else 0) + successes (apply c a now now now).0 calls

step_stage :
    (a : Assignment) (out : Outcome)
    → Advances a out
    → (if out.1 then 1 else 0) + stage a.status ≤ stage out.0.status
step_stage a (b, true) h = omega (arith, h)
step_stage a (b, false) h = ground arith

stage_bound : (s : AssignmentStatus) → stage s ≤ 4
stage_bound s = ground arith

successes-stage :
    (a : Assignment) (calls : List (AssignmentCall × ℕ))
    → successes a calls + stage a.status ≤ stage (run a calls).status
unfolding successes run
successes-stage a [] = ground arith
successes-stage a ((c, now) ∷ calls) =
    let step = step_stage a (apply c a now now now) (apply-Advances c a now now now) in
    let rest = successes-stage (apply c a now now now).0 calls in omega (arith, step, rest)

-- However many calls come, in whichever order, at most four of them succeed, and fewer on an
-- assignment that is on its way already; on a completed, rejected, expired or cancelled one, none.
pub successes_bounded :
    (a : Assignment) (calls : List (AssignmentCall × ℕ)) → successes a calls + stage a.status ≤ 4
successes_bounded a calls =
    let h = successes-stage a calls in
    let top = stage_bound (run a calls).status in omega (arith, h, top)

-- The driver's or the clock's answers to an offer.
abbrev pub IsAnswer : AssignmentCall → Type 0
IsAnswer accept_call = Unit
IsAnswer reject_call = Unit
IsAnswer expire_call = Unit
IsAnswer _ = ⊥

answer_stages :
    (c : AssignmentCall) (a : Assignment) (now : ℕ)
    → IsAnswer c
    → (apply c a now now now).1 ≡ true
    → (stage a.status ≡ 1) × (2 ≤ stage (apply c a now now now).0.status)
unfolding apply accept reject expire
answer_stages accept_call a now h done = ground (arith, edge_accept a.status)
answer_stages reject_call a now h done = ground (arith, edge_reject a.status)
answer_stages expire_call a now h done = ground (arith, edge_expire a.status)
answer_stages _ a now h done = elim h [ ]

-- An offer is answered once: after an `Accept`, `Reject` or `Expire` that succeeded, whatever calls
-- follow, each of the three fails.
pub answered_once :
    (c d : AssignmentCall) (a : Assignment) (now later : ℕ) (calls : List (AssignmentCall × ℕ))
    → IsAnswer c
    → IsAnswer d
    → (apply c a now now now).1 ≡ true
    → (apply d (run (apply c a now now now).0 calls) later later later).1 ≡ false
answered_once c d a now later calls hc hd done =
    let b = (apply c a now now now).0 in
    let past = (answer_stages c a now hc done).1 in
    let kept = successes-stage b calls in
    elim (Bool-cases (apply d (run b calls) later later later).1) [
      | inl e ↦
          let early = (answer_stages d (run b calls) later hd e).0 in
          let never : ⊥ = omega (arith, past, kept, early) in elim never [ ]
      | inr e ↦ e
    ]

-- The times that a status promises: an accepted assignment has the time at which it was accepted,
-- which `Duration` reads behind its pointer, and a completed one that of its completion.
abbrev pub HasTimes : Assignment → Type 0
HasTimes a =
    (a.status ≡ accepted → a.accepted_at ≢ none) × (a.status ≡ completed → a.completed_at ≢ none)

apply-HasTimes :
    (c : AssignmentCall) (a : Assignment) (now now' now'' : ℕ)
    → HasTimes a
    → HasTimes (apply c a now now' now'').0
unfolding apply create_assignment accept reject expire start complete cancel
apply-HasTimes create_call a now now' now'' h = ground arith
apply-HasTimes _ a now now' now'' h = ground arith

-- From a new assignment on, after any calls in any order, an accepted assignment has the time at
-- which it was accepted and a completed one that of its completion.
pub run-HasTimes :
    (a : Assignment) (calls : List (AssignmentCall × ℕ))
    → a.status ≡ unassigned
    → HasTimes (run a calls)
unfolding run
run-HasTimes a calls fresh = by_calls a calls (ground arith)
  where
    by_calls :
        (b : Assignment) (rest : List (AssignmentCall × ℕ)) → HasTimes b → HasTimes (run b rest)
    by_calls b [] h = h
    by_calls b ((c, now) ∷ rest) h =
        by_calls (apply c b now now now).0 rest (apply-HasTimes c b now now now h)

-- `Cancel` succeeds only where the map has no such transition, and fails wherever the map has one.
pub cancel_off_map :
    (a : Assignment) (now now' : ℕ)
    → ((cancel a now now').1 ≡ true
        → is_valid_assignment_transition a.status cancelled "cancel" ≡ false)
      × (is_valid_assignment_transition a.status cancelled "cancel" ≡ true
          → (cancel a now now').1 ≡ false)
unfolding cancel
cancel_off_map a now now' = ground (arith, edge_cancel a.status)
