-- ===== src/Driver/Store.antt =====
-- services/driver-service/internal/adapters (mongodb, redis/lock_manager.go) and ports: what the driver
-- service keeps outside its processes, and the calls on it. A call's first argument says whether it
-- fails, which changes nothing.
use Prim.Native.String.{◌++◌ as str_append}
use text.Mathlib.Text.{◌==◌ as str_eq}
use realtime_delivery_micros.Prelude.{
  ℕ, String, Bool, true, false, ◌&&◌, ◌||◌, not, Option, none, some, List, [], ◌∷◌, ◌++◌, map,
  if◌then◌else◌, ltb, length,
}
use realtime_delivery_micros.Prelude.Int.{ℤ}
use realtime_delivery_micros.Prelude.Result.{ok, err}
use realtime_delivery_micros.Prelude.Action.{Stateful}
use realtime_delivery_micros.Driver.Profile.{Driver, DriverStatus, DriverError, same_status}
use realtime_delivery_micros.Driver.Review.{Review}
use realtime_delivery_micros.Driver.Assignment.{
  Assignment, AssignmentStatus, offered, accepted, active, rejected, expired, cancelled,
}
use realtime_delivery_micros.Driver.Collection.{find_one, find_all, has_id, replace_one, update_one}

-- A message that the event publisher was given: one constructor for each of its methods that the
-- driver service calls.
pub data DriverEvent : Type 0 where
  driver_created : String → String → DriverEvent
  driver_available : String → DriverEvent
  assignment_offered assignment_accepted : String → String → String → DriverEvent
  assignment_rejected : String → String → String → String → DriverEvent
  assignment_expired : String → String → DriverEvent
  assignment_released : String → DriverEvent
  no_driver_available : String → String → ℕ → String → DriverEvent

pub record Store : Type 0 where
  pub drivers : List Driver
  pub assignments : List Assignment
  -- The keys that Redis holds for `SetNX`.
  pub locks : List String
  pub published : List DriverEvent
  pub reviews : List Review

-- The errors that the calls return: those of a driver's methods, the others of errors.go, and what a
-- failing database, lock or broker gives, a message that is not JSON, and a nil pointer.
pub data ServiceError : Type 0 where
  by_driver : DriverError → ServiceError
  driver_not_found driver_not_available_for_assignment driver_already_reserved : ServiceError
  driver_already_online driver_not_offline driver_already_exists : ServiceError
  assignment_not_found assignment_invalid_state : ServiceError
  invalid_argument max_attempts_reached internal unreachable malformed : ServiceError
  invalid_rating duplicate_review delivery_not_found not_delivery_owner : ServiceError
  not_assigned_driver panicked : ServiceError

abbrev pub Action : Type 0 → Type 0
Action A = Stateful Store ServiceError A

abbrev pub driver_id_of : Driver → String
driver_id_of d = d.id

abbrev pub assignment_id_of : Assignment → String
assignment_id_of a = a.id

-- A read, which the database may fail.
abbrev pub reading : {A : Type 0} → Bool → (Store → A) → Action A
reading down f s = (if down then err unreachable else ok (f s), s)

abbrev pub updating : Bool → (Store → Store) → Action (Unit {0})
updating down f s = if down then (err unreachable, s) else (ok tt, f s)

unfoldable pub driver_find_by_id : Bool → String → Action (Option Driver)
driver_find_by_id down id = reading down (λ s. find_one (has_id driver_id_of id) s.drivers)

unfoldable pub driver_find_by_user_id : Bool → String → Action (Option Driver)
driver_find_by_user_id down id = reading down (λ s. find_one (λ d. str_eq d.user_id id) s.drivers)

abbrev pub listed_id : String → List String → Bool
listed_id id [] = false
listed_id id (x ∷ xs) = str_eq x id || listed_id id xs

unfoldable pub driver_find_by_ids : Bool → List String → Action (List Driver)
driver_find_by_ids down [] s = (ok [], s)
driver_find_by_ids down (x ∷ xs) s =
    reading down (λ s. find_all (λ d. listed_id d.id (x ∷ xs)) s.drivers) s

unfoldable pub driver_find_by_status : Bool → DriverStatus → Action (List Driver)
driver_find_by_status down status =
    reading down (λ s. find_all (λ d. same_status d.status status) s.drivers)

unfoldable pub driver_save : Bool → Driver → Action (Unit {0})
driver_save down d =
    updating down (λ s. record s { drivers = replace_one driver_id_of d s.drivers })

unfoldable pub driver_update_rating : Bool → String → ℕ → ℤ → ℕ → Action (Unit {0})
driver_update_rating down id average_rating total_reviews now = updating down (λ s. record s {
  drivers =
      update_one driver_id_of id
        (λ d. record d { rating = average_rating; rating_count = total_reviews; updated_at = now })
        s.drivers;
})

-- `"status": bson.M{"$in": []string{"OFFERED", "ACCEPTED", "ACTIVE"}}`
abbrev pub is_open : AssignmentStatus → Bool
is_open offered = true
is_open accepted = true
is_open active = true
is_open _ = false

abbrev pub holds_driver : String → Assignment → Bool
holds_driver id a = str_eq a.driver_id id && is_open a.status

unfoldable pub assignment_find_by_id : Bool → String → Action (Option Assignment)
assignment_find_by_id down id =
    reading down (λ s. find_one (has_id assignment_id_of id) s.assignments)

unfoldable pub find_active_by_driver : Bool → String → Action (Option Assignment)
find_active_by_driver down id = reading down (λ s. find_one (holds_driver id) s.assignments)

unfoldable pub assignment_find_by_delivery_id : Bool → String → Action (Option Assignment)
assignment_find_by_delivery_id down id =
    reading down (λ s. find_one (λ a. str_eq a.delivery_id id) s.assignments)

unfoldable pub assignment_save : Bool → Assignment → Action (Unit {0})
assignment_save down a =
    updating down (λ s. record s { assignments = replace_one assignment_id_of a s.assignments })

abbrev pub set_status : AssignmentStatus → ℕ → Assignment → Assignment
set_status status now a = record a { status = status; updated_at = now }

unfoldable pub update_status : Bool → String → AssignmentStatus → ℕ → Action (Unit {0})
update_status down id status now = updating down (λ s. record s {
  assignments = update_one assignment_id_of id (set_status status now) s.assignments;
})

abbrev is_offered : AssignmentStatus → Bool
is_offered offered = true
is_offered _ = false

-- An offer whose time is past.
abbrev pub is_stale : ℕ → Assignment → Bool
is_stale cutoff a = is_offered a.status && ltb a.expires_at cutoff

-- The loop of `ExpireOffers`: `fails` tells which of the updates the database fails, which is dropped.
unfoldable pub expire_each :
    (String → Bool) → ℕ → List Assignment → List Assignment → List Assignment
expire_each fails now [] rows = rows
expire_each fails now (a ∷ stale) rows =
    expire_each fails now stale
      (if fails a.id then rows else update_one assignment_id_of a.id (set_status expired now) rows)

-- `ExpireOffers`: the ids of the stale offers, and the offers marked.
unfoldable pub expire_offers : Bool → (String → Bool) → ℕ → ℕ → Action (List String)
expire_offers down fails cutoff now s =
    if down
    then (err unreachable, s)
    else let stale = find_all (is_stale cutoff) s.assignments in
      (
        ok (map assignment_id_of stale),
        record s { assignments = expire_each fails now stale s.assignments },
      )

-- `"status": bson.M{"$in": []string{"REJECTED", "EXPIRED", "CANCELLED"}}`
abbrev is_lost : AssignmentStatus → Bool
is_lost rejected = true
is_lost expired = true
is_lost cancelled = true
is_lost _ = false

-- The loop over the rows found, with `seen` as the ids gathered so far.
unfoldable pub gather_driver_ids : List String → List Assignment → List String
gather_driver_ids seen [] = []
gather_driver_ids seen (a ∷ rows) =
    let fresh = not (str_eq a.driver_id "") && not (listed_id a.driver_id seen) in
    let rest = gather_driver_ids (if fresh then a.driver_id ∷ seen else seen) rows in
    if fresh then a.driver_id ∷ rest else rest

unfoldable pub find_rejected_driver_ids : Bool → String → Action (List String)
find_rejected_driver_ids down delivery_id = reading down (λ s.
    gather_driver_ids []
      (find_all (λ a. str_eq a.delivery_id delivery_id && is_lost a.status) s.assignments))

unfoldable pub count_by_delivery : Bool → String → Action ℕ
count_by_delivery down delivery_id =
    reading down (λ s. length (find_all (λ a. str_eq a.delivery_id delivery_id) s.assignments))

abbrev pub lock_key : String → String
lock_key resource = str_append "lock:driver:" resource

abbrev pub without : String → List String → List String
without key [] = []
without key (k ∷ ks) = let rest = without key ks in if str_eq k key then rest else k ∷ rest

-- `SetNX`: whether the key was free. A key goes by `Del`, or at its TTL, which is the others' doing.
unfoldable pub lock_acquire : Bool → String → Action Bool
lock_acquire down resource s =
    if down
    then (err unreachable, s)
    else if listed_id (lock_key resource) s.locks
    then (ok false, s)
    else (ok true, record s { locks = lock_key resource ∷ s.locks })

-- `Del`: the token is not looked at.
unfoldable pub lock_release : Bool → String → String → Action (Unit {0})
lock_release down resource token =
    updating down (λ s. record s { locks = without (lock_key resource) s.locks })

unfoldable pub publish : Bool → DriverEvent → Action (Unit {0})
publish down event = updating down (λ s. record s { published = s.published ++ (event ∷ []) })

-- `InsertOne`, behind the collection's unique index on the delivery.
unfoldable pub review_create : Bool → Review → Action (Unit {0})
review_create down r s =
    if down
    then (err unreachable, s)
    else elim (find_one (λ q. str_eq q.delivery_id r.delivery_id) s.reviews) [
      | some _ ↦ (err unreachable, s)
      | none ↦ (ok tt, record s { reviews = s.reviews ++ (r ∷ []) })
    ]

unfoldable pub review_find_by_delivery_id : Bool → String → Action (Option Review)
review_find_by_delivery_id down id =
    reading down (λ s. find_one (λ r. str_eq r.delivery_id id) s.reviews)

-- The reviews of a driver, which the database averages and counts.
unfoldable pub reviews_of_driver : Bool → String → Action (List Review)
reviews_of_driver down id = reading down (λ s. find_all (λ r. str_eq r.driver_id id) s.reviews)
