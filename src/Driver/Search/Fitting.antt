-- ===== src/Driver/Search/Fitting.antt =====
-- dispatch_service.go: `FindAvailableDrivers`, what its tests on a driver and on an id let through.
use text.Mathlib.Text.{◌==◌ as str_eq}
use mathlib.Core.Path.{subst}
use text.Mathlib.TextEquality.{eq_iff}
use realtime_delivery_micros.Prelude.{
  ◌≡◌, ◌⊎◌, refl, sym, String, Bool, true, false, ◌&&◌, ◌||◌, not, List, [], ◌∷◌, map, All, IsIn,
  Bool-cases, inl, inr, arith, if◌then◌else◌,
}
use realtime_delivery_micros.Driver.Profile.{Driver, DriverStatus, available, same_status}
use realtime_delivery_micros.Driver.Collection.{find_all}
use realtime_delivery_micros.Driver.Store.{listed_id}
use realtime_delivery_micros.Driver.Search.{
  Nearby, vehicle_text, suits, id_of, candidate_ids, is_eligible,
}

-- What `find_all` keeps passes the test, and keeps what all had.
module _ {A : Type 0} (test : A → Bool) (P : A → Type 0) where
  kept_step :
      (here : Bool) (x : A) (xs : List A)
      → (here ≡ true → P x)
      → All P xs
      → All P (if here then x ∷ xs else xs)
  kept_step true x xs h rest = (h refl, rest)
  kept_step false x xs h rest = rest

  pub find_all-All : (xs : List A) → All (λ x. test x ≡ true → P x) xs → All P (find_all test xs)
  unfolding find_all
  find_all-All [] h = tt
  find_all-All (x ∷ xs) h = kept_step (test x) x _ h.0 (find_all-All xs h.1)

module _ {A : Type 0} where
  pub All-map :
      {B : Type 0} (P : B → Type 0) (f : A → B) (xs : List A)
      → All (λ x. P (f x)) xs
      → All P (map f xs)
  All-map P f [] h = tt
  All-map P f (x ∷ xs) h = (h.0, All-map P f xs h.1)

  pub All-imp : (P Q : A → Type 0) (xs : List A) → ((x : A) → P x → Q x) → All P xs → All Q xs
  All-imp P Q [] k h = tt
  All-imp P Q (x ∷ xs) k h = (k x h.0, All-imp P Q xs k h.1)

available_lem : (t : DriverStatus) → same_status t available ≡ true → t ≡ available
available_lem available h = refl
available_lem _ h = ground arith

-- A driver that may be offered a delivery for this type of vehicle, "" for any.
pub record IsFitting (wanted : String) (d : Driver) : Type 0 where
  pub is_available : d.status ≡ available
  pub is_unblocked : d.is_blocked ≡ false
  pub in_service : d.is_active ≡ true
  pub vehicle_fits : (wanted ≡ "") ⊎ (vehicle_text d.vehicle.vehicle_type ≡ wanted)

all_four :
    (a b c e : Bool)
    → (a && (not b && (c && e))) ≡ true
    → (a ≡ true) × (b ≡ false) × (c ≡ true) × (e ≡ true)
all_four true false true true h = (refl, refl, refl, refl)
all_four _ _ _ _ h = ground arith

suits_lem :
    (wanted : String) (d : Driver)
    → suits wanted d ≡ true
    → (wanted ≡ "") ⊎ (vehicle_text d.vehicle.vehicle_type ≡ wanted)
suits_lem wanted d h = elim (Bool-cases (str_eq wanted "")) [
  | inl e ↦ inl ((eq_iff wanted "").0 e)
  | inr e ↦ inr (
      (eq_iff (vehicle_text d.vehicle.vehicle_type) wanted).0
        (subst (λ b. (b || str_eq (vehicle_text d.vehicle.vehicle_type) wanted) ≡ true) e h))
]

pub eligible-IsFitting :
    (wanted : String) (d : Driver) → is_eligible wanted d ≡ true → IsFitting wanted d
eligible-IsFitting wanted d h =
    let (e₀, e₁, e₂, e₃) =
      all_four (same_status d.status available) d.is_blocked d.is_active (suits wanted d) h in
    record {
      is_available = available_lem d.status e₀;
      is_unblocked = e₁;
      in_service = e₂;
      vehicle_fits = suits_lem wanted d e₃;
    }

pub false_of_not : (b : Bool) → not b ≡ true → b ≡ false
false_of_not b h = ground arith

module _ {F : Type 0} (excluded : List String) where
  ids_step :
      (out : Bool) (g : Nearby F) (gs : List (Nearby F)) (id : String)
      → listed_id g.driver_id excluded ≡ out
      → (listed_id id (map id_of gs) ≡ true → listed_id id excluded ≡ false)
      → listed_id id (map id_of (if not out then g ∷ gs else gs)) ≡ true
      → listed_id id excluded ≡ false
  ids_step true g gs id e rest h = rest h
  ids_step false g gs id e rest h = elim (Bool-cases (str_eq g.driver_id id)) [
    | inl f ↦ rw (sym ((eq_iff g.driver_id id).0 f)) e
    | inr f ↦ rest (subst (λ b. (b || listed_id id (map id_of gs)) ≡ true) f h)
  ]

  -- None of the ids asked for is an excluded one.
  pub ids_allowed :
      (nearby : List (Nearby F)) (id : String)
      → listed_id id (candidate_ids nearby excluded) ≡ true
      → listed_id id excluded ≡ false
  unfolding find_all
  ids_allowed [] id h = ground arith
  ids_allowed (g ∷ gs) id h =
      ids_step (listed_id g.driver_id excluded) g _ id refl (ids_allowed gs id) h

pub each_own : {A : Type 0} (xs : List A) → All (λ x. IsIn x xs) xs
each_own [] = tt
each_own (x ∷ xs) = (inl refl, All-imp (λ y. IsIn y xs) _ xs (λ y h. inr h) (each_own xs))
