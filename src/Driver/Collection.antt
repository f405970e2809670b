-- ===== src/Driver/Collection.antt =====
-- services/driver-service/internal/adapters/mongodb: a collection of documents, as a list in the order
-- in which a scan meets them, and the calls of the driver on it.
pub mod Laws
pub mod Ids
use text.Mathlib.Text.{◌==◌ as str_eq}
use realtime_delivery_micros.Prelude.{
  String, Bool, Option, none, some, List, [], ◌∷◌, if◌then◌else◌,
}

-- `FindOne`: the first document that matches.
unfoldable pub find_one {ℓ} : {A : Type ℓ} → (A → Bool) → List A → Option A
find_one matches [] = none
find_one matches (x ∷ xs) = let rest = find_one matches xs in if matches x then some x else rest

-- `Find` with the cursor read to its end.
unfoldable pub find_all {ℓ} : {A : Type ℓ} → (A → Bool) → List A → List A
find_all matches [] = []
find_all matches (x ∷ xs) = let rest = find_all matches xs in if matches x then x ∷ rest else rest

module _ {ℓ} {A : Type ℓ} (key : A → String) where
  -- `bson.M{"_id": id}`
  abbrev pub has_id : String → A → Bool
  has_id id x = str_eq (key x) id

  -- `ReplaceOne` by `_id`, with upsert.
  pub replace_one : A → List A → List A
  replace_one a [] = a ∷ []
  replace_one a (x ∷ xs) =
      let rest = replace_one a xs in if has_id (key a) x then a ∷ xs else x ∷ rest

  -- `UpdateOne` by `_id`: no document with the id is no error.
  unfoldable pub update_one : String → (A → A) → List A → List A
  update_one id change [] = []
  update_one id change (x ∷ xs) =
      let rest = update_one id change xs in if has_id id x then change x ∷ xs else x ∷ rest
