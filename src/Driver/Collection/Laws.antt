-- ===== src/Driver/Collection/Laws.antt =====
-- services/driver-service/internal/adapters/mongodb: a collection's calls by what they do to the total
-- weight of its documents, for any way of weighing them, and to what a reader finds.
use realtime_delivery_micros.Prelude.{
  ℕ, ◌+◌, ◌≤◌, ◌≡◌, refl, String, Bool, true, false, Option, none, some, List, [], ◌∷◌, arith,
  if◌then◌else◌,
}
use realtime_delivery_micros.Driver.Collection.{find_one, has_id, replace_one, update_one}

module _ {A : Type 0} (weight : A → ℕ) where
  abbrev pub total : List A → ℕ
  total [] = 0
  total (x ∷ xs) = weight x + total xs

  -- One document of the walk, whose outcome is `here`.
  found_step :
      (here : Bool) (x a r : A) (xs after : List A) (found : Option A)
      → (found ≡ some r → total after + weight r ≡ total xs + weight a)
      → (if here then some x else found) ≡ some r
      → total (if here then a ∷ xs else x ∷ after) + weight r ≡ weight x + total xs + weight a
  found_step true x a r xs after found rest h = ground arith
  found_step false x a r xs after found rest h = ground arith

  missed_step :
      (here : Bool) (x a : A) (xs after : List A) (found : Option A)
      → (found ≡ none → total after ≡ total xs + weight a)
      → (if here then some x else found) ≡ none
      → total (if here then a ∷ xs else x ∷ after) ≡ weight x + total xs + weight a
  missed_step true x a xs after found rest h = ground arith
  missed_step false x a xs after found rest h = ground arith

  update_step :
      (here : Bool) (change : A → A) (x r : A) (xs after : List A) (found : Option A)
      → (found ≡ some r → total after + weight r ≡ total xs + weight (change r))
      → (if here then some x else found) ≡ some r
      → total (if here then change x ∷ xs else x ∷ after) + weight r
        ≡ weight x + total xs + weight (change r)
  update_step true change x r xs after found rest h = ground arith
  update_step false change x r xs after found rest h = ground arith

  module _ (key : A → String) where
    -- A document takes the place of the one that a reader found under its id.
    pub total-replace_found :
        (a : A) (xs : List A) {r : A}
        → find_one (has_id key (key a)) xs ≡ some r
        → total (replace_one key a xs) + weight r ≡ total xs + weight a
    unfolding find_one replace_one
    total-replace_found a [] h = ground arith
    total-replace_found a (x ∷ xs) h =
        found_step (has_id key (key a) x) x a _ xs _ _ (total-replace_found a xs) h

    pub total-replace_missed :
        (a : A) (xs : List A)
        → find_one (has_id key (key a)) xs ≡ none
        → total (replace_one key a xs) ≡ total xs + weight a
    unfolding find_one replace_one
    total-replace_missed a [] h = ground arith
    total-replace_missed a (x ∷ xs) h =
        missed_step (has_id key (key a) x) x a xs _ _ (total-replace_missed a xs) h

    pub total-update_found :
        (id : String) (change : A → A) (xs : List A) {r : A}
        → find_one (has_id key id) xs ≡ some r
        → total (update_one key id change xs) + weight r ≡ total xs + weight (change r)
    unfolding find_one update_one
    total-update_found id change [] h = ground arith
    total-update_found id change (x ∷ xs) h =
        update_step (has_id key id x) change x _ xs _ _ (total-update_found id change xs) h

  lighter_step :
      (here : Bool) (change : A → A) (x : A) (xs after : List A)
      → weight (change x) ≤ weight x
      → total after ≤ total xs
      → total (if here then change x ∷ xs else x ∷ after) ≤ weight x + total xs
  lighter_step true change x xs after h rest = omega (arith, h)
  lighter_step false change x xs after h rest = omega (arith, rest)

  -- A change that makes no document heavier makes no collection heavier, found or not.
  pub total-update_lighter :
      (key : A → String) (id : String) (change : A → A) (xs : List A)
      → ((x : A) → weight (change x) ≤ weight x)
      → total (update_one key id change xs) ≤ total xs
  unfolding update_one
  total-update_lighter key id change [] h = omega arith
  total-update_lighter key id change (x ∷ xs) h =
      lighter_step (has_id key id x) change x xs _ (h x) (total-update_lighter key id change xs h)

-- Counting by a test.
abbrev pub bit : Bool → ℕ
bit true = 1
bit false = 0

abbrev pub count_if : {A : Type 0} → (A → Bool) → List A → ℕ
count_if test xs = total (λ a. bit (test a)) xs

module _ {A : Type 0} (test : A → Bool) where
  none_step :
      (here : Bool) (x : A) (n : ℕ) (found : Option A)
      → (found ≡ none → n ≡ 0)
      → (if here then some x else found) ≡ none
      → bit here + n ≡ 0
  none_step true x n found rest h = ground arith
  none_step false x n found rest h = ground arith

  pub count_if-find_none : (xs : List A) → find_one test xs ≡ none → count_if test xs ≡ 0
  unfolding find_one
  count_if-find_none [] h = refl
  count_if-find_none (x ∷ xs) h = none_step (test x) x _ _ (count_if-find_none xs) h

  passes_step :
      (here : Bool) (x r : A) (found : Option A)
      → test x ≡ here
      → (found ≡ some r → test r ≡ true)
      → (if here then some x else found) ≡ some r
      → test r ≡ true
  passes_step true x r found e rest h = ground arith
  passes_step false x r found e rest h = ground arith

  -- What a reader finds passes the test.
  pub find_one-passes : (xs : List A) {r : A} → find_one test xs ≡ some r → test r ≡ true
  unfolding find_one
  find_one-passes [] h = ground arith
  find_one-passes (x ∷ xs) h = passes_step (test x) x _ _ refl (find_one-passes xs) h

  some_step :
      (here : Bool) (x r : A) (n : ℕ) (found : Option A)
      → (found ≡ some r → 1 ≤ n)
      → (if here then some x else found) ≡ some r
      → 1 ≤ bit here + n
  some_step true x r n found rest h = ground arith
  some_step false x r n found rest h = ground arith

  pub count_if-find_some : (xs : List A) {r : A} → find_one test xs ≡ some r → 1 ≤ count_if test xs
  unfolding find_one
  count_if-find_some [] h = ground arith
  count_if-find_some (x ∷ xs) h = some_step (test x) x _ _ _ (count_if-find_some xs) h
