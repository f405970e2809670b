-- ===== src/Driver/Collection/Ids.antt =====
-- services/driver-service/internal/adapters/mongodb: the ids of a collection's documents, under which
-- its calls find and replace them.
use text.Mathlib.Text.{◌==◌ as str_eq}
use text.Mathlib.TextEquality.{eq_iff}
use realtime_delivery_micros.Prelude.{
  ◌+◌, ◌≤◌, ◌≡◌, refl, sym, ap, inl, inr, String, Bool, true, false, some, List, [], ◌∷◌, arith,
  if◌then◌else◌, Bool-cases, Option-cases,
}
use realtime_delivery_micros.Driver.Collection.{find_one, has_id, replace_one, update_one}
use realtime_delivery_micros.Driver.Collection.Laws.{
  bit, count_if, count_if-find_none, count_if-find_some, find_one-passes, total-replace_found,
  total-replace_missed, total-update_lighter,
}

module _ {A : Type 0} (key : A → String) where
  -- No two documents share an id: the collection's index on `_id`.
  abbrev pub HasUniqueIds : List A → Type 0
  HasUniqueIds xs = (id : String) → count_if (has_id key id) xs ≤ 1

  pub same_id : (id : String) (a : A) → has_id key id a ≡ true → key a ≡ id
  same_id id a h = (eq_iff (key a) id).0 h

  replace_same_step :
      (here : Bool) (x a : A) (xs after : List A)
      → has_id key (key a) x ≡ here
      → find_one (has_id key (key a)) after ≡ some a
      → find_one (has_id key (key a)) (if here then a ∷ xs else x ∷ after) ≡ some a
  unfolding find_one
  replace_same_step true x a xs after e rest = rw ((eq_iff (key a) (key a)).1 refl) refl
  replace_same_step false x a xs after e rest = rw e rest

  pub find_one-replace_same :
      (a : A) (xs : List A) → find_one (has_id key (key a)) (replace_one key a xs) ≡ some a
  unfolding find_one replace_one
  find_one-replace_same a [] = rw ((eq_iff (key a) (key a)).1 refl) refl
  find_one-replace_same a (x ∷ xs) =
      replace_same_step (has_id key (key a) x) x a xs _ refl (find_one-replace_same a xs)

  replace_other_step :
      (here : Bool) (id : String) (x a : A) (xs after : List A)
      → has_id key (key a) x ≡ here
      → str_eq (key a) id ≡ false
      → find_one (has_id key id) after ≡ find_one (has_id key id) xs
      → find_one (has_id key id) (if here then a ∷ xs else x ∷ after)
        ≡ find_one (has_id key id) (x ∷ xs)
  unfolding find_one
  replace_other_step true id x a xs after e other rest =
      let apart : str_eq (key x) id ≡ false = ground (arith, same_id (key a) x e) in
      rw (other, apart) refl
  replace_other_step false id x a xs after e other rest = rw rest refl

  pub find_one-replace_other :
      (id : String) (a : A) (xs : List A)
      → str_eq (key a) id ≡ false
      → find_one (has_id key id) (replace_one key a xs) ≡ find_one (has_id key id) xs
  unfolding find_one replace_one
  find_one-replace_other id a [] h = rw h refl
  find_one-replace_other id a (x ∷ xs) h =
      replace_other_step (has_id key (key a) x) id x a xs _ refl h
        (find_one-replace_other id a xs h)

  -- A document found by a test is the one that its id finds.
  unique_step :
      (here : Bool) (test : A → Bool) (x a : A) (xs : List A)
      → count_if (has_id key (key a)) (x ∷ xs) ≤ 1
      → find_one (has_id key (key a)) xs ≡ some a
      → has_id key (key a) x ≡ here
      → (if here then some x else find_one (has_id key (key a)) xs) ≡ some a
  unique_step true test x a xs unique rest e =
      let here : bit (has_id key (key a) x) ≡ 1 = rw e refl in
      let other : 1 ≤ count_if (has_id key (key a)) xs =
        count_if-find_some (has_id key (key a)) xs rest in
      let never : ⊥ = omega (arith, unique, here, other) in elim never [ ]
  unique_step false test x a xs unique rest e = rest

  test_step :
      (here : Bool) (test : A → Bool) (x a : A) (xs : List A)
      → HasUniqueIds (x ∷ xs)
      → (find_one test xs ≡ some a → find_one (has_id key (key a)) xs ≡ some a)
      → (if here then some x else find_one test xs) ≡ some a
      → find_one (has_id key (key a)) (x ∷ xs) ≡ some a
  unfolding find_one
  test_step true test x a xs unique rest h =
      let same : x ≡ a = ground arith in rw (sym same) (rw ((eq_iff (key x) (key x)).1 refl) refl)
  test_step false test x a xs unique rest h =
      unique_step (has_id key (key a) x) test x a xs (unique (key a)) (rest h) refl

  unique_tail : (x : A) (xs : List A) → HasUniqueIds (x ∷ xs) → HasUniqueIds xs
  unique_tail x xs h id = omega (arith, h id)

  pub find_one-its_id :
      (test : A → Bool) (a : A) (xs : List A)
      → HasUniqueIds xs
      → find_one test xs ≡ some a
      → find_one (has_id key (key a)) xs ≡ some a
  unfolding find_one
  find_one-its_id test a [] unique h = ground arith
  find_one-its_id test a (x ∷ xs) unique h =
      test_step (test x) test x a xs unique (find_one-its_id test a xs (unique_tail x xs unique)) h

  -- A document has the weight of another with its id, if the weight is that of an id.
  id_weight :
      (id : String) (a b : A) → key a ≡ key b → bit (has_id key id a) ≡ bit (has_id key id b)
  id_weight id a b h = ap (λ k. bit (str_eq k id)) h

  pub replace-HasUniqueIds :
      (a : A) (xs : List A) → HasUniqueIds xs → HasUniqueIds (replace_one key a xs)
  replace-HasUniqueIds a xs unique id = elim (Option-cases (find_one (has_id key (key a)) xs)) [
    | inr (r, found) ↦
        let weigh : bit (has_id key id r) ≡ bit (has_id key id a) =
          id_weight id r a (same_id (key a) r (find_one-passes (has_id key (key a)) xs found)) in
        omega
          (arith, unique id, weigh, total-replace_found (λ b. bit (has_id key id b)) key a xs found)
    | inl missed ↦
        let added : count_if (has_id key id) (replace_one key a xs)
            ≡ count_if (has_id key id) xs + bit (has_id key id a) =
          total-replace_missed (λ b. bit (has_id key id b)) key a xs missed in
        elim (Bool-cases (has_id key id a)) [
          | inl e ↦
              let new : count_if (has_id key (key a)) xs ≡ 0 =
                count_if-find_none (has_id key (key a)) xs missed in
              let new' : count_if (has_id key id) xs ≡ 0 = rw (sym (same_id id a e)) new in
              let one : bit (has_id key id a) ≡ 1 = rw e refl in omega (arith, added, new', one)
          | inr e ↦
              let zero : bit (has_id key id a) ≡ 0 = rw e refl in
              omega (arith, unique id, added, zero)
        ]
  ]

  pub update-HasUniqueIds :
      (id : String) (change : A → A) (xs : List A)
      → ((x : A) → key (change x) ≡ key x)
      → HasUniqueIds xs
      → HasUniqueIds (update_one key id change xs)
  update-HasUniqueIds id change xs same unique other =
      let lighter : count_if (has_id key other) (update_one key id change xs)
          ≤ count_if (has_id key other) xs =
        total-update_lighter (λ x. bit (has_id key other x)) key id change xs
          (λ x. omega (arith, id_weight other (change x) x (same x))) in
      omega (arith, unique other, lighter)
