-- ===== src/Driver/Policy/Laws.antt =====
-- services/driver-service/internal/domain/dispatch.go: which candidates the ranking keeps.
use mathlib.Core.Path.{subst}
use mathlib.Core.List.{Permᴰ}
use realtime_delivery_micros.Prelude.{
  ℕ, zero, suc, ◌≤◌, ◌≡◌, refl, sym, ap, ◌++◌, Bool, true, false, ◌⊎◌, inl, inr, List, [], ◌∷◌, map,
  take, length, All-take, arith, length-take-le, All,
}
use realtime_delivery_micros.Driver.Policy.{
  Candidate, DispatchPolicy, Sort, less, with_score, rank_candidates,
}

-- What holds of every element holds in any order.
pub All-Permᴰ : {A : Type 0} (P : A → Type 0) {xs ys : List A} → Permᴰ xs ys → All P xs → All P ys
All-Permᴰ P Permᴰ.nil h = tt
All-Permᴰ P (Permᴰ.cons e d) h = (subst P e h.0, All-Permᴰ P d h.1)
All-Permᴰ P (Permᴰ.swap e f) h = (subst P f h.1.0, (subst P e h.0, h.1.1))
All-Permᴰ P (Permᴰ.trans d e) h = All-Permᴰ P e (All-Permᴰ P d h)

-- No element stands behind one that it ought to be before.
abbrev pub Ordered : {A : Type 0} → (A → A → Bool) → List A → Type 0
Ordered before [] = Unit
Ordered before (x ∷ xs) = All (λ y. before y x ≡ false) xs × Ordered before xs

abbrev pub drop : {A : Type 0} → ℕ → List A → List A
drop zero xs = xs
drop (suc n) [] = []
drop (suc n) (x ∷ xs) = drop n xs

All-drop : {A : Type 0} (P : A → Type 0) (n : ℕ) (xs : List A) → All P xs → All P (drop n xs)
All-drop P zero xs h = h
All-drop P (suc n) [] h = h
All-drop P (suc n) (x ∷ xs) h = All-drop P n xs h.1

take-drop : {A : Type 0} (n : ℕ) (xs : List A) → take n xs ++ drop n xs ≡ xs
take-drop zero xs = refl
take-drop (suc n) [] = refl
take-drop (suc n) (x ∷ xs) = ap (λ ys. x ∷ ys) (take-drop n xs)

kept_first :
    {A : Type 0} (before : A → A → Bool) (n : ℕ) (xs : List A)
    → Ordered before xs
    → All (λ x. All (λ y. before y x ≡ false) (drop n xs)) (take n xs)
kept_first before zero xs h = tt
kept_first before (suc n) [] h = tt
kept_first before (suc n) (x ∷ xs) h =
    (All-drop (λ y. before y x ≡ false) n xs h.0, kept_first before n xs h.1)

Ordered-take :
    {A : Type 0} (before : A → A → Bool) (n : ℕ) (xs : List A)
    → Ordered before xs
    → Ordered before (take n xs)
Ordered-take before zero xs h = tt
Ordered-take before (suc n) [] h = tt
Ordered-take before (suc n) (x ∷ xs) h =
    (All-take (λ y. before y x ≡ false) n xs h.0, Ordered-take before n xs h.1)

all_or_full : {A : Type 0} (n : ℕ) (xs : List A) → (drop n xs ≡ []) ⊎ (length (take n xs) ≡ n)
all_or_full zero xs = inr refl
all_or_full (suc n) [] = inl refl
all_or_full (suc n) (x ∷ xs) = elim (all_or_full n xs) [
  | inl e ↦ inl e
  | inr e ↦ inr (omega (arith, e))
]

-- A strict weak order, as `sort.Interface` asks `Less` to be.
pub record IsStrictWeak {A : Type 0} (before : A → A → Bool) : Type 0 where
  pub asymmetric : (x y : A) → before x y ≡ true → before y x ≡ false
  pub negatively_transitive :
      (x y z : A) → before y x ≡ false → before z y ≡ false → before z x ≡ false

-- What `sort.Sort` documents: it permutes the list, and orders it if `Less` is a strict weak order.
pub record IsSort {A : Type 0} (sort : Sort A) : Type 0 where
  pub permutes : (before : A → A → Bool) (xs : List A) → Permᴰ xs (sort before xs)
  pub orders :
      (before : A → A → Bool)
      → IsStrictWeak before
      → (xs : List A) → Ordered before (sort before xs)

module _ {F : Type 0} (is_zero : F → Bool) where
  -- The second is the first with its distance for a score, where it has none, and the same otherwise.
  abbrev pub IsScored : Candidate F → Candidate F → Type 0
  IsScored c d =
      (d ≡ record c { ranking_score = d.ranking_score })
      × (is_zero c.ranking_score ≡ true → d.ranking_score ≡ c.distance_meters)
      × (is_zero c.ranking_score ≡ false → d.ranking_score ≡ c.ranking_score)

  abbrev pub Scored : List (Candidate F) → List (Candidate F) → Type 0
  Scored [] [] = Unit
  Scored [] (d ∷ ds) = ⊥
  Scored (c ∷ cs) [] = ⊥
  Scored (c ∷ cs) (d ∷ ds) = IsScored c d × Scored cs ds

  with_score-IsScored : (c : Candidate F) → IsScored c (with_score is_zero c)
  with_score-IsScored c = (refl, λ e. rw e refl, λ e. rw e refl)

  scores : (cs : List (Candidate F)) → Scored cs (map (with_score is_zero) cs)
  scores [] = tt
  scores (c ∷ cs) = (with_score-IsScored c, scores cs)

by_score : {F : Type 0} {lt : F → F → Bool} → IsStrictWeak lt → IsStrictWeak (less lt)
by_score h = record {
  asymmetric = λ c d. h.asymmetric c.ranking_score d.ranking_score;
  negatively_transitive =
      λ c d e. h.negatively_transitive c.ranking_score d.ranking_score e.ranking_score;
}

-- With a sort that does what `sort.Sort` documents, and a `<` on the scores that is a strict weak order
-- (no score is a NaN): the candidates, scored by their distance where their own score is zero, are those
-- that the ranking gives and those left over. It gives them in the order of their scores, as many as
-- the policy's count or all there are, and none left over has a smaller score than one given.
pub rank_candidates_best :
    {F : Type 0} (is_zero : F → Bool) (lt : F → F → Bool) (sort : Sort (Candidate F))
    (p : DispatchPolicy) (candidates : List (Candidate F))
    → IsSort sort
    → IsStrictWeak lt
    → let ranked = rank_candidates is_zero lt sort p candidates in
      (scored left : List (Candidate F)) × Scored is_zero candidates scored
      × Permᴰ scored (ranked ++ left)
      × (length ranked ≤ p.candidate_count)
      × ((left ≡ []) ⊎ (length ranked ≡ p.candidate_count))
      × Ordered (λ c d. lt c.ranking_score d.ranking_score) ranked
      × All (λ c. All (λ d. lt d.ranking_score c.ranking_score ≡ false) left) ranked
unfolding rank_candidates
rank_candidates_best is_zero lt sort p candidates sorts weak =
    let n = p.candidate_count in
    let scored = map (with_score is_zero) candidates in
    let sorted = sort (less lt) scored in
    let ordered : Ordered (less lt) sorted = sorts.orders (less lt) (by_score weak) scored in
    (
      scored,
      drop n sorted,
      scores is_zero candidates,
      subst (λ ys. Permᴰ scored ys) (sym (take-drop n sorted)) (sorts.permutes (less lt) scored),
      length-take-le n sorted,
      all_or_full n sorted,
      Ordered-take (less lt) n sorted ordered,
      kept_first (less lt) n sorted ordered,
    )
