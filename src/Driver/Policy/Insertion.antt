-- ===== src/Driver/Policy/Insertion.antt =====
-- dispatch.go: a sort that does what `sort.Sort` documents, for runs of the ranking.
use mathlib.Core.List.{Permᴰ}
use mathlib.Core.List.Permᴰ
use realtime_delivery_micros.Prelude.{
  ◌≡◌, refl, Bool, true, false, List, [], ◌∷◌, All, if◌then◌else◌, Bool-cases, inl, inr,
}
use realtime_delivery_micros.Driver.Policy.Laws.{Ordered, IsStrictWeak, IsSort}

module _ {A : Type 0} (before : A → A → Bool) where
  insert : A → List A → List A
  insert c [] = c ∷ []
  insert c (d ∷ ds) = let rest = insert c ds in if before d c then d ∷ rest else c ∷ d ∷ ds

  pub insertion_sort : List A → List A
  insertion_sort [] = []
  insertion_sort (c ∷ cs) = insert c (insertion_sort cs)

  insert_step :
      (here : Bool) (c d : A) (ds rest : List A)
      → Permᴰ (c ∷ ds) rest
      → Permᴰ (c ∷ d ∷ ds) (if here then d ∷ rest else c ∷ d ∷ ds)
  insert_step true c d ds rest h = Permᴰ.trans (Permᴰ.swap refl refl) (Permᴰ.cons refl h)
  insert_step false c d ds rest h = Permᴰ.refl (c ∷ d ∷ ds)

  insert_permutes : (c : A) (ds : List A) → Permᴰ (c ∷ ds) (insert c ds)
  unfolding insert
  insert_permutes c [] = Permᴰ.refl (c ∷ [])
  insert_permutes c (d ∷ ds) = insert_step (before d c) c d ds (insert c ds) (insert_permutes c ds)

  pub sort_permutes : (cs : List A) → Permᴰ cs (insertion_sort cs)
  unfolding insertion_sort
  sort_permutes [] = Permᴰ.refl []
  sort_permutes (c ∷ cs) =
      Permᴰ.trans (Permᴰ.cons refl (sort_permutes cs)) (insert_permutes c (insertion_sort cs))

  bound_step :
      (here : Bool) (b c d : A) (ds rest : List A)
      → before c b ≡ false
      → All (λ e. before e b ≡ false) (d ∷ ds)
      → All (λ e. before e b ≡ false) rest
      → All (λ e. before e b ≡ false) (if here then d ∷ rest else c ∷ d ∷ ds)
  bound_step true b c d ds rest hc hds hrest = (hds.0, hrest)
  bound_step false b c d ds rest hc hds hrest = (hc, hds)

  insert_bound :
      (b c : A) (ds : List A)
      → before c b ≡ false
      → All (λ e. before e b ≡ false) ds
      → All (λ e. before e b ≡ false) (insert c ds)
  unfolding insert
  insert_bound b c [] hc h = (hc, tt)
  insert_bound b c (d ∷ ds) hc h =
      bound_step (before d c) b c d ds (insert c ds) hc h (insert_bound b c ds hc h.1)

  module _ (weak : IsStrictWeak before) where
    weaker :
        (c d : A) (ds : List A)
        → before d c ≡ false
        → All (λ e. before e d ≡ false) ds
        → All (λ e. before e c ≡ false) ds
    weaker c d [] h k = tt
    weaker c d (e ∷ ds) h k = (weak.negatively_transitive c d e h k.0, weaker c d ds h k.1)

    insert_orders : (c : A) (ds : List A) → Ordered before ds → Ordered before (insert c ds)
    unfolding insert
    insert_orders c [] h = (tt, tt)
    insert_orders c (d ∷ ds) h = elim (Bool-cases (before d c)) [
      | inl e ↦ rw e (insert_bound d c ds (weak.asymmetric d c e) h.0, insert_orders c ds h.1)
      | inr e ↦ rw e ((e, weaker c d ds e h.0), h)
    ]

    sort_orders : (cs : List A) → Ordered before (insertion_sort cs)
    unfolding insertion_sort
    sort_orders [] = tt
    sort_orders (c ∷ cs) = insert_orders c (insertion_sort cs) (sort_orders cs)

pub insertion_sort-IsSort :
    {A : Type 0} → IsSort (λ (before : A → A → Bool) xs. insertion_sort before xs)
insertion_sort-IsSort = record {
  permutes = λ before xs. sort_permutes before xs;
  orders = λ before weak xs. sort_orders before weak xs;
}
