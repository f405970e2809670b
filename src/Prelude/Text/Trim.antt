-- ===== src/Prelude/Text/Trim.antt =====
-- Laws of the text functions: white space at the ends, and letter case.
use mathlib.Core.List.{List, [], ◌∷◌, ◌++◌, map, reverse, reverse-append, map-append}
use realtime_delivery_micros.Prelude.{
  ℕ, ◌-◌, ◌≤◌, ◌<◌, ◌≡◌, refl, true, false, All, All-append, arith, inl, inr, Bool-cases,
}
use realtime_delivery_micros.Prelude.Text.{is_space, trim_left, trim_space, to_upper}

abbrev pub AllSpace : List ℕ → Type 0
AllSpace = All (λ c. is_space c ≡ true)

AllSpace-reverse : (xs : List ℕ) → AllSpace xs → AllSpace (reverse xs)
AllSpace-reverse [] h = tt
AllSpace-reverse (x ∷ xs) h =
    rw (reverse-append (x ∷ []) xs) (
      All-append (λ c. is_space c ≡ true) (reverse xs) (x ∷ []) (AllSpace-reverse xs h.1) (h.0, tt))

trim_left-append : (xs s : List ℕ) → AllSpace xs → trim_left (xs ++ s) ≡ trim_left s
unfolding trim_left
trim_left-append [] s h = refl
trim_left-append (x ∷ xs) s h = rw h.0 (trim_left-append xs s h.1)

trim_left_all : (xs : List ℕ) → AllSpace xs → trim_left xs ≡ []
unfolding trim_left
trim_left_all [] h = refl
trim_left_all (x ∷ xs) h = rw h.0 (trim_left_all xs h.1)

trim_ends :
    (s ys : List ℕ)
    → AllSpace ys
    → trim_left (reverse (trim_left (s ++ ys))) ≡ trim_left (reverse (trim_left s))
unfolding trim_left
trim_ends [] ys h = rw (trim_left_all ys h) refl
trim_ends (c ∷ s) ys h = elim (Bool-cases (is_space c)) [
  | inl space ↦ rw space (trim_ends s ys h)
  | inr other ↦
      rw (other, reverse-append (c ∷ s) ys)
        (trim_left-append (reverse ys) (reverse (c ∷ s)) (AllSpace-reverse ys h))
]

-- White space around a text does not change what is left of it.
pub trim_space-append :
    (xs s ys : List ℕ) → AllSpace xs → AllSpace ys → trim_space (xs ++ (s ++ ys)) ≡ trim_space s
unfolding trim_space
trim_space-append xs s ys hx hy = rw (trim_left-append xs (s ++ ys) hx, trim_ends s ys hy) refl

pub to_upper_idem : (c : ℕ) → to_upper (to_upper c) ≡ to_upper c
unfolding to_upper
to_upper_idem c = ground arith

-- Between the blank and U+0085 no code point is white space.
is_space_between : (c : ℕ) → 33 ≤ c → c < 0x85 → is_space c ≡ false
unfolding is_space
is_space_between c above below = ground arith

two_letters : (is_space 0x131 ≡ false) × (is_space 0x17f ≡ false)
unfolding is_space
two_letters = (refl, refl)

is_space-to_upper : (c : ℕ) → is_space (to_upper c) ≡ is_space c
unfolding to_upper
is_space-to_upper c = ground (
  arith,
  is_space_between c,
  is_space_between (c - 32),
  is_space_between b'I',
  is_space_between b'S',
  two_letters,
)

trim_left-map : (s : List ℕ) → trim_left (map to_upper s) ≡ map to_upper (trim_left s)
unfolding trim_left
trim_left-map [] = refl
trim_left-map (c ∷ s) = rw is_space-to_upper (elim (Bool-cases (is_space c)) [
  | inl space ↦ rw space (trim_left-map s)
  | inr other ↦ rw other refl
])

map-reverse : (f : ℕ → ℕ) (s : List ℕ) → map f (reverse s) ≡ reverse (map f s)
map-reverse f [] = refl
map-reverse f (c ∷ s) =
    rw (reverse-append (c ∷ []) s, map-append, map-reverse f s, reverse-append (f c ∷ []) (map f s))
      refl

pub trim_space-map : (s : List ℕ) → trim_space (map to_upper s) ≡ map to_upper (trim_space s)
unfolding trim_space
trim_space-map s = simp (trim_left-map, ← map-reverse)

pub map-to_upper_idem : (s : List ℕ) → map to_upper (map to_upper s) ≡ map to_upper s
map-to_upper_idem [] = refl
map-to_upper_idem (c ∷ s) = cc (to_upper_idem c, map-to_upper_idem s)
