-- ===== src/Snowflake/Clock.antt =====
-- packages/go/snowflake/id.go: what `NextID` needs of the clock, and two ways to issue an identifier
-- twice: a clock that goes back, and a sequence width below twelve bits.
use Prim.Native.Nat.{bit_or}
use native.Mathlib.Nat.{one-le-pow, pow-le-pow_right}
use mathlib.Core.Option
use realtime_delivery_micros.Prelude.{
  ℕ, zero, suc, ap, ◌∙◌, ◌+◌, ◌*◌, ◌^◌, ◌%◌, ◌≤◌, ◌<◌, ◌≡◌, ◌≢◌, refl, none, some, List, [], ◌∷◌,
  ◌++◌, arith, leb, inl, inr, Bool-cases,
}
use realtime_delivery_micros.Prelude.Int.{ℤ, pos}
use realtime_delivery_micros.Prelude.Bits.{bit_or_add, bit_or-zero}
use realtime_delivery_micros.Prelude.Result.{ok}
use realtime_delivery_micros.Snowflake.{
  Snowflake, Config, new_snowflake, spin, issue, reread, next_id, follow, generate,
}

-- Whatever came before, a later reading with one more behind it lets the spin end.
spin-ends :
    (sf : Snowflake) (now : ℕ) (stuck : List ℕ) (t t' : ℕ) (rest : List ℕ)
    → now < t
    → reread sf (spin now (stuck ++ t ∷ t' ∷ rest)) ≢ none
unfolding spin
spin-ends sf now [] t t' rest lt = ground arith
spin-ends sf now (s ∷ []) t t' rest lt = ground arith
spin-ends sf now (s ∷ s' ∷ stuck) t t' rest lt = elim (Bool-cases (leb s now)) [
  | inl wait ↦ rw wait (spin-ends sf now (s' ∷ stuck) t t' rest lt)
  | inr past ↦ rw past (λ e. cc)
]

-- `NextID` returns in every state of the generator, if the clock ever passes its first reading and
-- can be read once more.
pub next_id_total :
    (sf : Snowflake) (now : ℕ) (stuck : List ℕ) (t t' : ℕ) (rest : List ℕ)
    → now < t
    → next_id sf (now ∷ (stuck ++ t ∷ t' ∷ rest)) ≢ none
unfolding next_id
next_id_total sf now stuck t t' rest lt = ground (arith, spin-ends sf now stuck t t' rest lt)

-- If the clock goes from `t`, a time other than the generator's last, to `t + 1` and back to `t`, the
-- third identifier is the first again.
pub generate_clock_back :
    (sf : Snowflake) (t : ℕ)
    → t ≢ sf.timestamp
    → (a b : ℕ) × (generate 3 sf (t ∷ (t + 1) ∷ t ∷ []) ≡ some (a ∷ b ∷ a ∷ []))
unfolding generate next_id issue
generate_clock_back sf t ne = ((issue sf t 0 []).0, (issue sf (t + 1) 0 []).0, ground arith)

-- A generator of worker `w`, datacenter 0, with `bits` bits for the sequence.
abbrev pub narrow_config : ℕ → ℕ → ℤ → Config
narrow_config w bits epoch = record {
  worker_id = pos w;
  datacenter_id = pos 0;
  epoch = epoch;
  sequence_bits = bits;
}

made_narrow :
    (w bits : ℕ) (epoch : ℤ) (now : ℕ) {sf : Snowflake}
    → w < 32
    → 0 < bits
    → new_snowflake (narrow_config w bits epoch) now ≡ ok sf
    → (sf.worker_id ≡ w * 2 ^ bits) × (sf.timestamp ≡ now)
unfolding new_snowflake
made_narrow w bits epoch now fits positive made =
    let alone : 0 * 2 ^ (bits + 5) ≡ 0 = omega arith in
    ground (arith, alone, one-le-pow bits 2, bit_or_add bits w 0)

-- The clock stands still at `t` for `n` readings.
abbrev pub still : ℕ → ℕ → List ℕ
still t zero = []
still t (suc n) = t ∷ still t n

next_id_again :
    (sf : Snowflake) (t : ℕ) (rest : List ℕ)
    → t ≡ sf.timestamp
    → sf.sequence + 1 ≤ 4095
    → next_id sf (t ∷ rest) ≡ some (issue sf t (sf.sequence + 1) rest)
unfolding next_id
next_id_again sf t rest same room = ground arith

next_id_anew :
    (sf : Snowflake) (t : ℕ) (rest : List ℕ)
    → t ≢ sf.timestamp
    → next_id sf (t ∷ rest) ≡ some (issue sf t 0 rest)
unfolding next_id
next_id_anew sf t rest moved = ground arith

-- In the millisecond of its last identifier, a generator counts on to the last of `n + 1` calls.
counts_on :
    (n last : ℕ) (sf : Snowflake) (t : ℕ)
    → t ≡ sf.timestamp
    → sf.sequence + suc n ≡ last
    → last ≤ 4095
    → (ids : List ℕ) × (generate (suc n) sf (still t (suc n))
        ≡ some (ids ++ (issue sf t last []).0 ∷ []))
unfolding generate next_id issue
counts_on zero last sf t same counted room = ([], ground arith)
counts_on (suc n) last sf t same counted room =
    let next : Snowflake = record sf { timestamp = t; sequence = sf.sequence + 1 } in
    let (ids, e) = counts_on n last next t refl (omega arith) room in
    (
      (issue sf t (sf.sequence + 1) []).0 ∷ ids,
      ap (follow (generate (suc n))) (next_id_again sf t (still t (suc n)) same (omega arith))
          ∙ ap (Option.map (λ more. (issue sf t (sf.sequence + 1) []).0 ∷ more)) e,
    )

-- From a new time `t` on, the last of `m + 1` calls has the sequence number `m`.
counts_to :
    (m : ℕ) (sf : Snowflake) (t : ℕ)
    → t ≢ sf.timestamp
    → 0 < m
    → m ≤ 4095
    → (ids : List ℕ) × (generate (suc m) sf (still t (suc m))
        ≡ some (ids ++ (issue sf t m []).0 ∷ []))
unfolding generate issue
counts_to zero sf t moved positive room = absurd (omega arith)
counts_to (suc n) sf t moved positive room =
    let next : Snowflake = record sf { timestamp = t; sequence = 0 } in
    let (ids, e) = counts_on n (suc n) next t refl (omega arith) room in
    (
      (issue sf t 0 []).0 ∷ ids,
      ap (follow (generate (suc n))) (next_id_anew sf t (still t (suc n)) moved)
          ∙ ap (Option.map (λ more. (issue sf t 0 []).0 ∷ more)) e,
    )

-- Workers 0 and 1 of datacenter 0, made at the same time with the same 1 to 11 sequence bits: when the
-- clock stands at another time below 2 ^ 41 ms, worker 0 issues at its call number `2 ^ bits + 1` the
-- identifier that worker 1 issues at its first.
pub narrow_width_collides :
    (bits : ℕ) (epoch : ℤ) (start t : ℕ) {zeroth first : Snowflake}
    → 0 < bits
    → bits < 12
    → new_snowflake (narrow_config 0 bits epoch) start ≡ ok zeroth
    → new_snowflake (narrow_config 1 bits epoch) start ≡ ok first
    → t ≢ start
    → t < 2 ^ 41
    → (ids : List ℕ) × (id : ℕ) × (generate (suc (2 ^ bits)) zeroth (still t (suc (2 ^ bits)))
        ≡ some (ids ++ id ∷ []))
      × (generate 1 first (t ∷ []) ≡ some (id ∷ []))
unfolding issue generate
narrow_width_collides bits epoch start t {zeroth} {first} positive narrow made₀ made₁ moved early =
    let wide : t * 2 ^ 22 % 2 ^ 64 ≡ t * 2 ^ 22 = omega arith in
    let low : 2 ^ bits ≤ 2 ^ 11 =
      pow-le-pow_right {n = 2} (omega arith) {i = bits} {j = 11} (omega arith) in
    let (none_below, since₀) = made_narrow 0 bits epoch start (omega arith) positive made₀ in
    let (bit_above, since₁) = made_narrow 1 bits epoch start (omega arith) positive made₁ in
    let below : zeroth.worker_id ≡ 0 = omega (arith, none_below) in
    let above : first.worker_id ≡ 2 ^ bits = omega (arith, bit_above) in
    let same : (issue zeroth t (2 ^ bits) []).0 ≡ (issue first t 0 []).0 =
      rw (wide, below, above)
        (rw (bit_or-zero (t * 2 ^ 22), bit_or-zero (bit_or (t * 2 ^ 22) (2 ^ bits))) refl) in
    let (ids, counted) =
      counts_to (2 ^ bits) zeroth t (rw since₀ moved) (omega (arith, one-le-pow bits 2))
        (omega arith) in
    (
      ids,
      (issue first t 0 []).0,
      counted ∙ ap (λ id. some (ids ++ id ∷ [])) same,
      ap (follow (generate 0)) (next_id_anew first t [] (rw since₁ moved)),
    )
