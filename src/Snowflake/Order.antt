-- ===== src/Snowflake/Order.antt =====
-- packages/go/snowflake/id.go: `NextID` under a clock that does not go back.
use mathlib.Core.Option
use realtime_delivery_micros.Prelude.{
  ℕ, zero, suc, ◌+◌, ◌*◌, ◌^◌, ◌≤◌, ◌<◌, ◌≡◌, refl, Option, none, some, List, [], ◌∷◌, arith, ltb,
  leb, ◌==◌, inl, inr, Bool-cases,
}
use realtime_delivery_micros.Snowflake.{
  Snowflake, spin, issue, reread, next_id, follow, generate, parse,
}
use realtime_delivery_micros.Snowflake.Layout.{IsReady, issue-sum, parse-issue}

-- The readings never decrease from `since` on, and stay below 2 ^ 41 ms (the year 2039).
abbrev pub Forward : ℕ → List ℕ → Type 0
Forward since [] = Unit
Forward since (t ∷ clock) = (since ≤ t) × (t < 2 ^ 41) × Forward t clock

-- The identifiers above the one that a generator's present fields stand for.
abbrev pub stamp : Snowflake → ℕ
stamp sf = sf.timestamp * 2 ^ 22 + sf.worker_id + sf.sequence

abbrev pub Ascending : ℕ → List ℕ → Type 0
Ascending above [] = Unit
Ascending above (id ∷ ids) = (above < id) × Ascending id ids

-- What a call has done, by its result.
pub record Advances (w d : ℕ) (sf : Snowflake) (id : ℕ) (sf' : Snowflake) (rest : List ℕ)
    : Type 0 where
  pub ready : IsReady w d sf'
  pub forward : Forward sf'.timestamp rest
  pub grows : stamp sf < stamp sf'
  pub issued : id ≡ stamp sf'
  pub parsed : parse id ≡ record {
    timestamp = sf'.timestamp;
    datacenter_id = d;
    worker_id = w;
    sequence = sf'.sequence;
  }

abbrev pub Returns : ℕ → ℕ → Snowflake → Option (ℕ × Snowflake × List ℕ) → Type 0
Returns w d sf none = Unit
Returns w d sf (some (id, sf', rest)) = Advances w d sf id sf' rest

spin-Forward :
    (now since : ℕ) (clock rest : List ℕ)
    → Forward since clock
    → spin now clock ≡ some rest
    → (t : ℕ) × (now < t) × (t < 2 ^ 41) × Forward t rest
unfolding spin
spin-Forward now since [] rest f e = cc
spin-Forward now since (t ∷ clock) rest f e = elim (Bool-cases (leb t now)) [
  | inl wait ↦ spin-Forward now t clock rest f.2 (rw wait at e)
  | inr past ↦ let same : clock ≡ rest = ground arith in (t, ground arith, f.1, rw (← same) f.2)
]

module _ {w d : ℕ} (sf : Snowflake) (ready : IsReady w d sf) where
  issue-Advances :
      (now seq : ℕ) (rest : List ℕ)
      → now < 2 ^ 41
      → seq < 2 ^ 12
      → sf.timestamp * 2 ^ 12 + sf.sequence < now * 2 ^ 12 + seq
      → Forward now rest
      → let (id, sf', rest') = issue sf now seq rest in Advances w d sf id sf' rest'
  unfolding issue
  issue-Advances now seq rest early small later f = record {
    ready = ground arith;
    forward = f;
    grows = omega arith;
    issued = issue-sum sf now seq rest ready early small;
    parsed = parse-issue sf now seq rest ready early small;
  }

  after_spin :
      (now : ℕ) (clock : List ℕ) (later : Option (List ℕ))
      → sf.timestamp ≤ now
      → Forward now clock
      → spin now clock ≡ later
      → Returns w d sf (reread sf later)
  after_spin now clock none le f e = tt
  after_spin now clock (some []) le f e = tt
  after_spin now clock (some (t ∷ rest)) le f e =
      let (m, past, _, g) = spin-Forward now now clock (t ∷ rest) f e in
      issue-Advances t 0 rest g.1 (omega arith) (omega arith) g.2

  -- Under a clock that does not go back, a call that returns keeps the generator ready; its
  -- identifier is above the last one and parses to the fields that the generator then holds.
  pub next_id-Returns :
      (clock : List ℕ) → Forward sf.timestamp clock → Returns w d sf (next_id sf clock)
  unfolding next_id
  next_id-Returns [] f = tt
  next_id-Returns (now ∷ clock) f = elim (Bool-cases (now == sf.timestamp)) [
    | inr moved ↦ rw moved (issue-Advances now 0 clock f.1 (omega arith) (ground arith) f.2)
    | inl same ↦ rw same (elim (Bool-cases (ltb 4095 (sf.sequence + 1))) [
      | inl full ↦ rw full (after_spin now clock (spin now clock) f.0 f.2 refl)
      | inr room ↦
          rw room (issue-Advances now (sf.sequence + 1) clock f.1 (ground arith) (ground arith) f.2)
    ])
  ]

abbrev pub Ascends : ℕ → Option (List ℕ) → Type 0
Ascends above none = Unit
Ascends above (some ids) = Ascending above ids

Ascends-cons :
    (above id : ℕ) (later : Option (List ℕ))
    → above < id
    → Ascends id later
    → Ascends above (Option.map (λ ids. id ∷ ids) later)
Ascends-cons above id none lt h = tt
Ascends-cons above id (some ids) lt h = (lt, h)

module _ {w d : ℕ} where
  follow-Ascends :
      (later : Snowflake → List ℕ → Option (List ℕ)) (sf : Snowflake)
      → ((t : Snowflake) (rest : List ℕ)
          → IsReady w d t
          → Forward t.timestamp rest
          → Ascends (stamp t) (later t rest))
      → (call : Option (ℕ × Snowflake × List ℕ)) → Returns w d sf call
      → Ascends (stamp sf) (follow later call)
  follow-Ascends later sf ascends none h = tt
  follow-Ascends later sf ascends (some (id, t, rest)) h =
      Ascends-cons (stamp sf) id (later t rest) (omega arith)
        (rw h.issued (ascends t rest h.ready h.forward))

  -- On a generator with twelve sequence bits, a sequence below 2 ^ 12 and machine numbers below 32,
  -- and under a clock that stays below 2 ^ 41 ms and goes back neither behind the generator's time nor
  -- later, a run of calls that returns issues ever greater identifiers, all above the generator's
  -- stamp, so none is issued twice.
  pub generate-Ascends :
      (n : ℕ) (sf : Snowflake) (clock : List ℕ)
      → IsReady w d sf
      → Forward sf.timestamp clock
      → Ascends (stamp sf) (generate n sf clock)
  unfolding generate
  generate-Ascends zero sf clock ready f = tt
  generate-Ascends (suc n) sf clock ready f =
      follow-Ascends (generate n) sf (generate-Ascends n) (next_id sf clock)
        (next_id-Returns sf ready clock f)
