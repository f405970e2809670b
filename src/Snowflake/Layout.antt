-- ===== src/Snowflake/Layout.antt =====
-- packages/go/snowflake/id.go: the bit fields of an identifier, as `NextID` composes them and
-- `Parse` takes them apart.
use realtime_delivery_micros.Prelude.{
  ℕ, ◌+◌, ◌*◌, ◌/◌, ◌%◌, ◌^◌, ◌<◌, ◌≡◌, refl, inl, inr, Bool-cases, ltb, leb, ◌==◌, Option, none,
  some, List, [], ◌∷◌, IsIn, arith,
}
use realtime_delivery_micros.Prelude.Int.{ℤ, pos}
use realtime_delivery_micros.Prelude.Bits.{bit_or_add, bit_or_add_low, bit_and_mod}
use realtime_delivery_micros.Prelude.Result.{ok}
use realtime_delivery_micros.Snowflake.{
  Snowflake, Config, new_snowflake, spin, issue, reread, next_id, parse,
}

-- The readings of a clock are all below 2 ^ 41 ms (the year 2039).
abbrev pub Early : List ℕ → Type 0
Early clock = (t : ℕ) → IsIn t clock → t < 2 ^ 41

-- A generator of worker `w` and datacenter `d` with the full sequence width.
pub record IsReady (w d : ℕ) (sf : Snowflake) : Type 0 where
  pub full_width : sf.seq_bits ≡ 12
  pub machine : sf.worker_id ≡ w * 2 ^ 12 + d * 2 ^ 17
  pub worker_fits : w < 32
  pub datacenter_fits : d < 32
  pub counted : sf.sequence < 2 ^ 12

abbrev pub default_config : ℕ → ℕ → ℤ → Config
default_config w d epoch = record {
  worker_id = pos w;
  datacenter_id = pos d;
  epoch = epoch;
  sequence_bits = 12;
}

-- With both machine numbers below 32 and twelve sequence bits, the constructor succeeds, with the
-- time that it read and a generator that is ready for its worker and datacenter.
pub new_snowflake-IsReady :
    (w d : ℕ) (epoch : ℤ) (now : ℕ)
    → w < 32
    → d < 32
    → (sf : Snowflake) × (new_snowflake (default_config w d epoch) now ≡ ok sf)
      × (sf.timestamp ≡ now)
      × IsReady w d sf
unfolding new_snowflake
new_snowflake-IsReady w d epoch now hw hd = (
  record { timestamp = now; worker_id = w * 2 ^ 12 + d * 2 ^ 17; sequence = 0; seq_bits = 12 },
  ground (arith, bit_or_add_low 17 (w * 2 ^ 12) d),
  refl,
  ground arith,
)

-- The identifier of a timestamp below 2 ^ 41 is the sum of its fields.
pub issue-sum :
    {w d : ℕ} (sf : Snowflake) (now seq : ℕ) (clock : List ℕ)
    → IsReady w d sf
    → now < 2 ^ 41
    → seq < 2 ^ 12
    → (issue sf now seq clock).0 ≡ now * 2 ^ 22 + sf.worker_id + seq
unfolding issue
issue-sum {w} {d} sf now seq clock ready early small =
    let wide : now * 2 ^ 22 % 2 ^ 64 ≡ now * 2 ^ 22 = omega arith in
    let high : now * 2 ^ 22 + sf.worker_id ≡ (now * 2 ^ 10 + w + d * 2 ^ 5) * 2 ^ 12 =
      omega arith in
    rw
      (
        wide,
        bit_or_add 22 now sf.worker_id (omega arith),
        high,
        bit_or_add 12 (now * 2 ^ 10 + w + d * 2 ^ 5) seq small,
      )
      refl

-- `Parse` as division and remainder, on a positive int64.
pub parse-fields :
    (id : ℕ)
    → id < 2 ^ 63
    → parse id ≡ record {
      timestamp = id / 2 ^ 22;
      worker_id = id / 2 ^ 12 % 2 ^ 5;
      datacenter_id = id / 2 ^ 17 % 2 ^ 5;
      sequence = id % 2 ^ 12;
    }
unfolding parse
parse-fields id small =
    ground (arith, bit_and_mod 5 (id / 2 ^ 12), bit_and_mod 5 (id / 2 ^ 17), bit_and_mod 12 id)

-- `Parse` of an identifier issued with these fields gives them back.
pub parse-issue :
    {w d : ℕ} (sf : Snowflake) (now seq : ℕ) (clock : List ℕ)
    → IsReady w d sf
    → now < 2 ^ 41
    → seq < 2 ^ 12
    → parse (issue sf now seq clock).0
      ≡ record { timestamp = now; datacenter_id = d; worker_id = w; sequence = seq }
parse-issue {w} {d} sf now seq clock ready early small =
    let sum : (issue sf now seq clock).0 ≡ now * 2 ^ 22 + w * 2 ^ 12 + d * 2 ^ 17 + seq =
      omega (arith, issue-sum sf now seq clock ready early small) in
    rw (sum, parse-fields (now * 2 ^ 22 + w * 2 ^ 12 + d * 2 ^ 17 + seq) (omega arith))
      (ground arith)

-- What a call that returned has issued and left: a generator as ready as before, one of the readings
-- as its time, and an identifier that `Parse` takes apart into the machine numbers and its fields.
pub record IsIssued (w d : ℕ) (clock : List ℕ) (id : ℕ) (sf' : Snowflake) : Type 0 where
  pub ready : IsReady w d sf'
  pub read : IsIn sf'.timestamp clock
  pub parsed : parse id ≡ record {
    timestamp = sf'.timestamp;
    datacenter_id = d;
    worker_id = w;
    sequence = sf'.sequence;
  }

abbrev pub Issues : ℕ → ℕ → List ℕ → Option (ℕ × Snowflake × List ℕ) → Type 0
Issues w d clock none = Unit
Issues w d clock (some (id, sf', rest)) = IsIssued w d clock id sf'

spin-IsIn :
    (now : ℕ) (clock rest : List ℕ)
    → spin now clock ≡ some rest
    → (t : ℕ) → IsIn t rest
    → IsIn t clock
unfolding spin
spin-IsIn now [] rest e t h = cc
spin-IsIn now (r ∷ clock) rest e t h = elim (Bool-cases (leb r now)) [
  | inl wait ↦ inr (spin-IsIn now clock rest (rw wait at e) t h)
  | inr past ↦ let same : clock ≡ rest = ground arith in inr (rw same h)
]

module _ {w d : ℕ} (sf : Snowflake) (ready : IsReady w d sf) where
  issue-IsIssued :
      (clock : List ℕ) (now seq : ℕ) (rest : List ℕ)
      → IsIn now clock
      → now < 2 ^ 41
      → seq < 2 ^ 12
      → let (id, sf', rest') = issue sf now seq rest in IsIssued w d clock id sf'
  unfolding issue
  issue-IsIssued clock now seq rest among early small = record {
    ready = ground arith;
    read = among;
    parsed = parse-issue sf now seq rest ready early small;
  }

  reread-Issues :
      (clock : List ℕ) (later : Option (List ℕ))
      → Early clock
      → ((rest : List ℕ) → later ≡ some rest → (t : ℕ) → IsIn t rest → IsIn t clock)
      → Issues w d clock (reread sf later)
  reread-Issues clock none early among = tt
  reread-Issues clock (some []) early among = tt
  reread-Issues clock (some (t ∷ rest)) early among =
      let seen : IsIn t clock = among (t ∷ rest) refl t (inl refl) in
      issue-IsIssued clock t 0 rest seen (early t seen) (omega arith)

  -- A call of `NextID` that returns, on a generator with twelve sequence bits, a sequence below 2 ^ 12
  -- and machine numbers below 32, and on readings below 2 ^ 41 ms in any order, issues an identifier
  -- that `Parse` takes apart into the worker, the datacenter, the reading that the call settled on and
  -- the sequence that the generator holds after it; the generator keeps its numbers.
  pub parse-next_id : (clock : List ℕ) → Early clock → Issues w d clock (next_id sf clock)
  unfolding next_id
  parse-next_id [] early = tt
  parse-next_id (now ∷ clock) early = elim (Bool-cases (now == sf.timestamp)) [
    | inr moved ↦
        rw moved
          (issue-IsIssued (now ∷ clock) now 0 clock (inl refl) (early now (inl refl)) (omega arith))
    | inl same ↦ rw same (elim (Bool-cases (ltb 4095 (sf.sequence + 1))) [
      | inl full ↦ rw full (
          reread-Issues (now ∷ clock) (spin now clock) early
            (λ rest e t h. inr (spin-IsIn now clock rest e t h)))
      | inr room ↦ rw room (
          issue-IsIssued (now ∷ clock) now (sf.sequence + 1) clock (inl refl) (early now (inl refl))
            (ground arith))
    ])
  ]
