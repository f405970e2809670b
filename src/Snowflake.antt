-- ===== src/Snowflake.antt =====
-- packages/go/snowflake/id.go: the generator of 64-bit identifiers. A clock reading is a number of
-- milliseconds; a call takes the readings that `time.Now` gives it, in order, and returns the rest.
-- An identifier is the bit pattern of its int64.
pub mod Layout
pub mod Order
pub mod Clock
mod Examples
use Prim.Native.Nat.{bit_and, bit_or}
use mathlib.Core.Option
use realtime_delivery_micros.Prelude.{
  ℕ, zero, suc, ◌+◌, ◌-◌, ◌*◌, ◌/◌, ◌%◌, ◌^◌, Bool, ◌&&◌, ◌||◌, Option, none, some, List, [], ◌∷◌,
  ltb, leb, ◌==◌, if◌then◌else◌,
}
use realtime_delivery_micros.Prelude.Int.{ℤ, pos, pos_part, ltb_ℤ}
use realtime_delivery_micros.Prelude.Result.{Result, ok, ◌>>=◌, ◌>>◌, fail_if}

abbrev pub id_sequence_bits : ℕ
id_sequence_bits = 12

abbrev pub id_worker_bits : ℕ
id_worker_bits = 5

abbrev pub id_datacenter : ℕ
id_datacenter = 5

abbrev pub timestamp_shift : ℕ
timestamp_shift = id_sequence_bits + id_worker_bits + id_datacenter

pub record Snowflake : Type 0 where
  pub timestamp : ℕ
  pub worker_id : ℕ
  pub sequence : ℕ
  pub seq_bits : ℕ

pub record Config : Type 0 where
  pub worker_id : ℤ
  pub datacenter_id : ℤ
  pub epoch : ℤ
  pub sequence_bits : ℕ

pub data Error : Type 0 where
  worker_id_range datacenter_id_range sequence_bits_range : Error

-- `cfg.WorkerID < 0 || cfg.WorkerID > 31`
abbrev out_of_range : ℤ → Bool
out_of_range n = ltb_ℤ n (pos 0) || ltb_ℤ (pos 31) n

-- `if cfg.SequenceBits == 0 { cfg.SequenceBits = 12 }`
abbrev effective_bits : ℕ → ℕ
effective_bits n = if n == 0 then 12 else n

-- The range checks come before the shifts, so the fields are read as numbers there.
abbrev combine : ℕ → ℕ → ℕ → ℕ
combine worker datacenter bits =
    bit_or (worker * 2 ^ bits) (datacenter * 2 ^ (bits + id_worker_bits))

-- The constructor reads the clock twice and keeps the second reading, `now`.
pub new_snowflake : Config → ℕ → Result Error Snowflake
new_snowflake cfg now = do
  fail_if (out_of_range cfg.worker_id) worker_id_range
  fail_if (out_of_range cfg.datacenter_id) datacenter_id_range
  let bits = effective_bits cfg.sequence_bits
  fail_if (ltb 12 bits) sequence_bits_range
  ok (record {
    timestamp = now;
    worker_id = combine (pos_part cfg.worker_id) (pos_part cfg.datacenter_id) bits;
    sequence = 0;
    seq_bits = bits;
  })

-- `for time.Now() <= now {}`: the readings behind the first that is later, `none` if none is.
pub spin : ℕ → List ℕ → Option (List ℕ)
spin now [] = none
spin now (t ∷ clock) = let rest = spin now clock in if leb t now then rest else some clock

-- The last statements of `NextID`, on the timestamp and the sequence that it has settled on.
pub issue : Snowflake → ℕ → ℕ → List ℕ → ℕ × Snowflake × List ℕ
issue sf now seq clock = (
  bit_or (bit_or (now * 2 ^ timestamp_shift % 2 ^ 64) sf.worker_id) seq,
  record sf { timestamp = now; sequence = seq },
  clock,
)

-- What follows the spin: one more reading is the new timestamp.
abbrev reread : Snowflake → Option (List ℕ) → Option (ℕ × Snowflake × List ℕ)
reread sf none = none
reread sf (some []) = none
reread sf (some (t ∷ clock)) = some (issue sf t 0 clock)

-- `none`: the readings ran out before the call could return.
pub next_id : Snowflake → List ℕ → Option (ℕ × Snowflake × List ℕ)
next_id sf [] = none
next_id sf (now ∷ clock) =
    if now == sf.timestamp
    then (if ltb (2 ^ id_sequence_bits - 1) (sf.sequence + 1)
        then reread sf (spin now clock)
        else some (issue sf now (sf.sequence + 1) clock))
    else some (issue sf now 0 clock)

pub record Parsed : Type 0 where
  pub timestamp : ℕ
  pub datacenter_id : ℕ
  pub worker_id : ℕ
  pub sequence : ℕ

-- `id >> k` on an int64: the sign bit is copied in.
abbrev shift_right : ℕ → ℕ → ℕ
shift_right id k = if ltb id (2 ^ 63) then id / 2 ^ k else id / 2 ^ k + (2 ^ 64 - 2 ^ 64 / 2 ^ k)

pub parse : ℕ → Parsed
parse id = record {
  timestamp = shift_right id timestamp_shift;
  worker_id = bit_and (shift_right id id_sequence_bits) (2 ^ id_worker_bits - 1);
  datacenter_id =
      bit_and (shift_right id (id_sequence_bits + id_worker_bits)) (2 ^ id_datacenter - 1);
  sequence = bit_and id (2 ^ id_sequence_bits - 1);
}

-- `id > 0` on an int64
pub validate : ℕ → Bool
validate id = ltb 0 id && ltb id (2 ^ 63)

-- `WorkerID` and `Sequence`, the two accessors.
pub worker_of : Snowflake → ℕ
worker_of sf = bit_and (sf.worker_id / 2 ^ sf.seq_bits) 0x1f

pub sequence_of : Snowflake → ℕ
sequence_of sf = bit_and sf.sequence (2 ^ id_sequence_bits - 1)

-- A call's identifier in front of those of the calls after it.
abbrev pub follow :
    (Snowflake → List ℕ → Option (List ℕ)) → Option (ℕ × Snowflake × List ℕ) → Option (List ℕ)
follow later none = none
follow later (some (id, sf', rest)) = Option.map (λ ids. id ∷ ids) (later sf' rest)

-- The identifiers of `n` calls in a row, each on the readings that the one before has left.
pub generate : ℕ → Snowflake → List ℕ → Option (List ℕ)
generate zero sf clock = some []
generate (suc n) sf clock = follow (generate n) (next_id sf clock)
