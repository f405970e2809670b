-- ===== src/Snowflake/Examples.antt =====
-- packages/go/snowflake/id.go: runs on concrete clocks, and the theorems at them.
use realtime_delivery_micros.Prelude.{
  ◌<◌, suc, ◌+◌, ◌++◌, ◌*◌, ◌^◌, ◌≡◌, ◌≢◌, refl, some, none, List, [], ◌∷◌, IsIn, ℕ, arith,
}
use realtime_delivery_micros.Prelude.Int.{pos}
use realtime_delivery_micros.Prelude.Result.{ok}
use realtime_delivery_micros.Snowflake.{
  Snowflake, new_snowflake, issue, spin, next_id, generate, parse, worker_of, sequence_of,
}
use realtime_delivery_micros.Snowflake.Layout.{
  IsReady, default_config, Issues, parse-issue, parse-next_id,
}
use realtime_delivery_micros.Snowflake.Order.{Ascends, stamp, generate-Ascends}
use realtime_delivery_micros.Snowflake.Clock.{
  still, next_id_total, generate_clock_back, narrow_width_collides,
}

abbrev node : Snowflake
node = record {
  timestamp = 1000;
  worker_id = 3 * 4096 + 7 * 131072;
  sequence = 4094;
  seq_bits = 12;
}

node_made : new_snowflake (default_config 3 7 (pos 0)) 1000 ≡ ok (record node { sequence = 0 })
unfolding new_snowflake
node_made = refl

-- The second call finds the sequence exhausted and spins past two readings of 1000.
abbrev readings : List ℕ
readings = 1000 ∷ 1000 ∷ 1000 ∷ 1000 ∷ 1001 ∷ 1001 ∷ 1001 ∷ []

node_runs :
    generate 3 node readings
    ≡ some (
        (1000 * 2 ^ 22 + 929792 + 4095)
        ∷ (1001 * 2 ^ 22 + 929792)
        ∷ (1001 * 2 ^ 22 + 929792 + 1)
        ∷ [])
unfolding generate next_id issue spin
node_runs = refl

accessors : (worker_of node ≡ 3) × (sequence_of node ≡ 4094)
unfolding worker_of sequence_of
accessors = (refl, refl)

node-IsReady : IsReady 3 7 node
node-IsReady = omega arith

parse-issue_test :
    parse (issue node 1001 5 []).0
    ≡ record { timestamp = 1001; datacenter_id = 7; worker_id = 3; sequence = 5 }
parse-issue_test = parse-issue node 1001 5 [] node-IsReady (omega arith) (omega arith)

early_readings : (t : ℕ) → IsIn t readings → t < 2 ^ 41
early_readings t h = ground arith

-- The call on the second reading finds the sequence exhausted.
parse-next_id_example : Issues 3 7 readings (next_id (record node { sequence = 4095 }) readings)
parse-next_id_example =
    parse-next_id (record node { sequence = 4095 }) (omega arith) readings early_readings

generate-Ascends_example : Ascends (stamp node) (generate 3 node readings)
generate-Ascends_example = generate-Ascends 3 node readings node-IsReady (omega arith)

next_id_total_example : next_id node (1000 ∷ ((999 ∷ 1000 ∷ []) ++ 1001 ∷ 1001 ∷ [])) ≢ none
next_id_total_example = next_id_total node 1000 (999 ∷ 1000 ∷ []) 1001 1001 [] (omega arith)

generate_clock_back_example :
    (a b : ℕ) × (generate 3 node (2000 ∷ (2000 + 1) ∷ 2000 ∷ []) ≡ some (a ∷ b ∷ a ∷ []))
generate_clock_back_example = generate_clock_back node 2000 (omega arith)

abbrev narrow : ℕ → Snowflake
narrow worker = record { timestamp = 1000; worker_id = worker; sequence = 0; seq_bits = 8 }

narrow_width_collides_example :
    (ids : List ℕ) × (id : ℕ) × (generate (suc (2 ^ 8)) (narrow 0) (still 1001 (suc (2 ^ 8)))
      ≡ some (ids ++ id ∷ []))
    × (generate 1 (narrow 256) (1001 ∷ []) ≡ some (id ∷ []))
unfolding new_snowflake
narrow_width_collides_example =
    narrow_width_collides 8 (pos 0) 1000 1001 {zeroth = narrow 0} {first = narrow 256} (omega arith)
      (omega arith) refl refl (omega arith) (omega arith)
