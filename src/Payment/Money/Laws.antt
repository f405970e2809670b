-- ===== src/Payment/Money/Laws.antt =====
-- services/payment-service/internal/domain/money.go: sums, differences and comparisons agree.
use text.Mathlib.TextEquality.{eq_iff}
use realtime_delivery_micros.Prelude.{◌+◌, ◌^◌, ◌<◌, ◌≡◌, ◌↔◌, true, not, ◌&&◌, arith}
use realtime_delivery_micros.Prelude.Int.{pos_part, eq_of_parts}
use realtime_delivery_micros.Prelude.Int64.{
  IsAmount, sub64, add64_parts, sub64_parts, sub64_negative,
}
use realtime_delivery_micros.Prelude.Result.{ok}
use realtime_delivery_micros.Payment.Money.{
  Money, add, sub, same_currency, less_than_or_equal, greater_than, equal,
}

abbrev pub IsSum : Money → Type 0
IsSum m = IsAmount m.amount_minor

-- What was added can be taken off again, and gives the first amount back, as long as the sum fits
-- an int64.
pub sub-add :
    (m other sum : Money)
    → IsSum m
    → IsSum other
    → pos_part m.amount_minor + pos_part other.amount_minor < 2 ^ 63
    → add m other ≡ ok sum
    → sub sum other ≡ ok m
unfolding add sub
sub-add m other sum hm ho fits added = ground (
  arith,
  eq_iff m.currency other.currency,
  eq_iff sum.currency other.currency,
  add64_parts m.amount_minor other.amount_minor,
  sub64_parts sum.amount_minor other.amount_minor,
  eq_of_parts (sub64 sum.amount_minor other.amount_minor) m.amount_minor,
)

-- A difference of two amounts exists exactly when the second is less than or equal to the first.
pub sub_iff :
    (m other : Money)
    → IsSum m
    → IsSum other
    → ((d : Money) × (sub m other ≡ ok d)) ↔ (less_than_or_equal other m ≡ true)
unfolding sub less_than_or_equal
sub_iff m other hm ho = (
  λ h. ground (
    arith,
    h.1,
    eq_iff m.currency other.currency,
    eq_iff other.currency m.currency,
    sub64_negative m.amount_minor other.amount_minor,
  ),
  λ h. (
    record { amount_minor = sub64 m.amount_minor other.amount_minor; currency = m.currency },
    ground (
      arith,
      eq_iff m.currency other.currency,
      eq_iff other.currency m.currency,
      sub64_parts m.amount_minor other.amount_minor,
    ),
  ),
)

-- `GreaterThan` holds exactly between moneys of one currency of which the first is not less than or
-- equal to the second, and `Equal` exactly where each is less than or equal to the other.
pub compare_cases :
    (m other : Money)
    → (greater_than m other ≡ (same_currency m other && not (less_than_or_equal m other)))
      × (equal m other ≡ (less_than_or_equal m other && less_than_or_equal other m))
unfolding less_than_or_equal greater_than equal
compare_cases m other =
    ground (arith, eq_iff m.currency other.currency, eq_iff other.currency m.currency)
