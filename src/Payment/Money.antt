-- ===== src/Payment/Money.antt =====
-- services/payment-service/internal/domain/money.go: amounts in minor units with their currency.
pub mod Laws
use text.Mathlib.Text.{◌==◌ as str_eq}
use realtime_delivery_micros.Prelude.{String, Bool, true, false, not, ◌&&◌, if◌then◌else◌}
use realtime_delivery_micros.Prelude.Int.{ℤ, pos, ltb_ℤ, leb_ℤ, eq_ℤ}
use realtime_delivery_micros.Prelude.Int64.{add64, sub64}
use realtime_delivery_micros.Prelude.Result.{Result, ok, err}

pub data MoneyError : Type 0 where
  invalid_amount invalid_currency currency_mismatch : MoneyError

pub record Money : Type 0 where
  pub amount_minor : ℤ
  pub currency : String

pub new_money : ℤ → String → Result MoneyError Money
new_money amount currency =
    if leb_ℤ amount (pos 0)
    then err invalid_amount
    else if str_eq currency ""
    then err invalid_currency
    else ok (record { amount_minor = amount; currency = currency })

-- `assertSameCurrency`, as a test.
abbrev pub same_currency : Money → Money → Bool
same_currency m other = str_eq m.currency other.currency

unfoldable pub add : Money → Money → Result MoneyError Money
add m other =
    if not (same_currency m other)
    then err currency_mismatch
    else ok
        (record { amount_minor = add64 m.amount_minor other.amount_minor; currency = m.currency })

pub sub : Money → Money → Result MoneyError Money
sub m other =
    if not (same_currency m other)
    then err currency_mismatch
    else let result = sub64 m.amount_minor other.amount_minor in
      if ltb_ℤ result (pos 0)
      then err invalid_amount
      else ok (record { amount_minor = result; currency = m.currency })

pub is_zero : Money → Bool
is_zero m = eq_ℤ m.amount_minor (pos 0)

pub less_than_or_equal : Money → Money → Bool
less_than_or_equal m other =
    if not (same_currency m other) then false else leb_ℤ m.amount_minor other.amount_minor

pub greater_than : Money → Money → Bool
greater_than m other =
    if not (same_currency m other) then false else ltb_ℤ other.amount_minor m.amount_minor

pub equal : Money → Money → Bool
equal m other = same_currency m other && eq_ℤ m.amount_minor other.amount_minor
