-- ===== src/Payment/Currency.antt =====
-- services/payment-service/internal/domain/state.go: currency codes and statuses.
pub mod Laws
use realtime_delivery_micros.Prelude.{
  ℕ, String, Bool, true, false, Option, none, some, List, [], ◌∷◌, map, if◌then◌else◌,
}
use realtime_delivery_micros.Prelude.Text.{codes, same_codes, trim_space, to_upper}

pub data Currency : Type 0 where
  egp usd eur sar aed : Currency

-- The text of a currency constant.
abbrev pub currency_text : Currency → String
currency_text egp = "EGP"
currency_text usd = "USD"
currency_text eur = "EUR"
currency_text sar = "SAR"
currency_text aed = "AED"

-- `Currency.IsValid`, which the conversion of a valid text to the constant rests on.
unfoldable pub find_currency : List ℕ → Option Currency
find_currency c =
    if same_codes c (codes "EGP")
    then some egp
    else if same_codes c (codes "USD")
    then some usd
    else if same_codes c (codes "EUR")
    then some eur
    else if same_codes c (codes "SAR")
    then some sar
    else if same_codes c (codes "AED")
    then some aed
    else none

-- `none` is `ErrInvalidCurrency`.
unfoldable pub parse_codes : List ℕ → Option Currency
unfolding find_currency trim_space to_upper
parse_codes s = find_currency (map to_upper (trim_space s))

unfoldable pub parse_currency : String → Option Currency
unfolding parse_codes
parse_currency s = parse_codes (codes s)

pub data PaymentStatus : Type 0 where
  pending authorized captured cancelled failed refunded : PaymentStatus

pub data RefundStatus : Type 0 where
  refund_pending refund_completed refund_failed : RefundStatus

pub data OperationStatus : Type 0 where
  not_started processing succeeded operation_failed unknown : OperationStatus

abbrev pub allowed_transitions : PaymentStatus → List PaymentStatus
allowed_transitions pending = authorized ∷ cancelled ∷ failed ∷ []
allowed_transitions authorized = captured ∷ cancelled ∷ failed ∷ []
allowed_transitions captured = refunded ∷ []
allowed_transitions cancelled = []
allowed_transitions failed = []
allowed_transitions refunded = []
