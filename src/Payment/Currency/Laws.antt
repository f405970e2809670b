-- ===== src/Payment/Currency/Laws.antt =====
-- services/payment-service/internal/domain/state.go: what `ParseCurrency` accepts.
use mathlib.Core.List.{◌++◌, map}
use realtime_delivery_micros.Prelude.{ℕ, ◌≡◌, refl, ◌↔◌, true, some, List, [], ◌∷◌, arith}
use realtime_delivery_micros.Prelude.Text.{codes, same_codes, trim_space, to_upper}
use realtime_delivery_micros.Prelude.Text.Trim.{
  AllSpace, trim_space-append, trim_space-map, map-to_upper_idem,
}
use realtime_delivery_micros.Payment.Currency.{
  Currency, egp, usd, eur, sar, aed, currency_text, find_currency, parse_codes,
}

-- White space around a code and the case of its letters are immaterial.
pub parse_codes_insensitive :
    (xs s ys : List ℕ)
    → AllSpace xs
    → AllSpace ys
    → parse_codes (xs ++ (map to_upper s ++ ys)) ≡ parse_codes s
unfolding parse_codes
parse_codes_insensitive xs s ys hx hy =
    rw
      (
        trim_space-append xs (map to_upper s) ys hx hy,
        trim_space-map s,
        map-to_upper_idem (trim_space s),
      )
      refl

same_codes_lem : (c d : List ℕ) → same_codes c d ≡ true → c ≡ d
same_codes_lem [] [] h = refl
same_codes_lem [] (d ∷ ds) h = cc
same_codes_lem (c ∷ cs) [] h = cc
same_codes_lem (c ∷ cs) (d ∷ ds) h = ground (arith, same_codes_lem cs ds)

find-currency_text : (c : Currency) → find_currency (codes (currency_text c)) ≡ some c
unfolding find_currency
find-currency_text egp = refl
find-currency_text usd = refl
find-currency_text eur = refl
find-currency_text sar = refl
find-currency_text aed = refl

find-some : (s : List ℕ) (c : Currency) → find_currency s ≡ some c → s ≡ codes (currency_text c)
unfolding find_currency
find-some s egp h = ground (arith, same_codes_lem s (codes "EGP"))
find-some s usd h = ground (arith, same_codes_lem s (codes "USD"))
find-some s eur h = ground (arith, same_codes_lem s (codes "EUR"))
find-some s sar h = ground (arith, same_codes_lem s (codes "SAR"))
find-some s aed h = ground (arith, same_codes_lem s (codes "AED"))

-- A text is read as a currency exactly when it is that currency's code, up to letter case and the
-- white space around it.
pub parse_codes_iff :
    (s : List ℕ) (c : Currency)
    → (parse_codes s ≡ some c) ↔ (map to_upper (trim_space s) ≡ codes (currency_text c))
unfolding parse_codes
parse_codes_iff s c = (find-some (map to_upper (trim_space s)) c, λ e. rw e (find-currency_text c))
