-- ===== src/Catalogue/Prices/Priced.antt =====
-- The prices that are accepted.
use wattanman.Base.{
  ℕ, String, Bool, true, false, not, ◌&&◌, ◌||◌, ◌≡◌, Option, none, some, is_some, leb, ltb,
  or_else, ok, str_eq,
}
use wattanman.Extensions.Types.{Pricing}
use wattanman.Catalogue.Currency.{is_currency}
use wattanman.Catalogue.Types.{Terms, written}
use wattanman.Catalogue.Prices.{
  Amount, absent, minor, PriceRequest, amount_given, is_contract, check_model, max_safe_integer,
  is_interval,
}

abbrev is_price : Option ℕ → Bool
is_price none = false
is_price (some n) = ltb 0 n && leb n max_safe_integer

abbrev is_text : Option String → Bool
is_text none = false
is_text (some t) = not (str_eq t "")

-- A free extension has no price, one that is bought has one, a subscription has one and an interval,
-- and a private contract names itself and has no price. The currency is of three capital letters.
unfoldable pub is_priced : Terms → Bool
is_priced t =
    elim t.pricing_model [
      | Pricing.free ↦
          not (is_some t.price_minor)
          && not (is_some t.billing_interval)
          && not (is_some t.contract_reference)
      | Pricing.one_time ↦
          is_price t.price_minor
          && not (is_some t.billing_interval)
          && not (is_some t.contract_reference)
      | Pricing.subscription ↦
          is_price t.price_minor
          && is_interval t.billing_interval
          && not (is_some t.contract_reference)
      | Pricing.private_contract ↦
          not (is_some t.price_minor)
          && not (is_some t.billing_interval)
          && is_text t.contract_reference
    ]
    && (not (is_some t.price_note) || is_text t.price_note)
    && is_currency t.currency

abbrev pub amount_of : Option ℕ → Amount
amount_of none = absent
amount_of (some n) = minor n

-- The request that asks for some terms.
unfoldable pub request_of : Terms → PriceRequest
request_of t = record {
  pricing_model = some (some t.pricing_model);
  price_minor = some (amount_of t.price_minor);
  rounded_price = absent;
  currency = some t.currency;
  billing_interval = t.billing_interval;
  contract_reference = t.contract_reference;
  price_note = t.price_note;
}

module _ (q : PriceRequest) (price : Option ℕ) (currency : String)
    (usable : (n : ℕ) → price ≡ some n → is_price (some n) ≡ true) where
  abbrev Agrees : Pricing → Type 0
  Agrees m = check_model m price (written q.billing_interval) (written q.contract_reference) ≡ ok tt

-- What an accepted request asks of its terms.
abbrev pub Writes : PriceRequest → Terms → Type 0
Writes q t =
    (is_priced t ≡ true)
    × (amount_given q ≡ amount_of t.price_minor)
    × (t.billing_interval ≡ written q.billing_interval)
    × (t.currency ≡ or_else q.currency "USD")
    × (t.price_note ≡ written q.price_note)
    × (is_contract t.pricing_model ≡ true → t.contract_reference ≡ written q.contract_reference)
    × (or_else q.pricing_model (some t.pricing_model) ≡ some t.pricing_model)
