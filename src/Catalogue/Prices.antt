-- ===== src/Catalogue/Prices.antt =====
-- `setPricing` and `grantPrivateAccess` of backend/src/platform/extensions.service.ts. The texts of a request
-- are given trimmed and, where the code does it, in upper case. The price as a decimal number is given as
-- the number of the smallest unit that the code rounds it to; the column `price`, which is written from
-- that number, is left out.
pub mod Priced
use wattanman.Base.{
  ℕ, String, Bool, true, false, not, ◌&&◌, ◌||◌, ◌==◌, Option, none, some, List, [], ◌∷◌, find,
  filter, any, includes, is_some, str_eq, leb, ltb, or_else, if◌then◌else◌, Result, ok, err,
  not_found, bad_request, throw_if, require, ◌>>=◌, ◌>>◌,
}
use wattanman.Extensions.Types.{Pricing}
use wattanman.Catalogue.Currency.{is_currency}
use wattanman.Catalogue.Members.{Actor, require_publisher_role}
use wattanman.Catalogue.Types.{Terms, Offer, Grant, Catalogue, written, update_first}

-- A missing price or null, a number that is no positive safe integer, or a natural number.
pub data Amount : Type 0 where
  absent unusable : Amount
  minor : ℕ → Amount

-- The model is none where none is given, and `some none` where its text is no model. `price_minor` is none
-- where it is undefined, and the rounded decimal price counts then. The currency is none where it is missing
-- or empty.
pub record PriceRequest : Type 0 where
  pub pricing_model : Option (Option Pricing)
  pub price_minor : Option Amount
  pub rounded_price : Amount
  pub currency : Option String
  pub billing_interval : Option String
  pub contract_reference : Option String
  pub price_note : Option String

abbrev pub amount_given : PriceRequest → Amount
amount_given q = or_else q.price_minor q.rounded_price

abbrev pub default_model : Amount → Pricing
default_model absent = Pricing.free
default_model unusable = Pricing.one_time
default_model (minor n) = if ltb 0 n then Pricing.one_time else Pricing.free

abbrev pub max_safe_integer : ℕ
max_safe_integer = 9007199254740991

abbrev pub check_amount : Amount → Result (Option ℕ)
check_amount absent = ok none
check_amount unusable = err bad_request
check_amount (minor n) = if ltb 0 n && leb n max_safe_integer then ok (some n) else err bad_request

abbrev pub is_interval : Option String → Bool
is_interval none = false
is_interval (some t) = includes ("MONTHLY" ∷ "YEARLY" ∷ []) t

abbrev pub check_model : Pricing → Option ℕ → Option String → Option String → Result (Unit {0})
check_model Pricing.free price interval contract =
    throw_if (is_some price || is_some interval) bad_request
check_model Pricing.one_time price interval contract =
    throw_if (not (is_some price) || is_some interval) bad_request
check_model Pricing.subscription price interval contract =
    throw_if (not (is_some price) || not (is_interval interval)) bad_request
check_model Pricing.private_contract price interval contract =
    throw_if (is_some price || is_some interval || not (is_some contract)) bad_request

abbrev pub is_subscription : Pricing → Bool
is_subscription Pricing.subscription = true
is_subscription _ = false

abbrev pub is_contract : Pricing → Bool
is_contract Pricing.private_contract = true
is_contract _ = false

abbrev is_unpriced : Pricing → Bool
is_unpriced Pricing.free = true
is_unpriced Pricing.private_contract = true
is_unpriced _ = false

abbrev pub terms_of : Pricing → Option ℕ → String → PriceRequest → Terms
terms_of model price currency q = record {
  pricing_model = model;
  price_minor = if is_unpriced model then none else price;
  currency = currency;
  billing_interval = if is_subscription model then written q.billing_interval else none;
  contract_reference = if is_contract model then written q.contract_reference else none;
  price_note = written q.price_note;
}

-- The checks of the request, and the columns that are written.
unfoldable pub check_pricing : PriceRequest → Result Terms
check_pricing q = do
  model ← require (or_else q.pricing_model (some (default_model (amount_given q)))) bad_request
  let currency = or_else q.currency "USD"
  throw_if (not (is_currency currency)) bad_request
  price ← check_amount (amount_given q)
  check_model model price (written q.billing_interval) (written q.contract_reference)
  ok (terms_of model price currency q)

unfoldable pub set_pricing : String → PriceRequest → Actor → Catalogue → Result Catalogue
set_pricing extension q actor cat = do
  terms ← check_pricing q
  o ← require (find (λ o. str_eq o.id extension) cat.offers) not_found
  require_publisher_role cat.members o.publisher_id actor "PUBLISH"
  ok (record cat {
    offers = update_first (λ o. str_eq o.id extension) (λ o. record o { terms = terms }) cat.offers;
  })

abbrev pub is_grant : String → String → Grant → Bool
is_grant extension school g = str_eq g.extension_id extension && str_eq g.school_id school

unfoldable pub put_grant : Grant → List Grant → List Grant
put_grant new [] = new ∷ []
put_grant new (g ∷ gs) =
    let rest = put_grant new gs in
    if is_grant new.extension_id new.school_id g
    then record g { granted_by = new.granted_by } ∷ gs
    else g ∷ rest

-- `schools`: the identifiers of the schools.
unfoldable pub grant_private_access :
    List String → String → String → Bool → Actor → Catalogue → Result Catalogue
grant_private_access schools extension school granted actor cat = do
  o ← require (find (λ o. str_eq o.id extension) cat.offers) not_found
  require_publisher_role cat.members o.publisher_id actor "PUBLISH"
  throw_if (not (includes schools school)) not_found
  ok (record cat {
    grants =
        if granted
        then put_grant
            (record { extension_id = extension; school_id = school; granted_by = actor.user_id })
            cat.grants
        else filter (λ g. not (is_grant extension school g)) cat.grants;
  })
