-- ===== src/Markets/Tests.antt =====
-- A market, a venue and listings, and the theorems on them.
use alpha_agent.Markets.Lookup.{market_found}
use alpha_agent.Markets.Isin.{isin_one_digit}
use alpha_agent.Markets.History.{no_look_ahead, replaced_forgotten}
use alpha_agent.Base.{
  ℕ, ◌≤◌, ◌≡◌, refl, arith, ◌⊎◌, none, some, [], ◌∷◌, ◌++◌, All, Memᴰ, strip, lower, is_blank,
  length_text, all_chars,
}
use mathlib.Core.Logic.{◌≢◌}
use mathlib.Core.Bool.{true}
use alpha_agent.Markets.Schema.{
  Python, Store, Market, Venue, SecurityListing, done, ◌>>=◌, refuse_when,
}
use alpha_agent.Markets.Checks.{
  last_digit, identifier, is_identifier, required_text, country, currency, timezone, is_code,
  is_mic, checked_mic, checked_isin, check_digit, body_digits, is_isin_shape,
}
use alpha_agent.Markets.Registry.{
  market, register_market, register_venue, register_security_listing, active_listing, active_row,
  with_market, with_venue, with_listing, NewListing,
}
use alpha_agent.Markets.Invariant.{
  Registrations-WellFormed, Registrations, Registration, WellFormed,
}
use alpha_agent.Markets.Active.{active_listing-Visible, Visible}

-- A library whose `upper` leaves capitals as they are.
abbrev py : Python
py = record { upper = λ s. s; is_zone = λ s. true }

abbrev us : Market
us = record {
  market_id = "us_equity";
  country = "US";
  base_currency = "USD";
  timezone = "America/New_York";
  default_venue_id = "xnas";
  source = "review";
}

abbrev nasdaq : Venue
nasdaq = record {
  venue_id = "xnas";
  market_id = "us_equity";
  mic = some "XNAS";
  name = "Nasdaq";
  source = "review";
}

abbrev apple : SecurityListing
apple = record {
  security_id = "aapl";
  venue_id = "xnas";
  symbol = "AAPL";
  series = none;
  isin = some "US0378331005";
  security_type = "common_stock";
  currency = "USD";
  listed_start = 100;
  listed_end = none;
  known_at = 100;
  source = "review";
}

abbrev nothing_stored : Store
nothing_stored = record { markets = []; venues = []; listings = []; securities = "aapl" ∷ [] }

abbrev with_us : Store
with_us = record nothing_stored { markets = us ∷ [] }

abbrev with_nasdaq : Store
with_nasdaq = record with_us { venues = nasdaq ∷ [] }

abbrev stored : Store
stored = record with_nasdaq { listings = apple ∷ [] }

abbrev new_apple : ℕ → ℕ → NewListing
new_apple start known = record {
  security_id = "aapl";
  venue_id = "xnas";
  symbol = "AAPL";
  currency_code = "USD";
  listed_start = start;
  known_at = known;
  source = "review";
  series = none;
  isin = some "US0378331005";
  security_type = "common_stock";
  listed_end = none;
}

us_registered :
    register_market py nothing_stored "us_equity" "US" "USD" "America/New_York" "xnas" "review"
    ≡ done (us, with_us)
unfolding register_market with_market identifier is_identifier required_text country currency
    timezone is_code strip lower is_blank length_text all_chars ◌>>=◌ refuse_when
us_registered = refl

nasdaq_registered :
    register_venue py with_us "xnas" "us_equity" "Nasdaq" (some "XNAS") "review"
    ≡ done (nasdaq, with_nasdaq)
unfolding register_venue with_venue identifier is_identifier required_text checked_mic is_mic strip
    lower is_blank length_text all_chars ◌>>=◌ refuse_when
nasdaq_registered = refl

apple_isin : checked_isin py "US0378331005" ≡ done (some "US0378331005")
unfolding checked_isin is_isin_shape check_digit body_digits strip is_blank length_text all_chars
    ◌>>=◌ refuse_when
apple_isin = refl

apple_registered :
    register_security_listing py with_nasdaq (new_apple 100 100) ≡ done (apple, stored)
unfolding register_security_listing with_listing identifier is_identifier required_text currency
    is_code checked_isin is_isin_shape check_digit body_digits strip lower is_blank length_text
    all_chars ◌>>=◌ refuse_when
apple_registered = refl

-- The row of a later start, known later.
abbrev apple_later : SecurityListing
apple_later = record apple { listed_start = 200; known_at = 250 }

abbrev stored_later : Store
stored_later = record stored { listings = apple ∷ apple_later ∷ [] }

later_registered :
    register_security_listing py stored (new_apple 200 250) ≡ done (apple_later, stored_later)
unfolding register_security_listing with_listing identifier is_identifier required_text currency
    is_code checked_isin is_isin_shape check_digit body_digits strip lower is_blank length_text
    all_chars ◌>>=◌ refuse_when
later_registered = refl

-- The same listing, reviewed again.
abbrev apple_again : SecurityListing
apple_again = record apple { known_at = 300 }

abbrev stored_again : Store
stored_again = record stored { listings = apple_again ∷ [] }

again_registered :
    register_security_listing py stored (new_apple 100 300) ≡ done (apple_again, stored_again)
unfolding register_security_listing with_listing identifier is_identifier required_text currency
    is_code checked_isin is_isin_shape check_digit body_digits strip lower is_blank length_text
    all_chars ◌>>=◌ refuse_when
again_registered = refl

apple_answered : active_listing stored "aapl" "xnas" 150 none ≡ done (some apple)
unfolding active_listing active_row identifier is_identifier required_text strip lower is_blank
    length_text all_chars ◌>>=◌ refuse_when
apple_answered = refl

active_listing-Visible_example :
    Visible (strip "aapl") (lower (strip "xnas")) 150 150 apple
    × Memᴰ apple stored.listings
    × All
        (λ x. (¬ Visible (strip "aapl") (lower (strip "xnas")) 150 150 x) ⊎ (x.listed_start ≤ 100))
        stored.listings
active_listing-Visible_example =
    active_listing-Visible stored "aapl" "xnas" 150 none apple apple_answered

no_look_ahead_example :
    active_listing stored_later "aapl" "xnas" 210 none
    ≡ active_listing stored "aapl" "xnas" 210 none
no_look_ahead_example =
    no_look_ahead py stored stored_later (new_apple 200 250) apple_later "aapl" "xnas" 210 none
      later_registered refl (omega arith)

replaced_forgotten_example :
    ¬ (active_listing stored_again "aapl" "xnas" 150 none ≡ done (some apple))
replaced_forgotten_example =
    replaced_forgotten py stored stored_again (new_apple 100 300) apple_again apple "aapl" "xnas"
      150 none again_registered (omega arith) refl

nothing_WellFormed : WellFormed nothing_stored
nothing_WellFormed = record { venues_in_markets = tt; listings_in_venues = tt }

Registrations-WellFormed_example : WellFormed stored
Registrations-WellFormed_example =
    Registrations-WellFormed py
      (Registrations.then_one
        (Registrations.then_one
          (Registrations.then_one Registrations.nothing (
            Registration.of_market "us_equity" "US" "USD" "America/New_York" "xnas" "review"
              us_registered))
          (Registration.of_venue "xnas" "us_equity" "Nasdaq" (some "XNAS") "review"
            nasdaq_registered))
        (Registration.of_listing (new_apple 100 100) apple_registered))
      nothing_WellFormed

apple_digits :
    body_digits "US0378331005" [] ≡ [] ++ (0 ∷ 0 ∷ 1 ∷ 3 ∷ 3 ∷ 8 ∷ 7 ∷ 3 ∷ 0 ∷ 8 ∷ 2 ∷ 0 ∷ 3 ∷ [])
unfolding body_digits
apple_digits = refl

other_isin : checked_isin py "US0378331013" ≡ done (some "US0378331013")
unfolding checked_isin is_isin_shape check_digit body_digits strip is_blank length_text all_chars
    ◌>>=◌ refuse_when
other_isin = refl

other_digits :
    body_digits "US0378331013" [] ≡ [] ++ (1 ∷ 0 ∷ 1 ∷ 3 ∷ 3 ∷ 8 ∷ 7 ∷ 3 ∷ 0 ∷ 8 ∷ 2 ∷ 0 ∷ 3 ∷ [])
unfolding body_digits
other_digits = refl

isin_one_digit_example : last_digit "US0378331005" ≢ last_digit "US0378331013"
isin_one_digit_example =
    isin_one_digit py "US0378331005" "US0378331013" "US0378331005" "US0378331013" []
      (0 ∷ 1 ∷ 3 ∷ 3 ∷ 8 ∷ 7 ∷ 3 ∷ 0 ∷ 8 ∷ 2 ∷ 0 ∷ 3 ∷ []) 0 1 apple_isin other_isin apple_digits
      other_digits (omega arith) (omega arith) (omega arith)

asked_name : identifier " US_Equity" ≡ done "us_equity"
unfolding identifier is_identifier strip lower length_text all_chars ◌>>=◌ refuse_when
asked_name = refl

market_found_example :
    (identifier "us_equity" ≡ done "us_equity") × (market with_us " US_Equity" ≡ done (some us))
market_found_example =
    market_found py nothing_stored with_us us "us_equity" "US" "USD" "America/New_York" "xnas"
      "review" " US_Equity" "us_equity" us_registered asked_name
