-- ===== src/Markets/Registry.antt =====
-- The registrations and the queries. INSERT OR REPLACE removes the row with the same primary key.
use alpha_agent.Markets.Checks.{
  optional_isin, timezone, optional_mic, currency, country, identifier, required_text,
}
use alpha_agent.Base.{
  ℕ, Bool, true, false, not, ◌&&◌, ◌||◌, Option, none, some, List, [], ◌∷◌, ◌++◌, String, str_eq,
  if◌then◌else◌, ltb, leb, ◌==◌, strip, is_blank, select, exists, first, latest, sort_by,
}
use alpha_agent.Markets.Schema.{
  known_after_end, end_before_start, unregistered_security, unregistered_venue, unregistered_market,
  Outcome, done, Python, Store, Market, Venue, SecurityListing, ◌>>=◌, ◌>>◌, refuse_when,
}
use Prim.Native.String.{compare as compare_text}
use Prim.Native.Nat.{Ordering}

-- INSERT OR REPLACE, where `same` finds the row with the primary key.
abbrev pub replace : {A : Type 0} → (A → Bool) → A → List A → List A
replace same a rows = select (λ r. not (same r)) rows ++ (a ∷ [])

unfoldable pub with_market : Store → Market → Store
with_market st row = record st {
  markets = replace (λ r. str_eq r.market_id row.market_id) row st.markets;
}

unfoldable pub with_venue : Store → Venue → Store
with_venue st row = record st {
  venues = replace (λ r. str_eq r.venue_id row.venue_id) row st.venues;
}

unfoldable pub register_market :
    Python
    → Store
    → (market_id country_code base_currency zone default_venue_id source : String)
    → Outcome (Market × Store)
register_market py st market_id country_code base_currency zone default_venue_id source = do
  id ← identifier market_id
  c ← country py country_code
  b ← currency py base_currency
  z ← timezone py zone
  v ← identifier default_venue_id
  s ← required_text 200 source
  let row : Market = record {
    market_id = id;
    country = c;
    base_currency = b;
    timezone = z;
    default_venue_id = v;
    source = s;
  }
  done (row, with_market st row)

unfoldable pub register_venue :
    Python
    → Store
    → (venue_id market_id name : String) → (mic : Option String) → (source : String)
    → Outcome (Venue × Store)
register_venue py st venue_id market_id name mic source = do
  m ← identifier market_id
  refuse_when (not (exists (λ r. str_eq r.market_id m) st.markets)) unregistered_market
  id ← identifier venue_id
  c ← optional_mic py mic
  n ← required_text 200 name
  s ← required_text 200 source
  let row : Venue = record { venue_id = id; market_id = m; mic = c; name = n; source = s }
  done (row, with_venue st row)

-- The arguments of `register_security_listing`.
pub record NewListing : Type 0 where
  pub security_id : String
  pub venue_id : String
  pub symbol : String
  pub currency_code : String
  pub listed_start : ℕ
  pub known_at : ℕ
  pub source : String
  pub series : Option String
  pub isin : Option String
  pub security_type : String
  pub listed_end : Option ℕ

-- `(str(series).strip().upper() or None) if series else None`
abbrev pub series_of : Python → Option String → Option String
series_of py none = none
series_of py (some s) =
    if is_blank s || is_blank (py.upper (strip s)) then none else some (py.upper (strip s))

abbrev pub ends_by : Option ℕ → ℕ → Bool
ends_by none t = false
ends_by (some e) t = leb e t

abbrev pub is_known_late : Option ℕ → ℕ → Bool
is_known_late none known = false
is_known_late (some e) known = ltb e known

-- The primary key: the security, the venue and the first day.
abbrev pub is_key : SecurityListing → SecurityListing → Bool
is_key a r =
    str_eq r.security_id a.security_id
    && str_eq r.venue_id a.venue_id
    && r.listed_start == a.listed_start

-- The statement that stores a listing.
unfoldable pub with_listing : Store → SecurityListing → Store
with_listing st row = record st { listings = replace (is_key row) row st.listings }

unfoldable pub register_security_listing :
    Python → Store → NewListing → Outcome (SecurityListing × Store)
register_security_listing py st new = do
  v ← identifier new.venue_id
  refuse_when (not (exists (λ r. str_eq r.venue_id v) st.venues)) unregistered_venue
  i ← required_text 200 new.security_id
  refuse_when (not (exists (λ r. str_eq r i) st.securities)) unregistered_security
  refuse_when (ends_by new.listed_end new.listed_start) end_before_start
  refuse_when (is_known_late new.listed_end new.known_at) known_after_end
  symbol ← required_text 32 new.symbol
  isin ← optional_isin py new.isin
  kind ← required_text 200 new.security_type
  c ← currency py new.currency_code
  s ← required_text 200 new.source
  let row : SecurityListing = record {
    security_id = i;
    venue_id = v;
    symbol = py.upper symbol;
    series = series_of py new.series;
    isin = isin;
    security_type = kind;
    currency = c;
    listed_start = new.listed_start;
    listed_end = new.listed_end;
    known_at = new.known_at;
    source = s;
  }
  done (row, with_listing st row)

unfoldable pub market : Store → (market_id : String) → Outcome (Option Market)
market st market_id = do
  id ← identifier market_id
  done (first (λ r. str_eq r.market_id id) st.markets)

abbrev pub venue_first : Venue → Venue → Bool
venue_first a b = elim (compare_text a.venue_id b.venue_id) [ Ordering.gt ↦ false | _ ↦ true ]

unfoldable pub venues_for_market : Store → (market_id : String) → Outcome (List Venue)
venues_for_market st market_id = do
  id ← identifier market_id
  done (sort_by venue_first (select (λ r. str_eq r.market_id id) st.venues))

abbrev pub covers : ℕ → SecurityListing → Bool
covers t r = leb r.listed_start t && not (ends_by r.listed_end t)

-- The WHERE clause.
abbrev pub is_answer : (security venue : String) → (as_of known_as_of : ℕ) → SecurityListing → Bool
is_answer i v t k r =
    str_eq r.security_id i && str_eq r.venue_id v && covers t r && leb r.known_at k

-- A row that the registrations wrote has no empty optional text, so reading it back changes nothing.
unfoldable pub active_row :
    (security venue : String) → (as_of known_as_of : ℕ) → Store → Option SecurityListing
active_row i v t k st = latest (λ r. r.listed_start) (select (is_answer i v t k) st.listings)

abbrev pub known_moment : ℕ → Option ℕ → ℕ
known_moment t none = t
known_moment t (some k) = k

unfoldable pub active_listing :
    Store
    → (security_id venue_id : String) → (as_of : ℕ) → (known_as_of : Option ℕ)
    → Outcome (Option SecurityListing)
active_listing st security_id venue_id as_of known_as_of = do
  i ← required_text 200 security_id
  v ← identifier venue_id
  done (active_row i v as_of (known_moment as_of known_as_of) st)
