-- ===== src/Markets/Invariant.antt =====
-- Any sequence of registrations keeps the references between the tables and the dates of a listing.
use alpha_agent.Markets.Outcomes.{refuse_when_inv, done_inj, outcome_inv}
use alpha_agent.Base.{
  ◌≡◌, refl, sym, ap, arith, inl, inr, Bool, Bool-cases, Option, List, [], ◌∷◌, String, str_eq,
  eq_iff, All, not, select, exists, ◌∙◌, subst, All-append, All-map, All-select, exists-append,
  ◌||◌,
}
use mathlib.Core.Bool.{true, false}
use alpha_agent.Markets.Schema.{Python, Store, Market, Venue, SecurityListing, done}
use alpha_agent.Markets.Registry.{
  register_security_listing, register_market, register_venue, NewListing, replace, is_key,
  with_listing, with_market, with_venue,
}
use alpha_agent.Markets.History.{IsListing, registered}

-- Each venue belongs to a market, and each listing to a venue and a security; a listing ends after it
-- starts, and was known by its end.
pub record WellFormed (st : Store) : Type 0 where
  pub venues_in_markets :
      All (λ v. exists (λ m. str_eq m.market_id v.market_id) st.markets ≡ true) st.venues
  pub listings_in_venues : All (IsListing st) st.listings

-- One registration that is not refused.
pub data Registration (py : Python) : Store → Store → Type 0 where
  of_market :
      {st st' : Store} {row : Market}
      (market_id country_code base_currency zone default_venue_id source : String)
      → register_market py st market_id country_code base_currency zone default_venue_id source
        ≡ done (row, st')
      → Registration py st st'
  of_venue :
      {st st' : Store} {row : Venue} (venue_id market_id name : String) (mic : Option String)
      (source : String)
      → register_venue py st venue_id market_id name mic source ≡ done (row, st')
      → Registration py st st'
  of_listing :
      {st st' : Store} {row : SecurityListing} (new : NewListing)
      → register_security_listing py st new ≡ done (row, st')
      → Registration py st st'

pub data Registrations (py : Python) : Store → Store → Type 0 where
  nothing : {st : Store} → Registrations py st st
  then_one :
      {st st' st'' : Store}
      → Registrations py st st'
      → Registration py st' st''
      → Registrations py st st''

exists-kept :
    {A : Type 0} (key : A → String) (k v : String) (l : List A)
    → str_eq k v ≡ false
    → exists (λ x. str_eq (key x) v) l ≡ true
    → exists (λ x. str_eq (key x) v) (select (λ r. not (str_eq (key r) k)) l) ≡ true
exists-kept key k v [] e h = absurd cc
exists-kept key k v (x ∷ xs) e h = elim (Bool-cases (str_eq (key x) k)) [
  | inl f ↦ rw f (exists-kept key k v xs e (other f h))
  | inr f ↦ rw f (elim (Bool-cases (str_eq (key x) v)) [
    | inl g ↦ rw g refl
    | inr g ↦ rw g (exists-kept key k v xs e (rw g at h))
  ])
]
  where
    other :
        str_eq (key x) k ≡ true
        → exists (λ x. str_eq (key x) v) (x ∷ xs) ≡ true
        → exists (λ x. str_eq (key x) v) xs ≡ true
    other f h = (let c = e in rw ((eq_iff (key x) k).0 f, c) at h)

-- INSERT OR REPLACE keeps every key of the table.
exists-replace :
    {A : Type 0} (key : A → String) (a : A) (v : String) (l : List A)
    → exists (λ x. str_eq (key x) v) l ≡ true
    → exists (λ x. str_eq (key x) v) (replace (λ r. str_eq (key r) (key a)) a l) ≡ true
exists-replace {A} key a v l h =
    exists-append (λ x. str_eq (key x) v) (select (λ r. not (str_eq (key r) (key a))) l) (a ∷ [])
    ∙ elim (Bool-cases (str_eq (key a) v)) [
      | inl e ↦ rw e (or_true _)
      | inr e ↦ rw (exists-kept key (key a) v l e h) refl
    ]
  where
    or_true : (b : Bool) → (b || true) ≡ true
    or_true true = refl
    or_true false = refl

All-replace :
    {A : Type 0} (P : A → Type 0) (same : A → Bool) (a : A) (l : List A)
    → P a
    → All P l
    → All P (replace same a l)
All-replace P same a l pa h =
    All-append P (select (λ r. not (same r)) l) (a ∷ []) (All-select P (λ r. not (same r)) l h)
      (pa, tt)

market-WellFormed : (st : Store) (row : Market) → WellFormed st → WellFormed (with_market st row)
unfolding with_market
market-WellFormed st row w = record {
  venues_in_markets =
      All-map st.venues
        (λ v h. exists-replace (λ (m : Market). m.market_id) row v.market_id st.markets h)
        w.venues_in_markets;
  listings_in_venues =
      All-map st.listings
        (λ r h. record {
          has_venue = h.has_venue;
          has_security = h.has_security;
          ends_later = h.ends_later;
          known_in_time = h.known_in_time;
        })
        w.listings_in_venues;
}

venue-WellFormed :
    (st : Store) (row : Venue)
    → exists (λ m. str_eq m.market_id row.market_id) st.markets ≡ true
    → WellFormed st
    → WellFormed (with_venue st row)
unfolding with_venue
venue-WellFormed st row e w = record {
  venues_in_markets =
      All-replace (λ v. exists (λ m. str_eq m.market_id v.market_id) st.markets ≡ true)
        (λ r. str_eq r.venue_id row.venue_id) row st.venues e w.venues_in_markets;
  listings_in_venues =
      All-map st.listings
        (λ r h. record {
          has_venue =
              exists-replace (λ (x : Venue). x.venue_id) row r.venue_id st.venues h.has_venue;
          has_security = h.has_security;
          ends_later = h.ends_later;
          known_in_time = h.known_in_time;
        })
        w.listings_in_venues;
}

listing-WellFormed :
    (st : Store) (row : SecurityListing)
    → IsListing st row
    → WellFormed st
    → WellFormed (with_listing st row)
unfolding with_listing
listing-WellFormed st row e w = record {
  venues_in_markets = w.venues_in_markets;
  listings_in_venues =
      All-map (replace (is_key row) row st.listings)
        (λ r h. record {
          has_venue = h.has_venue;
          has_security = h.has_security;
          ends_later = h.ends_later;
          known_in_time = h.known_in_time;
        })
        (All-replace (IsListing st) (is_key row) row st.listings e w.listings_in_venues);
}

pub market_registered :
    (py : Python) (st st' : Store) (row : Market)
    (market_id country_code base_currency zone default_venue_id source : String)
    → register_market py st market_id country_code base_currency zone default_venue_id source
      ≡ done (row, st')
    → st' ≡ with_market st row
unfolding register_market
market_registered py st st' row mi cc' b z d s e =
    let a = outcome_inv _ _ e in
    let b = outcome_inv _ _ a.2 in
    let c = outcome_inv _ _ b.2 in
    let f = outcome_inv _ _ c.2 in
    let g = outcome_inv _ _ f.2 in let h = outcome_inv _ _ g.2 in stored _ (done_inj h.2)
  where
    stored :
        (r : Market)
        → ◌≡◌ {A = Market × Store} (r, with_market st r) (row, st')
        → st' ≡ with_market st row
    stored r e =
        sym (ap (λ (x : Market × Store). x.1) e)
        ∙ ap (with_market st) (ap (λ (x : Market × Store). x.0) e)

venue_registered :
    (py : Python) (st st' : Store) (row : Venue) (venue_id market_id name : String)
    (mic : Option String) (source : String)
    → register_venue py st venue_id market_id name mic source ≡ done (row, st')
    → (st' ≡ with_venue st row) × (exists (λ m. str_eq m.market_id row.market_id) st.markets ≡ true)
unfolding register_venue
venue_registered py st st' row vi mi n mic s e =
    let a = outcome_inv _ _ e in
    let b = refuse_when_inv _ _ _ a.2 in
    let c = outcome_inv _ _ b.1 in
    let f = outcome_inv _ _ c.2 in
    let g = outcome_inv _ _ f.2 in
    let h = outcome_inv _ _ g.2 in stored _ (yes_of b.0) (done_inj h.2)
  where
    yes_of : {b : Bool} → not b ≡ false → b ≡ true
    yes_of {b} e = ground arith

    stored :
        (r : Venue)
        → exists (λ m. str_eq m.market_id r.market_id) st.markets ≡ true
        → ◌≡◌ {A = Venue × Store} (r, with_venue st r) (row, st')
        → (st' ≡ with_venue st row)
          × (exists (λ m. str_eq m.market_id row.market_id) st.markets ≡ true)
    stored r h e =
        let p : r ≡ row = ap (λ (x : Venue × Store). x.0) e in
        (
          sym (ap (λ (x : Venue × Store). x.1) e) ∙ ap (with_venue st) p,
          subst (λ (v : Venue). exists (λ m. str_eq m.market_id v.market_id) st.markets ≡ true) p h,
        )

one-WellFormed :
    (py : Python) {st st' : Store} → Registration py st st' → WellFormed st → WellFormed st'
one-WellFormed py {st} {st'} (Registration.of_market {row = row} mi c b z d s e) w =
    subst WellFormed (sym (market_registered py st st' row mi c b z d s e))
      (market-WellFormed st row w)
one-WellFormed py {st} {st'} (Registration.of_venue {row = row} vi mi n mic s e) w =
    let a = venue_registered py st st' row vi mi n mic s e in
    subst WellFormed (sym a.0) (venue-WellFormed st row a.1 w)
one-WellFormed py {st} {st'} (Registration.of_listing {row = row} new e) w =
    let a = registered py st st' new row e in
    subst WellFormed (sym a.0) (listing-WellFormed st row a.1 w)

-- Any sequence of registrations keeps a store well formed: each venue belongs to a market, each
-- listing to a venue and a security, and a listing ends after it starts and was known by its end.
pub Registrations-WellFormed :
    (py : Python) {st st' : Store} → Registrations py st st' → WellFormed st → WellFormed st'
Registrations-WellFormed py Registrations.nothing w = w
Registrations-WellFormed py (Registrations.then_one a b) w =
    one-WellFormed py b (Registrations-WellFormed py a w)
