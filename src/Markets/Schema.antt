-- ===== src/Markets/Schema.antt =====
-- The rows of the tables `markets`, `venues` and `security_listings`, and the refusals. A date is its
-- ordinal.
use alpha_agent.Base.{ℕ, Bool, true, false, Option, List, String}

pub record Market : Type 0 where
  pub market_id : String
  pub country : String
  pub base_currency : String
  pub timezone : String
  pub default_venue_id : String
  pub source : String

pub record Venue : Type 0 where
  pub venue_id : String
  pub market_id : String
  pub mic : Option String
  pub name : String
  pub source : String

pub record SecurityListing : Type 0 where
  pub security_id : String
  pub venue_id : String
  pub symbol : String
  pub series : Option String
  pub isin : Option String
  pub security_type : String
  pub currency : String
  pub listed_start : ℕ
  pub listed_end : Option ℕ
  pub known_at : ℕ
  pub source : String

-- The tables; of `security_master` the identifiers.
pub record Store : Type 0 where
  pub markets : List Market
  pub venues : List Venue
  pub listings : List SecurityListing
  pub securities : List String

-- The ValueErrors, one for each message.
pub data Refusal : Type 0 where
  bad_identifier text_required text_too_long bad_country bad_currency : Refusal
  timezone_required bad_timezone bad_mic bad_isin bad_check_digit : Refusal
  unregistered_market unregistered_venue unregistered_security : Refusal
  end_before_start known_after_end : Refusal

pub data Outcome {ℓ} (A : Type ℓ) : Type ℓ where
  done : A → Outcome A
  refused : Refusal → Outcome A

infixl 5 ◌>>=◌ ◌>>◌
unfoldable pub ◌>>=◌ : {A B : Type 0} → Outcome A → (A → Outcome B) → Outcome B
done a >>= f = f a
refused e >>= f = refused e

abbrev pub ◌>>◌ : {B : Type 0} → Outcome (Unit {0}) → Outcome B → Outcome B
m >> k = m >>= λ _. k

unfoldable pub refuse_when : Bool → Refusal → Outcome (Unit {0})
refuse_when true e = refused e
refuse_when false e = done tt

-- What Python's library says: `str.upper`, and which names `ZoneInfo` finds.
pub record Python : Type 0 where
  pub upper : String → String
  pub is_zone : String → Bool
