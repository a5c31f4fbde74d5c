-- ===== src/Markets/Checks.antt =====
-- The validators of the fields.
use alpha_agent.Base.{
  ℕ, ◌+◌, ◌-◌, ◌*◌, ◌/◌, ◌%◌, Bool, true, false, not, ◌&&◌, ◌||◌, Option, none, some, List, [], ◌∷◌,
  String, code, if◌then◌else◌, ltb, leb, ◌==◌, strip, lower, is_blank, length_text, all_chars,
}
use alpha_agent.Markets.Schema.{
  bad_timezone, bad_check_digit, text_too_long, bad_currency, bad_country, text_required, bad_isin,
  bad_identifier, bad_mic, timezone_required, Outcome, done, Python, ◌>>◌, refuse_when,
}

abbrev is_upper_letter : ℕ → Bool
is_upper_letter c = leb 65 c && leb c 90

abbrev is_digit : ℕ → Bool
is_digit c = leb 48 c && leb c 57

abbrev is_name_start : ℕ → Bool
is_name_start c = (leb 97 c && leb c 122) || is_digit c

abbrev first_char : (ℕ → Bool) → String → Bool
first_char p String.[] = false
first_char p (String.◌∷◌ c s) = p (code c)

-- `_IDENTIFIER_RE`
unfoldable pub is_identifier : String → Bool
is_identifier s =
    first_char is_name_start s
    && all_chars (λ c. is_name_start c || c == 95) s
    && leb (length_text s) 64

unfoldable pub identifier : String → Outcome String
identifier value = do
  refuse_when (not (is_identifier (lower (strip value)))) bad_identifier
  done (lower (strip value))

unfoldable pub required_text : (maximum : ℕ) → String → Outcome String
required_text maximum value = do
  refuse_when (is_blank (strip value)) text_required
  refuse_when (ltb maximum (length_text (strip value))) text_too_long
  done (strip value)

unfoldable pub is_code : ℕ → String → Bool
is_code n s = length_text s == n && all_chars is_upper_letter s

unfoldable pub country : Python → String → Outcome String
country py value = do
  refuse_when (not (is_code 2 (py.upper (strip value)))) bad_country
  done (py.upper (strip value))

unfoldable pub currency : Python → String → Outcome String
currency py value = do
  refuse_when (not (is_code 3 (py.upper (strip value)))) bad_currency
  done (py.upper (strip value))

unfoldable pub timezone : Python → String → Outcome String
timezone py value = do
  refuse_when (is_blank (strip value)) timezone_required
  refuse_when (not (py.is_zone (strip value))) bad_timezone
  done (strip value)

unfoldable pub is_mic : String → Bool
is_mic s = length_text s == 4 && all_chars (λ c. is_upper_letter c || is_digit c) s

unfoldable pub checked_mic : Python → String → Outcome (Option String)
checked_mic py s =
    if is_blank (strip s)
    then done none
    else (refuse_when (not (is_mic (py.upper (strip s)))) bad_mic
        >> done (some (py.upper (strip s))))

abbrev pub optional_mic : Python → Option String → Outcome (Option String)
optional_mic py none = done none
optional_mic py (some s) = checked_mic py s

-- The decimal digits of a character in base 36, in their order.
abbrev pub digits_of : ℕ → List ℕ
digits_of c = if is_digit c then (c - 48) ∷ [] else (c - 55) / 10 ∷ (c - 55) % 10 ∷ []

-- The digits of a text without its last character, the last one first, before `acc`.
unfoldable pub body_digits : String → (acc : List ℕ) → List ℕ
body_digits String.[] acc = acc
body_digits (String.◌∷◌ c String.[]) acc = acc
body_digits (String.◌∷◌ c (String.◌∷◌ d s)) acc =
    body_digits (String.◌∷◌ d s) (push (digits_of (code c)) acc)
  where
    push : List ℕ → List ℕ → List ℕ
    push [] l = l
    push (x ∷ xs) l = push xs (x ∷ l)

abbrev pub weighed : Bool → ℕ → ℕ
weighed true d = if ltb 9 (d * 2) then d * 2 - 9 else d * 2
weighed false d = d

-- The sum of the digits from the last one on; the first of them is doubled, and then every second one.
abbrev pub digit_total : (is_even : Bool) → List ℕ → ℕ
digit_total b [] = 0
digit_total b (d ∷ ds) = weighed b d + digit_total (not b) ds

-- `(10 - total % 10) % 10`, of the digits from the last one on.
unfoldable pub check_digit : List ℕ → ℕ
check_digit ds = (10 - digit_total true ds % 10) % 10

abbrev pub last_digit : String → ℕ
last_digit String.[] = 0
last_digit (String.◌∷◌ c String.[]) = code c - 48
last_digit (String.◌∷◌ c (String.◌∷◌ d s)) = last_digit (String.◌∷◌ d s)

abbrev last_char : (ℕ → Bool) → String → Bool
last_char p String.[] = false
last_char p (String.◌∷◌ c String.[]) = p (code c)
last_char p (String.◌∷◌ c (String.◌∷◌ d s)) = last_char p (String.◌∷◌ d s)

abbrev second_char : (ℕ → Bool) → String → Bool
second_char p String.[] = false
second_char p (String.◌∷◌ c s) = first_char p s

-- `_ISIN_RE`
unfoldable pub is_isin_shape : String → Bool
is_isin_shape s =
    length_text s == 12
    && first_char is_upper_letter s
    && second_char is_upper_letter s
    && all_chars (λ c. is_upper_letter c || is_digit c) s
    && last_char is_digit s

unfoldable pub checked_isin : Python → String → Outcome (Option String)
checked_isin py s = if is_blank (strip s) then done none else (do
  refuse_when (not (is_isin_shape (py.upper (strip s)))) bad_isin
  refuse_when
      (not (check_digit (body_digits (py.upper (strip s)) []) == last_digit (py.upper (strip s))))
      bad_check_digit
  done (some (py.upper (strip s))))

abbrev pub optional_isin : Python → Option String → Outcome (Option String)
optional_isin py none = done none
optional_isin py (some s) = checked_isin py s
