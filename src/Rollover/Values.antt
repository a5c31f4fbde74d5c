-- ===== src/Rollover/Values.antt =====
-- Python's `==` on JSON values, and the tests of the members of a payload.
use alpha_agent.Rollover.Schema.{Host}
use alpha_agent.Base.{
  is_blank, exists, is_lower_hex, code, ℕ, ◌&&◌, ◌||◌, not, Bool, true, false, Option, none, some,
  List, [], ◌∷◌, String, str_eq, if◌then◌else◌, ltb, ◌==◌,
}
use alpha_agent.Json.{
  Json, null, bool, int, float, str, arr, obj, Items, nil, cons, Fields, end, field, get,
}

-- A value that Python's `==` compares as a number: a bool is 0 or 1, and a float may equal an
-- integer.
unfoldable pub as_number : Host → Json → Option (Bool × ℕ)
as_number h (bool true) = some (false, 1)
as_number h (bool false) = some (false, 0)
as_number h (int s n) = some (s, n)
as_number h (float t) = h.whole t
as_number h _ = none

abbrev pub number_eq : Bool × ℕ → Bool × ℕ → Bool
number_eq a b = a.1 == b.1 && (a.1 == 0 || (a.0 && b.0) || (not a.0 && not b.0))

abbrev pub scalar_eq : Option (Bool × ℕ) → Option (Bool × ℕ) → Bool
scalar_eq (some a) (some b) = number_eq a b
scalar_eq _ _ = false

abbrev pub float_eq : Option (Bool × ℕ) → Option (Bool × ℕ) → String → String → Bool
float_eq (some a) (some b) s t = number_eq a b
float_eq _ _ s t = str_eq s t

-- `==` of two JSON values whose objects are in key order.
unfoldable mutual
  unfolding as_number

  pub py_eq : Host → Json → Json → Bool
  py_eq h null null = true
  py_eq h (str a) (str b) = str_eq a b
  py_eq h (arr a) (arr b) = py_items_eq h a b
  py_eq h (obj a) (obj b) = py_fields_eq h a b
  py_eq h (float a) (float b) = float_eq (h.whole a) (h.whole b) a b
  py_eq h a b = scalar_eq (as_number h a) (as_number h b)

  pub py_items_eq : Host → Items → Items → Bool
  py_items_eq h nil nil = true
  py_items_eq h (cons a x) (cons b y) = py_eq h a b && py_items_eq h x y
  py_items_eq h _ _ = false

  pub py_fields_eq : Host → Fields → Fields → Bool
  py_fields_eq h end end = true
  py_fields_eq h (field j a x) (field k b y) = str_eq j k && py_eq h a b && py_fields_eq h x y
  py_fields_eq h _ _ = false

-- `key in mapping`
unfoldable pub has_key : String → Fields → Bool
has_key k end = false
has_key k (field j v r) = str_eq j k || has_key k r

unfoldable pub has_keys : List String → Fields → Bool
unfolding has_key
has_keys [] r = true
has_keys (k ∷ ks) r = has_key k r && has_keys ks r

unfoldable pub only_keys : List String → Fields → Bool
only_keys ks end = true
only_keys ks (field j v r) = exists (λ k. str_eq j k) ks && only_keys ks r

-- `set(mapping) == keys`
unfoldable pub same_keys : List String → Fields → Bool
unfolding has_keys only_keys
same_keys ks r = has_keys ks r && only_keys ks r

abbrev pub is_sha : Option Json → Bool
is_sha (some (str s)) = is_lower_hex 64 s
is_sha _ = false

-- `_lower_hex(value, length=32)`
abbrev pub is_attempt_id : Option Json → Bool
is_attempt_id (some (str s)) = is_lower_hex 32 s
is_attempt_id _ = false

abbrev pub is_bool : Option Json → Bool
is_bool (some (bool b)) = true
is_bool _ = false

abbrev pub is_false : Option Json → Bool
is_false (some (bool false)) = true
is_false _ = false

-- `isinstance(value, str) and value`
abbrev pub is_nonempty_text : Option Json → Bool
is_nonempty_text (some (str s)) = not (is_blank s)
is_nonempty_text _ = false

abbrev pub fields_of : Option Json → Option Fields
fields_of (some (obj r)) = some r
fields_of _ = none

-- `payload.get(key) is None`
abbrev pub is_none_value : Option Json → Bool
is_none_value none = true
is_none_value (some null) = true
is_none_value _ = false

-- The components of a path between its slashes.
unfoldable pub split_path : String → List String
split_path String.[] = "" ∷ []
split_path (String.◌∷◌ c s) =
    let rest = split_path s in
    if code c == 47 then "" ∷ rest else elim rest [ [] ↦ [] | p ∷ ps ↦ String.◌∷◌ c p ∷ ps ]

abbrev pub starts_with_slash : String → Bool
starts_with_slash String.[] = false
starts_with_slash (String.◌∷◌ c s) = code c == 47

-- A text, not empty, not an absolute path, with no component "..".
unfoldable pub is_relative_path : Option Json → Bool
unfolding split_path is_blank
is_relative_path (some (str s)) =
    not (is_blank s)
    && not (starts_with_slash s)
    && not (exists (λ p. str_eq p "..") (split_path s))
is_relative_path _ = false

abbrev pub is_positive_int : Option Json → Bool
is_positive_int (some (int s n)) = not s && ltb 0 n
is_positive_int _ = false

abbrev pub is_natural_int : Option Json → Bool
is_natural_int (some (int s n)) = not s || n == 0
is_natural_int _ = false

-- `_validate_backup`
unfoldable pub is_backup : Fields → Bool
unfolding same_keys is_relative_path is_lower_hex get
is_backup r =
    same_keys ("path" ∷ "manifest_sha256" ∷ "files" ∷ "bytes" ∷ []) r
    && is_relative_path (get "path" (obj r))
    && is_sha (get "manifest_sha256" (obj r))
    && is_positive_int (get "files" (obj r))
    && is_natural_int (get "bytes" (obj r))

unfoldable pub all_values : (Json → Bool) → Fields → Bool
all_values p end = true
all_values p (field k v r) = p v && all_values p r
