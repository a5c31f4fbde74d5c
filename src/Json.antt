-- ===== src/Json.antt =====
-- JSON values as Python's `json` module reads them: the payloads of the operations ledger and of
-- the rollover journal. An object is a list of its members; a canonical text
-- (`sort_keys=True`) stands for the value with its members in key order.
use alpha_agent.Base.{
  ℕ, Bool, true, false, ◌&&◌, Option, none, some, String, str_eq, ◌==◌, if◌then◌else◌,
}

mutual
  pub data Json : Type 0 where
    null : Json
    bool : Bool → Json
    int : Bool → ℕ → Json  -- the sign (`true` is negative) and the magnitude
    float : String → Json  -- a float by its `repr`
    str : String → Json
    arr : Items → Json
    obj : Fields → Json

  pub data Items : Type 0 where
    nil : Items
    cons : Json → Items → Items

  pub data Fields : Type 0 where
    end : Fields
    field : String → Json → Fields → Fields

abbrev bool_eq : Bool → Bool → Bool
bool_eq true b = b
bool_eq false true = false
bool_eq false false = true

-- Equality of two canonical texts, as equality of the values that they stand for.
unfoldable mutual
  pub json_eq : Json → Json → Bool
  json_eq null null = true
  json_eq (bool a) (bool b) = bool_eq a b
  json_eq (int s m) (int t n) = bool_eq s t && m == n
  json_eq (float a) (float b) = str_eq a b
  json_eq (str a) (str b) = str_eq a b
  json_eq (arr a) (arr b) = items_eq a b
  json_eq (obj a) (obj b) = fields_eq a b
  json_eq _ _ = false

  pub items_eq : Items → Items → Bool
  items_eq nil nil = true
  items_eq (cons a x) (cons b y) = json_eq a b && items_eq x y
  items_eq _ _ = false

  pub fields_eq : Fields → Fields → Bool
  fields_eq end end = true
  fields_eq (field j a x) (field k b y) = str_eq j k && json_eq a b && fields_eq x y
  fields_eq _ _ = false

-- `payload.get(key)`: the member of an object, if there is one.
unfoldable pub get_field : String → Fields → Option Json
get_field k end = none
get_field k (field j v r) = if str_eq j k then some v else get_field k r

unfoldable pub get : String → Json → Option Json
unfolding get_field
get k (obj fs) = get_field k fs
get k _ = none

-- `value is True`
abbrev pub is_true : Option Json → Bool
is_true (some (bool true)) = true
is_true _ = false

-- `value == text`
abbrev pub is_text : String → Option Json → Bool
is_text t (some (str s)) = str_eq s t
is_text t _ = false
