-- ===== src/Extracting/Json.antt =====
-- A JSON value as `json.loads` returns it. A number carries what `float` and `int` make of it, its
-- `str` and its truth value, an array or an object its `str`; the keys of an object are distinct. A
-- negative integer stands for a value that `int` refuses: no segment has a negative index.
use compliance_wizard_engine.Prelude.{
  ℕ, Bool, true, false, not, Option, none, some, List, [], ◌∷◌, Text, text, is_nil, ◌==◌, text_eq,
  if◌then◌else◌, Floats,
}

-- What a conversion does: it returns, it raises ValueError or TypeError, or it raises OverflowError.
pub data Cast (A : Type 0) : Type 0 where
  value : A → Cast A
  refused : Cast A
  overflowed : Cast A

mutual
  pub data Json (F : Type 0) : Type 0 where
    null : Json F
    bool : Bool → Json F
    number : (as_float : Cast F) → (as_int : Cast ℕ) → (shown : Text) → (is_true : Bool) → Json F
    string : Text → Json F
    array : (shown : Text) → Items F → Json F
    object : (shown : Text) → Members F → Json F

  pub data Items (F : Type 0) : Type 0 where
    nil : Items F
    item : Json F → Items F → Items F

  pub data Members (F : Type 0) : Type 0 where
    end : Members F
    member : (key : Text) → Json F → Members F → Members F

module _ {F : Type 0} where
  unfoldable pub list_of : Items F → List (Json F)
  list_of nil = []
  list_of (item x items) = x ∷ list_of items

  -- `obj.get(key)`
  unfoldable pub member_of : Text → Members F → Option (Json F)
  member_of key end = none
  member_of key (member k x members) = if k == key then some x else member_of key members

  -- The answer of the model as `_loads` reads it: an object, or none of its members.
  unfoldable pub members_of : Option (Json F) → Members F
  members_of (some (object shown m)) = m
  members_of _ = end

  -- `bool(x)`
  unfoldable pub is_true : Json F → Bool
  is_true null = false
  is_true (bool b) = b
  is_true (number as_float as_int shown truth) = truth
  is_true (string s) = not (is_nil s)
  is_true (array shown nil) = false
  is_true (array shown (item x items)) = true
  is_true (object shown end) = false
  is_true (object shown (member k x members)) = true

  -- `str(x)`
  unfoldable pub shown_json : Json F → Text
  shown_json null = text "None"
  shown_json (bool true) = text "True"
  shown_json (bool false) = text "False"
  shown_json (number as_float as_int shown truth) = shown
  shown_json (string s) = s
  shown_json (array shown items) = shown
  shown_json (object shown members) = shown

  -- `str(obj.get(key, default))`
  unfoldable pub text_at : Text → Text → Members F → Text
  unfolding member_of shown_json
  text_at key default members = elim (member_of key members) [
    | none ↦ default
    | some x ↦ shown_json x
  ]

  -- `str(obj[key]) if obj.get(key) else None`
  unfoldable pub true_text_at : Text → Members F → Option Text
  unfolding member_of is_true shown_json
  true_text_at key members = elim (member_of key members) [
    | none ↦ none
    | some x ↦ if is_true x then some (shown_json x) else none
  ]

  -- `int(x)`; `parse_int` is None where `int` of a text raises ValueError
  unfoldable pub to_int : (Text → Option ℕ) → Json F → Cast ℕ
  to_int parse_int (bool true) = value 1
  to_int parse_int (bool false) = value 0
  to_int parse_int (number as_float as_int shown truth) = as_int
  to_int parse_int (string s) = elim (parse_int s) [ none ↦ refused | some n ↦ value n ]
  to_int parse_int _ = refused

  unfoldable pub int_at : (Text → Option ℕ) → Text → Members F → Cast ℕ
  unfolding member_of to_int
  int_at parse_int key members = elim (member_of key members) [
    | none ↦ value 0
    | some x ↦ to_int parse_int x
  ]

  module _ ⦃fl : Floats F⦄ where
    -- `float(x)`
    unfoldable pub json_float : Json F → Cast F
    json_float (bool true) = value (fl.milli 1000)
    json_float (bool false) = value (fl.milli 0)
    json_float (number as_float as_int shown truth) = as_float
    json_float (string s) = elim (fl.parse s) [ none ↦ refused | some x ↦ value x ]
    json_float _ = refused

    unfoldable pub float_at : Text → Members F → Cast F
    unfolding member_of json_float
    float_at key members = elim (member_of key members) [
      | none ↦ value (fl.milli 0)
      | some x ↦ json_float x
    ]
