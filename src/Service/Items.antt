-- ===== src/Service/Items.antt =====
-- The custom items and the exclusions of a request: every field is checked.
--
-- Python's `str`, `str.strip` and `str.casefold` and the two patterns for names are arguments.
pub mod Checked
use Prim.Native.String.{String}
use text.Mathlib.Text.{◌==◌ as str_eq}
use ro_beats_calculator_engi.Common.{
  ℕ, suc, Bool, true, false, not, ◌&&◌, ◌||◌, Option, none, some, List, [], ◌∷◌, ◌++◌, map, length,
  Result, ok, err, request_error, raise_if, ◌>>=◌, ltb, leb, ◌==◌, if◌then◌else◌,
}
use ro_beats_calculator_engi.Common.Dict.{contains}

mutual
  -- A JSON value, as `json.loads` gives it.
  pub data Json : Type 0 where
    null : Json
    boolean : Bool → Json
    pos : ℕ → Json
    negsuc : ℕ → Json
    real : Bool → Json
    string : String → Json
    array : Jsons → Json
    object : Fields → Json

  pub data Jsons : Type 0 where
    no_items : Jsons
    item : Json → Jsons → Jsons

  -- The fields of an object, with distinct keys.
  pub data Fields : Type 0 where
    no_fields : Fields
    field : String → Json → Fields → Fields

-- The elements of an array, as a list.
unfoldable pub items : Jsons → List Json
items no_items = []
items (item j js) = j ∷ items js

-- `request.get(key)`
unfoldable pub lookup : String → Fields → Option Json
lookup key no_fields = none
lookup key (field k j fs) = if str_eq k key then some j else lookup key fs

unfoldable pub truthy : Option Json → Bool
truthy none = false
truthy (some null) = false
truthy (some (boolean b)) = b
truthy (some (pos n)) = not (n == 0)
truthy (some (negsuc n)) = true
truthy (some (real nonzero)) = nonzero
truthy (some (string s)) = not (str_eq s "")
truthy (some (array no_items)) = false
truthy (some (array (item j js))) = true
truthy (some (object no_fields)) = false
truthy (some (object (field k j fs))) = true

-- What the service uses of Python's text functions; a real is not zero where `real true`.
pub record Python : Type 0 where
  pub str : Json → String
  pub strip : String → String
  pub lower : String → String
  pub casefold : String → String
  pub is_custom_item_name : String → Bool
  pub is_excluded_name : String → Bool

abbrev pub max_custom_pool_items : ℕ
max_custom_pool_items = 15

abbrev pub max_custom_stat : ℕ
max_custom_stat = 999

pub record Item : Type 0 where
  pub name : String
  pub item_type : String
  pub values : List (String × ℕ)

abbrev pub or_default : String → Option Json → (Json → String) → String
or_default default none str = default
or_default default (some value) str = if truthy (some value) then str value else default

-- A stat: an integer in 0..999 that is no Boolean, and 0 where the key is missing.
unfoldable pub stat_value : Option Json → Result ℕ
stat_value none = ok 0
stat_value (some (pos n)) = raise_if (ltb max_custom_stat n) request_error (ok n)
stat_value (some other) = err request_error

unfoldable pub stat_values : List String → Fields → Result (List (String × ℕ))
stat_values [] entry = ok []
stat_values (key ∷ keys) entry = do
  value ← stat_value (lookup key entry)
  values ← stat_values keys entry
  ok ((key, value) ∷ values)

module _ (py : Python) where
  -- `str(fields.get(key) or default).strip()`
  abbrev pub text_field : String → String → Fields → String
  text_field key default fields = py.strip (or_default default (lookup key fields) py.str)

  unfoldable pub custom_item : List String → List String → List String → Json → Result Item
  custom_item stats types seen (object entry) =
      let name = text_field "name" "" entry in
      let item_type = text_field "type" "" entry in
      raise_if (not (py.is_custom_item_name name)) request_error (
        raise_if (contains (py.casefold name) seen) request_error (
          raise_if (not (contains item_type types)) request_error (do
            values ← stat_values stats entry
            ok (record { name = name; item_type = item_type; values = values }))))
  custom_item stats types seen other = err request_error

  -- The loop over the entries; `seen` are the names so far.
  unfoldable pub custom_items_from :
      List String → List String → List String → List Json → Result (List Item)
  custom_items_from stats types seen [] = ok []
  custom_items_from stats types seen (entry ∷ entries) = do
    made ← custom_item stats types seen entry
    rest ← custom_items_from stats types (py.casefold made.name ∷ seen) entries
    ok (made ∷ rest)

  unfoldable pub custom_items : List String → List String → Option Json → Result (List Item)
  custom_items stats types none = ok []
  custom_items stats types (some null) = ok []
  custom_items stats types (some (array raw)) =
      raise_if (ltb max_custom_pool_items (length (items raw))) request_error
        (custom_items_from stats types [] (items raw))
  custom_items stats types (some other) = err request_error

  -- The texts of a list that holds texts only.
  unfoldable pub all_texts : List Json → Option (List String)
  all_texts [] = some []
  all_texts (string s ∷ entries) = elim (all_texts entries) [
    | none ↦ none
    | some rest ↦ some (s ∷ rest)
  ]
  all_texts (_ ∷ entries) = none

  -- `[name for name in map(str.strip, raw) if name]`
  unfoldable pub stripped_names : List String → List String
  stripped_names [] = []
  stripped_names (name ∷ names) =
      if str_eq (py.strip name) ""
      then stripped_names names
      else py.strip name ∷ stripped_names names

  unfoldable pub all_excluded_names : List String → Bool
  all_excluded_names [] = true
  all_excluded_names (name ∷ names) = py.is_excluded_name name && all_excluded_names names

  -- The field's limit is 400 names of gear or 200 of minis.
  unfoldable pub excluded_names : ℕ → Option Json → Result (List String)
  excluded_names limit none = ok []
  excluded_names limit (some null) = ok []
  excluded_names limit (some (array raw)) =
      raise_if (ltb limit (length (items raw))) request_error (elim (all_texts (items raw)) [
        | none ↦ err request_error
        | some names ↦
            raise_if (not (all_excluded_names (stripped_names names))) request_error
              (ok (stripped_names names))
      ])
  excluded_names limit (some other) = err request_error

  -- `name in taken`
  abbrev pub is_taken : List String → List String → String → Bool
  is_taken catalog excluded name =
      contains (py.casefold name) (map py.casefold catalog)
      && not (contains (py.casefold name) (map py.casefold excluded))

  unfoldable pub refuse_taken_names : List Item → List String → List String → Result (Unit {0})
  refuse_taken_names [] catalog excluded = ok tt
  refuse_taken_names (custom ∷ rest) catalog excluded =
      raise_if (is_taken catalog excluded custom.name) request_error
        (refuse_taken_names rest catalog excluded)
