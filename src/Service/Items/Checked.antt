-- ===== src/Service/Items/Checked.antt =====
-- What items and exclusions of an accepted request are like.
use Prim.Native.String.{String}
use text.Mathlib.TextEquality.{eq_iff}
use ro_beats_calculator_engi.Common.{
  ℕ, ◌≤◌, ◌≡◌, refl, sym, ap, subst, true, false, not, Option, none, some, List, [], ◌∷◌, map,
  length, ok, request_error, ltb, All, arith, ok-injective, bind-ok, raise_if-ok,
}
use ro_beats_calculator_engi.Common.Dict.{contains, Distinct}
use ro_beats_calculator_engi.Service.Items.{
  Json, null, boolean, pos, negsuc, real, string, array, object, Jsons, Fields, items, lookup,
  Python, Item, text_field, stat_value, stat_values, custom_item, custom_items_from, custom_items,
  max_custom_stat, max_custom_pool_items,
}

-- An item as its entry describes it: a good name, a known type, and each stat in range.
pub record IsItem (py : Python) (stats types : List String) (entry : Fields) (i : Item)
    : Type 0 where
  pub named : i.name ≡ text_field py "name" "" entry
  pub typed : i.item_type ≡ text_field py "type" "" entry
  pub good_name : py.is_custom_item_name i.name ≡ true
  pub known_type : contains i.item_type types ≡ true
  pub its_stats : map (λ v. v.0) i.values ≡ stats
  pub in_range : All (λ v. v.1 ≤ max_custom_stat) i.values

-- Items for entries, in order, each an object.
pub data AreItems (py : Python) (stats types : List String) : List Json → List Item → Type 0 where
  no_more : AreItems py stats types [] []
  one_more :
      (entry : Fields) (entries : List Json) (i : Item) (is : List Item)
      → IsItem py stats types entry i
      → AreItems py stats types entries is
      → AreItems py stats types (object entry ∷ entries) (i ∷ is)

stat_value-bounded : (value : Option Json) (n : ℕ) → stat_value value ≡ ok n → n ≤ max_custom_stat
unfolding stat_value
stat_value-bounded none n h = ground (arith, h)
stat_value-bounded (some (pos k)) n h = ground (arith, h)
stat_value-bounded (some null) n h = ground (arith, h)
stat_value-bounded (some (boolean b)) n h = ground (arith, h)
stat_value-bounded (some (negsuc k)) n h = ground (arith, h)
stat_value-bounded (some (real b)) n h = ground (arith, h)
stat_value-bounded (some (string s)) n h = ground (arith, h)
stat_value-bounded (some (array js)) n h = ground (arith, h)
stat_value-bounded (some (object fs)) n h = ground (arith, h)

stat_values-bounded :
    (stats : List String) (entry : Fields) (values : List (String × ℕ))
    → stat_values stats entry ≡ ok values
    → (map (λ v. v.0) values ≡ stats) × All (λ v. v.1 ≤ max_custom_stat) values
unfolding stat_values
stat_values-bounded [] entry values h =
    subst (λ vs. (map (λ v. v.0) vs ≡ []) × All (λ v. v.1 ≤ max_custom_stat) vs)
      (ok-injective [] values h) (refl, tt)
stat_values-bounded (key ∷ keys) entry values h =
    let (value, made, next) = bind-ok (stat_value (lookup key entry)) _ values h in
    let (rest, made_rest, last) = bind-ok (stat_values keys entry) _ values next in
    let (same, bounded) = stat_values-bounded keys entry rest made_rest in
    subst (λ vs. (map (λ v. v.0) vs ≡ (key ∷ keys)) × All (λ v. v.1 ≤ max_custom_stat) vs)
      (ok-injective ((key, value) ∷ rest) values last)
      (ap (λ ks. key ∷ ks) same, (stat_value-bounded (lookup key entry) value made, bounded))

module _ (py : Python) (stats types : List String) where
  object-IsItem :
      (seen : List String) (entry : Fields) (i : Item)
      → custom_item py stats types seen (object entry) ≡ ok i
      → IsItem py stats types entry i × (contains (py.casefold i.name) seen ≡ false)
  unfolding custom_item
  object-IsItem seen entry i h =
      let (named, h1) =
        raise_if-ok (not (py.is_custom_item_name (text_field py "name" "" entry))) request_error _ i
          h in
      let (fresh, h2) =
        raise_if-ok (contains (py.casefold (text_field py "name" "" entry)) seen) request_error _ i
          h1 in
      let (typed, h3) =
        raise_if-ok (not (contains (text_field py "type" "" entry) types)) request_error _ i h2 in
      let (values, made, last) = bind-ok (stat_values stats entry) _ i h3 in
      let (same, bounded) = stat_values-bounded stats entry values made in
      subst (λ x. IsItem py stats types entry x × (contains (py.casefold x.name) seen ≡ false))
        (ok-injective
          (record {
            name = text_field py "name" "" entry;
            item_type = text_field py "type" "" entry;
            values = values;
          })
          i last)
        (
          record {
            named = refl;
            typed = refl;
            good_name = ground (arith, named);
            known_type = ground (arith, typed);
            its_stats = same;
            in_range = bounded;
          },
          fresh,
        )

  custom_item-IsItem :
      (seen : List String) (entry : Json) (i : Item)
      → custom_item py stats types seen entry ≡ ok i
      → (fields : Fields) × (entry ≡ object fields)
        × IsItem py stats types fields i
        × (contains (py.casefold i.name) seen ≡ false)
  unfolding custom_item
  custom_item-IsItem seen (object fields) i h =
      let (made, fresh) = object-IsItem seen fields i h in (fields, refl, made, fresh)
  custom_item-IsItem seen null i h = absurd (ground (arith, h))
  custom_item-IsItem seen (boolean b) i h = absurd (ground (arith, h))
  custom_item-IsItem seen (pos n) i h = absurd (ground (arith, h))
  custom_item-IsItem seen (negsuc n) i h = absurd (ground (arith, h))
  custom_item-IsItem seen (real b) i h = absurd (ground (arith, h))
  custom_item-IsItem seen (string s) i h = absurd (ground (arith, h))
  custom_item-IsItem seen (array js) i h = absurd (ground (arith, h))

  -- The folded names of a list of items, and of none of those that were seen.
  abbrev folded : List Item → List String
  folded is = map (λ (i : Item). py.casefold i.name) is

  -- No name was seen, and none is there twice.
  abbrev AreNew : List String → List String → Type 0
  AreNew seen [] = Unit
  AreNew seen (name ∷ names) = (contains name seen ≡ false) × AreNew (name ∷ seen) names

  from-AreItems :
      (seen : List String) (entries : List Json) (is : List Item)
      → custom_items_from py stats types seen entries ≡ ok is
      → AreItems py stats types entries is × AreNew seen (folded is)
  unfolding custom_items_from
  from-AreItems seen [] is h =
      subst (λ xs. AreItems py stats types [] xs × AreNew seen (folded xs)) (ok-injective [] is h)
        (no_more, tt)
  from-AreItems seen (entry ∷ entries) is h =
      let (i, made, next) = bind-ok (custom_item py stats types seen entry) _ is h in
      let (rest, made_rest, last) =
        bind-ok (custom_items_from py stats types (py.casefold i.name ∷ seen) entries) _ is next in
      let (fields, is_object, good, fresh) = custom_item-IsItem seen entry i made in
      let (all, new) = from-AreItems (py.casefold i.name ∷ seen) entries rest made_rest in
      subst (λ xs. AreItems py stats types (entry ∷ entries) xs × AreNew seen (folded xs))
        (ok-injective (i ∷ rest) is last)
        (
          subst (λ e. AreItems py stats types (e ∷ entries) (i ∷ rest)) (sym is_object)
              (one_more fields entries i rest good all),
          (fresh, new),
        )

  AreNew-contains :
      (seen names : List String) (name : String)
      → AreNew seen names
      → contains name seen ≡ true
      → contains name names ≡ false
  unfolding contains
  AreNew-contains seen [] name new h = refl
  AreNew-contains seen (n ∷ names) name new h = ground (
    arith,
    eq_iff n name,
    new.0,
    h,
    AreNew-contains (n ∷ seen) names name new.1 (ground (arith, h)),
  )

  AreNew-Distinct : (seen names : List String) → AreNew seen names → Distinct names
  unfolding contains
  AreNew-Distinct seen [] new = tt
  AreNew-Distinct seen (n ∷ names) new = (
    AreNew-contains (n ∷ seen) names n new.1 (ground (arith, eq_iff n n)),
    AreNew-Distinct (n ∷ seen) names new.1,
  )

  AreItems-length :
      (entries : List Json) (is : List Item)
      → AreItems py stats types entries is
      → length is ≡ length entries
  AreItems-length _ _ no_more = refl
  AreItems-length _ _ (one_more entry entries i is here rest) =
      omega (arith, AreItems-length entries is rest)

  array-IsPool :
      (js : Jsons) (is : List Item)
      → custom_items py stats types (some (array js)) ≡ ok is
      → AreItems py stats types (items js) is
        × Distinct (folded is)
        × (length is ≤ max_custom_pool_items)
  unfolding custom_items
  array-IsPool js is h =
      let (few, h1) =
        raise_if-ok (ltb max_custom_pool_items (length (items js))) request_error _ is h in
      let (made, new) = from-AreItems [] (items js) is h1 in
      (
        made,
        AreNew-Distinct [] (folded is) new,
        ground (arith, few, AreItems-length (items js) is made),
      )

-- The entries of a field that may be missing or null.
unfoldable pub entries_of : Option Json → List Json
entries_of (some (array js)) = items js
entries_of raw = []

nothing-AreItems :
    (py : Python) (stats types : List String) (is : List Item)
    → ok [] ≡ ok is
    → AreItems py stats types [] is
      × Distinct (map (λ (i : Item). py.casefold i.name) is)
      × (length is ≤ max_custom_pool_items)
nothing-AreItems py stats types is h =
    subst
      (λ xs.
        AreItems py stats types [] xs
        × Distinct (map (λ (i : Item). py.casefold i.name) xs)
        × (length xs ≤ max_custom_pool_items))
      (ok-injective [] is h) (no_more, tt, omega arith)

-- The items that are accepted are those of the field's entries, one for each and in order, with a name that the
-- pattern allows and that no other has in another case, a known type, and every stat in 0..999; at
-- most 15 of them. A field that is missing or null is accepted as no items.
pub custom_items-AreItems :
    (py : Python) (stats types : List String) (raw : Option Json) (is : List Item)
    → custom_items py stats types raw ≡ ok is
    → AreItems py stats types (entries_of raw) is
      × Distinct (map (λ (i : Item). py.casefold i.name) is)
      × (length is ≤ max_custom_pool_items)
unfolding entries_of custom_items
custom_items-AreItems py stats types none is h = nothing-AreItems py stats types is h
custom_items-AreItems py stats types (some null) is h = nothing-AreItems py stats types is h
custom_items-AreItems py stats types (some (array js)) is h = array-IsPool py stats types js is h
custom_items-AreItems py stats types (some (boolean b)) is h = absurd (ground (arith, h))
custom_items-AreItems py stats types (some (pos n)) is h = absurd (ground (arith, h))
custom_items-AreItems py stats types (some (negsuc n)) is h = absurd (ground (arith, h))
custom_items-AreItems py stats types (some (real b)) is h = absurd (ground (arith, h))
custom_items-AreItems py stats types (some (string s)) is h = absurd (ground (arith, h))
custom_items-AreItems py stats types (some (object fs)) is h = absurd (ground (arith, h))
