-- ===== src/Merge/Attributes/Values.antt =====
-- The values of attribute lists: what the maps hold, and what the verdicts make of three values.
use clayers.Prelude.{
  String, ◌≡◌, refl, ◌∙◌, true, false, ◌||◌, Option, none, some, List, [], ◌∷◌, contains, distinct,
  ==_iff, string_eq, option_eq, add_all, contains-add_all, distinct-add_all, arith,
}
use clayers.Prelude.Dict.{Dict, lookup, insert, collect, lookup-insert}
use clayers.Object.{Attribute}
use clayers.Merge.ThreeWay.{three_way}
use clayers.Merge.Attributes.{
  Key, key_of, keyed, keys_of, attribute_map, key_eq, ordered_keys, Verdict, keep, gone, clash,
  judge,
}

abbrev pub value_of_attribute : Option Attribute → Option String
value_of_attribute none = none
value_of_attribute (some a) = some a.value

-- The value that a list of attributes gives to a key.
abbrev pub value_of : Key → List Attribute → Option String
value_of k attrs = value_of_attribute (lookup k (attribute_map attrs))

-- What a verdict makes of the three values.
abbrev pub verdict_value : Verdict → Option (Option String)
verdict_value (keep a) = some (some a.value)
verdict_value gone = some none
verdict_value clash = none

pub judge-three_way :
    (a o t : Option Attribute)
    → verdict_value (judge a o t)
      ≡ three_way (value_of_attribute a) (value_of_attribute o) (value_of_attribute t)
unfolding judge
judge-three_way (some a) (some o) (some t) = ground arith
judge-three_way none (some o) none = ground arith
judge-three_way none none (some t) = ground arith
judge-three_way none (some o) (some t) = ground arith
judge-three_way (some a) none (some t) = ground arith
judge-three_way (some a) (some o) none = ground arith
judge-three_way (some a) none none = ground arith
judge-three_way none none none = ground arith

-- An attribute stands in a map under its own key.
abbrev pub Keyed : Dict Key Attribute → Type 0
Keyed d = (k : Key) (a : Attribute) → lookup k d ≡ some a → key_of a ≡ k

pub collect-Keyed :
    (d : Dict Key Attribute) (attrs : List Attribute) → Keyed d → Keyed (collect d (keyed attrs))
unfolding collect
collect-Keyed d [] h = h
collect-Keyed d (a ∷ attrs) h =
    collect-Keyed (insert (key_of a) a d) attrs
      (λ k b e. ground (arith, lookup-insert k (key_of a) a d, ==_iff (key_of a) k, h k b, e))

pub attribute_map-Keyed : (attrs : List Attribute) → Keyed (attribute_map attrs)
unfolding attribute_map lookup
attribute_map-Keyed attrs = collect-Keyed [] attrs (λ k a e. cc)

pub judge-Keyed :
    (k : Key) (a o t : Option Attribute) (b : Attribute)
    → ((x : Attribute) → o ≡ some x → key_of x ≡ k)
    → ((x : Attribute) → t ≡ some x → key_of x ≡ k)
    → judge a o t ≡ keep b
    → key_of b ≡ k
unfolding judge
judge-Keyed k (some a) (some o) (some t) b ho ht e = ground (arith, ho o refl, ht t refl)
judge-Keyed k none (some o) none b ho ht e = ground (arith, ho o refl)
judge-Keyed k none none (some t) b ho ht e = ground (arith, ht t refl)
judge-Keyed k none (some o) (some t) b ho ht e = ground (arith, ho o refl)
judge-Keyed k (some a) none (some t) b ho ht e = ground arith
judge-Keyed k (some a) (some o) none b ho ht e = ground arith
judge-Keyed k (some a) none none b ho ht e = cc
judge-Keyed k none none none b ho ht e = cc

-- The keys are all those of the three lists, each once.
pub contains-ordered_keys :
    (a o t : List Attribute) (k : Key)
    → contains (ordered_keys a o t) k
      ≡ (contains (keys_of o) k || contains (keys_of t) k || contains (keys_of a) k)
unfolding ordered_keys
contains-ordered_keys a o t k = ground (
  arith,
  contains-add_all (add_all (add_all [] (keys_of o)) (keys_of t)) (keys_of a) k,
  contains-add_all (add_all [] (keys_of o)) (keys_of t) k,
  contains-add_all [] (keys_of o) k,
)

pub distinct-ordered_keys : (a o t : List Attribute) → distinct (ordered_keys a o t) ≡ true
unfolding ordered_keys
distinct-ordered_keys a o t =
    distinct-add_all _ (keys_of a)
      (distinct-add_all _ (keys_of t) (distinct-add_all [] (keys_of o) refl))

pub lookup-collect_none :
    (d : Dict Key Attribute) (attrs : List Attribute) (k : Key)
    → contains (keys_of attrs) k ≡ false
    → lookup k (collect d (keyed attrs)) ≡ lookup k d
unfolding collect
lookup-collect_none d [] k n = refl
lookup-collect_none d (a ∷ attrs) k n =
    lookup-collect_none (insert (key_of a) a d) attrs k (ground arith)
    ∙ ground (arith, lookup-insert k (key_of a) a d)

-- A list gives no value to a key that it does not have.
pub attribute_map-none :
    (attrs : List Attribute) (k : Key)
    → contains (keys_of attrs) k ≡ false
    → lookup k (attribute_map attrs) ≡ none
unfolding attribute_map lookup
attribute_map-none attrs k n = lookup-collect_none [] attrs k n ∙ (unfold lookup in refl)

abbrev pub kept_value : Verdict → Option Attribute → Option Attribute
kept_value (keep a) old = some a
kept_value gone old = old
kept_value clash old = old
