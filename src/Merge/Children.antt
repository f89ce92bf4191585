-- ===== src/Merge/Children.antt =====
-- The identity of child nodes: `ChildKey` and `key_children` (crates/clayers-repo/src/merge.rs).
pub mod Keys
use clayers.Prelude.{
  arith, ℕ, ◌+◌, ◌≡◌, refl, sym, ap, ◌∙◌, ◌↔◌, String, Bool, true, false, ◌||◌, ◌&&◌, Option, none,
  some, List, [], ◌∷◌, ◌==◌, Eq, ==_iff, pair_eq, nat_eq, string_eq, option_eq, if◌then◌else◌,
}
use clayers.Prelude.Dict.{Dict, lookup, insert}
use clayers.Error.{ContentHash, Result, ok, ◌>>=◌}
use clayers.Object.{Object, element, text, comment, Attribute, ElementObject}
use clayers.Store.{fetch}

pub data ChildKey : Type 0 where
  element_by_id : String → String → ChildKey
  element_by_pos : String → ℕ → ChildKey
  text_at comment_at other_at : ℕ → ChildKey

abbrev key_beq : ChildKey → ChildKey → Bool
key_beq (element_by_id n i) (element_by_id m j) = n == m && i == j
key_beq (element_by_pos n i) (element_by_pos m j) = n == m && i == j
key_beq (text_at i) (text_at j) = i == j
key_beq (comment_at i) (comment_at j) = i == j
key_beq (other_at i) (other_at j) = i == j
key_beq _ _ = false

pub key_beq_iff : (k l : ChildKey) → (key_beq k l ≡ true) ↔ (k ≡ l)
key_beq_iff (element_by_id n i) (element_by_id m j) = ground (arith, ==_iff n m, ==_iff i j)
key_beq_iff (element_by_pos n i) (element_by_pos m j) = ground (arith, ==_iff n m, ==_iff i j)
key_beq_iff (text_at i) (text_at j) = ground (arith, ==_iff i j)
key_beq_iff (comment_at i) (comment_at j) = ground (arith, ==_iff i j)
key_beq_iff (other_at i) (other_at j) = ground (arith, ==_iff i j)
key_beq_iff _ _ = (λ h. cc, λ h. cc)

-- `ChildKey`'s derived `Eq`; shut, so that proofs do not compute through the keys.
instance unfoldable pub child_key_eq : Eq ChildKey
child_key_eq = record { beq = key_beq; beq_iff = key_beq_iff }

-- `name_counts` and the three indices.
pub record Counters : Type 0 where
  pub name_counts : Dict String ℕ
  pub text_idx : ℕ
  pub comment_idx : ℕ
  pub other_idx : ℕ

abbrev pub start : Counters
start = record { name_counts = []; text_idx = 0; comment_idx = 0; other_idx = 0 }

abbrev or_zero : Option ℕ → ℕ
or_zero none = 0
or_zero (some n) = n

-- `*name_counts.entry(name).or_insert(0)`
abbrev pub count : String → Counters → ℕ
count name c = or_zero (lookup name c.name_counts)

abbrev is_id : Attribute → Bool
is_id a =
    a.local_name == "id"
    && (a.namespace_uri == none || a.namespace_uri == some "http://www.w3.org/XML/1998/namespace")

-- The value of the first attribute that is an `@id`.
unfoldable pub id_value : List Attribute → Option String
id_value [] = none
id_value (a ∷ attrs) = if is_id a then some a.value else id_value attrs

abbrev element_key : String → Option String → Counters → ChildKey × Counters
element_key name (some id) c = (element_by_id name id, c)
element_key name none c = (
  element_by_pos name (count name c),
  record c { name_counts = insert name (count name c + 1) c.name_counts },
)

-- The key of one object, and the counters after it.
unfoldable pub key_of_child : Object → Counters → ChildKey × Counters
key_of_child (element e) c = element_key e.local_name (id_value e.attributes) c
key_of_child (text t) c = (text_at c.text_idx, record c { text_idx = c.text_idx + 1 })
key_of_child (comment t) c =
    (comment_at c.comment_idx, record c { comment_idx = c.comment_idx + 1 })
key_of_child o c = (other_at c.other_idx, record c { other_idx = c.other_idx + 1 })

module _ (get : ContentHash → Result (Option Object)) where
  -- The loop.
  unfoldable pub key_each : List ContentHash → Counters → Result (List (ChildKey × ContentHash))
  key_each [] c = ok []
  key_each (h ∷ children) c = fetch get h >>= λ o.
      key_each children (key_of_child o c).1 >>= λ rest. ok (((key_of_child o c).0, h) ∷ rest)

  unfoldable pub key_children : List ContentHash → Result (List (ChildKey × ContentHash))
  key_children children = key_each children start
