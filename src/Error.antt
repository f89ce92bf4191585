-- ===== src/Error.antt =====
-- crates/clayers-repo/src/error.rs, and the results of the asynchronous functions.
use clayers.Prelude.{String, ◌≡◌, refl, Option, none, some, ℕ, ◌⊎◌, inl, inr, ◌≢◌}

-- `ContentHash([u8; 32])`: the 32 bytes read as one number. Only its equality is used here.
abbrev pub ContentHash : Type 0
ContentHash = ℕ

-- crates/clayers-xml/src/error.rs; an `io::Error` by its text.
pub data XmlError : Type 0 where
  xml_parse : String → XmlError
  xml_serialize : String → XmlError
  canonicalization : String → XmlError
  invalid_hash_format : String → XmlError
  query : String → XmlError
  xslt : String → XmlError
  io : String → XmlError

pub data Error : Type 0 where
  xml : XmlError → Error
  xml_parse : String → Error
  storage : String → Error
  not_found : ContentHash → Error
  invalid_object : String → Error
  ref : String → Error
  empty_document : Error

-- `out_of_fuel` is no value of the program: the model of a loop gives it when its fuel runs out,
-- which the theorems on termination exclude, and a call that waits for ever has no other result.
pub data Result {ℓ} (A : Type ℓ) : Type ℓ where
  ok : A → Result A
  err : Error → Result A
  out_of_fuel : Result A

infixl 10 ◌>>=◌
abbrev pub ◌>>=◌ {ℓ κ} : {X : Type ℓ} {Y : Type κ} → Result X → (X → Result Y) → Result Y
out_of_fuel >>= k = out_of_fuel
err x >>= k = err x
ok a >>= k = k a

infixl 10 ◌>>◌
abbrev pub ◌>>◌ {ℓ κ} : {A : Type ℓ} {B : Type κ} → Result A → Result B → Result B
m >> k = m >>= λ _. k

-- `Option::ok_or`
abbrev pub ok_or {ℓ} : {A : Type ℓ} → Error → Option A → Result A
ok_or e none = err e
ok_or e (some a) = ok a

pub Result-cases {ℓ} :
    {A : Type ℓ} (r : Result A)
    → ((a : A) × (r ≡ ok a)) ⊎ ((e : Error) × (r ≡ err e)) ⊎ (r ≡ out_of_fuel)
Result-cases (ok a) = inl (a, refl)
Result-cases (err e) = inr (inl (e, refl))
Result-cases out_of_fuel = inr (inr refl)

module _ {ℓ κ} {X : Type ℓ} {Y : Type κ} where
  -- A chain of calls comes to an end if each of its calls does.
  pub >>=-ne-out_of_fuel :
      (r : Result X) (k : X → Result Y)
      → r ≢ out_of_fuel
      → ((x : X) → r ≡ ok x → k x ≢ out_of_fuel)
      → (r >>= k) ≢ out_of_fuel
  >>=-ne-out_of_fuel out_of_fuel k ends each = λ p. ends refl
  >>=-ne-out_of_fuel (err e) k ends each = λ p. cc
  >>=-ne-out_of_fuel (ok x) k ends each = each x refl

  -- Inversion of a successful bind.
  pub >>=-eq-ok :
      (r : Result X) (k : X → Result Y) {y : Y}
      → (r >>= k) ≡ ok y
      → (x : X) × (r ≡ ok x) × (k x ≡ ok y)
  >>=-eq-ok out_of_fuel k p = cc
  >>=-eq-ok (err e) k p = cc
  >>=-eq-ok (ok x) k p = (x, refl, p)
