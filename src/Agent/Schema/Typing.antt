-- ===== src/Agent/Schema/Typing.antt =====
-- Which values have a declared type, independently of the `switch` of validateProperty in
-- internal/agent/schema.go.
use Prim.Native.Nat.{◌/◌, ◌%◌, ◌^◌}
use native.Mathlib.Nat.{mul-mod_left, div-add-mod'}
use ai_etl_platform.Common.{
  ℕ, ◌*◌, String, str_eq, eq_iff, ◌≡◌, ◌↔◌, ◌⊎◌, ◌∙◌, inl, inr, refl, ap, List, [], ◌∷◌, Bool, true,
  Among, arith, Bool-cases,
}
use ai_etl_platform.Agent.Types.{Json, Float64, Items, Fields, dyadic, bool, num, str, arr, obj}
use ai_etl_platform.Agent.Schema.{
  SchemaProperty, fits, contains, is_whole, is_string_in, is_number, is_integer, is_boolean,
  is_object, is_array,
}

-- A value of a property's declared type: anything where none is declared, a text that is one of
-- the listed ones if any are, a number, a number `n` without a fraction, and so on.
pub data HasType (prop : SchemaProperty) : Json → Type 0 where
  of_any : {v : Json} → (prop.type ≡ "") ⊎ (prop.type ≡ "any") → HasType prop v
  of_string :
      {s : String}
      → prop.type ≡ "string"
      → (prop.enum ≡ []) ⊎ Among s prop.enum
      → HasType prop (str s)
  of_number : {x : Float64} → prop.type ≡ "number" → HasType prop (num x)
  of_integer :
      {sign : Bool} {m k : ℕ} (n : ℕ)
      → prop.type ≡ "integer"
      → m ≡ n * 2 ^ k
      → HasType prop (num (dyadic sign m k))
  of_boolean : {b : Bool} → prop.type ≡ "boolean" → HasType prop (bool b)
  of_object : {fs : Fields} → prop.type ≡ "object" → HasType prop (obj fs)
  of_array : {xs : Items} → prop.type ≡ "array" → HasType prop (arr xs)

contains_iff : (xs : List String) (s : String) → (contains xs s ≡ true) ↔ Among s xs
unfolding contains
contains_iff [] s = (λ h. ground (arith, h), λ h. absurd h)
contains_iff (x ∷ xs) s =
    let ih = contains_iff xs s in
    (
      λ h. elim (Bool-cases (str_eq x s)) [
        | inl e ↦ inl (ground (arith, e, eq_iff x s))
        | inr e ↦ inr (ih.0 (ground (arith, e, h)))
      ],
      λ h. elim h [
        | inl e ↦ ground (arith, e, eq_iff x s)
        | inr t ↦ let r = ih.1 t in ground (arith, r)
      ],
    )

listed :
    (enum : List String) (s : String)
    → is_string_in enum (str s) ≡ true
    → (enum ≡ []) ⊎ Among s enum
listed [] s h = inl refl
listed (x ∷ xs) s h = inr ((contains_iff (x ∷ xs) s).0 h)

listed_back :
    (enum : List String) (s : String)
    → (enum ≡ []) ⊎ Among s enum
    → is_string_in enum (str s) ≡ true
listed_back [] s h = refl
listed_back (x ∷ xs) s (inl e) = absurd (ground (arith, e))
listed_back (x ∷ xs) s (inr t) = (contains_iff (x ∷ xs) s).1 t

whole : (sign : Bool) (m k : ℕ) → is_whole (dyadic sign m k) ≡ true → m ≡ m / 2 ^ k * 2 ^ k
whole sign m k h =
    let e : m % 2 ^ k ≡ 0 = ground (arith, h) in omega (arith, e, div-add-mod' m (2 ^ k))

-- what `fits` has found out
fits-cases :
    (prop : SchemaProperty) (v : Json)
    → fits prop v ≡ true
    → ((prop.type ≡ "") ⊎ (prop.type ≡ "any"))
      ⊎ ((prop.type ≡ "string") × (is_string_in prop.enum v ≡ true))
      ⊎ ((prop.type ≡ "number") × (is_number v ≡ true))
      ⊎ ((prop.type ≡ "integer") × (is_integer v ≡ true))
      ⊎ ((prop.type ≡ "boolean") × (is_boolean v ≡ true))
      ⊎ ((prop.type ≡ "object") × (is_object v ≡ true))
      ⊎ ((prop.type ≡ "array") × (is_array v ≡ true))
unfolding fits
fits-cases prop v h = ground (
  arith,
  h,
  eq_iff prop.type "",
  eq_iff prop.type "any",
  eq_iff prop.type "string",
  eq_iff prop.type "number",
  eq_iff prop.type "integer",
  eq_iff prop.type "boolean",
  eq_iff prop.type "object",
  eq_iff prop.type "array",
)

fits-HasType : (prop : SchemaProperty) (v : Json) → fits prop v ≡ true → HasType prop v
fits-HasType prop v h = found v (fits-cases prop v h)
  where
    found :
        (v : Json)
        → ((prop.type ≡ "") ⊎ (prop.type ≡ "any"))
          ⊎ ((prop.type ≡ "string") × (is_string_in prop.enum v ≡ true))
          ⊎ ((prop.type ≡ "number") × (is_number v ≡ true))
          ⊎ ((prop.type ≡ "integer") × (is_integer v ≡ true))
          ⊎ ((prop.type ≡ "boolean") × (is_boolean v ≡ true))
          ⊎ ((prop.type ≡ "object") × (is_object v ≡ true))
          ⊎ ((prop.type ≡ "array") × (is_array v ≡ true))
        → HasType prop v
    found v (inl a) = of_any a
    found (str s) (inr (inl (t, e))) = of_string t (listed prop.enum s e)
    found (num x) (inr (inr (inl (t, e)))) = of_number t
    found (num (dyadic sign m k)) (inr (inr (inr (inl (t, e))))) =
        of_integer (m / 2 ^ k) t (whole sign m k e)
    found (bool b) (inr (inr (inr (inr (inl (t, e)))))) = of_boolean t
    found (obj fs) (inr (inr (inr (inr (inr (inl (t, e))))))) = of_object t
    found (arr xs) (inr (inr (inr (inr (inr (inr (t, e))))))) = of_array t
    found _ (inr (inl (t, e))) = absurd (ground (arith, e))
    found _ (inr (inr (inl (t, e)))) = absurd (ground (arith, e))
    found _ (inr (inr (inr (inl (t, e))))) = absurd (ground (arith, e))
    found _ (inr (inr (inr (inr (inl (t, e)))))) = absurd (ground (arith, e))
    found _ (inr (inr (inr (inr (inr (inl (t, e))))))) = absurd (ground (arith, e))
    found _ (inr (inr (inr (inr (inr (inr (t, e))))))) = absurd (ground (arith, e))

HasType-fits : (prop : SchemaProperty) (v : Json) → HasType prop v → fits prop v ≡ true
unfolding fits
HasType-fits prop v (of_any (inl t)) = rw t refl
HasType-fits prop v (of_any (inr t)) = rw t refl
HasType-fits prop _ (of_string {s} t l) = rw t (listed_back prop.enum s l)
HasType-fits prop _ (of_number t) = rw t refl
HasType-fits prop _ (of_integer {sign} {m} {k} n t e) =
    rw t
      (let z : m % 2 ^ k ≡ 0 = ap (λ x. x % 2 ^ k) e ∙ mul-mod_left n (2 ^ k) in ground (arith, z))
HasType-fits prop _ (of_boolean t) = rw t refl
HasType-fits prop _ (of_object t) = rw t refl
HasType-fits prop _ (of_array t) = rw t refl

pub fits_iff : (prop : SchemaProperty) (v : Json) → (fits prop v ≡ true) ↔ HasType prop v
fits_iff prop v = (fits-HasType prop v, HasType-fits prop v)
