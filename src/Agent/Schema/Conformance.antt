-- ===== src/Agent/Schema/Conformance.antt =====
-- What validation lets through, and what it refuses.
use ai_etl_platform.Common.{
  String, ◌≡◌, ◌↔◌, ◌⊎◌, inl, inr, refl, true, Bool-cases, Option, none, some, List, [], ◌∷◌, arith,
  Dict, get, has, ok, is_blank, trim_space, str_eq, ◌||◌,
}
use ai_etl_platform.Agent.Types.{Json, RawMessage}
use ai_etl_platform.Agent.Schema.Typing.{HasType, fits_iff}
use ai_etl_platform.Agent.Schema.{
  SchemaProperty, JsonSchema, decode, first_missing, first_unknown, first_misfit, misfit_at,
  validate_property, validate_arguments,
}

-- Every required name that is not blank has an argument.
abbrev pub HasRequired : Dict Json → List String → Type 0
HasRequired args [] = Unit
HasRequired args (r ∷ rs) =
    ((is_blank r ≡ true) ⊎ ((v : Json) × (get args (trim_space r) ≡ some v))) × HasRequired args rs

-- Every argument is declared.
abbrev pub Declares : Dict SchemaProperty → Dict Json → Type 0
Declares properties [] = Unit
Declares properties ((name, v) ∷ rest) =
    ((p : SchemaProperty) × (get properties name ≡ some p)) × Declares properties rest

abbrev FitsIfGiven : SchemaProperty → Option Json → Type 0
FitsIfGiven prop none = Unit
FitsIfGiven prop (some v) = HasType prop v

-- Every declared property that is given has its declared type.
abbrev pub FitsAll : Dict Json → Dict SchemaProperty → Type 0
FitsAll args [] = Unit
FitsAll args ((name, prop) ∷ rest) = FitsIfGiven prop (get args name) × FitsAll args rest

given : {A : Type 0} (o : Option A) → has o ≡ true → (v : A) × (o ≡ some v)
given none h = absurd (ground (arith, h))
given (some v) h = (v, refl)

missing_iff :
    (args : Dict Json) (rs : List String) → (first_missing args rs ≡ none) ↔ HasRequired args rs
unfolding first_missing
missing_iff args [] = (λ h. tt, λ h. refl)
missing_iff args (r ∷ rs) =
    let ih = missing_iff args rs in
    (
      λ h. elim (Bool-cases (is_blank r)) [
        | inl b ↦ (inl b, ih.0 (ground (arith, b, h)))
        | inr b ↦ (
          inr (given (get args (trim_space r)) (ground (arith, b, h))),
          ih.0 (ground (arith, b, h)),
        )
      ],
      λ h.
          let rest = ih.1 h.1 in
          elim h.0 [ inl b ↦ ground (arith, b, rest) | inr (v, e) ↦ ground (arith, e, rest) ],
    )

unknown_iff :
    (ps : Dict SchemaProperty) (args : Dict Json)
    → (first_unknown ps args ≡ none) ↔ Declares ps args
unfolding first_unknown
unknown_iff ps [] = (λ h. tt, λ h. refl)
unknown_iff ps ((name, v) ∷ rest) =
    let ih = unknown_iff ps rest in
    (
      λ h. (given (get ps name) (ground (arith, h)), ih.0 (ground (arith, h))),
      λ h. let r = ih.1 h.1 in ground (arith, h.0.1, r),
    )

misfit_at_iff :
    (name : String) (prop : SchemaProperty) (o : Option Json)
    → (misfit_at name prop o ≡ none) ↔ FitsIfGiven prop o
unfolding misfit_at validate_property
misfit_at_iff name prop none = (λ h. tt, λ h. refl)
misfit_at_iff name prop (some v) = (
  λ h. (fits_iff prop v).0 (ground (arith, h)),
  λ h. let e = (fits_iff prop v).1 h in ground (arith, e),
)

misfit_iff :
    (args : Dict Json) (ps : Dict SchemaProperty) → (first_misfit args ps ≡ none) ↔ FitsAll args ps
unfolding first_misfit
misfit_iff args [] = (λ h. tt, λ h. refl)
misfit_iff args ((name, prop) ∷ rest) =
    let ih = misfit_iff args rest in
    let at = misfit_at_iff name prop (get args name) in
    (
      λ h. (at.0 (ground (arith, h)), ih.0 (ground (arith, h))),
      λ h. let r = ih.1 h.1 in let q = at.1 h.0 in ground (arith, q, r),
    )

-- Validation succeeds with `args` exactly when the schema's root is an object (or blank), the raw
-- message decodes to the object `args`, every required name that is not blank is given, no
-- argument is undeclared unless additional ones are allowed, and every declared property that is
-- given has its declared type: a text among the listed ones, if any are, a number, a number without
-- a fraction, a Boolean, an object or an array, or any value where the type is left open.
pub validate_arguments_iff :
    (schema : JsonSchema) (raw : RawMessage) (args : Dict Json)
    → (validate_arguments schema raw ≡ ok args) ↔ (
        ((is_blank schema.type || str_eq schema.type "object") ≡ true)
        × (decode raw ≡ ok args)
        × HasRequired args schema.required
        × ((schema.additional_properties ≡ true) ⊎ Declares schema.properties args)
        × FitsAll args schema.properties)
unfolding validate_arguments
validate_arguments_iff schema raw args = (conforms, accepts)
  where
    conforms :
        validate_arguments schema raw ≡ ok args
        → ((is_blank schema.type || str_eq schema.type "object") ≡ true)
          × (decode raw ≡ ok args)
          × HasRequired args schema.required
          × ((schema.additional_properties ≡ true) ⊎ Declares schema.properties args)
          × FitsAll args schema.properties
    conforms h = (
      ground (arith, h),
      ground (arith, h),
      (missing_iff args schema.required).0 (ground (arith, h)),
      elim (Bool-cases schema.additional_properties) [
        | inl e ↦ inl e
        | inr e ↦ inr ((unknown_iff schema.properties args).0 (ground (arith, h, e)))
      ],
      (misfit_iff args schema.properties).0 (ground (arith, h)),
    )

    accepts :
        ((is_blank schema.type || str_eq schema.type "object") ≡ true)
          × (decode raw ≡ ok args)
          × HasRequired args schema.required
          × ((schema.additional_properties ≡ true) ⊎ Declares schema.properties args)
          × FitsAll args schema.properties
        → validate_arguments schema raw ≡ ok args
    accepts (root, d, r, inl a, f) =
        ground
          (arith, (missing_iff args schema.required).1 r, (misfit_iff args schema.properties).1 f)
    accepts (root, d, r, inr a, f) = ground (
      arith,
      (missing_iff args schema.required).1 r,
      (unknown_iff schema.properties args).1 a,
      (misfit_iff args schema.properties).1 f,
    )
