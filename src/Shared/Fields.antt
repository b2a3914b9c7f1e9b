-- ===== src/Shared/Fields.antt =====
-- The body of a PATCH request: `payload.model_dump(exclude_unset=True)` and the assignments from it.
-- A field of a PATCH body: not set, null, or a value.
use ats_project_management_b.Prelude.{Bool, Option, false, none, some, true}

pub data Field (A : Type 0) : Type 0 where
  unset : Field A
  null : Field A
  value : A → Field A

abbrev pub is_set : {A : Type 0} → Field A → Bool
is_set Field.unset = false
is_set Field.null = true
is_set (Field.value a) = true

abbrev pub is_null : {A : Type 0} → Field A → Bool
is_null Field.unset = false
is_null Field.null = true
is_null (Field.value a) = false

-- `setattr(entity, field, value)` for a field that is set; what a null does is the caller's matter.
abbrev pub set_field : {A : Type 0} → Field A → A → A
set_field Field.unset old = old
set_field Field.null old = old
set_field (Field.value a) old = a

-- The same for a column that may be null.
abbrev pub set_nullable : {A : Type 0} → Field A → Option A → Option A
set_nullable Field.unset old = old
set_nullable Field.null old = none
set_nullable (Field.value a) old = some a

-- A conversion of the value, if there is one.
abbrev pub map_field : {A B : Type 0} → (A → B) → Field A → Field B
map_field f Field.unset = Field.unset
map_field f Field.null = Field.null
map_field f (Field.value a) = Field.value (f a)
