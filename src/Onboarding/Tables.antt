-- ===== src/Onboarding/Tables.antt =====
-- The three questions of the first run and what their answers stand for
-- (apps/web/lib/onboarding.ts).
use stseen.Prelude.{Bool, List, [], ◌∷◌, any, Text, text_eq, codes}

pub data LookingFor : Type 0 where
  internship : LookingFor
  new_grad : LookingFor
  co_op : LookingFor

-- `LOOKING_FOR_VALUES`
abbrev pub looking_for_values : List LookingFor
looking_for_values = internship ∷ new_grad ∷ co_op ∷ []

abbrev pub looking_for_text : LookingFor → Text
looking_for_text internship = codes "internship"
looking_for_text new_grad = codes "new_grad"
looking_for_text co_op = codes "co_op"

-- The program types that an answer covers, in `LOOKING_FOR`.
abbrev pub types_of : LookingFor → List Text
types_of internship = codes "internship" ∷ []
types_of new_grad =
    codes "new_grad" ∷ codes "graduate_program" ∷ codes "rotational" ∷ codes "apprenticeship" ∷ []
types_of co_op = codes "co_op" ∷ []

pub data FieldValue : Type 0 where
  software_engineering : FieldValue
  machine_learning : FieldValue
  data_field : FieldValue
  infrastructure : FieldValue
  security : FieldValue
  hardware : FieldValue
  robotics : FieldValue
  quantitative : FieldValue
  product_management : FieldValue
  design : FieldValue
  other_engineering : FieldValue

-- `FIELD_VALUES`
abbrev pub field_values : List FieldValue
field_values =
    software_engineering ∷ machine_learning ∷ data_field ∷ infrastructure ∷ security ∷ hardware
    ∷ robotics ∷ quantitative ∷ product_management ∷ design ∷ other_engineering ∷ []

abbrev pub field_text : FieldValue → Text
field_text software_engineering = codes "software_engineering"
field_text machine_learning = codes "machine_learning"
field_text data_field = codes "data"
field_text infrastructure = codes "infrastructure"
field_text security = codes "security"
field_text hardware = codes "hardware"
field_text robotics = codes "robotics"
field_text quantitative = codes "quantitative"
field_text product_management = codes "product_management"
field_text design = codes "design"
field_text other_engineering = codes "other_engineering"

-- The disciplines that a field covers, in `FIELDS`.
abbrev pub disciplines_of : FieldValue → List Text
disciplines_of software_engineering = codes "software_engineering" ∷ []
disciplines_of machine_learning = codes "machine_learning" ∷ []
disciplines_of data_field = codes "data" ∷ []
disciplines_of infrastructure = codes "infrastructure" ∷ []
disciplines_of security = codes "security" ∷ []
disciplines_of hardware = codes "hardware" ∷ []
disciplines_of robotics = codes "robotics" ∷ []
disciplines_of quantitative = codes "quantitative" ∷ []
disciplines_of product_management = codes "product_management" ∷ []
disciplines_of design = codes "design" ∷ []
disciplines_of other_engineering =
    codes "mechanical_engineering"
    ∷ codes "aerospace_engineering"
    ∷ codes "manufacturing_engineering"
    ∷ codes "materials_engineering"
    ∷ codes "chemical_engineering"
    ∷ codes "civil_engineering"
    ∷ codes "biomedical_engineering"
    ∷ []

abbrev pub same_field : FieldValue → FieldValue → Bool
same_field f g = text_eq (field_text f) (field_text g)

-- `fields.includes(field)`
abbrev pub has_field : List FieldValue → FieldValue → Bool
has_field fields f = any (same_field f) fields
