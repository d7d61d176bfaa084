-- ===== src/Models/Base.antt =====
-- src/bank_ods/models/base.py: what the program reads of a model's class: its name, the access metadata,
-- the indexes and the annotations of its fields, in their order.
use bank_ods_unified_api.Prelude.{String, Bool, true, false, Option, none, List, [], ◌∷◌}
use bank_ods_unified_api.Services.Cursor.{SortSpec}

mutual
  pub data Annotation : Type 0 where
    str_type int_type float_type bool_type decimal_type date_time_type : Annotation
    literal : List String → Annotation
    optional_of list_of : Annotation → Annotation
    -- Another model, by its name and fields.
    document : String → Fields → Annotation

  -- `model_fields`
  pub data Fields : Type 0 where
    no_more : Fields
    one_field : String → Annotation → Fields → Fields

unfoldable pub fields_of : List (String × Annotation) → Fields
fields_of [] = no_more
fields_of ((name, annotation) ∷ fields) = one_field name annotation (fields_of fields)

pub data IndexKeys : Type 0 where
  single : String → IndexKeys
  several : SortSpec → IndexKeys

-- The keys and the options of an index; `where_exists` is the field of a partial index, which has
-- the documents in which it exists.
pub record IndexSpec : Type 0 where
  pub keys : IndexKeys
  pub is_unique : Bool
  pub is_sparse : Bool
  pub where_exists : Option String

abbrev pub plain : IndexKeys → IndexSpec
plain keys = record { keys = keys; is_unique = false; is_sparse = false; where_exists = none }

abbrev pub unique : IndexKeys → IndexSpec
unique keys = record { keys = keys; is_unique = true; is_sparse = false; where_exists = none }

pub record Entity : Type 0 where
  pub class_name : String
  pub collection : String
  pub indexes : List IndexSpec
  pub id_field : String
  pub default_sort : SortSpec
  pub unfiltered_list : Bool
  pub ordering_field : String
  pub fields : Fields

abbrev pub document_of : Entity → Annotation
document_of entity = document entity.class_name entity.fields
