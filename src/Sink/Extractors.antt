-- ===== src/Sink/Extractors.antt =====
-- src/ods_ingest/sink/extractors.py: from a message to a raw document. A value of a message is null, a
-- text, an integer or a Boolean; of the other values Debezium's rows have none that is keyed on.
use bank_ods_unified_api.Prelude.{
  String, Bool, true, false, Option, none, some, List, [], ◌∷◌, ◌++◌, if◌then◌else◌, ◌==◌,
}
use bank_ods_unified_api.Prelude.Text.{Text, codes, eq_text}
use bank_ods_unified_api.Prelude.Dict.{Dict, lookup}
use bank_ods_unified_api.Prelude.Strip.{split, is_empty}
use bank_ods_unified_api.Prelude.Int.{ℤ, pos, negsuc}
use bank_ods_unified_api.Bus.Dlq.{show_ℤ}

pub data Scalar : Type 0 where
  null : Scalar
  text : Text → Scalar
  number : ℤ → Scalar
  flag : Bool → Scalar

-- `str(v)`
unfoldable pub str : Scalar → Text
str null = codes "None"
str (text t) = t
str (number n) = show_ℤ n
str (flag true) = codes "True"
str (flag false) = codes "False"

-- A row image with its values as texts, where null stays null.
abbrev pub State : Type 0
State = Dict (Option Text)

abbrev pub plain_string : Scalar → Option Text
plain_string null = none
plain_string (text t) = some t
plain_string (number n) = some (str (number n))
plain_string (flag b) = some (str (flag b))

abbrev pub strings : Dict Scalar → State
strings [] = []
strings ((k, v) ∷ image) = (k, plain_string v) ∷ strings image

unfoldable pub state_of : Option (Dict Scalar) → Option State
state_of none = none
state_of (some image) = some (strings image)

-- A Debezium payload, where `none` is a key that is missing or null; `op` may be null.
pub record ChangePayload : Type 0 where
  pub op : Option Scalar
  pub before : Option (Dict Scalar)
  pub after : Option (Dict Scalar)
  pub source : Option (Dict Scalar)
  pub ts_ms : Option Scalar

pub record ChangeEvent : Type 0 where
  pub event_id : Text
  pub op : Text
  pub pk : Text
  pub lsn : Text
  pub ts_ms : Text
  pub source_table : Text
  pub before : Option State
  pub after : Option State

pub data ExtractError : Type 0 where
  not_an_envelope no_image : ExtractError
  no_key : String → ExtractError
  unknown_table : Text → ExtractError

pub data Extracted (A : Type 0) : Type 0 where
  extracted : A → Extracted A
  refused : ExtractError → Extracted A

-- `PK_FIELDS`
abbrev pub pk_fields : List (Text × String)
pk_fields = (codes "clients", "client_id") ∷ (codes "accounts", "account_nbr") ∷ []

abbrev pub or_empty_dict : Option (Dict Scalar) → Dict Scalar
or_empty_dict none = []
or_empty_dict (some d) = d

-- `after if after is not None else before`
abbrev pub image_of : Option State → Option State → Option State
image_of none before = before
image_of (some after) before = some after

abbrev pub value_of : Option (Option Text) → Option Text
value_of none = none
value_of (some v) = v

-- `d.get(k)`, where null and missing are one.
abbrev pub field : String → State → Option Text
field k row = value_of (lookup k row)

-- `source.get("ts_ms", 0)` in a text.
abbrev pub snapshot_stamp : Option Scalar → Text
snapshot_stamp none = codes "0"
snapshot_stamp (some v) = str v

abbrev pub or_snapshot : Option Scalar → Dict Scalar → Text
or_snapshot none source = codes "snapshot-" ++ snapshot_stamp (lookup "ts_ms" source)
or_snapshot (some null) source = codes "snapshot-" ++ snapshot_stamp (lookup "ts_ms" source)
or_snapshot (some (text t)) source = t
or_snapshot (some (number n)) source = str (number n)
or_snapshot (some (flag b)) source = str (flag b)

unfoldable pub lsn_of : Dict Scalar → Text
lsn_of source = or_snapshot (lookup "lsn" source) source

-- `v or other`, for the text of the value.
abbrev pub or_value : Option Scalar → Text → Text
or_value none other = other
or_value (some null) other = other
or_value (some (text t)) other = if is_empty t then other else t
or_value (some (number (pos n))) other = if n == 0 then other else str (number (pos n))
or_value (some (number (negsuc n))) other = str (number (negsuc n))
or_value (some (flag b)) other = if b then str (flag b) else other

unfoldable pub stamp_of : ChangePayload → Text
stamp_of c = or_value c.ts_ms (or_value (lookup "ts_ms" (or_empty_dict c.source)) (codes "0"))

abbrev pub with_pk :
    ChangePayload
    → Scalar
    → Text
    → String
    → Option Text
    → Option State
    → Option State
    → Extracted ChangeEvent
with_pk c op table pk_field none before after = refused (no_key pk_field)
with_pk c op table pk_field (some pk) before after =
    let lsn = lsn_of (or_empty_dict c.source) in
    extracted record {
      event_id = lsn ++ codes "-" ++ table ++ codes "-" ++ pk;
      op = str op;
      pk = pk;
      lsn = lsn;
      ts_ms = stamp_of c;
      source_table = table;
      before = before;
      after = after;
    }

abbrev pub with_pk_field :
    ChangePayload
    → Scalar
    → Text
    → Option String
    → State
    → Option State
    → Option State
    → Extracted ChangeEvent
with_pk_field c op table none image before after = refused (unknown_table table)
with_pk_field c op table (some pk_field) image before after =
    with_pk c op table pk_field (field pk_field image) before after

unfoldable pub find_pk_field : List (Text × String) → Text → Option String
find_pk_field [] table = none
find_pk_field ((t, f) ∷ fields) table =
    if eq_text t table then some f else find_pk_field fields table

abbrev pub with_image :
    ChangePayload
    → Scalar
    → Text
    → Option State
    → Option State
    → Option State
    → Extracted ChangeEvent
with_image c op table none before after = refused no_image
with_image c op table (some image) before after =
    with_pk_field c op table (find_pk_field pk_fields table) image before after

abbrev pub with_op : ChangePayload → Text → Option Scalar → Extracted ChangeEvent
with_op c table none = refused not_an_envelope
with_op c table (some op) =
    let before = state_of c.before in
    let after = state_of c.after in with_image c op table (image_of after before) before after

-- `debezium`; the KeyError of a table that is not listed is `unknown_table`.
unfoldable pub debezium : ChangePayload → Text → Extracted ChangeEvent
debezium c table = with_op c table c.op

abbrev pub last_of : Text → List Text → Text
last_of t [] = t
last_of t (s ∷ ts) = last_of s ts

-- `topic_name.rsplit(".", 1)[-1]`, which is `_table_for` of the writer.
unfoldable pub table_of : Text → Text
table_of topic_name = last_of [] (split b'.' topic_name)
