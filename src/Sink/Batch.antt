-- ===== src/Sink/Batch.antt =====
-- src/ods_ingest/sink/writer.py: `to_document`, `write_batch`, `write_manifests` and `handle`. The model's
-- validation with its dump is `validate`. A value that is not a change has no `op`, and a value that
-- is not a manifest no `batchId`.
pub mod Groups
use bank_ods_unified_api.Prelude.{
  ℕ, ◌+◌, String, Bool, true, false, Option, none, some, List, [], ◌∷◌, ◌++◌, length, if◌then◌else◌,
  str_eq,
}
use bank_ods_unified_api.Prelude.Text.{Text}
use bank_ods_unified_api.Prelude.Dict.{Dict}
use bank_ods_unified_api.Prelude.Strip.{is_empty}
use bank_ods_unified_api.State.{Documents, StateDoc, Manifest, record_batch}
use bank_ods_unified_api.Topics.{
  Model, TopicSpec, Extractor, canonical, debezium as debezium_extractor, manifest, by_name,
}
use bank_ods_unified_api.Bus.Consumer.{ConsumedRecord}
use bank_ods_unified_api.Sink.Extractors.{
  Scalar, ChangePayload, ChangeEvent, ExtractError, not_an_envelope, Extracted, extracted, refused,
  debezium, table_of,
}
use bank_ods_unified_api.Sink.Writer.{Document, WriteOp, write_op, RawTier, World, write_collection}

-- The value of a message.
pub data MessageValue : Type 0 where
  flat : Dict Scalar → MessageValue
  change : ChangePayload → MessageValue
  control : Manifest → MessageValue

-- What an extractor returns: a copy of the value, or a change event.
pub data Extract : Type 0 where
  copy_of : MessageValue → Extract
  event : ChangeEvent → Extract

-- The KeyErrors of the two tables, ExtractError and ValidationFailed.
pub data Refusal : Type 0 where
  unknown_topic no_extractor validation_failed : Refusal
  not_extracted : ExtractError → Refusal

pub data Prepared (A : Type 0) : Type 0 where
  prepared : A → Prepared A
  not_prepared : Refusal → Prepared A

abbrev pub event_of : Extracted ChangeEvent → Prepared Extract
event_of (extracted e) = prepared (event e)
event_of (refused error) = not_prepared (not_extracted error)

-- `EXTRACTORS[spec.extractor](record, table=...)`
abbrev pub extract : Extractor → Text → MessageValue → Prepared Extract
extract canonical table value = prepared (copy_of value)
extract debezium_extractor table (change c) = event_of (debezium c table)
extract debezium_extractor table (flat d) = not_prepared (not_extracted not_an_envelope)
extract debezium_extractor table (control m) = not_prepared (not_extracted not_an_envelope)
extract manifest table value = not_prepared no_extractor

module _ {C : Type 0} (validate : Model → Extract → Option (Document C)) where
  -- The document has a key.
  abbrev pub keyed : Option (Document C) → Prepared (Document C)
  keyed none = not_prepared validation_failed
  keyed (some doc) = if is_empty doc.key then not_prepared validation_failed else prepared doc

  abbrev pub validated : Model → Prepared Extract → Prepared (Document C)
  validated model (not_prepared r) = not_prepared r
  validated model (prepared x) = keyed (validate model x)

  -- For a topic with a model.
  unfoldable pub to_document :
      TopicSpec → Model → ConsumedRecord MessageValue → Prepared (Document C)
  to_document spec model record_ =
      validated model (extract spec.extractor (table_of record_.topic) record_.value)

  -- `by_collection` with `topics_seen`, in the order of the dict.
  abbrev pub Groups : Type 0
  Groups = List (String × (Text × List (WriteOp C)))

  unfoldable pub add_op : String → Text → WriteOp C → Groups → Groups
  add_op collection topic op [] = (collection, (topic, op ∷ [])) ∷ []
  add_op collection topic op ((c, (t, ops)) ∷ groups) =
      let rest = add_op collection topic op groups in
      if str_eq c collection then (c, (topic, ops ++ op ∷ [])) ∷ groups else (c, (t, ops)) ∷ rest

  abbrev pub add_document : Model → Text → Prepared (Document C) → Groups → Prepared Groups
  add_document model topic (not_prepared r) groups = not_prepared r
  add_document model topic (prepared doc) groups =
      prepared (add_op model.collection topic (write_op model doc) groups)

  -- A topic without a model is that of the manifests.
  abbrev pub add_for :
      TopicSpec → Option Model → ConsumedRecord MessageValue → Groups → Prepared Groups
  add_for spec none record_ groups = prepared groups
  add_for spec (some model) record_ groups =
      add_document model record_.topic (to_document spec model record_) groups

  abbrev pub add_record : Option TopicSpec → ConsumedRecord MessageValue → Groups → Prepared Groups
  add_record none record_ groups = not_prepared unknown_topic
  add_record (some spec) record_ groups = add_for spec spec.model record_ groups

  abbrev pub then_group : (Groups → Prepared Groups) → Prepared Groups → Prepared Groups
  then_group rest (not_prepared r) = not_prepared r
  then_group rest (prepared groups) = rest groups

  -- The first loop of `write_batch`.
  unfoldable pub group_records : List (ConsumedRecord MessageValue) → Groups → Prepared Groups
  group_records [] groups = prepared groups
  group_records (r ∷ records) groups =
      then_group (group_records records) (add_record (by_name r.topic) r groups)

  module _ (tier : RawTier C) (docs : Documents StateDoc) (now : Text) where
    abbrev pub Landed : Type 0
    Landed = Option ℕ × World tier docs now

    abbrev pub add_written : ℕ → Landed → Landed
    add_written n (none, w) = (none, w)
    add_written n (some m, w) = (some (n + m), w)

    abbrev pub go_on : (World tier docs now → Landed) → Landed → Landed
    go_on rest (none, w) = (none, w)
    go_on rest (some n, w) = add_written n (rest w)

    -- The loop over the collections; `none` where a bulk write raises.
    unfoldable pub write_groups : Groups → World tier docs now → Landed
    write_groups [] w = (some 0, w)
    write_groups ((collection, (topic, ops)) ∷ groups) w =
        go_on (write_groups groups) (write_collection tier docs now topic collection ops w)

    abbrev pub write_prepared : Prepared Groups → World tier docs now → Landed
    write_prepared (not_prepared r) w = (none, w)
    write_prepared (prepared groups) w = write_groups groups w

    unfoldable pub write_batch : List (ConsumedRecord MessageValue) → World tier docs now → Landed
    write_batch records w = write_prepared (group_records records []) w

    -- `state.record_batch(manifest["batchId"], manifest)`
    unfoldable pub write_manifests :
        List (ConsumedRecord MessageValue) → World tier docs now → Landed
    write_manifests [] w = (some 0, w)
    write_manifests (r ∷ records) w = elim r.value [
      | flat d ↦ (none, w)
      | change c ↦ (none, w)
      | control m ↦ add_written 1 (
          write_manifests records record w { ledger = record_batch docs now m.batch_id m w.ledger })
    ]

    -- The two lists of `handle`; `none` where a topic is unknown.
    abbrev pub Routed : Type 0
    Routed = Option (List (ConsumedRecord MessageValue) × List (ConsumedRecord MessageValue))

    abbrev pub route : Option TopicSpec → ConsumedRecord MessageValue → Routed → Routed
    route none r rest = none
    route (some spec) r none = none
    route (some spec) r (some (manifests, data_)) = elim spec.extractor [
      | manifest ↦ some (r ∷ manifests, data_)
      | canonical ↦ some (manifests, r ∷ data_)
      | debezium_extractor ↦ some (manifests, r ∷ data_)
    ]

    unfoldable pub route_all : List (ConsumedRecord MessageValue) → Routed
    route_all [] = some ([], [])
    route_all (r ∷ records) = route (by_name r.topic) r (route_all records)

    abbrev pub handle_routed : Routed → World tier docs now → Landed
    handle_routed none w = (none, w)
    handle_routed (some (manifests, data_)) w =
        go_on (write_batch data_) (write_manifests manifests w)

    -- An empty list writes nothing.
    unfoldable pub handle : List (ConsumedRecord MessageValue) → World tier docs now → Landed
    handle records w = handle_routed (route_all records) w
