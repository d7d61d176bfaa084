-- ===== src/Sink/Batch/Groups.antt =====
-- src/ods_ingest/sink/writer.py: `write_batch` groups the operations by collection, in the order of the
-- records.
use bank_ods_unified_api.Prelude.{
  ◌≡◌, refl, sym, ap, ◌∙◌, String, Bool, true, false, Option, none, some, List, [], ◌∷◌, ◌++◌,
  if◌then◌else◌, str_eq, str_eq_iff, append-nil, append_assoc, Bool-cases, inl, inr, arith,
}
use bank_ods_unified_api.Prelude.Text.{Text}
use bank_ods_unified_api.Topics.{Model, TopicSpec, by_name}
use bank_ods_unified_api.Bus.Consumer.{ConsumedRecord}
use bank_ods_unified_api.Sink.Writer.{Document, WriteOp, write_op}
use bank_ods_unified_api.Sink.Batch.{
  MessageValue, Extract, Prepared, prepared, not_prepared, to_document, Groups, add_op,
  add_document, add_for, add_record, then_group, group_records,
}

module _ {C : Type 0} (validate : Model → Extract → Option (Document C)) where
  -- The operations of a collection.
  unfoldable pub ops_at : String → Groups validate → List (WriteOp C)
  ops_at collection [] = []
  ops_at collection ((c, (t, ops)) ∷ groups) =
      let rest = ops_at collection groups in if str_eq c collection then ops else rest

  abbrev pub op_if : Bool → WriteOp C → List (WriteOp C)
  op_if b op = if b then op ∷ [] else []

  if-op_if :
      (b : Bool) (op : WriteOp C) (ops rest : List (WriteOp C))
      → (if b then ops ++ op ∷ [] else rest) ≡ (if b then ops else rest) ++ op_if b op
  if-op_if true op ops rest = refl
  if-op_if false op ops rest = sym (append-nil rest)

  -- Where the entry is that of another collection.
  if-other :
      (b k : Bool) (op : WriteOp C) (ops old new : List (WriteOp C))
      → new ≡ old ++ op_if k op
      → (b ≡ true → k ≡ false)
      → (if b then ops else new) ≡ (if b then ops else old) ++ op_if k op
  if-other true true op ops old new e other = let q = other refl in cc
  if-other true false op ops old new e other = sym (append-nil ops)
  if-other false k op ops old new e other = e

  not_both : (j k c : String) → str_eq j k ≡ false → str_eq j c ≡ true → str_eq k c ≡ false
  not_both j k c e h = ground (arith, str_eq_iff j k, str_eq_iff k c, str_eq_iff j c)

  ops_at-add_op :
      (c k : String) (topic : Text) (op : WriteOp C) (groups : Groups validate)
      → ops_at c (add_op validate k topic op groups) ≡ ops_at c groups ++ op_if (str_eq k c) op
  unfolding ops_at add_op
  ops_at-add_op c k topic op [] = ground arith
  ops_at-add_op c k topic op ((j, (t, ops)) ∷ groups) = elim (Bool-cases (str_eq j k)) [
    | inl e ↦
        let same : str_eq k c ≡ str_eq j c = ap (λ x. str_eq x c) (sym ((str_eq_iff j k).0 e)) in
        rw (e, same) (if-op_if (str_eq j c) op ops (ops_at c groups))
    | inr e ↦ rw e (
        if-other (str_eq j c) (str_eq k c) op ops (ops_at c groups)
          (ops_at c (add_op validate k topic op groups)) (ops_at-add_op c k topic op groups)
          (not_both j k c e))
  ]

  -- The operation of a record on the collection, if it has one.
  abbrev pub op_for_document : String → Model → Prepared (Document C) → List (WriteOp C)
  op_for_document c model (not_prepared r) = []
  op_for_document c model (prepared doc) = op_if (str_eq model.collection c) (write_op model doc)

  abbrev pub op_for_model :
      String → TopicSpec → Option Model → ConsumedRecord MessageValue → List (WriteOp C)
  op_for_model c spec none r = []
  op_for_model c spec (some model) r = op_for_document c model (to_document validate spec model r)

  abbrev pub op_for : String → Option TopicSpec → ConsumedRecord MessageValue → List (WriteOp C)
  op_for c none r = []
  op_for c (some spec) r = op_for_model c spec spec.model r

  unfoldable pub ops_for : String → List (ConsumedRecord MessageValue) → List (WriteOp C)
  ops_for c [] = []
  ops_for c (r ∷ records) = op_for c (by_name r.topic) r ++ ops_for c records

  -- Where the loop goes through, the collection has got the operations.
  abbrev pub HasGot :
      String → Groups validate → List (WriteOp C) → Prepared (Groups validate) → Type 0
  HasGot c groups ops (not_prepared r) = Unit
  HasGot c groups ops (prepared groups') = ops_at c groups' ≡ ops_at c groups ++ ops

  add_document-HasGot :
      (c : String) (model : Model) (topic : Text) (x : Prepared (Document C))
      (groups : Groups validate)
      → HasGot c groups (op_for_document c model x) (add_document validate model topic x groups)
  add_document-HasGot c model topic (not_prepared r) groups = tt
  add_document-HasGot c model topic (prepared doc) groups =
      ops_at-add_op c model.collection topic (write_op model doc) groups

  add_for-HasGot :
      (c : String) (spec : TopicSpec) (model : Option Model) (r : ConsumedRecord MessageValue)
      (groups : Groups validate)
      → HasGot c groups (op_for_model c spec model r) (add_for validate spec model r groups)
  add_for-HasGot c spec none r groups = sym (append-nil (ops_at c groups))
  add_for-HasGot c spec (some model) r groups =
      add_document-HasGot c model r.topic (to_document validate spec model r) groups

  add_record-HasGot :
      (c : String) (spec : Option TopicSpec) (r : ConsumedRecord MessageValue)
      (groups : Groups validate)
      → HasGot c groups (op_for c spec r) (add_record validate spec r groups)
  add_record-HasGot c none r groups = tt
  add_record-HasGot c (some spec) r groups = add_for-HasGot c spec spec.model r groups

  then_group-HasGot :
      (c : String) (groups : Groups validate) (ops more : List (WriteOp C))
      (x : Prepared (Groups validate)) (rest : Groups validate → Prepared (Groups validate))
      → HasGot c groups ops x
      → ((g : Groups validate) → HasGot c g more (rest g))
      → HasGot c groups (ops ++ more) (then_group validate rest x)
  then_group-HasGot c groups ops more (not_prepared r) rest h k = tt
  then_group-HasGot c groups ops more (prepared g) rest h k = onto (rest g) (k g)
    where
      onto : (y : Prepared (Groups validate)) → HasGot c g more y → HasGot c groups (ops ++ more) y
      onto (not_prepared r) l = tt
      onto (prepared g') l = l ∙ ap (λ o. o ++ more) h ∙ append_assoc (ops_at c groups) ops more

  -- Where `write_batch` has prepared its records, each collection has got the operations of its
  -- own records, in their order, and no other.
  pub group_records-HasGot :
      (c : String) (records : List (ConsumedRecord MessageValue)) (groups : Groups validate)
      → HasGot c groups (ops_for c records) (group_records validate records groups)
  unfolding group_records ops_for
  group_records-HasGot c [] groups = sym (append-nil (ops_at c groups))
  group_records-HasGot c (r ∷ records) groups =
      then_group-HasGot c groups (op_for c (by_name r.topic) r) (ops_for c records)
        (add_record validate (by_name r.topic) r groups) (group_records validate records)
        (add_record-HasGot c (by_name r.topic) r groups) (group_records-HasGot c records)
