-- ===== src/Snapshot/Securities/Process/Landed.antt =====
-- The end of `process_file` of src/ods_ingest/adapters/snapshot/securities.py, for each way in which
-- it can fail.
use mathlib.Core.List.{Perm}
use mathlib.Core.List.Perm
use mathlib.Core.Path.{subst}
use bank_ods_unified_api.Prelude.{
  ◌≡◌, ◌≢◌, refl, ap, sym, ◌∙◌, Bool, true, false, Option, none, some, List, ◌++◌, Option-cases,
  inl, inr, String, All, ℕ, zero, suc, [], ◌∷◌, ◌⊎◌,
}
use bank_ods_unified_api.Prelude.Text.{Text, eq_text_self}
use bank_ods_unified_api.Prelude.Int.{ℤ}
use bank_ods_unified_api.Bus.Producer.{Kafka, Session, session, session-landed}
use bank_ods_unified_api.State.{Documents, StateDoc, Manifest, batch_seen, record_batch}
use bank_ods_unified_api.State.Laws.{batch_seen-record_batch}
use bank_ods_unified_api.Snapshot.Merge.{Run}
use bank_ods_unified_api.Snapshot.Merge.Counts.{entries}
use bank_ods_unified_api.Snapshot.Index.{
  write_index_atomic, last_disk-write_index, Disk, content_of, write_index, last_disk,
}
use bank_ods_unified_api.Snapshot.Securities.{
  disk_failed, store_failed, Message, SnapshotResult, Failure, Outcome, not_delivered, returned,
  raised, run_failure,
}
use bank_ods_unified_api.Snapshot.Securities.Process.{
  World, Environment, result_of, manifest_of, disk_after, replace_index, record_run, after_ledger,
  after_index, to_messages, conclude, preview,
}

pub raised_not_returned : {e : Failure} {r : SnapshotResult} → returned r ≢ raised e
raised_not_returned h = cc

raised_injective : {e f : Failure} → raised e ≡ raised f → e ≡ f
raised_injective h = cc

module _ (env : Environment) (docs : Documents StateDoc) where
  -- What a failed call leaves alone.
  pub record IsUntouched (w w' : World docs) : Type 0 where
    pub index : w'.disk ≡ w.disk
    pub ledger : w'.store ≡ w.store

  module _ (kafka : Kafka Message) (batch_id name : Text) (declared : ℤ) (run : Run)
      (w : World docs) where
    abbrev pub new_disk : Disk
    new_disk = last_disk w.disk (write_index w.disk (entries run.pairs))

    -- The old index, or the new one in full.
    abbrev pub IsWhole : Disk → Type 0
    IsWhole d = (d.index ≡ w.disk.index) ⊎ (d.index ≡ some (content_of (entries run.pairs)))

    -- Every delta has landed, and what failed is the writing of the index or of the ledger, which
    -- has moved only if the index is the new one.
    pub record HasLanded (e : Failure) (w' : World docs) : Type 0 where
      pub cause : (e ≡ disk_failed) ⊎ (e ≡ store_failed)
      pub in_order : run.error ≡ none
      pub landed : Perm w'.bus (w.bus ++ to_messages env batch_id 1 run.pairs)
      pub index : IsWhole w'.disk
      pub ledger :
          (w'.store ≡ w.store) ⊎ ((w'.disk ≡ new_disk) × (batch_seen docs batch_id w'.store ≡ true))

    -- What a call that returns has done.
    pub record IsComplete (w' : World docs) : Type 0 where
      pub in_order : run.error ≡ none
      pub landed : Perm w'.bus (w.bus ++ to_messages env batch_id 1 run.pairs)
      pub index : w'.disk ≡ new_disk
      pub ledger : batch_seen docs batch_id w'.store ≡ true

    -- What is claimed of a call that got so far.
    abbrev pub Concluded : Outcome × World docs → Type 0
    Concluded (raised e, w') = IsUntouched w w' ⊎ HasLanded e w'
    Concluded (returned r, w') = IsComplete w'

    IsWhole-disk_after :
        (n : ℕ) (d : Disk) (ds : List Disk)
        → IsWhole d
        → All IsWhole ds
        → IsWhole (disk_after n d ds)
    unfolding disk_after
    IsWhole-disk_after zero d ds h hs = h
    IsWhole-disk_after (suc n) d [] h hs = h
    IsWhole-disk_after (suc n) d (e ∷ ds) h (k, hs) = IsWhole-disk_after n e ds k hs

    new_disk-IsWhole : IsWhole new_disk
    new_disk-IsWhole = inr (ap (λ d. d.index) (last_disk-write_index w.disk (entries run.pairs)))

    -- The world when every delta has landed.
    abbrev landed_on : List Message → World docs
    landed_on bus = record w { bus = bus }

    abbrev indexed_on : List Message → World docs
    indexed_on bus = record { disk = new_disk; bus = bus; store = w.store }

    module _ (result : SnapshotResult) (m : Manifest) (bus : List Message)
        (ordered : run.error ≡ none)
        (landed : Perm bus (w.bus ++ to_messages env batch_id 1 run.pairs)) where
      recorded : batch_seen docs batch_id (record_batch docs env.now batch_id m w.store) ≡ true
      recorded =
          batch_seen-record_batch docs w.store env.now batch_id batch_id m
          ∙ rw (eq_text_self batch_id)

      record_run-Concluded :
          (fault : Option Bool)
          → Concluded (
              after_ledger env docs kafka result
                (record_run env docs kafka fault batch_id m (indexed_on bus)))
      record_run-Concluded none = record {
        in_order = ordered;
        landed = landed;
        index = refl;
        ledger = recorded;
      }
      record_run-Concluded (some true) = inr record {
        cause = inr refl;
        in_order = ordered;
        landed = landed;
        index = new_disk-IsWhole;
        ledger = inr (refl, recorded);
      }
      record_run-Concluded (some false) = inr record {
        cause = inr refl;
        in_order = ordered;
        landed = landed;
        index = new_disk-IsWhole;
        ledger = inl refl;
      }

      replace_index-Concluded :
          (fault : Option ℕ)
          → Concluded (
              after_index env docs kafka batch_id result m
                (replace_index env docs kafka fault (entries run.pairs) (landed_on bus)))
      replace_index-Concluded none = record_run-Concluded env.faults.ledger
      replace_index-Concluded (some n) = inr record {
        cause = inl refl;
        in_order = ordered;
        landed = landed;
        index =
            IsWhole-disk_after n w.disk (write_index w.disk (entries run.pairs)) (inl refl)
              (write_index_atomic w.disk (entries run.pairs));
        ledger = inl refl;
      }

    run_failure-none : (o : Option (String × Text)) → run_failure o ≡ none → o ≡ none
    run_failure-none none h = refl
    run_failure-none (some (label, key)) h = cc

    conclude-Concluded :
        (s : Session Message Failure)
        → (s.error ≡ none
            → (run.error ≡ none) × Perm s.landed (to_messages env batch_id 1 run.pairs))
        → Concluded (conclude env docs kafka batch_id name declared run s w)
    unfolding conclude
    conclude-Concluded s h = elim (Option-cases s.error) [
      | inl clean ↦
          let (ordered, landed) = h clean in
          rw (clean, conclude)
            (replace_index-Concluded (result_of env batch_id name declared run)
              (manifest_of env batch_id name declared run) (w.bus ++ s.landed) ordered
              (Perm.append_left w.bus landed) env.faults.disk)
      | inr (f, failed) ↦ rw (failed, conclude) (inl record { index = refl; ledger = refl })
    ]

    pub session-Concluded : Concluded (
        conclude env docs kafka batch_id name declared run
          (session kafka not_delivered
            (to_messages env batch_id 1 run.pairs)
            (run_failure run.error))
          w)
    session-Concluded =
        let messages = to_messages env batch_id 1 run.pairs in
        conclude-Concluded (session kafka not_delivered messages (run_failure run.error)) λ clean.
          let (ordered, landed) =
            session-landed kafka not_delivered messages (run_failure run.error) clean in
          (run_failure-none run.error ordered, landed)

    pub Concluded-raised :
        (x : Outcome × World docs) (e : Failure)
        → x.0 ≡ raised e
        → Concluded x
        → IsUntouched w x.1 ⊎ HasLanded e x.1
    Concluded-raised (raised f, w') e h c =
        subst (λ z. IsUntouched w w' ⊎ HasLanded z w') (raised_injective h) c
    Concluded-raised (returned r, w') e h c = absurd (raised_not_returned h)

    pub Concluded-returned :
        (x : Outcome × World docs) (r : SnapshotResult)
        → x.0 ≡ returned r
        → Concluded x
        → IsComplete x.1
    Concluded-returned (returned s, w') r h c = c
    Concluded-returned (raised f, w') r h c = absurd (raised_not_returned (sym h))

    pub preview-keeps : (preview env docs kafka batch_id name declared run w).1 ≡ w
    unfolding preview
    preview-keeps = elim (Option-cases (run_failure run.error)) [
      | inl clean ↦ rw (clean, preview)
      | inr (f, failed) ↦ rw (failed, preview)
    ]
