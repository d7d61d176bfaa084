-- ===== src/Files/Watcher/Delivery.antt =====
-- src/ods_ingest/adapters/file/watcher.py: what `process_file` leaves in the world, for each way in which
-- it can end.
use mathlib.Core.List.{Perm}
use mathlib.Core.List.Perm
use bank_ods_unified_api.Prelude.{◌≡◌, Bool, true, false, none, List}
use bank_ods_unified_api.Prelude.Text.{Text}
use bank_ods_unified_api.Prelude.Index.{get}
use bank_ods_unified_api.Bus.Producer.{Kafka}
use bank_ods_unified_api.State.{Documents, StateDoc}
use bank_ods_unified_api.Files.Watcher.{
  Environment, World, DetailMessage, ManifestMessage, Processed, skipped, returned, raised,
  batch_of,
}
use bank_ods_unified_api.Files.Watcher.Handled.{Handled}

module _ (env : Environment) (docs : Documents StateDoc) where
  module _ (kafka : Kafka DetailMessage) (control : Kafka ManifestMessage) where
    abbrev Unproduced : World docs → World docs → Type 0
    Unproduced w after =
        (after.details ≡ w.details)
        × (after.manifests ≡ w.manifests)
        × (after.letters ≡ w.letters)
        × (after.store ≡ w.store)

    -- A batch that the ledger has changes nothing but the folders.
    abbrev Idle : Text → World docs → Processed × World docs → Type 0
    Idle name w (skipped, after) = (get name after.landing ≡ none) × Unproduced w after
    Idle name w (returned m, after) = ⊥
    Idle name w (raised e, after) = (after.landing ≡ w.landing) × Unproduced w after

    -- What a call for a file comes to, by whether the ledger has its batch.
    abbrev pub Follows : Bool → Text → Text → World docs → Processed × World docs → Type 0
    Follows true name content w result = Idle name w result
    Follows false name content w result =
        let batch = batch_of env docs kafka control name content in
        Handled env docs name batch w batch.control_error result
