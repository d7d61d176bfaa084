-- ===== src/Files/Watcher/Handled.antt =====
-- How the end of a batch of src/ods_ingest/adapters/file/watcher.py leaves the world, for each step that
-- can fail.
use mathlib.Core.Path.{subst}
use mathlib.Core.List.{Perm}
use bank_ods_unified_api.Prelude.{
  ◌≡◌, refl, sym, ap, ◌∙◌, Bool, true, false, Option, none, some, List, [], ◌∷◌, ◌++◌, length, take,
  map, append_assoc, append-nil, ℕ, zero, suc, ◌⊎◌, inr,
}
use bank_ods_unified_api.Prelude.Text.{Text, eq_text_self}
use bank_ods_unified_api.Prelude.Index.{get, get-delete}
use bank_ods_unified_api.Bus.Dlq.{DeadLetter, letter, note}
use bank_ods_unified_api.Bus.Producer.{Kafka}
use bank_ods_unified_api.State.{Documents, StateDoc, batch_seen, record_batch}
use bank_ods_unified_api.State.Laws.{batch_seen-record_batch, batch_seen-record_dlq}
use bank_ods_unified_api.Files.Batches.{
  Reject, ParsedBatch, BatchManifest, ControlError, build_manifest,
}
use bank_ods_unified_api.Files.Watcher.{
  Environment, World, DetailMessage, ManifestMessage, Processed, skipped, returned, raised,
  and_then, outcome_of, moved, in_archive, in_quarantine, record_manifest, Failure, quarantined,
  messages_of, manifest_message, failed_line, recorded, publish_reject, publish_all,
  ledger_manifest,
}

module _ (env : Environment) (docs : Documents StateDoc) where
  abbrev letters_of : List Reject → List DeadLetter
  letters_of rejects = map (λ r. letter env.codec env.now (failed_line env r)) rejects

  -- The manifest of a batch: of all its records, or of none where it does not reconcile.
  abbrev pub manifest_for : ParsedBatch → Option ControlError → BatchManifest
  manifest_for batch none = build_manifest batch (length batch.contents.details) env.now
  manifest_for batch (some e) = build_manifest batch 0 env.now

  abbrev pub records_for : ParsedBatch → Option ControlError → List DetailMessage
  records_for batch none = messages_of env batch
  records_for batch (some e) = []

  abbrev pub rejects_for : ParsedBatch → Option ControlError → List Reject
  rejects_for batch none = []
  rejects_for batch (some e) = take 100 batch.contents.rejects

  -- The detail records that are due have landed, each once, and so has the manifest.
  abbrev pub Announced : ParsedBatch → World docs → Option ControlError → World docs → Type 0
  Announced batch w c after =
      Perm after.details (w.details ++ records_for batch c)
      × Perm after.manifests (w.manifests ++ manifest_message env (manifest_for batch c) ∷ [])

  -- The ledger, the folders and the dead letters are as they were.
  abbrev pub Unsettled : World docs → World docs → Type 0
  Unsettled w after =
      (after.store ≡ w.store)
      × (after.archive ≡ w.archive)
      × (after.quarantine ≡ w.quarantine)
      × (after.letters ≡ w.letters)

  -- For the world `w` before the call.
  abbrev pub Handled :
      Text → ParsedBatch → World docs → Option ControlError → Processed × World docs → Type 0
  Handled name batch w c (skipped, after) = ⊥
  Handled name batch w c (raised e, after) =
      (after.landing ≡ w.landing) × (Unsettled w after ⊎ Announced batch w c after)
  Handled name batch w c (returned m, after) =
      (get name after.landing ≡ none)
      × (batch_seen docs batch.batch_id after.store ≡ true)
      × (m ≡ manifest_for batch c)
      × Announced batch w c after
      × (after.letters ≡ w.letters ++ letters_of (rejects_for batch c))

  abbrev Kept : World docs → World docs → Type 0
  Kept w after =
      (after.details ≡ w.details)
      × (after.manifests ≡ w.manifests)
      × (after.landing ≡ w.landing)
      × ((id : Text) → batch_seen docs id after.store ≡ batch_seen docs id w.store)

  -- The dead letters of the rejects change nothing else that is stated.
  abbrev Published : List Reject → World docs → World docs × Option Failure → Type 0
  Published rejects w (after, none) =
      Kept w after × (after.letters ≡ w.letters ++ letters_of rejects)
  Published rejects w (after, some e) = Kept w after

  module _ (kafka : Kafka DetailMessage) (control : Kafka ManifestMessage) where
    batch_seen-recorded :
        (m : BatchManifest) (store : docs.Store)
        → batch_seen docs m.batch_id
            (record_batch docs env.now m.batch_id (ledger_manifest m) store)
          ≡ true
    batch_seen-recorded m store =
        batch_seen-record_batch docs store env.now m.batch_id m.batch_id (ledger_manifest m)
        ∙ rw (eq_text_self m.batch_id)

    Kept-refl : (w : World docs) → Kept w w
    Kept-refl w = (refl, refl, refl, λ id. refl)

    abbrev published : Reject → World docs → World docs
    published r w = publish_reject env docs kafka control (failed_line env r) w

    Published-cons :
        (r : Reject) (rs : List Reject) (w : World docs) (x : World docs × Option Failure)
        → Published rs (published r w) x
        → Published (r ∷ rs) w x
    unfolding note
    Published-cons r rs w (after, none) ((d, m, i, s), l) =
        let f = failed_line env r in
        (
          (
            d,
            m,
            i,
            λ id.
                s id
                ∙ batch_seen-record_dlq docs w.store env.now id f.source_topic (take 500 f.error) _,
          ),
          l ∙ append_assoc w.letters (letter env.codec env.now f ∷ []) (letters_of rs),
        )
    Published-cons r rs w (after, some e) (d, m, i, s) =
        let f = failed_line env r in
        (
          d,
          m,
          i,
          λ id.
              s id
              ∙ batch_seen-record_dlq docs w.store env.now id f.source_topic (take 500 f.error) _,
        )

    publish_all-Published :
        (fault : Option (ℕ × Bool)) (rejects : List Reject) (w : World docs)
        → Published rejects w (publish_all env docs kafka control fault rejects w)
    unfolding publish_all
    publish_all-Published fault [] w = (Kept-refl w, sym (append-nil w.letters))
    publish_all-Published none (r ∷ rs) w =
        Published-cons r rs w (publish_all env docs kafka control none rs (published r w))
          (publish_all-Published none rs (published r w))
    publish_all-Published (some (zero, false)) (r ∷ rs) w = Kept-refl w
    publish_all-Published (some (zero, true)) (r ∷ rs) w = (refl, refl, refl, λ id. refl)
    publish_all-Published (some (suc n, queued)) (r ∷ rs) w =
        Published-cons r rs w
          (publish_all env docs kafka control (some (n, queued)) rs (published r w))
          (publish_all-Published (some (n, queued)) rs (published r w))

    -- The end of a batch that reconciles, for any failures.
    pub archived-Handled :
        (name content : Text) (batch : ParsedBatch) (w after : World docs)
        (ledger move : Option Bool)
        → after.landing ≡ w.landing
        → after.letters ≡ w.letters
        → Announced batch w none after
        → Handled name batch w none (
            outcome_of env docs kafka control (returned (manifest_for batch none)) (
              and_then env docs kafka control
                (record_manifest env docs kafka control ledger (manifest_for batch none) after)
                (λ x.
                  moved env docs kafka control move name
                    (in_archive env docs kafka control name content)
                    x)))
    unfolding build_manifest
    archived-Handled name content batch w after none none i l a = (
      get-delete name after.landing,
      batch_seen-recorded (manifest_for batch none) after.store,
      refl,
      a,
      l ∙ sym (append-nil w.letters),
    )
    archived-Handled name content batch w after none (some true) i l a = (i, inr a)
    archived-Handled name content batch w after none (some false) i l a = (i, inr a)
    archived-Handled name content batch w after (some true) move i l a = (i, inr a)
    archived-Handled name content batch w after (some false) move i l a = (i, inr a)

    -- What still holds where the dead letters or the move fail.
    Kept-Announced :
        (batch : ParsedBatch) (c : ControlError) (w after y : World docs)
        → after.landing ≡ w.landing
        → Announced batch w (some c) after
        → Kept after y
        → (y.landing ≡ w.landing) × (Unsettled w y ⊎ Announced batch w (some c) y)
    Kept-Announced batch c w after y i (a, b) (d, m, j, k) = (
      j ∙ i,
      inr (
        subst (λ z. Perm z (w.details ++ records_for batch (some c))) (sym d) a,
        subst (λ z. Perm z (w.manifests ++ manifest_message env (manifest_for batch (some c)) ∷ []))
            (sym m) b,
      ),
    )

    -- The end of a quarantine, from the dead letters on.
    moved-Handled :
        (name content : Text) (batch : ParsedBatch) (c : ControlError) (w after : World docs)
        (move : Option Bool) (x : World docs × Option Failure)
        → after.landing ≡ w.landing
        → after.letters ≡ w.letters
        → batch_seen docs batch.batch_id after.store ≡ true
        → Announced batch w (some c) after
        → Published (take 100 batch.contents.rejects) after x
        → Handled name batch w (some c) (
            outcome_of env docs kafka control (returned (manifest_for batch (some c))) (
              and_then env docs kafka control x (λ y.
                moved env docs kafka control move name
                  (in_quarantine env docs kafka control name content)
                  y)))
    moved-Handled name content batch c w after move (y, some e) i l s a k =
        Kept-Announced batch c w after y i a k
    moved-Handled name content batch c w after none (y, none) i l s (a, b) ((d, m, j, k), n) = (
      get-delete name y.landing,
      k batch.batch_id ∙ s,
      refl,
      (
        subst (λ z. Perm z (w.details ++ records_for batch (some c))) (sym d) a,
        subst (λ z. Perm z (w.manifests ++ manifest_message env (manifest_for batch (some c)) ∷ []))
            (sym m) b,
      ),
      n ∙ ap (λ z. z ++ letters_of (take 100 batch.contents.rejects)) l,
    )
    moved-Handled name content batch c w after (some true) (y, none) i l s a (k, n) =
        Kept-Announced batch c w after (in_quarantine env docs kafka control name content y) i a k
    moved-Handled name content batch c w after (some false) (y, none) i l s a (k, n) =
        Kept-Announced batch c w after y i a k

    pub quarantined-Handled :
        (name content : Text) (batch : ParsedBatch) (c : ControlError) (w after : World docs)
        (ledger : Option Bool)
        → after.landing ≡ w.landing
        → after.letters ≡ w.letters
        → Announced batch w (some c) after
        → Handled name batch w (some c) (
            outcome_of env docs kafka control (returned (manifest_for batch (some c))) (
              and_then env docs kafka control
                (record_manifest env docs kafka control ledger (manifest_for batch (some c)) after)
                (λ x.
                  and_then env docs kafka control
                    (publish_all env docs kafka control env.faults.letters
                      (take 100 batch.contents.rejects)
                      x)
                    (λ y. quarantined env docs kafka control name content y))))
    unfolding build_manifest
    quarantined-Handled name content batch c w after none i l a =
        let m = manifest_for batch (some c) in
        moved-Handled name content batch c w (recorded env docs kafka control m after)
          env.faults.move _ i l (batch_seen-recorded m after.store) a
          (publish_all-Published env.faults.letters (take 100 batch.contents.rejects)
            (recorded env docs kafka control m after))
    quarantined-Handled name content batch c w after (some true) i l a = (i, inr a)
    quarantined-Handled name content batch c w after (some false) i l a = (i, inr a)
