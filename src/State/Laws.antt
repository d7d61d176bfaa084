-- ===== src/State/Laws.antt =====
-- What the operational state remembers, and that its kinds of documents do not disturb one another.
use native.Mathlib.Decide.{dec_le}
use bank_ods_unified_api.Prelude.{
  ℕ, suc, ◌+◌, ◌-◌, ◌≤◌, ◌≡◌, refl, ap, ◌∙◌, true, false, ◌||◌, Option, none, some, List, [], ◌∷◌,
  ◌++◌, length, arith, length-drop, length-append, append_assoc, append-nil, map, String,
  Bool-cases, inl, inr,
}
use bank_ods_unified_api.Prelude.Text.{Text, eq_text, eq_text_self, compare_text}
use bank_ods_unified_api.State.{
  Documents, StateDoc, Sample, Manifest, or_new, keep_last, max_dlq_samples, get_watermark,
  set_watermark, reset_watermark, batch_seen, record_batch, record_sink_progress, record_dlq,
  failure, watermark_of, is_there, dlq_status, watermark_id, batch_key, sink_id, dlq_id,
}

module _ {ℓ} {A : Type ℓ} where
  keep_last_short : (n : ℕ) (xs : List A) → length xs ≤ n → keep_last n xs ≡ xs
  keep_last_short n xs h = let e : length xs - n ≡ 0 = omega arith in rw e

  keep_last_long :
      (n : ℕ) (x : A) (xs : List A) → n ≤ length xs → keep_last n (x ∷ xs) ≡ keep_last n xs
  keep_last_long n x xs h = let e : suc (length xs) - n ≡ suc (length xs - n) = omega arith in rw e

  -- To keep the last n of a list and more, only the last n of the list matter.
  keep_last-append :
      (n : ℕ) (xs ys : List A) → keep_last n (keep_last n xs ++ ys) ≡ keep_last n (xs ++ ys)
  keep_last-append n [] ys = let e : 0 - n ≡ 0 = omega arith in rw e
  keep_last-append n (x ∷ xs) ys = elim (dec_le n (length xs)) [
    | yes long ↦
        rw
          (
            keep_last_long n x xs long,
            keep_last_long n x (xs ++ ys) (omega (arith, length-append xs ys)),
          )
          (keep_last-append n xs ys)
    | no short ↦ rw (keep_last_short n (x ∷ xs) (omega arith))
  ]

  pub length-keep_last-le : (n : ℕ) (xs : List A) → length (keep_last n xs) ≤ n
  length-keep_last-le n xs = omega (arith, length-drop (length xs - n) xs)

module _ (docs : Documents StateDoc) where
  -- One failure after another on a topic.
  pub record_failures : Text → Text → List (Text × Sample) → docs.Store → docs.Store
  record_failures now topic [] s = s
  record_failures now topic ((error, sample) ∷ rest) s =
      record_failures now topic rest (record_dlq docs now topic error sample s)

  abbrev pub samples_at : Text → docs.Store → List Sample
  samples_at topic s = (or_new (dlq_status docs topic s)).samples

  abbrev pub failures_at : Text → docs.Store → ℕ
  failures_at topic s = (or_new (dlq_status docs topic s)).count

  find-upsert_self :
      (k : Text) (update : Option StateDoc → StateDoc) (s : docs.Store)
      → docs.find k (docs.upsert k update s) ≡ some (update (docs.find k s))
  find-upsert_self k update s = docs.find-upsert k k update s ∙ rw (eq_text_self k)

  dlq_status-record_dlq :
      (now topic error : Text) (sample : Sample) (s : docs.Store)
      → (samples_at topic (record_dlq docs now topic error sample s)
          ≡ keep_last max_dlq_samples (samples_at topic s ++ sample ∷ []))
        × (failures_at topic (record_dlq docs now topic error sample s) ≡ failures_at topic s + 1)
  unfolding record_dlq dlq_status
  dlq_status-record_dlq now topic error sample s =
      let e = find-upsert_self (dlq_id topic) (failure now topic error sample) s in
      (ap (λ o. (or_new o).samples) e, ap (λ o. (or_new o).count) e)

  -- After any run of failures on a topic the counter has grown by their number, and the samples
  -- are the last ten of what was held and what came.
  pub record_failures-dlq_status :
      (now topic : Text) (failures : List (Text × Sample)) (s : docs.Store)
      → length (samples_at topic s) ≤ max_dlq_samples
      → (failures_at topic (record_failures now topic failures s)
          ≡ failures_at topic s + length failures)
        × (samples_at topic (record_failures now topic failures s)
            ≡ keep_last max_dlq_samples (samples_at topic s ++ map (λ f. f.1) failures))
        × (length (samples_at topic (record_failures now topic failures s)) ≤ max_dlq_samples)
  unfolding record_failures
  record_failures-dlq_status now topic [] s h =
      (omega arith, (rw (append-nil, keep_last_short max_dlq_samples (samples_at topic s) h)), h)
  record_failures-dlq_status now topic ((error, sample) ∷ rest) s h =
      let (held, counted) = dlq_status-record_dlq now topic error sample s in
      let (a, b, c) =
        record_failures-dlq_status now topic rest (record_dlq docs now topic error sample s)
          (rw held (length-keep_last-le max_dlq_samples (samples_at topic s ++ sample ∷ []))) in
      (
        omega arith,
        b
            ∙ rw (
              held,
              keep_last-append max_dlq_samples (samples_at topic s ++ sample ∷ [])
                  (map (λ f. f.1) rest),
              append_assoc,
            ),
        c,
      )

module _ (docs : Documents StateDoc) (s : docs.Store) where
  find-upsert_ne :
      (k j : Text) (update : Option StateDoc → StateDoc)
      → eq_text k j ≡ false
      → docs.find j (docs.upsert k update s) ≡ docs.find j s
  find-upsert_ne k j update h = docs.find-upsert k j update s ∙ rw h

  find-upsert_eq :
      (k j : Text) (update : Option StateDoc → StateDoc)
      → eq_text k j ≡ true
      → docs.find j (docs.upsert k update s) ≡ some (update (docs.find k s))
  find-upsert_eq k j update h = docs.find-upsert k j update s ∙ rw h

  find-delete_self : (k : Text) → docs.find k (docs.delete k s) ≡ none
  find-delete_self k = docs.find-delete k k s ∙ rw (eq_text_self k)

  -- A watermark that was set is read back, and after a reset there is none.
  pub get-set_watermark :
      (now source value : Text) (records : ℕ)
      → (get_watermark docs source (set_watermark docs now source value records s) ≡ some value)
        × (get_watermark docs source (reset_watermark docs source s) ≡ none)
  unfolding get_watermark set_watermark reset_watermark
  get-set_watermark now source value records = (
    ap watermark_of (find-upsert_self docs (watermark_id source) _ s),
    ap watermark_of (find-delete_self (watermark_id source)),
  )

  -- The ledger knows a batch once it is recorded, and no other batch by that.
  pub batch_seen-record_batch :
      (now batch other : Text) (manifest : Manifest)
      → batch_seen docs other (record_batch docs now batch manifest s)
        ≡ (eq_text batch other || batch_seen docs other s)
  unfolding batch_seen record_batch compare_text
  batch_seen-record_batch now batch other manifest = elim (Bool-cases (eq_text batch other)) [
    | inl e ↦ rw e (ap is_there (find-upsert_eq (batch_key batch) (batch_key other) _ e))
    | inr e ↦ rw e (ap is_there (find-upsert_ne (batch_key batch) (batch_key other) _ e))
  ]

  pub batch_seen-record_dlq :
      (now a topic error : Text) (sample : Sample)
      → batch_seen docs a (record_dlq docs now topic error sample s) ≡ batch_seen docs a s
  unfolding batch_seen record_dlq compare_text
  batch_seen-record_dlq now a topic error sample =
      ap is_there (find-upsert_ne (dlq_id topic) (batch_key a) _ refl)

  -- The watermark of every source survives what the ledger, the sink and the dead-letter queue
  -- record, and the ledger survives what they and the poller record.
  pub batch_seen-other_kinds :
      (now a b : Text) (value : Text) (n : ℕ) (manifest : Manifest) (sample : Sample) (col : String)
      → (get_watermark docs a (record_batch docs now b manifest s) ≡ get_watermark docs a s)
        × (get_watermark docs a (record_sink_progress docs now b n col s) ≡ get_watermark docs a s)
        × (get_watermark docs a (record_dlq docs now b value sample s) ≡ get_watermark docs a s)
        × (batch_seen docs a (set_watermark docs now b value n s) ≡ batch_seen docs a s)
        × (batch_seen docs a (reset_watermark docs b s) ≡ batch_seen docs a s)
        × (batch_seen docs a (record_sink_progress docs now b n col s) ≡ batch_seen docs a s)
        × (batch_seen docs a (record_dlq docs now b value sample s) ≡ batch_seen docs a s)
  unfolding get_watermark set_watermark reset_watermark batch_seen record_batch record_sink_progress
      record_dlq compare_text
  batch_seen-other_kinds now a b value n manifest sample col = (
    ap watermark_of (find-upsert_ne (batch_key b) (watermark_id a) _ refl),
    ap watermark_of (find-upsert_ne (sink_id b) (watermark_id a) _ refl),
    ap watermark_of (find-upsert_ne (dlq_id b) (watermark_id a) _ refl),
    ap is_there (find-upsert_ne (watermark_id b) (batch_key a) _ refl),
    ap is_there (docs.find-delete (watermark_id b) (batch_key a) s ∙ refl),
    ap is_there (find-upsert_ne (sink_id b) (batch_key a) _ refl),
    ap is_there (find-upsert_ne (dlq_id b) (batch_key a) _ refl),
  )
