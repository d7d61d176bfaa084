-- ===== src/Sink/Tests.antt =====
-- Instances of the theorems on the sink.
use bank_ods_unified_api.Prelude.{
  ◌≡◌, refl, sym, ap, String, Option, none, some, [], ◌∷◌, ◌⊎◌, inl, inr, In, if◌then◌else◌, str_eq,
  str_eq_refl,
}
use bank_ods_unified_api.Prelude.Text.{Text, codes}
use bank_ods_unified_api.State.{StateDoc}
use bank_ods_unified_api.State.Memory.{memory}
use bank_ods_unified_api.Topics.{Model}
use bank_ods_unified_api.Sink.Writer.{Document, null, at, replay, RawTier, World, write_collection}
use bank_ods_unified_api.Sink.Writer.Newest.{IsNewest}
use bank_ods_unified_api.Sink.Writer.Landing.{
  AllStamped, Returns, after_write, write_collection-IsNewest, write_collection-null,
}

-- A database in memory, which runs the operations in their order.
abbrev tier : RawTier String
tier = record {
  Db = String → Text → Option (Document String);
  find = λ c k db. db c k;
  bulk_write = λ c ops db. (
    λ other k. if str_eq c other then replay k ops (db other k) else db other k,
    record { upserted = 0; matched = 0; errors = [] },
  );
  executed = λ c ops db. ops;
  executed-In = λ c ops db op. (λ i. i, λ i. i);
  find-bulk_write = λ c ops db k h. rw (str_eq_refl c) refl;
}

abbrev securities : Model
securities = record {
  collection = "raw_vendor_securities";
  id_field = "Vendor_Ref";
  ordering_field = "SRC_UPDATED_AT";
}

abbrev fresh : Document String
fresh = record { key = codes "VND-1"; stamp = at (codes "2026-01-30"); content = "fresh" }

abbrev stale : Document String
stale = record { key = codes "VND-1"; stamp = at (codes "2025-02-14"); content = "stale" }

abbrev unstamped : Document String
unstamped = record { key = codes "VND-1"; stamp = null; content = "unstamped" }

abbrev world : Option (Document String) → World tier (memory StateDoc) []
world found = record { db = λ c k. found; ledger = [] }

both_stamped : AllStamped securities refl (fresh ∷ stale ∷ [])
both_stamped d (inl e) = (codes "2026-01-30", sym (ap (λ o. o.stamp) e))
both_stamped d (inr (inl e)) = (codes "2025-02-14", sym (ap (λ o. o.stamp) e))
both_stamped d (inr (inr i)) = absurd i

write-Returns :
    (found : Option (Document String))
    → Returns securities refl tier
        (memory StateDoc)
        []
        (codes "t")
        "c"
        (fresh ∷ stale ∷ [])
        (world found)
unfolding write_collection
write-Returns found h = cc

write_collection-IsNewest_example :
    let found =
      (after_write securities refl tier
          (memory StateDoc)
          []
          (codes "t")
          "c"
          (fresh ∷ stale ∷ [])
          (world none)).db
        "c"
        (codes "VND-1") in
    ((d : Document String) (t : Text)
      → In d (fresh ∷ stale ∷ [])
      → d.key ≡ codes "VND-1"
      → d.stamp ≡ at t
      → IsNewest t found)
    × ((found ≡ none)
        ⊎ ((d : Document String) × In d (fresh ∷ stale ∷ [])
            × (d.key ≡ codes "VND-1")
            × (found ≡ some d)))
write_collection-IsNewest_example =
    write_collection-IsNewest securities refl tier (memory StateDoc) [] (codes "t") "c"
      (fresh ∷ stale ∷ []) (world none) (codes "VND-1") both_stamped (write-Returns none) tt

write_collection-null_example :
    (after_write securities refl tier
        (memory StateDoc)
        []
        (codes "t")
        "c"
        (fresh ∷ stale ∷ [])
        (world (some unstamped))).db
      "c"
      (codes "VND-1")
    ≡ some unstamped
write_collection-null_example =
    write_collection-null securities refl tier (memory StateDoc) [] (codes "t") "c"
      (fresh ∷ stale ∷ []) (world (some unstamped)) (codes "VND-1") unstamped both_stamped
      (write-Returns (some unstamped)) refl refl
