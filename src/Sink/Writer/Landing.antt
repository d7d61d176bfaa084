-- ===== src/Sink/Writer/Landing.antt =====
-- What a batch for a latest-state collection leaves there.
use bank_ods_unified_api.Prelude.{
  ◌≡◌, ◌≢◌, refl, sym, ap, ◌∙◌, false, String, none, some, List, [], ◌∷◌, map, ◌⊎◌, inl, inr, In,
  Bool-cases, str_eq,
}
use bank_ods_unified_api.Prelude.Text.{Text}
use bank_ods_unified_api.State.{Documents, StateDoc}
use bank_ods_unified_api.Topics.{Model}
use bank_ods_unified_api.Sink.Writer.{
  null, at, Document, WriteOp, update_if_older, write_op, guarded, doc_of, replay, only_duplicates,
  RawTier, World, write_collection,
}
use bank_ods_unified_api.Sink.Writer.Newest.{
  IsGuarded, IsNewest, IsOrdered, replay-In-IsNewest, replay-IsFrom, replay-null,
}

In-map : {A B : Type 0} (f : A → B) (xs : List A) (x : A) → In x xs → In (f x) (map f xs)
In-map f [] x i = i
In-map f (y ∷ xs) x (inl e) = inl (ap f e)
In-map f (y ∷ xs) x (inr i) = inr (In-map f xs x i)

map-In :
    {A B : Type 0} (f : A → B) (xs : List A) (b : B)
    → In b (map f xs)
    → (x : A) × In x xs × (f x ≡ b)
map-In f [] b i = absurd i
map-In f (y ∷ xs) b (inl e) = (y, inl refl, e)
map-In f (y ∷ xs) b (inr i) = let (x, j, e) = map-In f xs b i in (x, inr j, e)

module _ {C : Type 0} (model : Model) (ordered : str_eq model.ordering_field "" ≡ false) where
  write_op-at :
      (d : Document C) (t : Text) → d.stamp ≡ at t → write_op model d ≡ update_if_older t d
  unfolding write_op
  write_op-at d t h = rw (ordered) (ap (guarded d) h)

  abbrev pub AllStamped : List (Document C) → Type 0
  AllStamped batch = (d : Document C) → In d batch → (t : Text) × (d.stamp ≡ at t)

  write_op-IsGuarded :
      (batch : List (Document C))
      → AllStamped batch
      → (op : WriteOp C) → In op (map (write_op model) batch)
      → IsGuarded op
  write_op-IsGuarded batch stamped op i =
      let (d, j, e) = map-In (write_op model) batch op i in
      let (t, s) = stamped d j in
      let u = sym e ∙ write_op-at d t s in
      let same : doc_of op ≡ d = ap doc_of u in
      (t, ap (λ o. o.stamp) same ∙ s, u ∙ ap (update_if_older t) (sym same))

  module _ (tier : RawTier C) (docs : Documents StateDoc) (now : Text) where
    abbrev pub after_write :
        Text → String → List (Document C) → World tier docs now → World tier docs now
    after_write topic collection batch w =
        (write_collection tier docs now topic collection (map (write_op model) batch) w).1

    abbrev pub Returns : Text → String → List (Document C) → World tier docs now → Type 0
    Returns topic collection batch w =
        (write_collection tier docs now topic collection (map (write_op model) batch) w).0 ≢ none

    write_collection-replay :
        (topic : Text) (collection : String) (ops : List (WriteOp C)) (w : World tier docs now)
        (key : Text)
        → (write_collection tier docs now topic collection ops w).0 ≢ none
        → tier.find collection key (write_collection tier docs now topic collection ops w).1.db
          ≡ replay key (tier.executed collection ops w.db) (tier.find collection key w.db)
    unfolding write_collection
    write_collection-replay topic collection ops w key h =
        elim (Bool-cases (only_duplicates (tier.bulk_write collection ops w.db).1.errors)) [
          | inl e ↦ rw (e) (tier.find-bulk_write collection ops w.db key e)
          | inr e ↦ absurd (h (rw (e) refl))
        ]

    executed-IsGuarded :
        (collection : String) (batch : List (Document C)) (w : World tier docs now)
        → AllStamped batch
        → (op : WriteOp C) → In op (tier.executed collection (map (write_op model) batch) w.db)
        → IsGuarded op
    executed-IsGuarded collection batch w stamped op i =
        write_op-IsGuarded batch stamped op
          ((tier.executed-In collection (map (write_op model) batch) w.db op).0 i)

    -- If a batch of stamped documents for a model with an ordering field is written without an exception and the document at a key, if
    -- there is one, has a stamp, then afterwards no stamp of the batch for that key is behind the
    -- stored one, and what is stored was there before or is one of the batch, in whatever order
    -- the server ran the writes.
    pub write_collection-IsNewest :
        (topic : Text) (collection : String) (batch : List (Document C)) (w : World tier docs now)
        (key : Text)
        → AllStamped batch
        → Returns topic collection batch w
        → IsOrdered (tier.find collection key w.db)
        → let after = tier.find collection key (after_write topic collection batch w).db in
          ((d : Document C) (t : Text)
            → In d batch
            → d.key ≡ key
            → d.stamp ≡ at t
            → IsNewest t after)
          × ((after ≡ tier.find collection key w.db)
              ⊎ ((d : Document C) × In d batch × (d.key ≡ key) × (after ≡ some d)))
    write_collection-IsNewest topic collection batch w key stamped ok before =
        let ops = map (write_op model) batch in
        let run = write_collection-replay topic collection ops w key ok in
        rw (run) (
          λ d t i k s.
              replay-In-IsNewest key (tier.executed collection ops w.db)
                (tier.find collection key w.db) (write_op model d) t
                (executed-IsGuarded collection batch w stamped) before
                ((tier.executed-In collection ops w.db (write_op model d)).1
                  (In-map (write_op model) batch d i))
                (ap (λ o. (doc_of o).key) (write_op-at d t s) ∙ k)
                (ap (λ o. (doc_of o).stamp) (write_op-at d t s) ∙ s),
          elim (replay-IsFrom key (tier.executed collection ops w.db)
              (tier.find collection key w.db)) [
                | inl e ↦ inl e
                | inr (op, i, k, e) ↦
                    let (d, j, f) =
                      map-In (write_op model) batch op
                        ((tier.executed-In collection ops w.db op).0 i) in
                    let (t, s) = stamped d j in
                    let same : doc_of op ≡ d = ap doc_of (sym f ∙ write_op-at d t s) in
                    inr (d, j, sym (ap (λ o. o.key) same) ∙ k, e ∙ ap some same)
              ],
        )

    -- For a model with an ordering field, a stored document whose ordering field is null stays as it
    -- is when a batch of stamped documents is written without an exception.
    pub write_collection-null :
        (topic : Text) (collection : String) (batch : List (Document C)) (w : World tier docs now)
        (key : Text) (old : Document C)
        → AllStamped batch
        → Returns topic collection batch w
        → tier.find collection key w.db ≡ some old
        → old.stamp ≡ null
        → tier.find collection key (after_write topic collection batch w).db ≡ some old
    write_collection-null topic collection batch w key old stamped ok found unstamped =
        let ops = map (write_op model) batch in
        write_collection-replay topic collection ops w key ok
        ∙ ap (replay key (tier.executed collection ops w.db)) found
        ∙ replay-null key (tier.executed collection ops w.db) old
            (executed-IsGuarded collection batch w stamped) unstamped
