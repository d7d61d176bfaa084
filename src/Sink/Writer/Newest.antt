-- ===== src/Sink/Writer/Newest.antt =====
-- A latest-state collection keeps the newest stamp, in whatever order the records arrive.
use mathlib.Core.Path.{subst}
use bank_ods_unified_api.Prelude.{
  ◌≡◌, ◌≢◌, refl, sym, ap, ◌∙◌, true, false, Option, none, some, List, [], ◌∷◌, ◌⊎◌, inl, inr, In,
  if-cases, arith, if◌then◌else◌,
}
use bank_ods_unified_api.Prelude.Text.{
  Text, lt_text, eq_text, eq_text_iff, lt_text_irrefl, lt_text_trans,
}
use bank_ods_unified_api.Sink.Writer.{
  null, at, Document, WriteOp, replace, insert_if_absent, update_if_older, doc_of, is_older, effect,
  replay,
}

-- The step that the order of the stamps allows.
later_keeps : (t u v : Text) → lt_text u t ≡ false → lt_text u v ≡ true → lt_text v t ≡ false
later_keeps t u v h k = ground (arith, lt_text_trans u v t)

some_injective : {A : Type 0} {a b : A} → some a ≡ some b → a ≡ b
some_injective h = cc

at_injective : {t u : Text} → at t ≡ at u → t ≡ u
at_injective h = cc

true_not_false : true ≢ false
true_not_false h = cc

eq_text_of : {a b : Text} → a ≡ b → eq_text a b ≡ true
eq_text_of {a} {b} h = ground (arith, eq_text_iff a b)

module _ {C : Type 0} where
  -- The guarded update of a document that has a stamp.
  abbrev pub IsGuarded : WriteOp C → Type 0
  IsGuarded op = (t : Text) × ((doc_of op).stamp ≡ at t) × (op ≡ update_if_older t (doc_of op))

  -- There is a document, and its stamp is not before t.
  abbrev pub IsNewest : Text → Option (Document C) → Type 0
  IsNewest t found =
      (d : Document C) × ((u : Text) × (found ≡ some d) × (d.stamp ≡ at u) × (lt_text u t ≡ false))

  -- There is no document, or it has a stamp.
  abbrev pub IsOrdered : Option (Document C) → Type 0
  IsOrdered none = Unit
  IsOrdered (some d) = (t : Text) × (d.stamp ≡ at t)

  update-IsNewest :
      (v : Text) (d : Document C) (found : Option (Document C)) (t : Text)
      → d.stamp ≡ at v
      → IsNewest t found
      → IsNewest t (effect (update_if_older v d) found)
  update-IsNewest v d none t s (e, (u, f, g, h)) = cc
  update-IsNewest v d (some old) t s (e, (u, f, g, h)) =
      let stamp : old.stamp ≡ at u = ap (λ o. o.stamp) (some_injective f) ∙ g in
      if-cases (IsNewest t) (is_older v old.stamp) (some d) (some old)
        (λ older. (d, (v, refl, s, later_keeps t u v h (sym (ap (is_older v) stamp) ∙ older))))
        (λ newer. (old, (u, refl, stamp, h)))

  update_self-IsNewest :
      (v : Text) (d : Document C) (found : Option (Document C))
      → d.stamp ≡ at v
      → IsOrdered found
      → IsNewest v (effect (update_if_older v d) found)
  update_self-IsNewest v d none s h = (d, (v, refl, s, lt_text_irrefl v))
  update_self-IsNewest v d (some old) s (u, stamp) =
      if-cases (IsNewest v) (is_older v old.stamp) (some d) (some old)
        (λ older. (d, (v, refl, s, lt_text_irrefl v)))
        (λ newer. (old, (u, refl, stamp, sym (ap (is_older v) stamp) ∙ newer)))

  IsNewest-IsOrdered : (t : Text) (found : Option (Document C)) → IsNewest t found → IsOrdered found
  IsNewest-IsOrdered t none (e, (u, f, g, h)) = tt
  IsNewest-IsOrdered t (some d) (e, (u, f, g, h)) = (u, ap (λ o. o.stamp) (some_injective f) ∙ g)

  -- Either the operation at its key, or nothing.
  abbrev applied : Text → WriteOp C → Option (Document C) → Option (Document C)
  applied key op found = if eq_text (doc_of op).key key then effect op found else found

  applied-IsNewest :
      (key : Text) (op : WriteOp C) (found : Option (Document C)) (t : Text)
      → IsGuarded op
      → IsNewest t found
      → IsNewest t (applied key op found)
  applied-IsNewest key op found t (v, s, e) h =
      if-cases (IsNewest t) (eq_text (doc_of op).key key) (effect op found) found
        (λ same.
          subst (λ o. IsNewest t (effect o found)) (sym e)
            (update-IsNewest v (doc_of op) found t s h))
        (λ other. h)

  applied-IsOrdered :
      (key : Text) (op : WriteOp C) (found : Option (Document C))
      → IsGuarded op
      → IsOrdered found
      → IsOrdered (applied key op found)
  applied-IsOrdered key op found (v, s, e) h =
      if-cases IsOrdered (eq_text (doc_of op).key key) (effect op found) found
        (λ same.
          subst (λ o. IsOrdered (effect o found)) (sym e)
            (IsNewest-IsOrdered v _ (update_self-IsNewest v (doc_of op) found s h)))
        (λ other. h)

  first_applied :
      (key : Text) (op : WriteOp C) (found : Option (Document C)) (t : Text)
      → IsGuarded op
      → IsOrdered found
      → (doc_of op).key ≡ key
      → (doc_of op).stamp ≡ at t
      → IsNewest t (applied key op found)
  first_applied key op found t (v, s, e) h k stamp =
      if-cases (IsNewest t) (eq_text (doc_of op).key key) (effect op found) found
        (λ same.
          subst (λ o. IsNewest t (effect o found)) (sym e)
            (subst (λ u. IsNewest u (effect (update_if_older v (doc_of op)) found))
              (at_injective (sym s ∙ stamp)) (update_self-IsNewest v (doc_of op) found s h)))
        (λ other. absurd (true_not_false (sym (eq_text_of k) ∙ other)))

  replay-IsNewest :
      (key : Text) (ops : List (WriteOp C)) (found : Option (Document C)) (t : Text)
      → ((op : WriteOp C) → In op ops → IsGuarded op)
      → IsNewest t found
      → IsNewest t (replay key ops found)
  unfolding replay
  replay-IsNewest key [] found t g h = h
  replay-IsNewest key (op ∷ ops) found t g h =
      replay-IsNewest key ops (applied key op found) t (λ o i. g o (inr i))
        (applied-IsNewest key op found t (g op (inl refl)) h)

  -- After a run of guarded updates no stamp of the run is behind what is stored.
  pub replay-In-IsNewest :
      (key : Text) (ops : List (WriteOp C)) (found : Option (Document C)) (op : WriteOp C)
      (t : Text)
      → ((o : WriteOp C) → In o ops → IsGuarded o)
      → IsOrdered found
      → In op ops
      → (doc_of op).key ≡ key
      → (doc_of op).stamp ≡ at t
      → IsNewest t (replay key ops found)
  unfolding replay
  replay-In-IsNewest key [] found op t g h i k s = absurd i
  replay-In-IsNewest key (o ∷ ops) found op t g h (inr i) k s =
      replay-In-IsNewest key ops (applied key o found) op t (λ q j. g q (inr j))
        (applied-IsOrdered key o found (g o (inl refl)) h) i k s
  replay-In-IsNewest key (o ∷ ops) found op t g h (inl e) k s =
      replay-IsNewest key ops (applied key o found) t (λ q j. g q (inr j))
        (first_applied key o found t (g o (inl refl)) h (ap (λ q. (doc_of q).key) e ∙ k)
          (ap (λ q. (doc_of q).stamp) e ∙ s))

  -- What is stored was there before, or was delivered.
  abbrev pub IsFrom : Text → List (WriteOp C) → Option (Document C) → Option (Document C) → Type 0
  IsFrom key ops before after =
      (after ≡ before)
      ⊎ ((op : WriteOp C) × In op ops × ((doc_of op).key ≡ key) × (after ≡ some (doc_of op)))

  IsFrom-later :
      (key : Text) (op : WriteOp C) (ops : List (WriteOp C)) (before after : Option (Document C))
      → IsFrom key ops before after
      → IsFrom key (op ∷ ops) before after
  IsFrom-later key op ops before after (inl e) = inl e
  IsFrom-later key op ops before after (inr (o, i, k, e)) = inr (o, inr i, k, e)

  effect-cases :
      (op : WriteOp C) (found : Option (Document C))
      → (effect op found ≡ found) ⊎ (effect op found ≡ some (doc_of op))
  effect-cases op none = inr refl
  effect-cases (replace d) (some old) = inr refl
  effect-cases (insert_if_absent d) (some old) = inl refl
  effect-cases (update_if_older t d) (some old) =
      if-cases (λ r. (r ≡ some old) ⊎ (r ≡ some d)) (is_older t old.stamp) (some d) (some old)
        (λ older. inr refl) (λ newer. inl refl)

  applied-cases :
      (key : Text) (op : WriteOp C) (found : Option (Document C))
      → (applied key op found ≡ found)
        ⊎ (((doc_of op).key ≡ key) × (applied key op found ≡ some (doc_of op)))
  applied-cases key op found =
      if-cases (λ r. (r ≡ found) ⊎ (((doc_of op).key ≡ key) × (r ≡ some (doc_of op))))
        (eq_text (doc_of op).key key) (effect op found) found
        (λ same. elim (effect-cases op found) [
          | inl e ↦ inl e
          | inr e ↦ inr ((eq_text_iff (doc_of op).key key).0 same, e)
        ])
        (λ other. inl refl)

  pub replay-IsFrom :
      (key : Text) (ops : List (WriteOp C)) (found : Option (Document C))
      → IsFrom key ops found (replay key ops found)
  unfolding replay
  replay-IsFrom key [] found = inl refl
  replay-IsFrom key (op ∷ ops) found = elim (replay-IsFrom key ops (applied key op found)) [
    | inr later ↦ IsFrom-later key op ops found _ (inr later)
    | inl e ↦ elim (applied-cases key op found) [
      | inl unchanged ↦ inl (e ∙ unchanged)
      | inr (k, stored) ↦ inr (op, inl refl, k, e ∙ stored)
    ]
  ]

  applied-null :
      (key : Text) (op : WriteOp C) (old : Document C)
      → IsGuarded op
      → old.stamp ≡ null
      → applied key op (some old) ≡ some old
  applied-null key op old (t, s, e) h =
      if-cases (λ r. r ≡ some old) (eq_text (doc_of op).key key) (effect op (some old)) (some old)
        (λ same.
          subst (λ o. effect o (some old) ≡ some old) (sym e)
            (if-cases (λ r. r ≡ some old) (is_older t old.stamp) (some (doc_of op)) (some old)
              (λ older. absurd (true_not_false (sym older ∙ ap (is_older t) h))) (λ newer. refl)))
        (λ other. refl)

  pub replay-null :
      (key : Text) (ops : List (WriteOp C)) (old : Document C)
      → ((op : WriteOp C) → In op ops → IsGuarded op)
      → old.stamp ≡ null
      → replay key ops (some old) ≡ some old
  unfolding replay
  replay-null key [] old g h = refl
  replay-null key (op ∷ ops) old g h =
      ap (replay key ops) (applied-null key op old (g op (inl refl)) h)
      ∙ replay-null key ops old (λ o i. g o (inr i)) h
