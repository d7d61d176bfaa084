-- ===== src/Poller/Watermark.antt =====
-- src/ods_ingest/adapters/rest_poll/poller.py: what a poll delivers, and the watermark that it leaves.
use mathlib.Core.Path.{subst}
use mathlib.Core.List.{Perm}
use bank_ods_unified_api.Prelude.{
  ℕ, ◌≡◌, refl, sym, ◌∙◌, Bool, true, false, not, ◌&&◌, ◌||◌, Option, none, some, List, [], ◌∷◌,
  ◌⊎◌, map, inl, inr, Bool-cases, Option-cases, if-cases, arith, length,
}
use bank_ods_unified_api.Prelude.Text.{
  Text, lt_text, lt_text_irrefl, lt_text_trans, lt_text_asymm, eq_of_not_lt,
}
use bank_ods_unified_api.Prelude.Strip.{is_empty}
use bank_ods_unified_api.Bus.Producer.{Kafka, session, session-landed}
use bank_ods_unified_api.State.{Documents, StateDoc, get_watermark, set_watermark}
use bank_ods_unified_api.State.Laws.{get-set_watermark}
use bank_ods_unified_api.Poller.{
  Response, PollError, not_delivered, store_failed, updated, Sweep, raise_to, highest_of, same_as,
  store_watermark, forget, poll_once, source,
}

-- The second watermark is not behind the first.
abbrev pub NotBehind : Option Text → Option Text → Type 0
NotBehind none later = Unit
NotBehind (some t) later = (u : Text) × (later ≡ some u) × (lt_text u t ≡ false)

NotBehind-refl : (o : Option Text) → NotBehind o o
NotBehind-refl none = tt
NotBehind-refl (some t) = (t, refl, lt_text_irrefl t)

some_injective : {A : Type 0} {a b : A} → some a ≡ some b → a ≡ b
some_injective h = cc

second_true : (a b : Bool) → (a && b) ≡ true → b ≡ true
second_true a b h = ground arith

between : (t u v : Text) → lt_text u t ≡ false → lt_text v u ≡ false → lt_text v t ≡ false
between t u v h k = elim (Bool-cases (lt_text t u)) [
  | inl below ↦ elim (Bool-cases (lt_text v t)) [
    | inl lower ↦ cc (sym k ∙ lt_text_trans v t u lower below)
    | inr e ↦ e
  ]
  | inr e ↦ subst (λ x. lt_text v x ≡ false) (eq_of_not_lt u t h e) k
]

NotBehind-trans : (a b c : Option Text) → NotBehind a b → NotBehind b c → NotBehind a c
NotBehind-trans none b c h k = tt
NotBehind-trans (some t) none c (u, e, l) k = cc
NotBehind-trans (some t) (some v) c (u, e, l) (w, f, m) =
    (w, f, between t v w (subst (λ x. lt_text x t ≡ false) (sym (some_injective e)) l) m)

module _ {R : Type 0} (updated_at : R → Option Text) (get : ℕ → ℕ → Response R) where
  NotBehind-raise_to : (t h : Option Text) → NotBehind h (raise_to updated_at get t h)
  NotBehind-raise_to none h = NotBehind-refl h
  NotBehind-raise_to (some t) none = tt
  NotBehind-raise_to (some t) (some h) =
      if-cases (NotBehind (some h)) (not (is_empty t) && lt_text h t) (some t) (some h)
        (λ newer. (t, refl, lt_text_asymm h t (second_true (not (is_empty t)) (lt_text h t) newer)))
        (λ older. NotBehind-refl (some h))

  NotBehind-highest_of :
      (rows : List R) (h : Option Text) → NotBehind h (highest_of updated_at get rows h)
  unfolding highest_of
  NotBehind-highest_of [] h = NotBehind-refl h
  NotBehind-highest_of (r ∷ rs) h =
      NotBehind-trans h (raise_to updated_at get (updated_at r) h) _
        (NotBehind-raise_to (updated_at r) h)
        (NotBehind-highest_of rs (raise_to updated_at get (updated_at r) h))

  module _ {M : Type 0} (message : R → M) (kafka : Kafka M) (docs : Documents StateDoc)
      (now : Text) where
    -- Every row of the sweep has landed once, and the watermark is not behind.
    abbrev pub Delivered : Sweep R → List M → docs.Store → docs.Store → Type 0
    Delivered swept landed start after =
        Perm landed (map message swept.rows)
        × (swept.error ≡ none)
        × NotBehind (get_watermark docs source start) (get_watermark docs source after)

    abbrev pub Polled : Sweep R → List M → docs.Store → Option PollError × docs.Store → Type 0
    Polled swept landed start (none, after) = Delivered swept landed start after
    Polled swept landed start (some e, after) =
        (after ≡ start) ⊎ ((e ≡ store_failed) × Delivered swept landed start after)

    module _ (swept : Sweep R) (landed : List M) (all : Perm landed (map message swept.rows))
        (whole : swept.error ≡ none) (s : docs.Store) where
      abbrev watermark : Option Text
      watermark = get_watermark docs source s

      updated-Polled :
          (fault : Option Bool) (n : ℕ) (highest : Text)
          → NotBehind watermark (some highest)
          → Polled swept landed s (
              updated updated_at get message kafka docs now fault s
                (set_watermark docs now source highest n s))
      updated-Polled none n highest h = (
        all,
        whole,
        subst (NotBehind watermark) (sym (get-set_watermark docs s now source highest n).0) h,
      )
      updated-Polled (some true) n highest h = inr (
        refl,
        (
          all,
          whole,
          subst (NotBehind watermark) (sym (get-set_watermark docs s now source highest n).0) h,
        ),
      )
      updated-Polled (some false) n highest h = inl refl

      store_watermark-Polled :
          (fault : Option Bool) (n : ℕ) (highest : Option Text)
          → NotBehind watermark highest
          → Polled swept landed s
              (store_watermark updated_at get message kafka docs now fault n highest watermark s)
      store_watermark-Polled fault n none h = (all, whole, NotBehind-refl watermark)
      store_watermark-Polled fault n (some highest) h =
          if-cases (Polled swept landed s)
            (is_empty highest || same_as updated_at get highest watermark) _ _
            (λ kept. (all, whole, NotBehind-refl watermark))
            (λ moved. updated-Polled fault n highest h)

    -- A poll that does not raise has delivered every row of the sweep once, and leaves a watermark
    -- that is not behind the one that it started from. A poll that raises leaves the state as it
    -- found it, but for the reset that was asked for; or what failed is the update of the watermark,
    -- and all that is said of a poll that does not raise holds.
    pub poll_once-NotBehind :
        (fault : Option Bool) (full_resync : Bool) (swept : Sweep R) (s : docs.Store)
        → let (outcome, landed) =
            poll_once updated_at get message kafka docs now fault full_resync swept s in
          Polled swept landed (forget updated_at get message kafka docs now full_resync s) outcome
    unfolding poll_once
    poll_once-NotBehind fault full_resync swept s =
        let start = forget updated_at get message kafka docs now full_resync s in
        let done = session kafka not_delivered (map message swept.rows) swept.error in
        elim (Option-cases done.error) [
          | inl clean ↦
              let (no_error, landed) =
                session-landed kafka not_delivered (map message swept.rows) swept.error clean in
              rw (clean) (
                store_watermark-Polled swept done.landed landed no_error start fault
                  (length swept.rows)
                  (highest_of updated_at get swept.rows (get_watermark docs source start))
                  (NotBehind-highest_of swept.rows (get_watermark docs source start)))
          | inr (e, raised) ↦ rw (raised) (inl refl)
        ]
