-- ===== src/Curation/Crm/Convergence.antt =====
-- src/ods_ingest/curation/crm_accounts.py: the account leg and the client leg, in either order.
use mathlib.Core.Path.{subst}
use bank_ods_unified_api.Prelude.{
  ◌≡◌, refl, sym, ap, ◌∙◌, true, false, Option, none, some, List, [], ◌∷◌, All, if-cases,
}
use bank_ods_unified_api.Prelude.Text.{Text, eq_text_iff, lt_text}
use bank_ods_unified_api.Prelude.Strip.{is_empty}
use bank_ods_unified_api.Prelude.Index.{non_empty, or_blank}
use bank_ods_unified_api.Curation.Stats.{CurationStats}
use bank_ods_unified_api.Curation.Crm.Master.{ClientMaster, client_master_from, placeholder_client}
use bank_ods_unified_api.Curation.Crm.Events.{
  AccountOp, set_client, Clock, is_delete, present, snapshot_of, latest_client_state,
  curate_client_event, curate_account_event, client_change, account_change, account_with,
  account_of, latest_event, later_event, has_state, after_of,
}
use bank_ods_unified_api.Curation.Crm.Accounts.{Accounts, apply_ops}
use bank_ods_unified_api.Sink.Extractors.{State, ChangeEvent, field}
use bank_ods_unified_api.Curation.Crm.Commute.{content, IsLeg, apply_ops-set_client}

-- The row of a client's event names the client that the event is keyed by.
abbrev pub IsKeyed : Text → Option State → Type 0
IsKeyed pk none = Unit
IsKeyed pk (some row) = or_blank (field "client_id" row) ≡ pk

abbrev Found : Text → Option ChangeEvent → Type 0
Found client_id none = Unit
Found client_id (some e) = (e.pk ≡ client_id) × IsKeyed e.pk e.after

later_event-Found :
    (client_id : Text) (e : ChangeEvent) (rest : Option ChangeEvent)
    → (e.pk ≡ client_id) × IsKeyed e.pk e.after
    → Found client_id rest
    → Found client_id (later_event e rest)
later_event-Found client_id e none h r = h
later_event-Found client_id e (some f) h r =
    if-cases (Found client_id) (lt_text e.lsn f.lsn) (some f) (some e) (λ _. r) (λ _. h)

has_state-pk :
    (client_id : Text) (e : ChangeEvent) (after : Option State)
    → has_state client_id e after ≡ true
    → e.pk ≡ client_id
has_state-pk client_id e none h = cc
has_state-pk client_id e (some row) h = (eq_text_iff e.pk client_id).0 h

latest_event-Found :
    (client_id : Text) (events : List ChangeEvent)
    → All (λ e. IsKeyed e.pk e.after) events
    → Found client_id (latest_event client_id events)
unfolding latest_event
latest_event-Found client_id [] h = tt
latest_event-Found client_id (e ∷ events) (h, hs) =
    let rest = latest_event-Found client_id events hs in
    if-cases (Found client_id) (has_state client_id e e.after) _ _
      (λ same.
        later_event-Found client_id e (latest_event client_id events)
          (has_state-pk client_id e e.after same, h) rest)
      (λ other. rest)

-- The snapshot that an account of a client gets names that client.
client_id-client_master_from :
    (row : State) → (client_master_from row).client_id ≡ or_blank (field "client_id" row)
unfolding client_master_from
client_id-client_master_from row = refl

client_id-snapshot_row :
    (client_id pk : Text) (after : Option State) (clock : Clock) (now : Text)
    → pk ≡ client_id
    → IsKeyed pk after
    → (snapshot_of clock now after client_id).client_id ≡ client_id
unfolding placeholder_client
client_id-snapshot_row client_id pk none clock now e h = refl
client_id-snapshot_row client_id pk (some row) clock now e h =
    if-cases (λ (c : ClientMaster). c.client_id ≡ client_id) (is_empty row) _ _ (λ _. refl)
      (λ _. client_id-client_master_from row ∙ h ∙ e)

client_id-snapshot_of :
    (client_id : Text) (latest : Option ChangeEvent) (clock : Clock) (now : Text)
    → Found client_id latest
    → (snapshot_of clock now (after_of latest) client_id).client_id ≡ client_id
unfolding placeholder_client
client_id-snapshot_of client_id none clock now h = refl
client_id-snapshot_of client_id (some e) clock now (p, h) =
    client_id-snapshot_row client_id e.pk e.after clock now p h

-- What a curator of one event gives.
abbrev Curated : Type 0
Curated = List AccountOp × CurationStats

snapshot_of-row :
    (clock : Clock) (now k : Text) (row : State)
    → is_empty row ≡ false
    → snapshot_of clock now (some row) k ≡ client_master_from row
snapshot_of-row clock now k row full =
    if-cases (λ c. c ≡ client_master_from row) (is_empty row) _ _ (λ e. cc) (λ _. refl)

module _ (clock : Clock) (now_a : Text) (events : List ChangeEvent) where
  account_with-IsLeg :
      (k : Text) (client : ClientMaster) (nbr : Text) (row : State) (cid : Option Text)
      (stats : CurationStats)
      → All (λ e. IsKeyed e.pk e.after) events
      → snapshot_of clock now_a (latest_client_state k events) k ≡ client
      → IsLeg k client (account_with clock now_a events nbr row cid stats).0
  unfolding account_of latest_client_state
  account_with-IsLeg k client nbr row none stats keyed known = tt
  account_with-IsLeg k client nbr row (some cid) stats keyed known = λ same.
      let own =
        client_id-snapshot_of cid (latest_event cid events) clock now_a
          (latest_event-Found cid events keyed) in
      let e : cid ≡ k = sym own ∙ (eq_text_iff _ k).0 same in
      ap (λ c. snapshot_of clock now_a (latest_client_state c events) c) e ∙ known

  account_change-IsLeg :
      (k : Text) (client : ClientMaster) (nbr : Text) (after : Option State) (stats : CurationStats)
      → All (λ e. IsKeyed e.pk e.after) events
      → snapshot_of clock now_a (latest_client_state k events) k ≡ client
      → IsLeg k client (account_change clock now_a events nbr after stats).0
  account_change-IsLeg k client nbr none stats keyed known = tt
  account_change-IsLeg k client nbr (some row) stats keyed known =
      account_with-IsLeg k client nbr row (non_empty (field "client_id" row)) stats keyed known

  curate_account_event-IsLeg :
      (k : Text) (client : ClientMaster) (a : ChangeEvent) (stats : CurationStats)
      → All (λ e. IsKeyed e.pk e.after) events
      → snapshot_of clock now_a (latest_client_state k events) k ≡ client
      → IsLeg k client (curate_account_event clock now_a events a stats).0
  unfolding curate_account_event
  curate_account_event-IsLeg k client a stats keyed known =
      if-cases (λ (r : Curated). IsLeg k client r.0) (is_empty a.pk) _ _ (λ _. tt)
        λ _.
          if-cases (λ (r : Curated). IsLeg k client r.0) (is_delete clock now_a a) _ _ (λ _. tt)
            λ _. account_change-IsLeg k client a.pk (present clock now_a a.after) stats keyed known

-- The two orders of two runs of operations leave the same accounts.
abbrev Commute : List AccountOp → List AccountOp → Type 0
Commute ops other =
    (accounts : Accounts) (j : Text)
    → content j (apply_ops other (apply_ops ops accounts))
      ≡ content j (apply_ops ops (apply_ops other accounts))

client_change-Commute :
    (clock : Clock) (now : Text) (k : Text) (row : State) (ops : List AccountOp)
    (stats : CurationStats)
    → IsLeg k (client_master_from row) ops
    → Commute ops (set_client k (client_master_from row) now ∷ [])
unfolding apply_ops
client_change-Commute clock now k row ops stats leg accounts j =
    apply_ops-set_client k now (client_master_from row) ops accounts j leg

Commute-nothing : (ops : List AccountOp) → Commute ops []
unfolding apply_ops
Commute-nothing ops accounts j = refl

client_change-leg :
    (clock : Clock) (now_a now_c : Text) (events : List ChangeEvent) (a : ChangeEvent) (k : Text)
    (row : State) (s t : CurationStats)
    → All (λ e. IsKeyed e.pk e.after) events
    → latest_client_state k events ≡ some row
    → Commute
        (curate_account_event clock now_a events a s).0
        (client_change clock now_c k (present clock now_c (some row)) t).0
client_change-leg clock now_a now_c events a k row s t keyed latest =
    let ops = (curate_account_event clock now_a events a s).0 in
    if-cases (λ o. Commute ops (client_change clock now_c k o t).0) (is_empty row) none (some row)
      (λ _. Commute-nothing ops)
      (λ full. client_change-Commute clock now_c k row ops t (
        curate_account_event-IsLeg clock now_a events k (client_master_from row) a s keyed
          (ap (λ o. snapshot_of clock now_a o k) latest ∙ snapshot_of-row clock now_a k row full)))

-- Let the client events of the raw tier be keyed by the client that their rows name, and let the row
-- of a client event that is no delete be the latest state of its client there. Then the account leg
-- of any account event and the client leg of that event leave the same account under every
-- identifier, whichever is applied first, but for the times of writing.
pub curate_events-converge :
    (clock : Clock) (now_a now_c : Text) (events : List ChangeEvent) (a c : ChangeEvent)
    (row : State) (s t : CurationStats) (accounts : Accounts) (j : Text)
    → All (λ e. IsKeyed e.pk e.after) events
    → is_delete clock now_c c ≡ false
    → c.after ≡ some row
    → latest_client_state c.pk events ≡ some row
    → let account_ops = (curate_account_event clock now_a events a s).0 in
      let client_ops = (curate_client_event clock now_c c t).0 in
      content j (apply_ops client_ops (apply_ops account_ops accounts))
      ≡ content j (apply_ops account_ops (apply_ops client_ops accounts))
unfolding curate_client_event
curate_events-converge clock now_a now_c events a c row s t accounts j keyed live image latest =
    let ops = (curate_account_event clock now_a events a s).0 in
    if-cases (λ (r : Curated). Commute ops r.0) (is_empty c.pk) _ _ (λ _. Commute-nothing ops)
      (λ _.
        if-cases (λ (r : Curated). Commute ops r.0) (is_delete clock now_c c) _ _ (λ d. cc)
          (λ _.
            subst (λ o. Commute ops (client_change clock now_c c.pk (present clock now_c o) t).0)
              (sym image) (client_change-leg clock now_a now_c events a c.pk row s t keyed latest)))
      accounts j
