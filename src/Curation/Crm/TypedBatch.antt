-- ===== src/Curation/Crm/TypedBatch.antt =====
-- src/ods_ingest/curation/crm_accounts.py and src/bank_ods/models/account.py: a batch of change events
-- leaves `accounts` with the values that the model declares.
use bank_ods_unified_api.Prelude.{
  refl, Option, none, some, List, [], ◌∷◌, ◌++◌, All, inl, inr, if-cases,
}
use bank_ods_unified_api.Prelude.Text.{Text, codes, eq_text}
use bank_ods_unified_api.Prelude.Index.{get, put}
use bank_ods_unified_api.Curation.Stats.{CurationStats}
use bank_ods_unified_api.Curation.Crm.Master.{Account}
use bank_ods_unified_api.Curation.Crm.Events.{
  AccountOp, close_client, set_client, close_account, upsert_account, Clock, Batch, start,
  curate_event, curate_events,
}
use bank_ods_unified_api.Curation.Crm.Accounts.{
  Accounts, is_of_client, closed, inserted, apply_op, apply_ops, write_accounts, update_clients,
  update_account,
}
use bank_ods_unified_api.Sink.Extractors.{
  ChangePayload, ChangeEvent, Extracted, extracted, refused, debezium, table_of,
}
use bank_ods_unified_api.Curation.Crm.Typed.{
  IsTypedAccount, AreTyped, IsTypedOp, curate_account_event-IsTyped, curate_client_event-IsTyped,
}

-- The operations gathered so far.
abbrev IsTypedBatch : Batch → Type 0
IsTypedBatch b = All IsTypedOp b.account_ops × All IsTypedOp b.client_ops

All-append :
    (ops other : List AccountOp)
    → All IsTypedOp ops
    → All IsTypedOp other
    → All IsTypedOp (ops ++ other)
All-append [] other h k = k
All-append (op ∷ ops) other (h, hs) k = (h, All-append ops other hs k)

module _ (clock : Clock) (now : Text) (events : List ChangeEvent) where
  curate_event-IsTyped :
      (table : Text) (e : Extracted ChangeEvent) (b : Batch)
      → IsTypedBatch b
      → IsTypedBatch (curate_event clock now events table e b)
  unfolding curate_event
  curate_event-IsTyped table (refused e) b h = h
  curate_event-IsTyped table (extracted e) b (h, k) =
      if-cases (IsTypedBatch) (eq_text table (codes "accounts")) _ _
        (λ _. (
          All-append b.account_ops _ h (curate_account_event-IsTyped clock now events e b.stats),
          k,
        ))
        λ _.
          if-cases (IsTypedBatch) (eq_text table (codes "clients")) _ _
            (λ _. (
              h,
              All-append b.client_ops _ k (curate_client_event-IsTyped clock now events e b.stats),
            ))
            λ _. (h, k)

  curate_events-IsTyped :
      (records : List (Text × ChangePayload)) (b : Batch)
      → IsTypedBatch b
      → IsTypedBatch (curate_events clock now events records b)
  unfolding curate_events
  curate_events-IsTyped [] b h = h
  curate_events-IsTyped ((topic, value) ∷ records) b h =
      curate_events-IsTyped records _
        (curate_event-IsTyped (table_of topic) (debezium value (table_of topic)) _ h)

update_clients-AreTyped :
    (k : Text) (f : Account → Account) (accounts : Accounts)
    → ((a : Account) → IsTypedAccount a → IsTypedAccount (f a))
    → AreTyped accounts
    → AreTyped (update_clients k f accounts)
unfolding update_clients
update_clients-AreTyped k f [] keep h = tt
update_clients-AreTyped k f ((id, a) ∷ as') keep (h, hs) = (
  if-cases IsTypedAccount (is_of_client k a) _ _ (λ _. keep a h) (λ _. h),
  update_clients-AreTyped k f as' keep hs,
)

update_account-AreTyped :
    (k : Text) (f : Account → Account) (accounts : Accounts)
    → ((a : Account) → IsTypedAccount a → IsTypedAccount (f a))
    → AreTyped accounts
    → AreTyped (update_account k f accounts)
unfolding update_account
update_account-AreTyped k f [] keep h = tt
update_account-AreTyped k f ((id, a) ∷ as') keep (h, hs) =
    if-cases AreTyped (eq_text id k) _ _ (λ _. (keep a h, hs))
      (λ _. (h, update_account-AreTyped k f as' keep hs))

put-AreTyped :
    (k : Text) (doc : Account) (accounts : Accounts)
    → IsTypedAccount doc
    → AreTyped accounts
    → AreTyped (put k doc accounts)
unfolding put
put-AreTyped k doc [] d h = (d, tt)
put-AreTyped k doc ((id, a) ∷ as') d (h, hs) =
    if-cases AreTyped (eq_text id k) _ _ (λ _. (d, hs)) (λ _. (h, put-AreTyped k doc as' d hs))

inserted-IsTyped :
    (doc : Account) (old : Option Account) → IsTypedAccount doc → IsTypedAccount (inserted doc old)
inserted-IsTyped doc none h = h
inserted-IsTyped doc (some old) h = h

closed-IsTyped :
    (time now : Text) (a : Account) → IsTypedAccount a → IsTypedAccount (closed time now a)
closed-IsTyped time now a (t, s, c) = (t, inr (inr (inl refl)), c)

apply_op-AreTyped :
    (op : AccountOp) (accounts : Accounts)
    → IsTypedOp op
    → AreTyped accounts
    → AreTyped (apply_op op accounts)
unfolding apply_op
apply_op-AreTyped (close_client k time now) accounts o h =
    update_clients-AreTyped k _ accounts (closed-IsTyped time now) h
apply_op-AreTyped (set_client k client now) accounts o h =
    update_clients-AreTyped k _ accounts (λ a t. (t.0, t.1, o)) h
apply_op-AreTyped (close_account id time now) accounts o h =
    update_account-AreTyped id _ accounts (closed-IsTyped time now) h
apply_op-AreTyped (upsert_account doc) accounts o h =
    put-AreTyped doc.account_id _ accounts (inserted-IsTyped doc (get doc.account_id accounts) o) h

apply_ops-AreTyped :
    (ops : List AccountOp) (accounts : Accounts)
    → All IsTypedOp ops
    → AreTyped accounts
    → AreTyped (apply_ops ops accounts)
unfolding apply_ops
apply_ops-AreTyped [] accounts o h = h
apply_ops-AreTyped (op ∷ ops) accounts (o, os) h =
    apply_ops-AreTyped ops (apply_op op accounts) os (apply_op-AreTyped op accounts o h)

-- If every account has, in the fields that the model declares as literals, one of the values that it
-- declares, then so does every account after a batch of change events, whatever the CRM sent.
pub write_accounts-AreTyped :
    (clock : Clock) (now : Text) (events : List ChangeEvent) (records : List (Text × ChangePayload))
    (stats : CurationStats) (accounts : Accounts)
    → AreTyped accounts
    → let b = curate_events clock now events records (start stats) in
      AreTyped (write_accounts b.account_ops b.client_ops accounts)
unfolding write_accounts
write_accounts-AreTyped clock now events records stats accounts h =
    let (a, c) = curate_events-IsTyped clock now events records (start stats) (tt, tt) in
    apply_ops-AreTyped _ _ c (apply_ops-AreTyped _ accounts a h)
