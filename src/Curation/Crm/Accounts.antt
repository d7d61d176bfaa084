-- ===== src/Curation/Crm/Accounts.antt =====
-- src/ods_ingest/curation/crm_accounts.py: what the operations do to the collection `accounts`.
use bank_ods_unified_api.Prelude.{
  ◌≡◌, refl, Bool, Option, none, some, List, [], ◌∷◌, if◌then◌else◌, Bool-cases, inl, inr, arith,
}
use bank_ods_unified_api.Prelude.Text.{Text, eq_text, eq_text_iff}
use bank_ods_unified_api.Prelude.Index.{Index, get, put}
use bank_ods_unified_api.Curation.Crm.Master.{ClientMaster, Account}
use bank_ods_unified_api.Curation.Crm.Events.{
  AccountOp, close_client, set_client, close_account, upsert_account,
}

-- The accounts by their identifier, which is unique.
abbrev pub Accounts : Type 0
Accounts = Index Account

abbrev pub is_of_client : Text → Account → Bool
is_of_client client_id a = eq_text a.client.client_id client_id

abbrev pub closed : Text → Text → Account → Account
closed time now a = record a { status = "CLOSED"; close_date = some time; updated_at = now }

abbrev pub with_client : ClientMaster → Text → Account → Account
with_client client now a = record a { client = client; updated_at = now }

-- `UpdateMany({"client.clientId": client_id}, ...)`
unfoldable pub update_clients : Text → (Account → Account) → Accounts → Accounts
update_clients client_id f [] = []
update_clients client_id f ((k, a) ∷ as') =
    (k, if is_of_client client_id a then f a else a) ∷ update_clients client_id f as'

-- `UpdateOne({"accountId": ...}, ...)` with no upsert.
unfoldable pub update_account : Text → (Account → Account) → Accounts → Accounts
update_account id f [] = []
update_account id f ((k, a) ∷ as') =
    if eq_text k id then (k, f a) ∷ as' else (k, a) ∷ update_account id f as'

-- `$setOnInsert` leaves the creation of a document that is there.
abbrev pub inserted : Account → Option Account → Account
inserted doc none = doc
inserted doc (some old) = record doc { created_at = old.created_at }

unfoldable pub apply_op : AccountOp → Accounts → Accounts
apply_op (close_client client_id time now) accounts =
    update_clients client_id (closed time now) accounts
apply_op (set_client client_id client now) accounts =
    update_clients client_id (with_client client now) accounts
apply_op (close_account id time now) accounts = update_account id (closed time now) accounts
apply_op (upsert_account doc) accounts =
    put doc.account_id (inserted doc (get doc.account_id accounts)) accounts

-- `bulk_write(ops, ordered=True)`
unfoldable pub apply_ops : List AccountOp → Accounts → Accounts
apply_ops [] accounts = accounts
apply_ops (op ∷ ops) accounts = apply_ops ops (apply_op op accounts)

-- The end of `curate_batch`: the account operations, then the client operations.
unfoldable pub write_accounts : List AccountOp → List AccountOp → Accounts → Accounts
write_accounts account_ops client_ops accounts =
    apply_ops client_ops (apply_ops account_ops accounts)

abbrev pub map_found : (Account → Account) → Option Account → Option Account
map_found f none = none
map_found f (some a) = some (f a)

-- The update of one account of a client, and no other.
abbrev pub if_of_client : Text → (Account → Account) → Account → Account
if_of_client client_id f a = if is_of_client client_id a then f a else a

pub get-update_clients :
    (j client_id : Text) (f : Account → Account) (accounts : Accounts)
    → get j (update_clients client_id f accounts)
      ≡ map_found (if_of_client client_id f) (get j accounts)
unfolding get update_clients
get-update_clients j client_id f [] = refl
get-update_clients j client_id f ((k, a) ∷ as') = elim (Bool-cases (eq_text k j)) [
  | inl e ↦ rw e
  | inr e ↦ rw e (get-update_clients j client_id f as')
]

pub get-update_account :
    (j id : Text) (f : Account → Account) (accounts : Accounts)
    → get j (update_account id f accounts)
      ≡ (if eq_text id j then map_found f (get j accounts) else get j accounts)
unfolding get update_account
get-update_account j id f [] = ground arith
get-update_account j id f ((k, a) ∷ as') =
    ground
      (arith, eq_text_iff k j, eq_text_iff k id, eq_text_iff id j, get-update_account j id f as')
