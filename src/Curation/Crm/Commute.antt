-- ===== src/Curation/Crm/Commute.antt =====
-- src/ods_ingest/curation/crm_accounts.py: the fan-out of a client commutes with the write of an
-- account.
use mathlib.Core.Path.{subst}
use bank_ods_unified_api.Prelude.{
  ◌≡◌, refl, sym, ap, ◌∙◌, Bool, true, false, Option, none, some, List, [], ◌∷◌, if◌then◌else◌,
  if-cases,
}
use bank_ods_unified_api.Prelude.Text.{Text, eq_text}
use bank_ods_unified_api.Prelude.Index.{get, put, get-put}
use bank_ods_unified_api.Curation.Crm.Master.{ClientMaster, Account}
use bank_ods_unified_api.Curation.Crm.Events.{
  AccountOp, close_client, set_client, close_account, upsert_account,
}
use bank_ods_unified_api.Curation.Crm.Accounts.{
  Accounts, is_of_client, closed, with_client, inserted, apply_op, apply_ops, map_found,
  if_of_client, get-update_clients, get-update_account, update_clients, update_account,
}

-- An account without the times at which it was written.
abbrev pub unstamped : Account → Account
unstamped a = record a { created_at = []; updated_at = [] }

abbrev pub content : Text → Accounts → Option Account
content id accounts = map_found unstamped (get id accounts)

abbrev fan_out : Text → Text → ClientMaster → Account → Account
fan_out client_id now client = if_of_client client_id (with_client client now)

-- A client's snapshot is set on an account by the fan-out as it is by the upsert.
unstamped-inserted :
    (doc : Account) (old : Option Account) → unstamped (inserted doc old) ≡ unstamped doc
unstamped-inserted doc none = refl
unstamped-inserted doc (some old) = refl

unstamped-fan_out :
    (client_id now : Text) (client : ClientMaster) (a : Account)
    → (eq_text a.client.client_id client_id ≡ true → a.client ≡ client)
    → unstamped (fan_out client_id now client a) ≡ unstamped a
unstamped-fan_out client_id now client a h =
    if-cases (λ b. unstamped b ≡ unstamped a) (eq_text a.client.client_id client_id) _ _
      (λ e. ap (λ c. unstamped (record a { client = c })) (sym (h e))) (λ e. refl)

client-inserted : (doc : Account) (old : Option Account) → (inserted doc old).client ≡ doc.client
client-inserted doc none = refl
client-inserted doc (some old) = refl

closed-fan_out :
    (client_id now : Text) (client : ClientMaster) (time then' : Text) (a : Account)
    → unstamped (fan_out client_id now client (closed time then' a))
      ≡ unstamped (closed time then' (fan_out client_id now client a))
closed-fan_out client_id now client time then' a = by_client (is_of_client client_id a)
  where
    by_client :
        (b : Bool)
        → unstamped
            (if b then with_client client now (closed time then' a) else closed time then' a)
          ≡ unstamped (closed time then' (if b then with_client client now a else a))
    by_client true = refl
    by_client false = refl

-- At one key, where a document may be put or closed.
put_cases :
    (b : Bool) (f : Account → Account) (new new' : Account) (found : Option Account)
    → unstamped (f new) ≡ unstamped new'
    → map_found unstamped (map_found f (if b then some new else found))
      ≡ map_found unstamped (if b then some new' else map_found f found)
put_cases true f new new' found h = ap some h
put_cases false f new new' found h = refl

upserted_twice :
    (k now : Text) (client : ClientMaster) (doc : Account) (old old' : Option Account)
    → (eq_text doc.client.client_id k ≡ true → doc.client ≡ client)
    → unstamped (fan_out k now client (inserted doc old)) ≡ unstamped (inserted doc old')
upserted_twice k now client doc old old' h =
    unstamped-fan_out k now client (inserted doc old)
      (subst (λ c. eq_text c.client_id k ≡ true → c ≡ client) (sym (client-inserted doc old)) h)
    ∙ unstamped-inserted doc old
    ∙ sym (unstamped-inserted doc old')

close_cases :
    (b : Bool) (f g : Account → Account) (found : Option Account)
    → ((a : Account) → unstamped (f (g a)) ≡ unstamped (g (f a)))
    → map_found unstamped (map_found f (if b then map_found g found else found))
      ≡ map_found unstamped (if b then map_found g (map_found f found) else map_found f found)
close_cases b f g none h = if-same b
  where
    if-same :
        (b : Bool)
        → map_found unstamped (map_found f (if b then none else none))
          ≡ map_found unstamped (if b then none else none)
    if-same true = refl
    if-same false = refl
close_cases true f g (some a) h = ap some (h a)
close_cases false f g (some a) h = refl

-- The operations of the account leg, where an upsert for the client has its snapshot.
abbrev pub IsLeg : Text → ClientMaster → List AccountOp → Type 0
IsLeg k client [] = Unit
IsLeg k client (upsert_account doc ∷ []) =
    eq_text doc.client.client_id k ≡ true → doc.client ≡ client
IsLeg k client (close_account id time now ∷ []) = Unit
IsLeg k client (op ∷ ops) = ⊥

pub apply_ops-set_client :
    (k now : Text) (client : ClientMaster) (ops : List AccountOp) (accounts : Accounts) (j : Text)
    → IsLeg k client ops
    → content j (apply_op (set_client k client now) (apply_ops ops accounts))
      ≡ content j (apply_ops ops (apply_op (set_client k client now) accounts))
unfolding apply_ops apply_op
apply_ops-set_client k now client [] accounts j h = refl
apply_ops-set_client k now client (upsert_account doc ∷ []) accounts j h =
    let f = fan_out k now client in
    let id = doc.account_id in
    let changed = update_clients k (with_client client now) accounts in
    let new = inserted doc (get id accounts) in
    let new' = inserted doc (get id changed) in
    ap (map_found unstamped) (
      get-update_clients j k (with_client client now) (put id new accounts)
      ∙ ap (map_found f) (get-put id j new accounts))
    ∙ put_cases (eq_text id j) f new new' (get j accounts)
        (upserted_twice k now client doc (get id accounts) (get id changed) h)
    ∙ sym (
        ap (map_found unstamped) (
          get-put id j new' changed
          ∙ ap (λ z. if eq_text id j then some new' else z)
              (get-update_clients j k (with_client client now) accounts)))
apply_ops-set_client k now client (close_account id time then' ∷ []) accounts j h =
    let f = fan_out k now client in
    let g = closed time then' in
    let changed = update_clients k (with_client client now) accounts in
    ap (map_found unstamped) (
      get-update_clients j k (with_client client now) (update_account id g accounts)
      ∙ ap (map_found f) (get-update_account j id g accounts))
    ∙ close_cases (eq_text id j) f g (get j accounts) (closed-fan_out k now client time then')
    ∙ sym (
        ap (map_found unstamped) (
          get-update_account j id g changed
          ∙ ap (λ z. if eq_text id j then map_found g z else z)
              (get-update_clients j k (with_client client now) accounts)))
apply_ops-set_client k now client (close_client _ _ _ ∷ _) accounts j h = elim h [ ]
apply_ops-set_client k now client (set_client _ _ _ ∷ _) accounts j h = elim h [ ]
apply_ops-set_client k now client (close_account id time then' ∷ (_ ∷ _)) accounts j h = elim h [ ]
apply_ops-set_client k now client (upsert_account doc ∷ (_ ∷ _)) accounts j h = elim h [ ]
