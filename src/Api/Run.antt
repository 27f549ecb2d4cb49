-- ===== src/Api/Run.antt =====
-- A handler run on the state of the server: the tables, the sessions of issuance and presentation,
-- the counter of indices, and what has been sent. No other request comes in between.
use xmiete.Prelude.{suc, Option, none, some, List, [], ◌∷◌, ◌++◌}
use xmiete.Models.{Deposit, WebhookEvent}
use xmiete.Host.{Codec, Outcome, ok, not_found, failed, panicked, Io}
use xmiete.Repository
use xmiete.Repository.{Db}
use xmiete.Issuance.Session.{SessionStore}
use xmiete.Api.Call.{Wallets, perform}
use xmiete.Api.Program.{
  Program, Response, Fetched, found, missing, broken, reply, panic, now, call, create, get_by_id,
  update_state, revoke_by_deposit_id, post_webhook, send_receipt, send_release_receipt,
}

pub record World (A B S : Type 0) : Type 0 where
  pub db : Db B
  pub wallets : Wallets S
  pub webhooks : List WebhookEvent
  pub receipts : List (Deposit A)
  pub release_receipts : List (Deposit A)

abbrev pub fetched : {A : Type 0} → Outcome (Deposit A) → Fetched A
fetched (ok d) = found d
fetched not_found = missing
fetched failed = broken
fetched panicked = broken

abbrev pub stored : {A : Type 0} → Outcome (Deposit A) → Option (Deposit A)
stored (ok d) = some d
stored not_found = none
stored failed = none
stored panicked = none

module _ {A B S : Type 0} (json : Codec (Deposit A) B) (store : SessionStore S) where
  unfoldable pub run : Program A → Io (World A B S) (Response A)
  unfolding perform
  run (reply r) h n w = (ok r, n, w)
  run panic h n w = (panicked, n, w)
  run (now f) h n w = run (f (h.clock n)) h (suc n) w
  run (call c f) h n w =
      let (a, n', wallets) = perform store h c n w.wallets in
      run (f a) h n' (record w { wallets = wallets })
  run (create d f) h n w =
      let (r, n', db) = Repository.create json d h n w.db in
      run (f (stored r)) h n' (record w { db = db })
  run (get_by_id id f) h n w =
      let (r, n', db) = Repository.get_by_id json id h n w.db in
      run (f (fetched r)) h n' (record w { db = db })
  run (update_state id state entry patch f) h n w =
      let (r, n', db) = Repository.update_state json id state entry patch h n w.db in
      elim r [
        | panicked ↦ (panicked, n', record w { db = db })
        | ok d ↦ run (f (some d)) h n' (record w { db = db })
        | not_found ↦ run (f none) h n' (record w { db = db })
        | failed ↦ run (f none) h n' (record w { db = db })
      ]
  -- An error of the store is logged and dropped.
  run (revoke_by_deposit_id id p) h n w =
      let (r, n', sessions) = store.revoke_by_deposit_id id h n w.wallets.sessions in
      run p h n' (record w { wallets = record w.wallets { sessions = sessions } })
  run (post_webhook event p) h n w = run p h n (record w { webhooks = w.webhooks ++ event ∷ [] })
  run (send_receipt d p) h n w = run p h n (record w { receipts = w.receipts ++ d ∷ [] })
  run (send_release_receipt d p) h n w =
      run p h n (record w { release_receipts = w.release_receipts ++ d ∷ [] })
