-- ===== src/Api/Refusals/Sessions.antt =====
-- The sessions of presentations stay under their identifiers, whatever a handler does.
use xmiete.Prelude.{ℕ, suc, Option, none, some}
use xmiete.Models.{Deposit}
use xmiete.Host.{Host, Codec, Outcome, ok, not_found, failed, panicked}
use xmiete.Repository
use xmiete.Issuance.Session.{SessionStore}
use xmiete.Verification.Keyed.{IsKeyed, delete-IsKeyed, create-IsKeyed}
use xmiete.Api.Call.{Call, Wallets, perform, vp_create, vp_delete}
use xmiete.Api.Program.{
  Program, Response, reply, panic, now, call, create, get_by_id, update_state, revoke_by_deposit_id,
  post_webhook, send_receipt, send_release_receipt,
}
use xmiete.Api.Run.{World, fetched, stored, run}

module _ {A B S : Type 0} (json : Codec (Deposit A) B) (store : SessionStore S) (h : Host) where
  abbrev KeyedAfter : Outcome (Response A) × ℕ × World A B S → Type 0
  KeyedAfter x = IsKeyed x.2.wallets.vp_sessions

  perform-IsKeyed :
      (c : Call) (n : ℕ) (w : Wallets S)
      → IsKeyed w.vp_sessions
      → IsKeyed (perform store h c n w).2.vp_sessions
  unfolding perform
  perform-IsKeyed (vp_create session) n w k = create-IsKeyed session w.vp_sessions k
  perform-IsKeyed (vp_delete id) n w k = delete-IsKeyed id w.vp_sessions k
  perform-IsKeyed c n w k = k

  updated-IsKeyed :
      (f : Option (Deposit A) → Program A) (r : Outcome (Deposit A)) (n : ℕ) (w : World A B S)
      → IsKeyed w.wallets.vp_sessions
      → ((o : Option (Deposit A)) → IsKeyed (run json store (f o) h n w).2.wallets.vp_sessions)
      → KeyedAfter (elim r [
        | panicked ↦ (panicked, n, w)
        | ok d ↦ run json store (f (some d)) h n w
        | not_found ↦ run json store (f none) h n w
        | failed ↦ run json store (f none) h n w
      ])
  updated-IsKeyed f (ok d) n w k rest = rest (some d)
  updated-IsKeyed f not_found n w k rest = rest none
  updated-IsKeyed f failed n w k rest = rest none
  updated-IsKeyed f panicked n w k rest = k

  pub run-IsKeyed :
      (p : Program A) (n : ℕ) (w : World A B S)
      → IsKeyed w.wallets.vp_sessions
      → IsKeyed (run json store p h n w).2.wallets.vp_sessions
  unfolding run
  run-IsKeyed (reply r) n w k = k
  run-IsKeyed panic n w k = k
  run-IsKeyed (now f) n w k = run-IsKeyed (f (h.clock n)) (suc n) w k
  run-IsKeyed (call c f) n w k =
      let x = perform store h c n w.wallets in
      run-IsKeyed (f x.0) x.1 (record w { wallets = x.2 }) (perform-IsKeyed c n w.wallets k)
  run-IsKeyed (create d f) n w k =
      let x = Repository.create json d h n w.db in
      run-IsKeyed (f (stored x.0)) x.1 (record w { db = x.2 }) k
  run-IsKeyed (get_by_id id f) n w k =
      let x = Repository.get_by_id json id h n w.db in
      run-IsKeyed (f (fetched x.0)) x.1 (record w { db = x.2 }) k
  run-IsKeyed (update_state id state entry patch f) n w k =
      let x = Repository.update_state json id state entry patch h n w.db in
      updated-IsKeyed f x.0 x.1 (record w { db = x.2 }) k
        λ o. run-IsKeyed (f o) x.1 (record w { db = x.2 }) k
  run-IsKeyed (revoke_by_deposit_id id p) n w k =
      let x = store.revoke_by_deposit_id id h n w.wallets.sessions in
      run-IsKeyed p x.1 (record w { wallets = record w.wallets { sessions = x.2 } }) k
  run-IsKeyed (post_webhook event p) n w k = run-IsKeyed p n _ k
  run-IsKeyed (send_receipt d p) n w k = run-IsKeyed p n _ k
  run-IsKeyed (send_release_receipt d p) n w k = run-IsKeyed p n _ k
