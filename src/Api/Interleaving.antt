-- ===== src/Api/Interleaving.antt =====
-- Requests that are served at the same time, as net/http serves each on a goroutine of its own: the
-- steps of Api/Run.antt, from one call to the outside to the next, in any order. UpdateState locks
-- the row of its deposit (SELECT … FOR UPDATE), so that each call is one step.
pub mod Orderly
pub mod Handlers
pub mod Routes
pub mod Histories
pub mod Schedules
pub mod Rush
use xmiete.Prelude.{ℕ, zero, suc, ◌≡◌, refl, Option, none, some, List, [], ◌∷◌, ◌++◌}
use xmiete.Amount.{Amount}
use xmiete.Models.{Deposit}
use xmiete.Host.{Host, Codec, Outcome, ok, not_found, failed, panicked}
use xmiete.Repository
use xmiete.Issuance.Session.{SessionStore}
use xmiete.Api.Call.{perform}
use xmiete.Api.Program.{
  Program, Response, reply, panic, now, call, create, get_by_id, update_state, revoke_by_deposit_id,
  post_webhook, send_receipt, send_release_receipt,
}
use xmiete.Api.Run.{World, fetched, stored, run}
use xmiete.Api.Server.{Request, Server, handle}

-- A request that is being served: what is left of its handler, or how it ended.
pub data Flight (A : Type 0) : Type 0 where
  flying : Program A → Flight A
  landed : Outcome (Response A) → Flight A

-- The requests in the order in which they came, the count of outside calls, and the state.
pub record Busy (A B S : Type 0) : Type 0 where
  pub pool : List (Flight A)
  pub calls : ℕ
  pub world : World A B S

-- A request comes in, or one that is there makes a step.
pub data Turn (A : Type 0) : Type 0 where
  arrive : Request A → Turn A
  proceed : ℕ → Turn A

abbrev pub after_update :
    {A : Type 0} → (Option (Deposit A) → Program A) → Outcome (Deposit A) → Flight A
after_update f (ok d) = flying (f (some d))
after_update f not_found = flying (f none)
after_update f failed = flying (f none)
after_update f panicked = landed panicked

module _ {A B S : Type 0} (json : Codec (Deposit A) B) (store : SessionStore S) (h : Host) where
  -- The next call of a handler.
  unfoldable pub step : Program A → ℕ → World A B S → Flight A × ℕ × World A B S
  unfolding perform
  step (reply r) n w = (landed (ok r), n, w)
  step panic n w = (landed panicked, n, w)
  step (now f) n w = (flying (f (h.clock n)), suc n, w)
  step (call c f) n w =
      let (a, n', wallets) = perform store h c n w.wallets in
      (flying (f a), n', record w { wallets = wallets })
  step (create d f) n w =
      let (r, n', db) = Repository.create json d h n w.db in
      (flying (f (stored r)), n', record w { db = db })
  step (get_by_id id f) n w =
      let (r, n', db) = Repository.get_by_id json id h n w.db in
      (flying (f (fetched r)), n', record w { db = db })
  step (update_state id state entry patch f) n w =
      let (r, n', db) = Repository.update_state json id state entry patch h n w.db in
      (after_update f r, n', record w { db = db })
  step (revoke_by_deposit_id id p) n w =
      let (r, n', sessions) = store.revoke_by_deposit_id id h n w.wallets.sessions in
      (flying p, n', record w { wallets = record w.wallets { sessions = sessions } })
  step (post_webhook event p) n w = (flying p, n, record w { webhooks = w.webhooks ++ event ∷ [] })
  step (send_receipt d p) n w = (flying p, n, record w { receipts = w.receipts ++ d ∷ [] })
  step (send_release_receipt d p) n w =
      (flying p, n, record w { release_receipts = w.release_receipts ++ d ∷ [] })

  -- What the handler does when nothing comes between its steps.
  abbrev pub resume : Flight A × ℕ × World A B S → Outcome (Response A) × ℕ × World A B S
  resume (flying p, n, w) = run json store p h n w
  resume (landed o, n, w) = (o, n, w)

  resume-after_update :
      (f : Option (Deposit A) → Program A) (r : Outcome (Deposit A)) (n : ℕ) (w : World A B S)
      → (elim r [
        | panicked ↦ (panicked, n, w)
        | ok d ↦ run json store (f (some d)) h n w
        | not_found ↦ run json store (f none) h n w
        | failed ↦ run json store (f none) h n w
      ])
        ≡ resume (after_update f r, n, w)
  resume-after_update f (ok d) n w = refl
  resume-after_update f not_found n w = refl
  resume-after_update f failed n w = refl
  resume-after_update f panicked n w = refl

  -- A run is its first step and the run of the rest.
  pub run-step :
      (p : Program A) (n : ℕ) (w : World A B S) → run json store p h n w ≡ resume (step p n w)
  unfolding run step
  run-step (reply r) n w = refl
  run-step panic n w = refl
  run-step (now f) n w = refl
  run-step (call c f) n w = refl
  run-step (create d f) n w = refl
  run-step (get_by_id id f) n w = refl
  run-step (update_state id state entry patch f) n w =
      let x = Repository.update_state json id state entry patch h n w.db in
      resume-after_update f x.0 x.1 (record w { db = x.2 })
  run-step (revoke_by_deposit_id id p) n w = refl
  run-step (post_webhook event p) n w = refl
  run-step (send_receipt d p) n w = refl
  run-step (send_release_receipt d p) n w = refl

  -- A request that ended makes no step.
  abbrev pub step_flight : Flight A → ℕ → World A B S → Flight A × ℕ × World A B S
  step_flight (landed o) n w = (landed o, n, w)
  step_flight (flying p) n w = step p n w

  -- A step of the request at a place, if there is one.
  unfoldable pub advance : ℕ → List (Flight A) → ℕ → World A B S → List (Flight A) × ℕ × World A B S
  unfolding step
  advance i [] n w = ([], n, w)
  advance zero (p ∷ ps) n w = let (p', n', w') = step_flight p n w in (p' ∷ ps, n', w')
  advance (suc i) (p ∷ ps) n w = let (ps', n', w') = advance i ps n w in (p ∷ ps', n', w')

  module _ {K P : Type 0} ⦃F : Amount A⦄ (s : Server A K P) where
    unfoldable pub turn : Turn A → Busy A B S → Busy A B S
    unfolding advance
    turn (arrive q) b = record b { pool = b.pool ++ flying (handle s q) ∷ [] }
    turn (proceed i) b =
        let (pool, calls, world) = advance i b.pool b.calls b.world in
        record { pool = pool; calls = calls; world = world }

    unfoldable pub turns : List (Turn A) → Busy A B S → Busy A B S
    unfolding turn
    turns [] b = b
    turns (t ∷ ts) b = turns ts (turn t b)
