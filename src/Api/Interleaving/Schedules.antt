-- ===== src/Api/Interleaving/Schedules.antt =====
-- The turns of Api/Interleaving.antt: what holds after any of them, in any order.
use xmiete.Prelude.{ℕ, zero, suc, ◌≡◌, String, Option, none, some, List, [], ◌∷◌, ◌++◌, All}
use xmiete.Amount.{Amount}
use xmiete.Models.{Deposit}
use xmiete.Host.{Host, Codec, Outcome, ok, not_found, failed, panicked}
use xmiete.Repository
use xmiete.Repository.View.{view}
use xmiete.Issuance.Session.{SessionStore}
use xmiete.Api.Call.{perform}
use xmiete.Api.Program.{
  Program, reply, panic, now, call, create, get_by_id, update_state, revoke_by_deposit_id,
  post_webhook, send_receipt, send_release_receipt,
}
use xmiete.Api.Run.{World, fetched, stored}
use xmiete.Api.Server.{Server, handle}
use xmiete.Api.Interleaving.{
  Flight, flying, landed, after_update, step, advance, Busy, Turn, arrive, proceed, turn, turns,
}
use xmiete.Api.Interleaving.Orderly.{Orders}
use xmiete.Api.Interleaving.Routes.{handle-Orderly}
use xmiete.Api.Interleaving.Histories.{
  NamesState, Later, AllNamed, Grows, Grows-refl, Grows-trans, create-Grows, get_by_id-Grows,
  update-Grows,
}

-- What is left of a request is orderly.
abbrev OrderlyFlight : {A : Type 0} → Flight A → Type 0
OrderlyFlight (flying p) = Orders p
OrderlyFlight (landed o) = Unit

All-append :
    {A : Type 0} (ps : List (Flight A)) (p : Flight A)
    → All OrderlyFlight ps
    → OrderlyFlight p
    → All OrderlyFlight (ps ++ p ∷ [])
All-append [] p all o = (o, tt)
All-append (_ ∷ ps) p all o = (all.0, All-append ps p all.1 o)

OrderlyFlight-after_update :
    {A : Type 0} (f : Option (Deposit A) → Program A) (r : Outcome (Deposit A))
    → ((o : Option (Deposit A)) → Orders (f o))
    → OrderlyFlight (after_update f r)
OrderlyFlight-after_update f (ok d) o = o (some d)
OrderlyFlight-after_update f not_found o = o none
OrderlyFlight-after_update f failed o = o none
OrderlyFlight-after_update f panicked o = tt

module _ {A B S : Type 0} (json : Codec (Deposit A) B) (store : SessionStore S) (h : Host) where
  step-OrderlyFlight :
      (p : Program A) (n : ℕ) (w : World A B S)
      → Orders p
      → OrderlyFlight (step json store h p n w).0
  unfolding step
  step-OrderlyFlight (reply r) n w o = tt
  step-OrderlyFlight panic n w o = tt
  step-OrderlyFlight (now f) n w o = o (h.clock n)
  step-OrderlyFlight (call c f) n w o = o (perform store h c n w.wallets).0
  step-OrderlyFlight (create d f) n w o = o (stored (Repository.create json d h n w.db).0)
  step-OrderlyFlight (get_by_id id f) n w o = o (fetched (Repository.get_by_id json id h n w.db).0)
  step-OrderlyFlight (update_state id state entry patch f) n w o =
      OrderlyFlight-after_update f (Repository.update_state json id state entry patch h n w.db).0
        o.2
  step-OrderlyFlight (revoke_by_deposit_id id p) n w o = o
  step-OrderlyFlight (post_webhook event p) n w o = o
  step-OrderlyFlight (send_receipt d p) n w o = o
  step-OrderlyFlight (send_release_receipt d p) n w o = o

  step-Grows :
      (p : Program A) (n : ℕ) (w : World A B S)
      → Orders p
      → Grows json w.db (step json store h p n w).2.db
  unfolding step
  step-Grows (reply r) n w o = Grows-refl json w.db
  step-Grows panic n w o = Grows-refl json w.db
  step-Grows (now f) n w o = Grows-refl json w.db
  step-Grows (call c f) n w o = Grows-refl json w.db
  step-Grows (create d f) n w o = create-Grows json h n w.db d
  step-Grows (get_by_id id f) n w o = get_by_id-Grows json h n w.db id
  step-Grows (update_state id state entry patch f) n w o =
      update-Grows json h n w.db id state entry patch o.0 o.1
  step-Grows (revoke_by_deposit_id id p) n w o = Grows-refl json w.db
  step-Grows (post_webhook event p) n w o = Grows-refl json w.db
  step-Grows (send_receipt d p) n w o = Grows-refl json w.db
  step-Grows (send_release_receipt d p) n w o = Grows-refl json w.db

  advance-OrderlyFlight :
      (i : ℕ) (ps : List (Flight A)) (n : ℕ) (w : World A B S)
      → All OrderlyFlight ps
      → All OrderlyFlight (advance json store h i ps n w).0
  unfolding advance
  advance-OrderlyFlight i [] n w all = tt
  advance-OrderlyFlight zero (landed o ∷ ps) n w all = all
  advance-OrderlyFlight zero (flying p ∷ ps) n w all = (step-OrderlyFlight p n w all.0, all.1)
  advance-OrderlyFlight (suc i) (p ∷ ps) n w all = (all.0, advance-OrderlyFlight i ps n w all.1)

  advance-Grows :
      (i : ℕ) (ps : List (Flight A)) (n : ℕ) (w : World A B S)
      → All OrderlyFlight ps
      → Grows json w.db (advance json store h i ps n w).2.db
  unfolding advance
  advance-Grows i [] n w all = Grows-refl json w.db
  advance-Grows zero (landed o ∷ ps) n w all = Grows-refl json w.db
  advance-Grows zero (flying p ∷ ps) n w all = step-Grows p n w all.0
  advance-Grows (suc i) (p ∷ ps) n w all = advance-Grows i ps n w all.1

  module _ {K P : Type 0} ⦃F : Amount A⦄ (s : Server A K P) where
    turn-OrderlyFlight :
        (t : Turn A) (b : Busy A B S)
        → All OrderlyFlight b.pool
        → All OrderlyFlight (turn json store h s t b).pool
    unfolding turn
    turn-OrderlyFlight (arrive q) b all =
        All-append b.pool (flying (handle s q)) all (handle-Orderly s q).orders
    turn-OrderlyFlight (proceed i) b all = advance-OrderlyFlight i b.pool b.calls b.world all

    turn-Grows :
        (t : Turn A) (b : Busy A B S)
        → All OrderlyFlight b.pool
        → Grows json b.world.db (turn json store h s t b).world.db
    unfolding turn
    turn-Grows (arrive q) b all = Grows-refl json b.world.db
    turn-Grows (proceed i) b all = advance-Grows i b.pool b.calls b.world all

    turns-OrderlyFlight :
        (ts : List (Turn A)) (b : Busy A B S)
        → All OrderlyFlight b.pool
        → All OrderlyFlight (turns json store h s ts b).pool
    unfolding turns
    turns-OrderlyFlight [] b all = all
    turns-OrderlyFlight (t ∷ ts) b all =
        turns-OrderlyFlight ts (turn json store h s t b) (turn-OrderlyFlight t b all)

    turns-Grows :
        (ts : List (Turn A)) (b : Busy A B S)
        → All OrderlyFlight b.pool
        → Grows json b.world.db (turns json store h s ts b).world.db
    unfolding turns
    turns-Grows [] b all = Grows-refl json b.world.db
    turns-Grows (t ∷ ts) b all =
        Grows-trans json (turn-Grows t b all)
          (turns-Grows ts (turn json store h s t b) (turn-OrderlyFlight t b all))

    module _ (n : ℕ) (w : World A B S) (empty : (id : String) → view json w.db id ≡ none)
        (ts us : List (Turn A)) where
      abbrev before : Busy A B S
      before = turns json store h s ts (record { pool = []; calls = n; world = w })

      -- Requests that a server without deposits serves at the same time, their calls to the outside in
      -- any order and with any failures, leave documents whose last entry of the history names the
      -- state, and no later step removes a document or takes an entry from its history: the history
      -- goes on from what it was.
      pub interleaved_history :
          (id : String) (d : Deposit A)
          → view json before.world.db id ≡ some d
          → NamesState d × Later json (turns json store h s us before).world.db id d
      interleaved_history id d stored =
          let b : Busy A B S = record { pool = []; calls = n; world = w } in
          let grown = turns-Grows us before (turns-OrderlyFlight ts b tt) in
          let none_yet : AllNamed json w.db = record { named = λ j d' v. cc (empty j, v) } in
          (((turns-Grows ts b tt).names none_yet).named id d stored, grown.later id d stored)
