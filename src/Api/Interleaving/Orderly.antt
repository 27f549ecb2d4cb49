-- ===== src/Api/Interleaving/Orderly.antt =====
-- A handler is orderly if the entry of each of its updates names the state that is set, and the
-- patch leaves the history alone. This does not depend on what the handler fetched before.
use mathlib.Core.Option
use xmiete.Prelude.{
  ℕ, ◌≡◌, String, Bool, true, false, Option, none, some, ◌==◌, arith, Option-cases, Bool-cases, inl,
  inr,
}
use xmiete.Prelude.Results.{Result, good, bad}
use xmiete.Calendar.{Time}
use xmiete.Models.{LifecycleState, HistoryEntry, Deposit}
use xmiete.StateMachine.{transition}
use xmiete.Api.Call.{Call, Answer}
use xmiete.Api.Program.{
  Program, Response, Handler, Fetched, reply, panic, now, call, create, get_by_id, update_state,
  revoke_by_deposit_id, post_webhook, send_receipt, send_release_receipt, found, missing, broken,
  decode, require, pass, ask, load, deref, reject_if, time_now, fetch, branch, check_transition,
  store, update, revoke, email_receipt, email_release_receipt, fire_webhook,
}

module _ {A : Type 0} where
  pub record KeepsHistory (patch : Deposit A → Option (Deposit A)) : Type 0 where
    pub keeps : (d d' : Deposit A) → patch d ≡ some d' → d'.deposit.history ≡ d.deposit.history

  abbrev pub Orders : Program A → Type 0
  Orders (reply r) = Unit
  Orders panic = Unit
  Orders (now f) = (t : Time) → Orders (f t)
  Orders (call c f) = (a : Answer c) → Orders (f a)
  Orders (create d f) = (o : Option (Deposit A)) → Orders (f o)
  Orders (get_by_id id f) = (x : Fetched A) → Orders (f x)
  Orders (update_state id state entry patch f) =
      (entry.state ≡ state) × KeepsHistory patch × ((o : Option (Deposit A)) → Orders (f o))
  Orders (revoke_by_deposit_id id p) = Orders p
  Orders (post_webhook event p) = Orders p
  Orders (send_receipt d p) = Orders p
  Orders (send_release_receipt d p) = Orders p

  pub record Orderly (p : Program A) : Type 0 where
    pub orders : Orders p

  pub Orderly-reply : {r : Response A} → Orderly (reply r)
  Orderly-reply = record { orders = tt }

  pub Orderly-reject_if :
      (b : Bool) (status : ℕ) (message code : String) (m : Unit {0} → Program A)
      → Orderly (m tt)
      → Orderly (reject_if b status message code m)
  unfolding reject_if
  Orderly-reject_if true _ _ _ m l = Orderly-reply
  Orderly-reject_if false _ _ _ m l = l

  pub Orderly-decode :
      {R : Type 0} (body : Option R) (m : R → Program A)
      → ((r : R) → Orderly (m r))
      → Orderly (decode body m)
  unfolding decode
  Orderly-decode none m l = Orderly-reply
  Orderly-decode (some r) m l = l r

  pub Orderly-require :
      {R : Type 0} (o : Option R) (status : ℕ) (message code : String) (m : R → Program A)
      → ((r : R) → Orderly (m r))
      → Orderly (require o status message code m)
  unfolding require
  Orderly-require none _ _ _ m l = Orderly-reply
  Orderly-require (some r) _ _ _ m l = l r

  pub Orderly-deref :
      {R : Type 0} (o : Option R) (m : R → Program A)
      → ((r : R) → Orderly (m r))
      → Orderly (deref o m)
  unfolding deref
  Orderly-deref none m l = record { orders = tt }
  Orderly-deref (some r) m l = l r

  pub Orderly-time_now :
      (m : Time → Program A) → ((t : Time) → Orderly (m t)) → Orderly (time_now m)
  unfolding time_now
  Orderly-time_now m l = record { orders = λ t. (l t).orders }

  pub Orderly-pass :
      {R : Type 0} (r : Result R) (status : ℕ) (code : String) (m : R → Program A)
      → ((x : R) → Orderly (m x))
      → Orderly (pass r status code m)
  unfolding pass
  Orderly-pass (good x) _ _ m l = l x
  Orderly-pass (bad e) _ _ m l = Orderly-reply

  pub Orderly-ask :
      (c : Call) (m : Answer c → Program A) → ((a : Answer c) → Orderly (m a)) → Orderly (ask c m)
  unfolding ask
  Orderly-ask c m l = record { orders = λ a. (l a).orders }

  pub Orderly-load :
      (id : String) (status : ℕ) (message code : String) (m : Deposit A → Program A)
      → ((d : Deposit A) → Orderly (m d))
      → Orderly (load id status message code m)
  unfolding load
  Orderly-load id _ _ _ m l = record {
    orders = elim [ found d ↦ (l d).orders | missing ↦ tt | broken ↦ tt ];
  }

  pub Orderly-fetch :
      (id : String) (m : Deposit A → Program A)
      → ((d : Deposit A) → Orderly (m d))
      → Orderly (fetch id m)
  unfolding fetch
  Orderly-fetch id m l = record {
    orders = elim [ found d ↦ (l d).orders | missing ↦ tt | broken ↦ tt ];
  }

  pub Orderly-check_transition :
      (from to : LifecycleState) (m : Unit {0} → Program A)
      → Orderly (m tt)
      → Orderly (check_transition from to m)
  unfolding check_transition
  Orderly-check_transition from to m l = elim (Option-cases (transition from to).1) [
    | inl e ↦ rw (e, check_transition) l
    | inr (x, e) ↦ rw (e, check_transition) Orderly-reply
  ]

  pub Orderly-store :
      (d : Deposit A) (m : Deposit A → Program A)
      → ((d' : Deposit A) → Orderly (m d'))
      → Orderly (store d m)
  unfolding store
  Orderly-store d m l = record { orders = elim [ none ↦ tt | some d' ↦ (l d').orders ] }

  pub Orderly-update :
      (id : String) (state : LifecycleState) (entry : HistoryEntry)
      (patch : Deposit A → Option (Deposit A)) (m : Deposit A → Program A)
      → entry.state ≡ state
      → KeepsHistory patch
      → ((d : Deposit A) → Orderly (m d))
      → Orderly (update id state entry patch m)
  unfolding update
  Orderly-update id state entry patch m names keeps l = record {
    orders = (names, keeps, elim [ none ↦ tt | some d ↦ (l d).orders ]);
  }

  pub Orderly-revoke :
      (id : String) (m : Unit {0} → Program A) → Orderly (m tt) → Orderly (revoke id m)
  unfolding revoke
  Orderly-revoke id m l = record { orders = l.orders }

  pub Orderly-email_receipt :
      (d : Deposit A) (m : Unit {0} → Program A) → Orderly (m tt) → Orderly (email_receipt d m)
  unfolding email_receipt
  Orderly-email_receipt d m l = record { orders = l.orders }

  pub Orderly-email_release_receipt :
      (d : Deposit A) (m : Unit {0} → Program A)
      → Orderly (m tt)
      → Orderly (email_release_receipt d m)
  unfolding email_release_receipt
  Orderly-email_release_receipt d m l = record { orders = l.orders }

  pub Orderly-fire_webhook :
      (url : String) (d : Deposit A) (m : Unit {0} → Program A)
      → Orderly (m tt)
      → Orderly (fire_webhook url d m)
  unfolding fire_webhook
  Orderly-fire_webhook url d m l = elim (Bool-cases (url == "")) [
    | inl unset ↦ rw unset l
    | inr set ↦ rw set (record { orders = λ t. l.orders })
  ]

  pub Orderly-branch :
      {R : Type 0} (b : Bool) (m n : Handler A R) (rest : R → Program A)
      → Orderly (m rest)
      → Orderly (n rest)
      → Orderly (branch b m n rest)
  unfolding branch
  Orderly-branch true m n rest l r = l
  Orderly-branch false m n rest l r = r

  -- A patch that always gives a document.
  pub keeps_some :
      (f : Deposit A → Deposit A)
      → ((d : Deposit A) → (f d).deposit.history ≡ d.deposit.history)
      → KeepsHistory (λ d. some (f d))
  keeps_some f same = record { keeps = λ d d' e. ground (arith, same d) }

  -- A patch that needs a part of the document.
  pub keeps_map :
      {R : Type 0} (o : Deposit A → Option R) (f : Deposit A → R → Deposit A)
      → ((d : Deposit A) (r : R) → (f d r).deposit.history ≡ d.deposit.history)
      → KeepsHistory (λ d. Option.map (f d) (o d))
  keeps_map {R = R} o f same = record { keeps = λ d d' e. mapped d d' (o d) e }
    where
      mapped :
          (d d' : Deposit A) (x : Option R)
          → Option.map (f d) x ≡ some d'
          → d'.deposit.history ≡ d.deposit.history
      mapped d d' none e = ground arith
      mapped d d' (some r) e = ground (arith, same d r)

pub ruleset orderly = (
  Orderly-reply, Orderly-reject_if, Orderly-decode, Orderly-require, Orderly-deref,
  Orderly-time_now, Orderly-pass, Orderly-ask, Orderly-load, Orderly-fetch,
  Orderly-check_transition, Orderly-store, Orderly-revoke, Orderly-email_receipt,
  Orderly-email_release_receipt, Orderly-fire_webhook, Orderly-branch,
)
