-- ===== src/Api/Lifecycle/Legal.antt =====
-- A handler is legal if it never dereferences nil, and if each of its updates is of the document
-- that it fetched last and makes a lawful document of it. One rule for each part of a handler.
use xmiete.Prelude.{
  ℕ, ◌≡◌, refl, inl, inr, String, Bool, true, false, Option, none, some, ◌==◌, if◌then◌else◌,
}
use xmiete.Calendar.{Time}
use xmiete.Models.{LifecycleState, HistoryEntry, Deposit}
use xmiete.StateMachine.Graph.{◌⟶◌, transition_cases}
use xmiete.Repository.View.{written}
use xmiete.Api.Call.{Call, Answer}
use xmiete.Prelude.Results.{Result, good, bad}
use xmiete.Api.Program.{
  Program, Response, Handler, reply, panic, now, call, create, get_by_id, update_state,
  revoke_by_deposit_id, post_webhook, send_receipt, send_release_receipt, found, missing, broken,
  decode, require, pass, ask, load, deref, reject_if, time_now, fetch, branch, check_transition,
  store, update, revoke, email_receipt, email_release_receipt, fire_webhook,
}
use xmiete.Api.Lifecycle.Trail.{Move, Needs, IsLawful, written-IsLawful}

-- The document that was fetched last, with its identifier.
abbrev pub Known : Type 0 → Type 0
Known A = Option (String × Deposit A)

module _ {A : Type 0} where
  abbrev pub Permitted :
      Known A → String → LifecycleState → HistoryEntry → (Deposit A → Option (Deposit A)) → Type 0
  Permitted none id state entry patch = ⊥
  Permitted (some (id', d)) id state entry patch =
      (d' : Deposit A) × (id' ≡ id)
      × (patch d ≡ some d')
      × ((t : Time) → IsLawful (written state (record entry { timestamp = t }) d'))

  abbrev pub Duties : Known A → Program A → Type 0
  Duties k (reply r) = Unit
  Duties k panic = ⊥
  Duties k (now f) = (t : Time) → Duties k (f t)
  Duties k (call c f) = (a : Answer c) → Duties k (f a)
  Duties k (create d f) = (o : Option (Deposit A)) → Duties none (f o)
  Duties k (get_by_id id f) =
      Duties none (f missing)
      × Duties none (f broken)
      × ((d : Deposit A) → IsLawful d → Duties (some (id, d)) (f (found d)))
  Duties k (update_state id state entry patch f) =
      Permitted k id state entry patch × ((o : Option (Deposit A)) → Duties none (f o))
  Duties k (revoke_by_deposit_id id p) = Duties k p
  Duties k (post_webhook event p) = Duties k p
  Duties k (send_receipt d p) = Duties k p
  Duties k (send_release_receipt d p) = Duties k p

  pub record Legal (k : Known A) (p : Program A) : Type 0 where
    pub duties : Duties k p

  module _ {k : Known A} where
    pub Legal-reply : {r : Response A} → Legal k (reply r)
    Legal-reply = record { duties = tt }

    pub Legal-if :
        (b : Bool) (p q : Program A)
        → (b ≡ true → Legal k p)
        → (b ≡ false → Legal k q)
        → Legal k (if b then p else q)
    Legal-if true p q l m = l refl
    Legal-if false p q l m = m refl

    pub Legal-reject_if :
        (b : Bool) (status : ℕ) (message code : String) (m : Unit {0} → Program A)
        → (b ≡ false → Legal k (m tt))
        → Legal k (reject_if b status message code m)
    unfolding reject_if
    Legal-reject_if b _ _ _ m l = Legal-if b _ (m tt) (λ _. Legal-reply) l

    pub Legal-decode :
        {R : Type 0} (body : Option R) (m : R → Program A)
        → ((r : R) → Legal k (m r))
        → Legal k (decode body m)
    unfolding decode
    Legal-decode none m l = Legal-reply
    Legal-decode (some r) m l = l r

    pub Legal-require :
        {R : Type 0} (o : Option R) (status : ℕ) (message code : String) (m : R → Program A)
        → ((r : R) → o ≡ some r → Legal k (m r))
        → Legal k (require o status message code m)
    unfolding require
    Legal-require none _ _ _ m l = Legal-reply
    Legal-require (some r) _ _ _ m l = l r refl

    pub Legal-deref :
        {R : Type 0} (o : Option R) (m : R → Program A) (r : R)
        → o ≡ some r
        → Legal k (m r)
        → Legal k (deref o m)
    unfolding deref
    Legal-deref o m r e l = rw (e, deref) l

    pub Legal-time_now :
        (m : Time → Program A) → ((t : Time) → Legal k (m t)) → Legal k (time_now m)
    unfolding time_now
    Legal-time_now m l = record { duties = λ t. (l t).duties }

    pub Legal-pass :
        {R : Type 0} (r : Result R) (status : ℕ) (code : String) (m : R → Program A)
        → ((x : R) → r ≡ good x → Legal k (m x))
        → Legal k (pass r status code m)
    unfolding pass
    Legal-pass (good x) _ _ m l = l x refl
    Legal-pass (bad e) _ _ m l = Legal-reply

    pub Legal-ask :
        (c : Call) (m : Answer c → Program A) → ((a : Answer c) → Legal k (m a)) → Legal k (ask c m)
    unfolding ask
    Legal-ask c m l = record { duties = λ a. (l a).duties }

    pub Legal-load :
        (id : String) (status : ℕ) (message code : String) (m : Deposit A → Program A)
        → ((d : Deposit A) → IsLawful d → Legal (some (id, d)) (m d))
        → Legal k (load id status message code m)
    unfolding load
    Legal-load id _ _ _ m l = record { duties = (tt, tt, λ d law. (l d law).duties) }

    pub Legal-fetch :
        (id : String) (m : Deposit A → Program A)
        → ((d : Deposit A) → IsLawful d → Legal (some (id, d)) (m d))
        → Legal k (fetch id m)
    unfolding fetch
    Legal-fetch id m l = record { duties = (tt, tt, λ d law. (l d law).duties) }

    pub Legal-check_transition :
        (from to : LifecycleState) (m : Unit {0} → Program A)
        → (from ⟶ to → Legal k (m tt))
        → Legal k (check_transition from to m)
    unfolding check_transition
    Legal-check_transition from to m l = elim (transition_cases from to) [
      | inl (edge, e) ↦ rw (e, check_transition) (l edge)
      | inr (absent, e) ↦ rw (e, check_transition) Legal-reply
    ]

    pub Legal-store :
        (d : Deposit A) (m : Deposit A → Program A)
        → ((d' : Deposit A) → Legal none (m d'))
        → Legal k (store d m)
    unfolding store
    Legal-store d m l = record { duties = elim [ none ↦ tt | some d' ↦ (l d').duties ] }

    pub Legal-update :
        (id : String) (state : LifecycleState) (entry : HistoryEntry)
        (patch : Deposit A → Option (Deposit A)) (m : Deposit A → Program A)
        → Permitted k id state entry patch
        → ((d : Deposit A) → Legal none (m d))
        → Legal k (update id state entry patch m)
    unfolding update
    Legal-update id state entry patch m may l = record {
      duties = (may, elim [ none ↦ tt | some d ↦ (l d).duties ]);
    }

    pub Legal-revoke :
        (id : String) (m : Unit {0} → Program A) → Legal k (m tt) → Legal k (revoke id m)
    unfolding revoke
    Legal-revoke id m l = record { duties = l.duties }

    pub Legal-email_receipt :
        (d : Deposit A) (m : Unit {0} → Program A) → Legal k (m tt) → Legal k (email_receipt d m)
    unfolding email_receipt
    Legal-email_receipt d m l = record { duties = l.duties }

    pub Legal-email_release_receipt :
        (d : Deposit A) (m : Unit {0} → Program A)
        → Legal k (m tt)
        → Legal k (email_release_receipt d m)
    unfolding email_release_receipt
    Legal-email_release_receipt d m l = record { duties = l.duties }

    pub Legal-fire_webhook :
        (url : String) (d : Deposit A) (m : Unit {0} → Program A)
        → Legal k (m tt)
        → Legal k (fire_webhook url d m)
    unfolding fire_webhook
    Legal-fire_webhook url d m l =
        Legal-if (url == "") (m tt) _ (λ _. l) (λ _. record { duties = λ t. l.duties })

    pub Legal-either :
        {R : Type 0} (b : Bool) (m n : Handler A R) (rest : R → Program A)
        → (b ≡ true → Legal k (m rest))
        → (b ≡ false → Legal k (n rest))
        → Legal k (branch b m n rest)
    unfolding branch
    Legal-either true m n rest l r = l refl
    Legal-either false m n rest l r = r refl

  module _ {id : String} {d : Deposit A} (law : IsLawful d) where
    -- A patch that gives a document, makes a move and sets what the new state needs.
    pub Legal-advance :
        (state : LifecycleState) (entry : HistoryEntry) (patch : Deposit A → Option (Deposit A))
        (m : Deposit A → Program A) (d' : Deposit A)
        → patch d ≡ some d'
        → Move d.deposit.lifecycle_state state
        → entry.state ≡ state
        → d'.deposit.history ≡ d.deposit.history
        → Needs state d'
        → ((d'' : Deposit A) → Legal none (m d''))
        → Legal (some (id, d)) (update id state entry patch m)
    Legal-advance state entry patch m d' p move names same needs l =
        Legal-update id state entry patch m
          (
            d',
            refl,
            p,
            λ t.
                written-IsLawful d' state (record entry { timestamp = t }) law move names same
                  needs,
          )
          l
