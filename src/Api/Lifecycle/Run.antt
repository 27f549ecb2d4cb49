-- ===== src/Api/Lifecycle/Run.antt =====
-- The runs of Api/Run.antt, of handlers that keep the rules of Legal.antt.
use mathlib.Core.Path.{subst}
use xmiete.Prelude.{
  ℕ, suc, ◌≡◌, refl, sym, ap, ◌≢◌, inl, inr, String, false, Option, none, some, ◌==◌, arith,
  Bool-cases,
}
use xmiete.Calendar.{Time}
use xmiete.Models.{LifecycleState, HistoryEntry, Deposit}
use xmiete.Host.{Host, Codec, Outcome, ok, not_found, failed, panicked, is_ok}
use xmiete.Repository
use xmiete.Repository.{Db}
use xmiete.Repository.View.{view, written, update_state_ok}
use xmiete.Repository.Outcomes.{
  opened, get_by_id_keeps, get_by_id_reads, update_state_rolls_back, update_state_calm, create_view,
}
use xmiete.Issuance.Session.{SessionStore}
use xmiete.Api.Call.{perform}
use xmiete.Api.Program.{
  Program, Response, Fetched, reply, panic, now, call, create, get_by_id, update_state,
  revoke_by_deposit_id, post_webhook, send_receipt, send_release_receipt,
}
use xmiete.Api.Run.{World, fetched, stored, run}
use xmiete.Api.Lifecycle.Trail
use xmiete.Api.Lifecycle.Trail.{IsLawful}
use xmiete.Api.Lifecycle.Legal.{Known, Duties, Legal}

opened-IsLawful : {A : Type 0} (id : String) (t : Time) (d : Deposit A) → IsLawful (opened id t d)
opened-IsLawful id t d = record { trail = Trail.opened _ refl refl refl; needs = tt }

-- What an operation answered, with its triple.
pub data Ends {R S : Type 0} (x : Outcome R × ℕ × S) : Type 0 where
  well : (r : R) → x.0 ≡ ok r → Ends x
  badly : is_ok x.0 ≡ false → Ends x

pub Ends-cases : {R S : Type 0} (x : Outcome R × ℕ × S) → Ends x
Ends-cases (ok r, _, _) = well r refl
Ends-cases (not_found, _, _) = badly refl
Ends-cases (failed, _, _) = badly refl
Ends-cases (panicked, _, _) = badly refl

module _ {A B : Type 0} (json : Codec (Deposit A) B) where
  -- Every document of the tables is lawful.
  pub record AllLawful (db : Db B) : Type 0 where
    pub lawful : (id : String) (d : Deposit A) → view json db id ≡ some d → IsLawful d

  -- What the handler fetched last is still there.
  abbrev IsCurrent : Known A → Db B → Type 0
  IsCurrent none db = Unit
  IsCurrent (some (id, d)) db = view json db id ≡ some d

  module _ {S : Type 0} (store : SessionStore S) (h : Host) where
    pub record Safe (x : Outcome (Response A) × ℕ × World A B S) : Type 0 where
      pub answers : (r : Response A) × (x.0 ≡ ok r)
      pub keeps : AllLawful x.2.db

    create_keeps :
        (n : ℕ) (db : Db B) (d : Deposit A)
        → AllLawful db
        → AllLawful (Repository.create json d h n db).2
    create_keeps n db d all = record {
      lawful = λ j d' v. elim (create_view json h n db d j d' v) [
        | inl old ↦ all.lawful j d' old
        | inr new ↦ subst IsLawful (sym new) (opened-IsLawful _ _ d)
      ];
    }

    update_keeps :
        (n : ℕ) (db : Db B) (id : String) (state : LifecycleState) (entry : HistoryEntry)
        (patch : Deposit A → Option (Deposit A)) (d₁ d' : Deposit A)
        → ((t : Time) → IsLawful (written state (record entry { timestamp = t }) d₁))
        → AllLawful db
        → (d : Deposit A) → view json db id ≡ some d
        → patch d ≡ some d₁
        → (Repository.update_state json id state entry patch h n db).0 ≡ ok d'
        → AllLawful (Repository.update_state json id state entry patch h n db).2
    update_keeps n db id state entry patch d₁ d' law all d v p e =
        let x = Repository.update_state json id state entry patch h n db in
        let (d₀, d₂, t, v₀, p₀, made, wrote, logged) =
          update_state_ok json h n db id state entry patch (ap (λ r. (r, x.1, x.2)) e) in
        let same : d₂ ≡ d₁ = ground (arith, v, v₀, p, p₀) in
        record {
          lawful = λ j d'' v''. elim (Bool-cases (id == j)) [
            | inl here ↦ subst IsLawful (ground (arith, wrote j)) (law t)
            | inr elsewhere ↦ all.lawful j d'' (ground (arith, wrote j))
          ];
        }

    updated-Safe :
        (w : World A B S) (f : Option (Deposit A) → Program A) (x : Outcome (Deposit A) × ℕ × Db B)
        → x.0 ≢ panicked
        → AllLawful x.2
        → ((o : Option (Deposit A)) (n : ℕ) (db : Db B)
            → AllLawful db
            → Safe (run json store (f o) h n (record w { db = db })))
        → Safe (elim x.0 [
          | panicked ↦ (panicked, x.1, record w { db = x.2 })
          | ok d ↦ run json store (f (some d)) h x.1 (record w { db = x.2 })
          | not_found ↦ run json store (f none) h x.1 (record w { db = x.2 })
          | failed ↦ run json store (f none) h x.1 (record w { db = x.2 })
        ])
    updated-Safe w f (ok d, n, db) calm all rest = rest (some d) n db all
    updated-Safe w f (not_found, n, db) calm all rest = rest none n db all
    updated-Safe w f (failed, n, db) calm all rest = rest none n db all
    updated-Safe w f (panicked, n, db) calm all rest = absurd (calm refl)

    fetched-Duties :
        (k : Known A) (id : String) (f : Fetched A → Program A) (db : Db B)
        → Duties k (get_by_id id f)
        → AllLawful db
        → (o : Outcome (Deposit A)) → ((d : Deposit A) → o ≡ ok d → view json db id ≡ some d)
        → (k' : Known A) × Legal k' (f (fetched o)) × IsCurrent k' db
    fetched-Duties k id f db ds all (ok d) reads =
        (some (id, d), record { duties = ds.2 d (all.lawful id d (reads d refl)) }, reads d refl)
    fetched-Duties k id f db ds all not_found reads = (none, record { duties = ds.0 }, tt)
    fetched-Duties k id f db ds all failed reads = (none, record { duties = ds.1 }, tt)
    fetched-Duties k id f db ds all panicked reads = (none, record { duties = ds.1 }, tt)

    pub run-Legal :
        (k : Known A) (p : Program A)
        → Legal k p
        → (n : ℕ) (w : World A B S) → AllLawful w.db
        → IsCurrent k w.db
        → Safe (run json store p h n w)
    unfolding run
    run-Legal k (reply r) l n w all c = record { answers = (r, refl); keeps = all }
    run-Legal k panic l n w all c = absurd l.duties
    run-Legal k (now f) l n w all c =
        run-Legal k (f (h.clock n)) (record { duties = l.duties (h.clock n) }) (suc n) w all c
    run-Legal k (call c f) l n w all c' =
        let x = perform store h c n w.wallets in
        run-Legal k (f x.0) (record { duties = l.duties x.0 }) x.1 (record w { wallets = x.2 }) all
          c'
    run-Legal k (create d f) l n w all c =
        let x = Repository.create json d h n w.db in
        run-Legal none (f (stored x.0)) (record { duties = l.duties (stored x.0) }) x.1
          (record w { db = x.2 }) (create_keeps n w.db d all) tt
    run-Legal k (get_by_id id f) l n w all c =
        let x = Repository.get_by_id json id h n w.db in
        let same = sym (get_by_id_keeps json h n w.db id) in
        let (k', l', c') =
          fetched-Duties k id f w.db l.duties all x.0 (get_by_id_reads json h n w.db id) in
        run-Legal k' (f (fetched x.0)) l' x.1 (record w { db = x.2 }) (subst AllLawful same all)
          (subst (IsCurrent k') same c')
    run-Legal none (update_state id state entry patch f) l n w all c = absurd l.duties.0
    run-Legal (some (id', d)) (update_state id state entry patch f) l n w all c =
        let x = Repository.update_state json id state entry patch h n w.db in
        let (d₁, same, p, law) = l.duties.0 in
        let v = subst (λ i. view json w.db i ≡ some d) same c in
        updated-Safe w f x (update_state_calm json h n w.db id state entry patch d d₁ v p)
          (elim (Ends-cases x) [
            | well d' e ↦ update_keeps n w.db id state entry patch d₁ d' law all d v p e
            | badly e ↦
                subst AllLawful (sym (update_state_rolls_back json h n w.db id state entry patch e))
                  all
          ])
          λ o n' db all'.
            run-Legal none (f o) (record { duties = l.duties.1 o }) n' (record w { db = db }) all'
              tt
    run-Legal k (revoke_by_deposit_id id p) l n w all c =
        let x = store.revoke_by_deposit_id id h n w.wallets.sessions in
        run-Legal k p (record { duties = l.duties }) x.1
          (record w { wallets = record w.wallets { sessions = x.2 } }) all c
    run-Legal k (post_webhook event p) l n w all c =
        run-Legal k p (record { duties = l.duties }) n _ all c
    run-Legal k (send_receipt d p) l n w all c =
        run-Legal k p (record { duties = l.duties }) n _ all c
    run-Legal k (send_release_receipt d p) l n w all c =
        run-Legal k p (record { duties = l.duties }) n _ all c
