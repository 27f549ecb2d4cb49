-- ===== src/Api/Interleaving/Histories.antt =====
-- What requests that are served at the same time do to the history of a deposit.
use mathlib.Core.Path.{subst}
use mathlib.Core.Option.{some-injective}
use mathlib.Core.List.{append_assoc, append-nil}
use xmiete.Prelude.{
  ℕ, suc, ◌≡◌, refl, sym, ap, inl, inr, String, Option, some, List, [], ◌∷◌, ◌++◌, ◌==◌, arith,
  Bool-cases, eq_iff, ◌∙◌,
}
use xmiete.Models.{LifecycleState, HistoryEntry, Deposit}
use xmiete.Host.{Host, Codec, ok}
use xmiete.Repository
use xmiete.Repository.{Db}
use xmiete.Repository.View.{view, written, update_state_ok}
use xmiete.Repository.Outcomes.{
  opened, get_by_id_keeps, update_state_rolls_back, create_view, create_view_keeps,
}
use xmiete.Api.Lifecycle.Serve.{last_entry, last_entry-append}
use xmiete.Api.Lifecycle.Run.{Ends-cases, well, badly}
use xmiete.Api.Interleaving.Orderly.{KeepsHistory}

-- The last entry of the history names the state of the document.
abbrev pub NamesState : {A : Type 0} → Deposit A → Type 0
NamesState d =
    (e : HistoryEntry) × (last_entry d.deposit.history ≡ some e)
    × (e.state ≡ d.deposit.lifecycle_state)

opened-NamesState : {A : Type 0} (id : String) (t : ℕ) (d : Deposit A) → NamesState (opened id t d)
opened-NamesState id t d = (_, refl, refl)

written-NamesState :
    {A : Type 0} (state : LifecycleState) (e : HistoryEntry) (d : Deposit A)
    → e.state ≡ state
    → NamesState (written state e d)
written-NamesState state e d names = (e, last_entry-append d.deposit.history e, names)

module _ {A B : Type 0} (json : Codec (Deposit A) B) where
  -- The document of an identifier is still there, with a history that begins as it did.
  abbrev pub Later : Db B → String → Deposit A → Type 0
  Later db id d =
      (d' : Deposit A) × (es : List HistoryEntry) × (view json db id ≡ some d')
      × (d'.deposit.history ≡ d.deposit.history ++ es)

  pub record AllNamed (db : Db B) : Type 0 where
    pub named : (id : String) (d : Deposit A) → view json db id ≡ some d → NamesState d

  -- The tables after a step, from those before.
  pub record Grows (db db' : Db B) : Type 0 where
    pub names : AllNamed db → AllNamed db'
    pub later : (id : String) (d : Deposit A) → view json db id ≡ some d → Later db' id d

  pub Grows-refl : (db : Db B) → Grows db db
  Grows-refl db = record {
    names = λ all. all;
    later = λ id d v. (d, [], v, sym (append-nil d.deposit.history));
  }

  pub Grows-trans : {db db' db'' : Db B} → Grows db db' → Grows db' db'' → Grows db db''
  Grows-trans g g' = record {
    names = λ all. g'.names (g.names all);
    later = λ id d v.
        let (d', es, v', longer) = g.later id d v in
        let (d'', es', v'', longer') = g'.later id d' v' in
        (d'', es ++ es', v'', rw (longer', longer) (append_assoc d.deposit.history es es'));
  }

  module _ (h : Host) (n : ℕ) (db : Db B) where
    pub create-Grows : (d : Deposit A) → Grows db (Repository.create json d h n db).2
    create-Grows d = record {
      names = λ all. record {
        named = λ j d' v. elim (create_view json h n db d j d' v) [
          | inl old ↦ all.named j d' old
          | inr new ↦ subst NamesState (sym new) (opened-NamesState (h.uuid n) (h.clock (suc n)) d)
        ];
      };
      later = λ j d' v.
          (d', [], create_view_keeps json h n db d j d' v, sym (append-nil d'.deposit.history));
    }

    pub get_by_id-Grows : (id : String) → Grows db (Repository.get_by_id json id h n db).2
    get_by_id-Grows id = subst (Grows db) (sym (get_by_id_keeps json h n db id)) (Grows-refl db)

    module _ (id : String) (state : LifecycleState) (entry : HistoryEntry)
        (patch : Deposit A → Option (Deposit A)) (names : entry.state ≡ state)
        (keeps : KeepsHistory patch) where
      done-Grows :
          (d' : Deposit A)
          → (Repository.update_state json id state entry patch h n db).0 ≡ ok d'
          → Grows db (Repository.update_state json id state entry patch h n db).2
      done-Grows d' e =
          let x = Repository.update_state json id state entry patch h n db in
          let (d₀, d₁, t, v₀, p₀, made, wrote, logged) =
            update_state_ok json h n db id state entry patch (ap (λ r. (r, x.1, x.2)) e) in
          let stamped = record entry { timestamp = t } in
          record {
            names = λ all. record {
              named = λ j d'' v''. elim (Bool-cases (id == j)) [
                | inl here ↦
                    let same : written state stamped d₁ ≡ d'' = ground (arith, wrote j, made) in
                    subst NamesState same (written-NamesState state stamped d₁ names)
                | inr elsewhere ↦ all.named j d'' (ground (arith, wrote j))
              ];
            };
            later = λ j d v. elim (Bool-cases (id == j)) [
              | inl here ↦
                  let same_id : id ≡ j = ground (arith, eq_iff id j) in
                  let was : d₀ ≡ d =
                    some-injective d₀ d (sym v₀ ∙ (ap (view json db) same_id ∙ v)) in
                  (
                    d',
                    stamped ∷ [],
                    ground (arith, wrote j),
                    rw made (
                        ap (λ es. es ++ stamped ∷ [])
                          (keeps.keeps d₀ d₁ p₀ ∙ ap (λ x. x.deposit.history) was)),
                  )
              | inr elsewhere ↦ (d, [], ground (arith, wrote j), sym (append-nil d.deposit.history))
            ];
          }

      pub update-Grows : Grows db (Repository.update_state json id state entry patch h n db).2
      update-Grows =
          let x = Repository.update_state json id state entry patch h n db in
          elim (Ends-cases x) [
            | well d' e ↦ done-Grows d' e
            | badly e ↦
                subst (Grows db) (sym (update_state_rolls_back json h n db id state entry patch e))
                  (Grows-refl db)
          ]
