-- ===== src/Repository/View.antt =====
-- The table of deposits as a map from identifiers to documents, and what the operations do to it.
use xmiete.Prelude.{
  ℕ, suc, ◌≡◌, ◌≢◌, refl, String, Option, none, some, List, [], ◌∷◌, ◌++◌, ◌==◌, eq_iff, arith,
  if◌then◌else◌,
}
use xmiete.Calendar.{Time}
use xmiete.Models.{LifecycleState, HistoryEntry, Deposit}
use xmiete.Host.{Host, Codec, ok}
use xmiete.Repository.{DepositRow, Db, select_data, update_rows, history_row, update_state}

pub some_of_ne-none : {R : Type 0} (o : Option R) → o ≢ none → (r : R) × (o ≡ some r)
some_of_ne-none none h = absurd (h refl)
some_of_ne-none (some r) h = (r, refl)

module _ {B : Type 0} where
  -- The tables after an update of one deposit.
  abbrev pub after_update : LifecycleState → String → B → HistoryEntry → Db B → Db B
  after_update state id raw e db = record {
    deposits = update_rows state raw id db.deposits;
    deposit_history = db.deposit_history ++ history_row id e ∷ [];
  }

  pub select_data-update_rows :
      (state : LifecycleState) (raw : B) (id j : String) (rows : List (DepositRow B))
      → select_data j (update_rows state raw id rows)
        ≡ elim (select_data j rows) [ none ↦ none | some old ↦ some (if id == j then raw else old) ]
  unfolding select_data update_rows
  select_data-update_rows state raw id j [] = refl
  select_data-update_rows state raw id j (row ∷ rows) = ground (
    arith,
    eq_iff row.id id,
    eq_iff row.id j,
    eq_iff id j,
    select_data-update_rows state raw id j rows,
  )

-- The document that an update writes.
abbrev pub written : {A : Type 0} → LifecycleState → HistoryEntry → Deposit A → Deposit A
written state e d = record d {
  deposit = record d.deposit { lifecycle_state = state; history = d.deposit.history ++ e ∷ [] };
}

module _ {A B : Type 0} (json : Codec (Deposit A) B) where
  abbrev read : Option B → Option (Deposit A)
  read none = none
  read (some raw) = json.unmarshal raw

  -- The documents of the table.
  unfoldable pub view : Db B → String → Option (Deposit A)
  view db id = read (select_data id db.deposits)

  view-after_update :
      (id : String) (state : LifecycleState) (old : B) (d : Deposit A) (raw : B) (e : HistoryEntry)
      (db : Db B)
      → select_data id db.deposits ≡ some old
      → json.marshal d ≡ some raw
      → (j : String)
      → view (after_update state id raw e db) j ≡ (if id == j then some d else view db j)
  unfolding view
  view-after_update id state old d raw e db s m j =
      rw select_data-update_rows (ground (arith, eq_iff id j, json.unmarshal-marshal d raw m))

  module _ (h : Host) (n : ℕ) (db : Db B) {n' : ℕ} {db' : Db B} {d' : Deposit A} (id : String)
      (state : LifecycleState) (entry : HistoryEntry) (patch : Deposit A → Option (Deposit A))
      (done : update_state json id state entry patch h n db ≡ (ok d', n', db')) where
    update_selects : (raw : B) × (select_data id db.deposits ≡ some raw)
    unfolding update_state
    update_selects = some_of_ne-none (select_data id db.deposits) (λ e. ground arith)

    update_reads :
        (raw : B)
        → select_data id db.deposits ≡ some raw
        → (d : Deposit A) × (json.unmarshal raw ≡ some d)
    unfolding update_state
    update_reads raw e = some_of_ne-none (json.unmarshal raw) (λ u. ground arith)

    update_patches :
        (raw : B) (d : Deposit A)
        → select_data id db.deposits ≡ some raw
        → json.unmarshal raw ≡ some d
        → (d₁ : Deposit A) × (patch d ≡ some d₁)
    unfolding update_state
    update_patches raw d e u = some_of_ne-none (patch d) (λ p. ground arith)

    update_writes :
        (raw : B) (d d₁ : Deposit A)
        → select_data id db.deposits ≡ some raw
        → json.unmarshal raw ≡ some d
        → patch d ≡ some d₁
        → (t : Time) × (raw' : B) × (d' ≡ written state (record entry { timestamp = t }) d₁)
          × (json.marshal d' ≡ some raw')
          × (db' ≡ after_update state id raw' (record entry { timestamp = t }) db)
    unfolding update_state
    update_writes raw d d₁ e u p =
        let t : Time = h.clock (suc (suc n)) in
        let fits =
          some_of_ne-none (json.marshal (written state (record entry { timestamp = t }) d₁))
            (λ m. ground arith) in
        (t, fits.0, ground (arith, fits.1), ground (arith, fits.1), ground (arith, fits.1))

    pub update_state_ok :
        (d d₁ : Deposit A) × (t : Time) × (view db id ≡ some d)
        × (patch d ≡ some d₁)
        × (d' ≡ written state (record entry { timestamp = t }) d₁)
        × ((j : String) → view db' j ≡ (if id == j then some d' else view db j))
        × (db'.deposit_history
            ≡ db.deposit_history ++ history_row id (record entry { timestamp = t }) ∷ [])
    unfolding view
    update_state_ok =
        let (raw, e) = update_selects in
        let (d, u) = update_reads raw e in
        let (d₁, p) = update_patches raw d e u in
        let (t, raw', w, m, after) = update_writes raw d d₁ e u p in
        (
          d,
          d₁,
          t,
          rw e u,
          p,
          w,
          λ j.
              rw after
                (view-after_update id state raw d' raw' (record entry { timestamp = t }) db e m j),
          rw after,
        )
