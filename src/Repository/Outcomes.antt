-- ===== src/Repository/Outcomes.antt =====
-- What the operations of Repository.antt leave behind where they do not succeed, and what a new
-- deposit is.
use xmiete.Prelude.{
  ℕ, suc, eq_refl, ap, Bool-cases, Option-cases, ◌||◌, ◌≡◌, ◌≢◌, ◌⊎◌, refl, inl, inr, String, false,
  Option, none, some, List, [], ◌∷◌, ◌++◌, ◌==◌, eq_iff, arith, if◌then◌else◌, any,
}
use xmiete.Calendar.{Time}
use xmiete.Models.{LifecycleState, requested, HistoryEntry, Deposit}
use xmiete.Host.{Host, Codec, ok, panicked, is_ok}
use xmiete.Repository.{Db, DepositRow, select_data, create, get_by_id, update_state}
use xmiete.Repository.View.{view, some_of_ne-none}

-- The entry that opens a history.
abbrev pub opening : Time → HistoryEntry
opening t = record {
  state = requested;
  timestamp = t;
  actor = "TENANT";
  comment = "";
  signature = "";
}

-- The document that `Create` stores.
abbrev pub opened : {A : Type 0} → String → Time → Deposit A → Deposit A
opened id t d = record d {
  id = id;
  deposit = record d.deposit { lifecycle_state = requested; history = opening t ∷ [] };
  meta = record d.meta { timestamp = t };
}

module _ {B : Type 0} where
  select_data-append :
      (j : String) (rows : List (DepositRow B)) (row : DepositRow B)
      → select_data j (rows ++ row ∷ []) ≡ elim (select_data j rows) [
        | none ↦ if row.id == j then some row.raw else none
        | some raw ↦ some raw
      ]
  unfolding select_data
  select_data-append j [] row = refl
  select_data-append j (r ∷ rows) row = ground (arith, eq_iff r.id j, select_data-append j rows row)

module _ {B : Type 0} where
  fresh_selects :
      (id : String) (rows : List (DepositRow B))
      → any (λ r. r.id == id) rows ≡ false
      → select_data id rows ≡ none
  unfolding select_data
  fresh_selects id [] free = refl
  fresh_selects id (row ∷ rows) free = ground (arith, fresh_selects id rows)

module _ {A B : Type 0} (json : Codec (Deposit A) B) (h : Host) (n : ℕ) (db : Db B) where
  pub get_by_id_keeps : (id : String) → (get_by_id json id h n db).2 ≡ db
  unfolding get_by_id
  get_by_id_keeps id = ground arith

  pub get_by_id_reads :
      (id : String) (d : Deposit A) → (get_by_id json id h n db).0 ≡ ok d → view json db id ≡ some d
  unfolding get_by_id view
  get_by_id_reads id d e = ground arith

  module _ (id : String) (state : LifecycleState) (entry : HistoryEntry)
      (patch : Deposit A → Option (Deposit A)) where
    -- An update that does not succeed, at whichever of its steps it fails, leaves both tables as
    -- they were.
    pub update_state_rolls_back :
        is_ok (update_state json id state entry patch h n db).0 ≡ false
        → (update_state json id state entry patch h n db).2 ≡ db
    unfolding update_state
    update_state_rolls_back fails = ground arith

    pub update_state_calm :
        (d d₁ : Deposit A)
        → view json db id ≡ some d
        → patch d ≡ some d₁
        → (update_state json id state entry patch h n db).0 ≢ panicked
    unfolding update_state view
    update_state_calm d d₁ v p e = ground arith

  abbrev opened_row : Deposit A → B → DepositRow B
  opened_row d raw = record { id = h.uuid n; lifecycle_state = requested; raw = raw }

  create_ok_inserts :
      (d d' : Deposit A)
      → (create json d h n db).0 ≡ ok d'
      → (raw : B) × (json.marshal (opened (h.uuid n) (h.clock (suc n)) d) ≡ some raw)
        × (any (λ r. r.id == h.uuid n) db.deposits ≡ false)
        × ((create json d h n db).2.deposits ≡ db.deposits ++ opened_row d raw ∷ [])
  unfolding create
  create_ok_inserts d d' e =
      let (raw, m) =
        some_of_ne-none (json.marshal (opened (h.uuid n) (h.clock (suc n)) d))
          (λ u. ground arith) in
      (raw, m, ground arith, ground arith)

  create_inserts :
      (d : Deposit A) (raw : B)
      → json.marshal (opened (h.uuid n) (h.clock (suc n)) d) ≡ some raw
      → ((create json d h n db).2.deposits ≡ db.deposits)
        ⊎ ((create json d h n db).2.deposits ≡ db.deposits ++ opened_row d raw ∷ [])
  unfolding create
  create_inserts d raw m =
      elim (Bool-cases (h.fails (suc (suc n)) || any (λ r. r.id == h.uuid n) db.deposits)) [
        | inl e ↦ inl (ground arith)
        | inr e ↦ inr (ground arith)
      ]

  create_drops :
      (d : Deposit A)
      → json.marshal (opened (h.uuid n) (h.clock (suc n)) d) ≡ none
      → (create json d h n db).2.deposits ≡ db.deposits
  unfolding create
  create_drops d m = ground arith

  pub create_ok :
      (d d' : Deposit A)
      → (create json d h n db).0 ≡ ok d'
      → d' ≡ opened (h.uuid n) (h.clock (suc n)) d
  unfolding create
  create_ok d d' e = ground arith

  inserted :
      (j : String) (row : DepositRow B) (raw : B)
      → select_data j (db.deposits ++ row ∷ []) ≡ some raw
      → (select_data j db.deposits ≡ some raw) ⊎ (row.raw ≡ raw)
  inserted j row raw e = elim (Option-cases (select_data j db.deposits)) [
    | inl absent ↦ inr (ground (arith, select_data-append j db.deposits row))
    | inr (old, has) ↦ inl (ground (arith, select_data-append j db.deposits row))
  ]

  create_reads :
      (d : Deposit A) (j : String) (raw : B)
      → select_data j (create json d h n db).2.deposits ≡ some raw
      → (select_data j db.deposits ≡ some raw)
        ⊎ (json.marshal (opened (h.uuid n) (h.clock (suc n)) d) ≡ some raw)
  create_reads d j raw e =
      elim (Option-cases (json.marshal (opened (h.uuid n) (h.clock (suc n)) d))) [
        | inl none_written ↦ inl (rw (create_drops d none_written) at e)
        | inr (new, m) ↦ elim (create_inserts d new m) [
          | inl same ↦ inl (rw same at e)
          | inr longer ↦ elim (inserted j (opened_row d new) raw (rw longer at e)) [
            | inl old ↦ inl old
            | inr new_raw ↦ inr (rw m (ap some new_raw))
          ]
        ]
      ]

  -- Whatever comes of it, each document that is there after a creation was there before, or is the
  -- one that the creation opened.
  pub create_view :
      (d : Deposit A) (j : String) (d' : Deposit A)
      → view json (create json d h n db).2 j ≡ some d'
      → (view json db j ≡ some d') ⊎ (d' ≡ opened (h.uuid n) (h.clock (suc n)) d)
  unfolding view
  create_view d j d' e = elim (Option-cases (select_data j (create json d h n db).2.deposits)) [
    | inl absent ↦ inl (ground arith)
    | inr (raw, has) ↦ elim (create_reads d j raw has) [
      | inl old ↦ inl (ground arith)
      | inr m ↦
          inr (ground (arith, json.unmarshal-marshal (opened (h.uuid n) (h.clock (suc n)) d) raw m))
    ]
  ]

  still_selected :
      (j : String) (row : DepositRow B) (raw : B)
      → select_data j db.deposits ≡ some raw
      → select_data j (db.deposits ++ row ∷ []) ≡ some raw
  still_selected j row raw has = rw (select_data-append j db.deposits row, has) refl

  create_selects :
      (d : Deposit A) (j : String) (raw : B)
      → select_data j db.deposits ≡ some raw
      → select_data j (create json d h n db).2.deposits ≡ some raw
  create_selects d j raw has =
      elim (Option-cases (json.marshal (opened (h.uuid n) (h.clock (suc n)) d))) [
        | inl none_written ↦ rw (create_drops d none_written) has
        | inr (new, m) ↦ elim (create_inserts d new m) [
          | inl same ↦ rw same has
          | inr longer ↦ rw longer (still_selected j (opened_row d new) raw has)
        ]
      ]

  -- A creation leaves the documents that are there.
  pub create_view_keeps :
      (d : Deposit A) (j : String) (d' : Deposit A)
      → view json db j ≡ some d'
      → view json (create json d h n db).2 j ≡ some d'
  unfolding view
  create_view_keeps d j d' e = elim (Option-cases (select_data j db.deposits)) [
    | inl absent ↦ ground arith
    | inr (raw, has) ↦ ground (arith, create_selects d j raw has)
  ]

  -- A created deposit is read back as it was answered.
  pub create_reads_back :
      (d d' : Deposit A)
      → (create json d h n db).0 ≡ ok d'
      → view json (create json d h n db).2 d'.id ≡ some d'
  unfolding view
  create_reads_back d d' e =
      let (raw, m, free, longer) = create_ok_inserts d d' e in
      let made = create_ok d d' e in
      let selected : select_data (h.uuid n) (db.deposits ++ opened_row d raw ∷ []) ≡ some raw =
        ground (
          arith,
          eq_refl (h.uuid n),
          fresh_selects (h.uuid n) db.deposits free,
          select_data-append (h.uuid n) db.deposits (opened_row d raw),
        ) in
      rw (made, longer, selected)
        (json.unmarshal-marshal (opened (h.uuid n) (h.clock (suc n)) d) raw m)
