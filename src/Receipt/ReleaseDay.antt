-- ===== src/Receipt/ReleaseDay.antt =====
-- The day that the release receipt of server/internal/receipt/pdf.go names, on the documents that
-- the server keeps.
use mathlib.Core.List.{append_assoc}
use xmiete.Prelude.{
  ◌≤◌, ◌<◌, false, some, List, [], ◌∷◌, ◌++◌, arith, ◌≡◌, refl, sym, ap, ◌∙◌, Bool-cases, inl, inr,
}
use xmiete.Calendar.{Time, format_date, date_of}
use xmiete.Models.{
  LifecycleState, requested, pledged, released, settle_proposed, HistoryEntry, Deposit, same_state,
  same_state-eq,
}
use xmiete.StateMachine.Graph.{rank, rank-⟶}
use xmiete.Api.Lifecycle.Trail.{Move, along, counter, presented, Trail, opened, moved, IsLawful}
use xmiete.Api.Lifecycle.Serve.{last_entry, last_entry-append}
use xmiete.Receipt.{Fpdf, release_day, released_at, release_receipt}
use xmiete.Receipt.Texts.{texts}
use xmiete.Receipt.Lines.{release_lines, release_receipt-texts}
use xmiete.Amount.{Amount}

rank-Move : {s t : LifecycleState} → Move s t → rank s ≤ rank t
rank-Move (along e) = omega (arith, rank-⟶ e)
rank-Move (counter p q) = rw (p, q) (omega arith)
rank-Move (presented p q) = rw (p, q) (omega arith)

early : (s : LifecycleState) → rank s < rank released → same_state s released ≡ false
early s h = elim (Bool-cases (same_state s released)) [
  | inl same ↦ absurd (let e = same_state-eq s released same in let h' = rw e at h in omega arith)
  | inr other ↦ other
]

-- An entry of another state is passed over.
passed :
    (es : List HistoryEntry) (e : HistoryEntry) (rest : List HistoryEntry) (now : Time)
    → ((fs : List HistoryEntry) → release_day (es ++ fs) now ≡ release_day fs now)
    → same_state e.state released ≡ false
    → release_day ((es ++ e ∷ []) ++ rest) now ≡ release_day rest now
unfolding release_day
passed es e rest now skip other =
    ap (λ l. release_day l now) (append_assoc es (e ∷ []) rest) ∙ skip (e ∷ rest) ∙ rw other refl

-- No entry of a trail that ends before RELEASED has that state.
skipped :
    {es : List HistoryEntry} {s : LifecycleState} (now : Time)
    → Trail es s
    → rank s < rank released
    → (rest : List HistoryEntry) → release_day (es ++ rest) now ≡ release_day rest now
unfolding rank
skipped now (opened e is_one first names) before rest =
    rw is_one (passed [] e rest now (λ fs. refl) (rw first (early requested (omega arith))))
skipped {s = s} now (moved {es = es} e trail move grown names) before rest = rw grown (
    passed es e rest now (skipped now trail (omega (arith, rank-Move move)))
      (rw names (early s before)))

-- A state from which an entry leads to RELEASED lies before it.
before_release : {s t : LifecycleState} → Move s t → t ≡ released → rank s < rank released
before_release (along e) is = let up = rank-⟶ e in let up' = rw is at up in up'
before_release (counter p q) is = absurd (ne_settle (sym q ∙ is))
  where
    ne_settle : settle_proposed ≡ released → ⊥
    ne_settle e = cc
before_release (presented p q) is = absurd (ne_pledged (sym q ∙ is))
  where
    ne_pledged : pledged ≡ released → ⊥
    ne_pledged e = cc

-- The last entry, and the day that is found.
abbrev Ends : List HistoryEntry → Time → Type 0
Ends es now =
    (e : HistoryEntry) × (last_entry es ≡ some e)
    × (e.state ≡ released)
    × (release_day es now ≡ format_date (date_of e.timestamp))

released_trail :
    {es : List HistoryEntry} {s : LifecycleState} (now : Time)
    → Trail es s
    → s ≡ released
    → Ends es now
unfolding release_day same_state
released_trail now (opened e is_one first names) is = absurd (ne_requested (sym names ∙ is))
  where
    ne_requested : requested ≡ released → ⊥
    ne_requested p = cc
released_trail now (moved {es = es} e trail move grown names) is = rw grown (
  e,
  last_entry-append es e,
  names ∙ is,
  skipped now trail (before_release move is) (e ∷ []) ∙ rw (names ∙ is) refl,
)

released_at-last_entry :
    {A : Type 0} (d : Deposit A) (now : Time)
    → IsLawful d
    → d.deposit.lifecycle_state ≡ released
    → (e : HistoryEntry) × (last_entry d.deposit.history ≡ some e)
      × (e.state ≡ released)
      × (released_at d now ≡ format_date (date_of e.timestamp))
unfolding released_at
released_at-last_entry d now law is_released = released_trail now law.trail is_released

-- On a lawful document in RELEASED, the release receipt reads, wherever fpdf puts its lines: the
-- title, the deposit, the day of the last entry of the history, which is the release, whenever the
-- receipt is made; the parties, the amount and the type of the deposit, and what is returned, which
-- is the balance of the trust account if that is positive, with the interest in it, and else the
-- amount.
pub release_receipt-reads :
    {A : Type 0} ⦃F : Amount A⦄ (G : Fpdf A) (d : Deposit A) (now generated : Time)
    → IsLawful d
    → d.deposit.lifecycle_state ≡ released
    → (e : HistoryEntry) × (last_entry d.deposit.history ≡ some e)
      × (e.state ≡ released)
      × (texts (release_receipt G d now generated []).1
          ≡ release_lines G d (format_date (date_of e.timestamp)) generated)
release_receipt-reads G d now generated law is_released =
    let (e, last, names, day) = released_at-last_entry d now law is_released in
    (
      e,
      last,
      names,
      release_receipt-texts G d now generated ∙ ap (λ s. release_lines G d s generated) day,
    )
