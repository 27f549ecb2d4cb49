-- ===== src/Api/Amounts.antt =====
-- The amounts of the settlements that Api/Settlement.antt and Api/Utility.antt propose.
use xmiete.Prelude.{ℕ, suc, ◌≡◌, refl, sym, String, false, List, [], ◌∷◌, Bool-cases, inl, inr}
use xmiete.Calendar.{Time}
use xmiete.Amount.{Amount}
use xmiete.Models.{ClaimItem, ClaimItemInput, SettleRequest, UtilitySettleRequest}
use xmiete.Api.Settlement.{number_items, sum_claimed, proposal}
use xmiete.Api.Utility.{retention, utility_settlement}

module _ {A : Type 0} ⦃F : Amount A⦄ where
  open F use {zero, add, sub, lt}

  -- The sum of the claims of some items, first to last.
  abbrev pub total : A → List (ClaimItem A) → A
  total sum [] = sum
  total sum (item ∷ items) = total (add sum item.amount_claimed) items

  sum_claimed-number_items :
      (i : ℕ) (sum : A) (items : List (ClaimItemInput A))
      → total sum (number_items i items) ≡ sum_claimed sum items
  unfolding number_items sum_claimed
  sum_claimed-number_items i sum [] = refl
  sum_claimed-number_items i sum (item ∷ items) =
      sum_claimed-number_items (suc i) (add sum item.amount_claimed) items

  -- The total of a proposal is the sum of its numbered items.
  pub proposal-total :
      (req : SettleRequest A) (now : Time) (begun : String × Time)
      → (proposal req now begun).total_claimed ≡ total zero (proposal req now begun).claim_items
  unfolding proposal
  proposal-total req now begun = sym (sum_claimed-number_items 0 zero req.claim_items)

  retention-within :
      (irreflexive : (a : A) → lt a a ≡ false) (shortfall reserved : A)
      → lt reserved (retention shortfall reserved) ≡ false
  unfolding retention
  retention-within irreflexive shortfall reserved = elim (Bool-cases (lt reserved shortfall)) [
    | inl more ↦ rw more (irreflexive reserved)
    | inr less ↦ rw less less
  ]

  -- If no amount is below itself, the landlord keeps no more of a reservation than was reserved,
  -- and the tenant is to get the rest.
  pub retention_within_reservation :
      (irreflexive : (a : A) → lt a a ≡ false) (req : UtilitySettleRequest A) (now : Time)
      (reserved : A)
      → (lt reserved (utility_settlement req now reserved).proposed_landlord_retention ≡ false)
        × ((utility_settlement req now reserved).proposed_tenant_refund
            ≡ sub reserved (utility_settlement req now reserved).proposed_landlord_retention)
  unfolding utility_settlement
  retention_within_reservation irreflexive req now reserved =
      (retention-within irreflexive (sub req.actual_cost req.total_advance_paid) reserved, refl)
