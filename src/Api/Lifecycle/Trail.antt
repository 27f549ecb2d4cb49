-- ===== src/Api/Lifecycle/Trail.antt =====
-- The history of a deposit as a trail along the transitions of the server.
use xmiete.Prelude.{◌≡◌, some, List, [], ◌∷◌, ◌++◌, ap}
use xmiete.Models.{
  LifecycleState, requested, funded, pledged, settle_proposed, partially_released, HistoryEntry,
  Settlement, UtilityReservation, Deposit,
}
use xmiete.StateMachine.Graph.{◌⟶◌}
use xmiete.Repository.View.{written}

-- An entry follows a transition of the server, records a counter-proposal, or the presentation of a
-- credential to a deposit that is pledged.
pub data Move : LifecycleState → LifecycleState → Type 0 where
  along : {s t : LifecycleState} → s ⟶ t → Move s t
  counter : {s t : LifecycleState} → s ≡ settle_proposed → t ≡ settle_proposed → Move s t
  presented : {s t : LifecycleState} → s ≡ pledged → t ≡ pledged → Move s t

-- A history from REQUESTED, entry by entry, with the state that it ends in.
pub data Trail : List HistoryEntry → LifecycleState → Type 0 where
  opened :
      {es : List HistoryEntry} {s : LifecycleState} (e : HistoryEntry)
      → es ≡ e ∷ []
      → e.state ≡ requested
      → s ≡ requested
      → Trail es s
  moved :
      {es fs : List HistoryEntry} {s t : LifecycleState} (e : HistoryEntry)
      → Trail es s
      → Move s t
      → fs ≡ es ++ e ∷ []
      → e.state ≡ t
      → Trail fs t

-- What a document in a state holds: a negotiation has its settlement, a partial release its
-- reservation, and no document is in FUNDED.
abbrev pub Needs : {A : Type 0} → LifecycleState → Deposit A → Type 0
Needs funded d = ⊥
Needs {A} settle_proposed d = (s : Settlement A) × (d.settlement ≡ some s)
Needs {A} partially_released d = (u : UtilityReservation A) × (d.utility_reservation ≡ some u)
Needs _ d = Unit

pub record IsLawful {A : Type 0} (d : Deposit A) : Type 0 where
  pub trail : Trail d.deposit.history d.deposit.lifecycle_state
  pub needs : Needs d.deposit.lifecycle_state d

module _ {A : Type 0} where
  -- What an update writes is lawful, if the entry names the new state, the state may follow the old
  -- one, and the patch has left the history alone and has set what the state needs.
  pub written-IsLawful :
      {d : Deposit A} (d' : Deposit A) (state : LifecycleState) (entry : HistoryEntry)
      → IsLawful d
      → Move d.deposit.lifecycle_state state
      → entry.state ≡ state
      → d'.deposit.history ≡ d.deposit.history
      → Needs state d'
      → IsLawful (written state entry d')
  written-IsLawful d' state entry law move names same needs = record {
    trail = moved entry law.trail move (ap (λ es. es ++ entry ∷ []) same) names;
    needs = written_needs state needs;
  }
    where
      written_needs : (s : LifecycleState) → Needs s d' → Needs s (written state entry d')
      written_needs funded n = n
      written_needs settle_proposed n = n
      written_needs partially_released n = n
      written_needs _ n = tt
