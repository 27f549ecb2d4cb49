-- ===== src/Api/Interleaving/Handlers.antt =====
-- The handlers of the routes for deposits, by the rules of Orderly.antt.
use mathlib.Core.Option
use xmiete.Prelude.{refl, String, Bool, Option, none, some, true, false}
use xmiete.Amount.{Amount}
use xmiete.Calendar.{Time}
use xmiete.Models.{
  Deposit, Settlement, IdentityUpdateRequest, PledgeRequest, ClaimRequest, SettleRequest,
  SettleAcceptRequest, DisputeRequest, DisputeResolveRequest, PartialReleaseRequest,
  UtilitySettleRequest,
}
use xmiete.Api.Deposits.{
  create_deposit, serve_pdf, get_deposit, update_identity, pledge, release, claim, get_receipt,
  get_release_receipt,
}
use xmiete.Api.Settlement.{agreed, origin, settle, settle_accept, dispute, dispute_resolve}
use xmiete.Api.Utility.{reconciled, partial_release, utility_settle}
use xmiete.Api.Program.{Program}
use xmiete.Api.Interleaving.Orderly.{
  Orderly, Orderly-reply, Orderly-deref, Orderly-update, KeepsHistory, keeps_some, keeps_map,
  orderly,
}

module _ {A : Type 0} where
  Orderly-serve_pdf :
      (o : Option String) (message : String) (m : ⊥ → Program A) → Orderly (serve_pdf o message m)
  unfolding serve_pdf
  Orderly-serve_pdf none message m = Orderly-reply
  Orderly-serve_pdf (some bytes) message m = Orderly-reply

  pub get_deposit-Orderly : (id : String) → Orderly {A = A} (get_deposit id)
  unfolding get_deposit
  get_deposit-Orderly id = search orderly

  pub update_identity-Orderly :
      (url id : String) (body : Option IdentityUpdateRequest)
      → Orderly {A = A} (update_identity url id body)
  unfolding update_identity
  update_identity-Orderly url id body = search (orderly, Orderly-update, keeps_some) depth 16

  pub release-Orderly : (url id : String) → Orderly {A = A} (release url id)
  unfolding release
  release-Orderly url id = search (orderly, Orderly-update, keeps_some) depth 12

  pub pledge-Orderly :
      (url id : String) (body : Option PledgeRequest) → Orderly {A = A} (pledge url id body)
  unfolding pledge
  pledge-Orderly url id body = search (orderly, Orderly-update, keeps_some) depth 12

  module _ (render : Deposit A → Option String) (id : String) where
    pub get_receipt-Orderly : Orderly (get_receipt render id)
    unfolding get_receipt
    get_receipt-Orderly = search (orderly, Orderly-serve_pdf)

    pub get_release_receipt-Orderly : Orderly (get_release_receipt render id)
    unfolding get_release_receipt
    get_release_receipt-Orderly = search (orderly, Orderly-serve_pdf)

module _ {A : Type 0} ⦃F : Amount A⦄ where
  pub create_deposit-Orderly : (body : Option (Deposit A)) → Orderly (create_deposit body)
  unfolding create_deposit
  create_deposit-Orderly body = search orderly depth 10

  pub claim-Orderly :
      (url id : String) (body : Option (ClaimRequest A)) → Orderly (claim url id body)
  unfolding claim
  claim-Orderly url id body = search (orderly, Orderly-update, keeps_some) depth 12

  keeps_reconciled :
      (req : UtilitySettleRequest A) (now : Time)
      → KeepsHistory (λ d. Option.map (reconciled req now d) d.utility_reservation)
  keeps_reconciled req now = keeps_map (λ d. d.utility_reservation) (reconciled req now) λ d u. refl

  keeps_reconciled_shortfall :
      (req : UtilitySettleRequest A) (now : Time) (s : Settlement A)
      → KeepsHistory λ (d : Deposit A).
        Option.map (reconciled req now (record d { settlement = some s })) d.utility_reservation
  keeps_reconciled_shortfall req now s =
      keeps_map (λ d. d.utility_reservation)
        (λ d. reconciled req now (record d { settlement = some s })) λ d u. refl

  keeps_agreed : KeepsHistory λ (d : Deposit A). Option.map (agreed d) d.settlement
  keeps_agreed = keeps_map (λ d. d.settlement) agreed λ d s. refl

  pub partial_release-Orderly :
      (url id : String) (body : Option (PartialReleaseRequest A))
      → Orderly (partial_release url id body)
  unfolding partial_release
  partial_release-Orderly url id body = search (orderly, Orderly-update, keeps_some) depth 14

  pub utility_settle-Orderly :
      (url id : String) (body : Option (UtilitySettleRequest A))
      → Orderly (utility_settle url id body)
  unfolding utility_settle
  utility_settle-Orderly url id body =
      search (orderly, Orderly-update, keeps_reconciled, keeps_reconciled_shortfall) depth 16

  Orderly-origin :
      (first : Bool) (party : String) (now : Time) (s : Option (Settlement A))
      (m : String × Time → Program A)
      → ((begun : String × Time) → Orderly (m begun))
      → Orderly (origin first party now s m)
  unfolding origin
  Orderly-origin true party now s m l = l (party, now)
  Orderly-origin false party now s m l =
      Orderly-deref s _ λ old. l (old.initiated_by, old.initiated_at)

  pub settle-Orderly :
      (url id : String) (body : Option (SettleRequest A)) → Orderly (settle url id body)
  unfolding settle
  settle-Orderly url id body = search (orderly, Orderly-update, Orderly-origin, keeps_some) depth 20

  pub settle_accept-Orderly :
      (url id : String) (body : Option SettleAcceptRequest)
      → Orderly {A = A} (settle_accept url id body)
  unfolding settle_accept
  settle_accept-Orderly url id body = search (orderly, Orderly-update, keeps_agreed) depth 16

  pub dispute-Orderly :
      (url id : String) (body : Option DisputeRequest) → Orderly {A = A} (dispute url id body)
  unfolding dispute
  dispute-Orderly url id body = search (orderly, Orderly-update, keeps_some) depth 14

  pub dispute_resolve-Orderly :
      (url id : String) (body : Option (DisputeResolveRequest A))
      → Orderly (dispute_resolve url id body)
  unfolding dispute_resolve
  dispute_resolve-Orderly url id body = search (orderly, Orderly-update, keeps_some) depth 14
