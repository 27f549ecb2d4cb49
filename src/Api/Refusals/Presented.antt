-- ===== src/Api/Refusals/Presented.antt =====
-- A session of a presentation serves once: ReceiveVpResponse of
-- server/internal/api/verifier_handlers.go over the store of server/internal/verification/vp.go.
use mathlib.Core.Path.{subst}
use xmiete.Prelude.{ℕ, ◌≡◌, sym, String, true, some, List, [], ◌∷◌}
use xmiete.Amount.{Amount}
use xmiete.Models.{Deposit}
use xmiete.Host.{Host, Codec, Outcome}
use xmiete.Issuance.Session.{SessionStore}
use xmiete.Verification.Keyed.{IsKeyed, empty-IsKeyed}
use xmiete.Api.Program.{Program, Response, decode}
use xmiete.Api.Verifier.{VpResponse, receive_vp_response}
use xmiete.Api.Run.{World, run}
use xmiete.Api.Server.{Request, Server, handle, serve, post_vp_response}
use xmiete.Api.Refusals.{reject_if-IsIdle, require-IsIdle, vp_get-IsIdle}
use xmiete.Api.Refusals.Sessions.{run-IsKeyed}
use xmiete.Api.Refusals.Closing.{
  is_presented, Gone, Closed, Closes-delete, Closes-fetch, Closes-pass, Closes-reject_if,
  Closes-time_now, Closes-update, reject_if-Closed, vp_get-Closed,
}

module _ {A B S : Type 0} (json : Codec (Deposit A) B) (store : SessionStore S) (h : Host) where
  module _ {K P : Type 0} ⦃F : Amount A⦄ (s : Server A K P) where
    abbrev presentation : String → VpResponse → Program A
    presentation id req = handle s (post_vp_response id (some req))

    presentation-Closed :
        (id : String) (req : VpResponse) (n : ℕ) (w : World A B S)
        → IsKeyed w.wallets.vp_sessions
        → Closed json store h req.state (run json store (presentation id req) h n w)
    unfolding handle receive_vp_response decode
    presentation-Closed id req n w k = reject_if-Closed json store h req.state n w _ _ _ _ _ (
        reject_if-Closed json store h req.state n w _ _ _ _ _ (
          vp_get-Closed json store h req.state n w _ _ _ _ k λ session same.
            Closes-time_now json store h _ λ t. Closes-reject_if json store h _ _ _ _ _ (
              Closes-fetch json store h _ _ λ d. Closes-reject_if json store h _ _ _ _ _ (
                Closes-time_now json store h _ λ t1. Closes-time_now json store h _ λ t2.
                  Closes-time_now json store h _ λ t3. Closes-time_now json store h _ λ t4.
                    Closes-pass json store h _ _ _ _ λ claims.
                      Closes-reject_if json store h _ _ _ _ _ (
                        Closes-time_now json store h _ λ now.
                          Closes-update json store h _ _ _ _ _
                            λ d'. Closes-delete json store h _ _ _ _ same)))))

    -- A presentation for a state that no session has changes nothing.
    refuses_unknown_session :
        (id : String) (req : VpResponse) (n : ℕ) (w : World A B S)
        → Gone json store h req.state w
        → (run json store (presentation id req) h n w).2 ≡ w
    unfolding handle receive_vp_response decode
    refuses_unknown_session id req n w unknown = reject_if-IsIdle json store h w n _ _ _ _ _ λ _.
        reject_if-IsIdle json store h w n _ _ _ _ _ λ _.
          vp_get-IsIdle json store h w n _ _
            (require-IsIdle json store h w n _ _ _ _ _ λ session found. cc (unknown, found))

    serve-IsKeyed :
        (qs : List (Request A)) (n : ℕ) (w : World A B S)
        → IsKeyed w.wallets.vp_sessions
        → IsKeyed (serve s json store qs h n w).2.wallets.vp_sessions
    unfolding serve
    serve-IsKeyed [] n w k = k
    serve-IsKeyed (q ∷ qs) n w k =
        let x = run json store (handle s q) h n w in
        serve-IsKeyed qs x.1 x.2 (run-IsKeyed json store h (handle s q) n w k)

    -- The state of the server after some requests and then a presentation.
    abbrev pub after_presentation :
        List (Request A)
        → String
        → VpResponse
        → ℕ
        → World A B S
        → Outcome (Response A) × ℕ × World A B S
    after_presentation qs id req n w =
        let x = serve s json store qs h n w in run json store (presentation id req) h x.1 x.2

    -- On a server that started without sessions of presentations, and after any requests, one after
    -- the other: where a presentation was answered with the claims, the next presentation for the same
    -- session, of whichever token and for whichever deposit, changes nothing: the tables and the
    -- sessions stay, and nothing is sent.
    pub presented_once :
        (qs : List (Request A)) (id : String) (req : VpResponse) (n : ℕ) (w : World A B S)
        → w.wallets.vp_sessions ≡ []
        → is_presented (after_presentation qs id req n w).0 ≡ true
        → (id' : String) (req' : VpResponse) → req'.state ≡ req.state
        → (m : ℕ)
        → (run json store
            (handle s (post_vp_response id' (some req')))
            h
            m
            (after_presentation qs id req n w).2).2
          ≡ (after_presentation qs id req n w).2
    presented_once qs id req n w fresh accepted id' req' same m =
        let x = serve s json store qs h n w in
        let y = after_presentation qs id req n w in
        let start : IsKeyed w.wallets.vp_sessions = subst IsKeyed (sym fresh) empty-IsKeyed in
        let gone = presentation-Closed id req x.1 x.2 (serve-IsKeyed qs n w start) accepted in
        refuses_unknown_session id' req' m y.2
          (subst (λ k. Gone json store h k y.2) (sym same) gone)
