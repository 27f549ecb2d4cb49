-- ===== src/Tests/StatusList.antt =====
-- Some revoked indices, two of which are not in the list, and allocations of which some fail.
use xmiete.Prelude.{◌≡◌, refl, List, [], ◌∷◌}
use xmiete.Prelude.Int.{ℤ, pos, negsuc}
use xmiete.Issuance.Allocator.{allocations, Ascending, allocated-Ascending}
use xmiete.Issuance.StatusList.{bitstring}
use xmiete.Issuance.StatusList.Bits.{bit_at, bitstring-listed}
use xmiete.Issuance.StatusList.Revoked.{revoked-bit}
use xmiete.Issuance.Session.{revoked}
use xmiete.Issuance.Postgres.{Sessions, revoked_indices}
use xmiete.Tests.Issuance.{waiting, issued}
use xmiete.Tests.Data.{host_until}

abbrev indices : List ℤ
indices = pos 200000 ∷ pos 9 ∷ negsuc 0 ∷ pos 131071 ∷ []

bitstring-listed_example : bit_at 9 (bitstring indices) ≡ 1
bitstring-listed_example = bitstring-listed indices 9

abbrev rows : Sessions
rows = waiting ∷ record issued { state = revoked } ∷ []

revoked-bit_example : bit_at 7 (bitstring (revoked_indices rows)) ≡ 1
revoked-bit_example = revoked-bit 7 rows refl

allocated-Ascending_example : Ascending 5 (allocations 4 (host_until 2) 0 5)
allocated-Ascending_example = allocated-Ascending 4 (host_until 2) 0 5
