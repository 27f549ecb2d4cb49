-- ===== src/Tests/Repository.antt =====
-- The table of deposits with one row.
use xmiete.Prelude.{ℕ, ◌≡◌, ◌⊎◌, refl, some, [], ◌∷◌, false}
use xmiete.Models.{requested, identified, HistoryEntry, Deposit}
use xmiete.Calendar.{second}
use xmiete.Host.{ok, is_ok}
use xmiete.Repository.{Db, select_data, create, update_state}
use xmiete.Repository.View.{view}
use xmiete.Repository.Outcomes.{opened, create_view, create_reads_back, update_state_rolls_back}
use xmiete.Tests.Data.{host, host_until, json, posted, no_deposits}

abbrev stored : Deposit ℕ
stored = opened "u" second posted

abbrev one_deposit : Db (Deposit ℕ)
one_deposit = record {
  deposits = record { id = "u"; lifecycle_state = requested; raw = stored } ∷ [];
  deposit_history = [];
}

abbrev identification : HistoryEntry
identification = record {
  state = identified;
  timestamp = 0;
  actor = "IDENTITY_PROVIDER";
  comment = "";
  signature = "";
}

created : (create json posted host 0 no_deposits).0 ≡ ok stored
unfolding create
created = refl

create_reads_back_example : view json (create json posted host 0 no_deposits).2 "u" ≡ some stored
create_reads_back_example = create_reads_back json host 0 no_deposits posted stored created

-- A creation whose audit row is not written leaves the deposit.
half_created : view json (create json posted (host_until 3) 0 no_deposits).2 "u" ≡ some stored
unfolding create view select_data
half_created = refl

create_view_example :
    (view json no_deposits "u" ≡ some stored) ⊎ (stored ≡ opened "u" second posted)
create_view_example = create_view json (host_until 3) 0 no_deposits posted "u" stored half_created

-- The commit fails.
uncommitted :
    is_ok
      (update_state json "u" identified identification (λ d. some d) (host_until 5) 0 one_deposit).0
    ≡ false
unfolding update_state
uncommitted = refl

update_state_rolls_back_example :
    (update_state json "u" identified identification (λ d. some d) (host_until 5) 0 one_deposit).2
    ≡ one_deposit
update_state_rolls_back_example =
    update_state_rolls_back json (host_until 5) 0 one_deposit "u" identified identification
      (λ d. some d) uncommitted
