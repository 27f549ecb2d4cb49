-- ===== src/Tests/Data.antt =====
-- A server whose amounts are thousandths, whose database never fails and keeps documents as they
-- are, and a deposit that a tenant posts.
use xmiete.Prelude.{
  ℕ, zero, suc, ◌+◌, ◌-◌, ◌*◌, ◌/◌, ◌^◌, String, false, none, some, [], sym, ltb, leb, eqb,
}
use Prim.Native.String.{◌++◌}
use xmiete.Prelude.Decimal.{decimal_text}
use xmiete.Calendar.{second}
use xmiete.Amount.{Amount}
use xmiete.Models.{other, Deposit}
use xmiete.Host.{Host, Codec}
use xmiete.Repository.{Db}
use xmiete.Issuance.Postgres.{Sessions}
use xmiete.Api.Run.{World}

instance abbrev pub thousandths : Amount ℕ
thousandths = record {
  zero = 0;
  decimal = λ n k. n * 1000 / 10 ^ k;
  add = λ a b. a + b;
  sub = λ a b. a - b;
  mul = λ a b. a * b / 1000;
  lt = ltb;
  le = leb;
  eq = eqb;
  format_2f = decimal_text;
  format_2g = decimal_text;
}

-- Texts that differ for different counts.
abbrev marks : ℕ → String
marks zero = "u"
marks (suc n) = "u" ++ marks n

abbrev pub host : Host
host = record { uuid = marks; clock = λ n. n * second; fails = λ n. false; random = λ n. some [] }

-- As `host`, with a database that fails from the call `n` on.
abbrev pub host_until : ℕ → Host
host_until n = record host { fails = λ m. leb n m }

abbrev pub json : Codec (Deposit ℕ) (Deposit ℕ)
json = record { marshal = some; unmarshal = some; unmarshal-marshal = λ d b e. sym e }

abbrev pub no_deposits : Db (Deposit ℕ)
no_deposits = record { deposits = []; deposit_history = [] }

abbrev pub start : World ℕ (Deposit ℕ) Sessions
start = record {
  db = no_deposits;
  wallets = record { sessions = []; next_index = 0; vp_sessions = [] };
  webhooks = [];
  receipts = [];
  release_receipts = [];
}

-- 1500 euros in cash for a flat in Germany.
abbrev pub posted : Deposit ℕ
posted = record {
  id = "";
  meta = record { version = "2.2.0"; timestamp = 0; external_id = "" };
  tenant = record {
    first_name = "Erika";
    last_name = "Mustermann";
    email = "erika@example.org";
    tax_id = "";
    eid_status = "";
    wallet_metadata = none;
    address = none;
  };
  landlord = record { name = "Hausverwaltung"; type = "COMPANY"; iban = "" };
  property = record {
    address = record { street = ""; zip = ""; city = "Berlin"; country = "DE" };
    unit_id = "";
  };
  deposit = record {
    amount = 1500000;
    currency = "EUR";
    type = "CASH_EQUIVALENT";
    lifecycle_state = other "";
    history = [];
    installment_plan = none;
  };
  pledge = none;
  trusteeship = none;
  provider = none;
  transport = none;
  settlement = none;
  utility_reservation = none;
}
