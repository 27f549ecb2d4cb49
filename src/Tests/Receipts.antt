-- ===== src/Tests/Receipts.antt =====
-- The receipt of a released deposit, the mail that it goes with, and a configuration.
use Prim.Native.String.{◌++◌ as join}
use xmiete.Prelude.{ℕ, ◌*◌, ◌/◌, false, none, some, List, [], ◌∷◌, ◌≡◌, refl, if◌then◌else◌, ◌==◌}
use xmiete.Prelude.Decimal.{decimal_text}
use xmiete.Prelude.Int.{pos}
use xmiete.Prelude.Results.{good, bad}
use xmiete.Calendar.{day, format_date, date_of}
use xmiete.Models.{LifecycleState, requested, identified, pledged, released, HistoryEntry, Deposit}
use xmiete.StateMachine.Graph.{documented, identify, pledge_unfunded, release}
use xmiete.Api.Lifecycle.Trail.{Trail, opened, moved, along, IsLawful}
use xmiete.Api.Lifecycle.Serve.{last_entry}
use xmiete.Receipt.{Fpdf, release_receipt}
use xmiete.Receipt.Texts.{texts}
use xmiete.Receipt.Lines.{release_lines}
use xmiete.Receipt.ReleaseDay.{release_receipt-reads}
use xmiete.Mailer.{SmtpMailer, send_receipt}
use xmiete.Process.{Environment, config, build_mailer}
use xmiete.Tests.Data.{thousandths, posted}

abbrev entry : ℕ → LifecycleState → HistoryEntry
entry n s = record { state = s; timestamp = n * day; actor = "BANK"; comment = ""; signature = "" }

abbrev until_identified : List HistoryEntry
until_identified = entry 1 requested ∷ entry 2 identified ∷ []

abbrev until_pledged : List HistoryEntry
until_pledged = entry 1 requested ∷ entry 2 identified ∷ entry 3 pledged ∷ []

abbrev until_released : List HistoryEntry
until_released = entry 1 requested ∷ entry 2 identified ∷ entry 3 pledged ∷ entry 40 released ∷ []

abbrev returned : Deposit ℕ
returned = record posted {
  id = "u";
  deposit = record posted.deposit { lifecycle_state = released; history = until_released };
  trusteeship = some (record {
    account_type = "TREUHANDKONTO";
    trustee_entity = "";
    trust_account_iban = "";
    insolvency_protection_confirmed = false;
    insolvency_protection_confirmed_date = "";
    statutory_basis = "";
    interest_rate = 0;
    interest_rate_history = [];
    accrued_interest = 5000;
    interest_calculated_at = "";
    total_balance = 1505000;
  });
}

trail : Trail until_released released
trail =
    moved {es = until_pledged} (entry 40 released)
      (moved {es = until_identified} (entry 3 pledged)
        (moved {es = entry 1 requested ∷ []} (entry 2 identified)
          (opened (entry 1 requested) refl refl refl) (along (documented identify)) refl refl)
        (along (documented pledge_unfunded)) refl refl)
      (along (documented release)) refl refl

returned-IsLawful : IsLawful returned
returned-IsLawful = record { trail = trail; needs = tt }

-- A page whose height does not depend on what was drawn.
abbrev page : Fpdf ℕ
page = record {
  page_width = λ done. 210000;
  get_y = λ done. 0;
  output = λ done. good [];
  half = λ a. a / 2;
}

release_receipt-reads_example :
    (e : HistoryEntry) × (last_entry returned.deposit.history ≡ some e)
    × (e.state ≡ released)
    × (texts (release_receipt page returned (90 * day) (90 * day) []).1
        ≡ release_lines page returned (format_date (date_of e.timestamp)) (90 * day))
release_receipt-reads_example =
    release_receipt-reads page returned (90 * day) (90 * day) returned-IsLawful refl

-- A mailer that fails with what it was to send.
abbrev mailer : SmtpMailer
mailer = record { dial_and_send = λ m. bad (join m.attachment_name (join "\n" m.body)); from = "" }

mailed :
    send_receipt mailer returned []
    ≡ bad
        "receipt-u.pdf\nDear Erika Mustermann,\n\nPlease find attached the receipt for your rental deposit at ,  Berlin.\n\nDeposit amount:  1500000 EUR\nThis receipt confirms that your deposit has been received and secured by your bank.\nOnce EUDI Wallet support is widely available, you will also receive a Qualified Electronic Attestation of Attributes (QEAA) as a tamper-evident digital credential.\nBest regards,\nXMiete\n"
unfolding send_receipt decimal_text
mailed = refl

abbrev environment : Environment
environment key = if key == "DATABASE_URL" then "db" else if key == "SMTP_HOST" then "mail" else ""

no_secret : config environment ≡ bad "required env var JWT_SECRET is not set"
unfolding config
no_secret = refl

default_port :
    build_mailer environment (λ s. none)
    ≡ some (record {
      host = "mail";
      port = pos 587;
      username = "";
      password = "";
      from = "noreply@xmiete.org";
    })
unfolding build_mailer
default_port = refl
