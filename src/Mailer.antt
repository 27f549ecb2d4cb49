-- ===== src/Mailer.antt =====
-- Mail to the tenant: server/internal/mailer/mailer.go and smtp.go. gomail's DialAndSend is a
-- parameter, and so is fmt's `%.2f` (see Amount.antt).
use Prim.Native.String.{◌++◌}
use xmiete.Prelude.{String, Option, none, some, List, [], ◌∷◌}
use xmiete.Prelude.Results.{Result, good}
use xmiete.Amount.{Amount}
use xmiete.Crypto.{Bytes}
use xmiete.Models.{Pledge, WalletMetadata, Deposit}

-- A message with one attachment.
pub record Message : Type 0 where
  pub headers : List (String × String)
  pub body : String
  pub attachment_name : String
  pub attachment : Bytes

pub record SmtpMailer : Type 0 where
  pub dial_and_send : Message → Result (Unit {0})
  pub from : String

-- The interface `Mailer`.
pub record Mailer (A : Type 0) : Type 0 where
  pub send_receipt : Deposit A → Bytes → Result (Unit {0})
  pub send_release_receipt : Deposit A → Bytes → Result (Unit {0})

abbrev pub no_op : {A : Type 0} → Mailer A
no_op = record { send_receipt = λ d pdf. good tt; send_release_receipt = λ d pdf. good tt }

-- `-` in an action of text/template trims the space on its side, newlines too.
abbrev pub pledge_lines : Option Pledge → String
pledge_lines none = ""
pledge_lines (some p) =
    "Pledge date:     " ++ (p.pledge_date ++ ("\nStatutory basis: " ++ (p.statutory_basis ++ "\n")))

abbrev pub wallet_line : Option WalletMetadata → String
wallet_line none =
    "Once EUDI Wallet support is widely available, you will also receive a Qualified Electronic "
    ++ ("Attestation of Attributes (QEAA) as a tamper-evident digital credential.\n")
wallet_line (some _) =
    "Your EUDI Wallet has also received a Qualified Electronic Attestation of Attributes (QEAA) for "
    ++ "this deposit.\n"

abbrev pub pledged_line : Option Pledge → String
pledged_line none = ""
pledged_line (some p) = "Originally pledged: " ++ (p.pledge_date ++ "\n")

module _ {A : Type 0} ⦃F : Amount A⦄ where
  open F use {format_2f}

  abbrev pub salutation : Deposit A → String
  salutation d = "Dear " ++ (d.tenant.first_name ++ (" " ++ (d.tenant.last_name ++ ",\n\n")))

  abbrev pub place : Deposit A → String
  place d =
      d.property.address.street
      ++ (", " ++ (d.property.address.zip ++ (" " ++ d.property.address.city)))

  abbrev pub amount_line : Deposit A → String
  amount_line d =
      "Deposit amount:  " ++ (format_2f d.deposit.amount ++ (" " ++ (d.deposit.currency ++ "\n")))

  unfoldable pub render_body : Deposit A → String
  render_body d =
      salutation d
      ++ ("Please find attached the receipt for your rental deposit at "
          ++ (place d
              ++ (".\n\n"
                  ++ (amount_line d
                      ++ (pledge_lines d.pledge
                          ++ ("This receipt confirms that your deposit has been received and secured by your bank.\n"
                              ++ (wallet_line d.tenant.wallet_metadata
                                  ++ "Best regards,\nXMiete\n")))))))

  unfoldable pub render_release_body : Deposit A → String
  render_release_body d =
      salutation d
      ++ ("Your rental deposit for "
          ++ (place d
              ++ (" has been released by your landlord.\n\n"
                  ++ (amount_line d
                      ++ (pledged_line d.pledge
                          ++ "Please find the release confirmation attached. The funds will be returned to you according to your bank's processing times.\n\nBest regards,\nXMiete\n")))))

  abbrev pub subject : String → Deposit A → String
  subject what d =
      what ++ (" — " ++ (d.property.address.street ++ (" " ++ d.property.address.city)))

  module _ (m : SmtpMailer) where
    open m use {dial_and_send, from}

    abbrev pub message : String → String → String → Deposit A → Bytes → Message
    message what body prefix d pdf = record {
      headers = ("From", from) ∷ ("To", d.tenant.email) ∷ ("Subject", subject what d) ∷ [];
      body = body;
      attachment_name = prefix ++ (d.id ++ ".pdf");
      attachment = pdf;
    }

    unfoldable pub send_receipt : Deposit A → Bytes → Result (Unit {0})
    unfolding render_body
    send_receipt d pdf =
        dial_and_send (message "Your rental deposit receipt" (render_body d) "receipt-" d pdf)

    unfoldable pub send_release_receipt : Deposit A → Bytes → Result (Unit {0})
    unfolding render_release_body
    send_release_receipt d pdf = dial_and_send (
        message "Your rental deposit has been released" (render_release_body d) "release-receipt-" d
          pdf)

    unfoldable pub smtp_mailer : Mailer A
    unfolding send_receipt send_release_receipt
    smtp_mailer = record {
      send_receipt = send_receipt;
      send_release_receipt = send_release_receipt;
    }
