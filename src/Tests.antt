-- ===== src/Tests.antt =====
-- Runs of the model on concrete inputs, which show that the hypotheses of the theorems can hold.
mod Data
mod Interleaving
mod Lifecycle
mod Repository
mod Issuance
mod Validator
mod Calendar
mod StateMachine
mod Amounts
mod Presentations
mod Refusals
mod Same
mod Crypto
mod Signatures
mod Wallet
mod StatusList
mod Issuing
mod Memory
mod Auth
mod Wire
mod SdkWallet
mod SdkBank
mod Receipts
