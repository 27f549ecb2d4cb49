-- ===== src/Models/Transport.antt =====
-- How messages are exchanged with the bank: REST, or EBICS with its connection parameters.
use xmiete.Prelude.{String, Option}

abbrev pub TransportProtocol : Type 0
TransportProtocol = String

abbrev pub transport_rest : TransportProtocol
transport_rest = "REST"

abbrev pub transport_ebics : TransportProtocol
transport_ebics = "EBICS"

abbrev pub EbicsVersion : Type 0
EbicsVersion = String

abbrev pub ebics_24 : EbicsVersion
ebics_24 = "2.4"

abbrev pub ebics_25 : EbicsVersion
ebics_25 = "2.5"

abbrev pub ebics_30 : EbicsVersion
ebics_30 = "3.0"

abbrev pub EbicsSignatureClass : Type 0
EbicsSignatureClass = String

abbrev pub ebics_signature_t : EbicsSignatureClass
ebics_signature_t = "T"

abbrev pub ebics_signature_e : EbicsSignatureClass
ebics_signature_e = "E"

abbrev pub ebics_signature_a : EbicsSignatureClass
ebics_signature_a = "A"

pub record EbicsBtf : Type 0 where
  pub service_name : String
  pub service_option : String
  pub scope : String
  pub container : String
  pub msg_name : String
  pub msg_version : String

pub record EbicsMetadata : Type 0 where
  pub host_id : String
  pub partner_id : String
  pub user_id : String
  pub ebics_version : EbicsVersion
  pub bank_url : String
  pub order_type : String
  pub btf : Option EbicsBtf
  pub signature_class : EbicsSignatureClass
  pub bank_bic : String

pub record Transport : Type 0 where
  pub protocol : TransportProtocol
  pub ebics_metadata : Option EbicsMetadata
