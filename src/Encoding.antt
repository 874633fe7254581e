-- ===== src/Encoding.antt =====
-- tools/pkg/fccutils/encoding.go: the hashes that it names, and its calls of the encoder, which is a
-- library. Bytes are a text, and a value of a body is a number.
use quietfill.Prelude.{ℕ, String}
use quietfill.World.{Reply, ok, fail as error}

abbrev pub platform_intel : ℕ
platform_intel = 0x4743505f494e54454c5f54445800000000000000000000000000000000000000

abbrev pub platform_amd : ℕ
platform_amd = 0x4743505f414d445f534556000000000000000000000000000000000000000000

abbrev pub platform_amdesev : ℕ
platform_amdesev = 0x4743505f414d445f5345565f4553000000000000000000000000000000000000

abbrev pub test_platform : ℕ
test_platform = 0x544553545f504c4154464f524d00000000000000000000000000000000000000

abbrev pub tee_code_hash : ℕ
tee_code_hash = 0x194844cf417dde867073e5ab7199fa4d21fd82b5dbe2bdea8b3d7fc18d10fdc2

-- The fields of `fdc2.AttestationTypeArguments[fdc2.AvailabilityCheck]`.
pub data CheckArgument : Type 0 where
  request : CheckArgument
  response : CheckArgument

-- The package `structs`, at those two arguments.
pub record Structs : Type 0 where
  pub encode : CheckArgument → ℕ → Reply String
  pub decode_to : CheckArgument → String → Reply ℕ

module _ (l : Structs) where
  -- `EncodeFTDCTeeAvailabilityCheckRequest`.
  unfoldable pub encode_ftdc_tee_availability_check_request : ℕ → Reply String
  encode_ftdc_tee_availability_check_request body = l.encode request body

  -- `DecodeFTDCTeeAvailabilityCheckRequest`.
  unfoldable pub decode_ftdc_tee_availability_check_request : String → Reply ℕ
  decode_ftdc_tee_availability_check_request bytes = elim (l.decode_to request bytes) [
    | ok body ↦ ok body
    | error e ↦ error e
  ]

  -- `EncodeFTDCTeeAvailabilityCheckResponse`.
  unfoldable pub encode_ftdc_tee_availability_check_response : ℕ → Reply String
  encode_ftdc_tee_availability_check_response body = l.encode response body

  -- `DecodeFTDCTeeAvailabilityCheckResponse`.
  unfoldable pub decode_ftdc_tee_availability_check_response : String → Reply ℕ
  decode_ftdc_tee_availability_check_response bytes = elim (l.decode_to response bytes) [
    | ok body ↦ ok body
    | error e ↦ error e
  ]
