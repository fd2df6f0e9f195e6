-- ===== src/Types.antt =====
-- The requests of src/types.rs, and the circuit of src/generator/mod.rs.
pub mod Codes
use tee_prover_server.Prelude.{ℕ, suc, ◌^◌, ◌-◌, Bool, Text, codes, Option, none, some, ltb, ◌==◌}
use tee_prover_server.Prelude.{if◌then◌else◌}

-- An `i32`; `negsuc n` is -(n + 1).
pub data ℤ : Type 0 where
  pos : ℕ → ℤ
  negsuc : ℕ → ℤ

-- `v as i32` for a `u32`: the upper half wraps to the negative numbers.
unfoldable pub as_i32 : ℕ → ℤ
as_i32 v = if ltb v (2 ^ 31) then pos v else negsuc (2 ^ 32 - v - 1)

pub record Circuit : Type 0 where
  pub name : Text
  pub inputs : Text

pub data EndpointType : Type 0 where
  celo https staging_celo staging_https test_celo test_https : EndpointType

-- The fields of the optional endpoint are in the source's order: circuit, endpoint type, endpoint;
-- a disclosure goes on with the user's data, the own data and the version (a `u32`).
pub data ProofRequest : Type 0 where
  register : Circuit → Option EndpointType → Option Text → ProofRequest
  dsc : Circuit → Option EndpointType → Option Text → ProofRequest
  disclose : Circuit → EndpointType → Text → Text → Text → ℕ → ProofRequest
  register_id : Circuit → Option EndpointType → Option Text → ProofRequest
  dsc_id : Circuit → Option EndpointType → Option Text → ProofRequest
  disclose_id : Circuit → EndpointType → Text → Text → Text → ℕ → ProofRequest
  register_aadhaar : Circuit → Option EndpointType → Option Text → ProofRequest
  disclose_aadhaar : Circuit → EndpointType → Text → Text → Text → ℕ → ProofRequest
  register_kyc : Circuit → Option EndpointType → Option Text → ProofRequest
  disclose_kyc : Circuit → EndpointType → Text → Text → Text → ℕ → ProofRequest

pub record SubmitRequest : Type 0 where
  pub onchain : Bool
  pub proof_request_type : ProofRequest

-- `ProofRequest::circuit`
unfoldable pub circuit : ProofRequest → Circuit
circuit (register c _ _) = c
circuit (dsc c _ _) = c
circuit (disclose c _ _ _ _ _) = c
circuit (register_id c _ _) = c
circuit (dsc_id c _ _) = c
circuit (disclose_id c _ _ _ _ _) = c
circuit (register_aadhaar c _ _) = c
circuit (disclose_aadhaar c _ _ _ _ _) = c
circuit (register_kyc c _ _) = c
circuit (disclose_kyc c _ _ _ _ _) = c

pub data ProofType : Type 0 where
  register dsc disclose register_id dsc_id disclose_id : ProofType
  register_aadhaar disclose_aadhaar register_kyc disclose_kyc : ProofType

-- `Into<ProofType> for &ProofRequest`
unfoldable pub proof_type : ProofRequest → ProofType
proof_type (ProofRequest.register _ _ _) = ProofType.register
proof_type (ProofRequest.dsc _ _ _) = ProofType.dsc
proof_type (ProofRequest.disclose _ _ _ _ _ _) = ProofType.disclose
proof_type (ProofRequest.register_id _ _ _) = ProofType.register_id
proof_type (ProofRequest.dsc_id _ _ _) = ProofType.dsc_id
proof_type (ProofRequest.disclose_id _ _ _ _ _ _) = ProofType.disclose_id
proof_type (ProofRequest.register_aadhaar _ _ _) = ProofType.register_aadhaar
proof_type (ProofRequest.disclose_aadhaar _ _ _ _ _ _) = ProofType.disclose_aadhaar
proof_type (ProofRequest.register_kyc _ _ _) = ProofType.register_kyc
proof_type (ProofRequest.disclose_kyc _ _ _ _ _ _) = ProofType.disclose_kyc

-- `Display for ProofType`
unfoldable pub display : ProofType → Text
display ProofType.register = codes "register"
display ProofType.dsc = codes "dsc"
display ProofType.disclose = codes "disclose"
display ProofType.register_id = codes "register_id"
display ProofType.dsc_id = codes "dsc_id"
display ProofType.disclose_id = codes "disclose_id"
display ProofType.register_aadhaar = codes "register_aadhaar"
display ProofType.disclose_aadhaar = codes "disclose_aadhaar"
display ProofType.register_kyc = codes "register_kyc"
display ProofType.disclose_kyc = codes "disclose_kyc"

-- `Into<i32> for &ProofType`
unfoldable pub to_i32 : ProofType → ℤ
to_i32 ProofType.register = pos 0
to_i32 ProofType.dsc = pos 1
to_i32 ProofType.disclose = pos 2
to_i32 ProofType.register_id = pos 3
to_i32 ProofType.dsc_id = pos 4
to_i32 ProofType.disclose_id = pos 5
to_i32 ProofType.register_aadhaar = pos 6
to_i32 ProofType.disclose_aadhaar = pos 7
to_i32 ProofType.register_kyc = pos 8
to_i32 ProofType.disclose_kyc = pos 9

-- `TryFrom<i32> for ProofType`; `none` is `Err(())`.
unfoldable pub try_from : ℤ → Option ProofType
try_from (negsuc _) = none
try_from (pos n) =
    if n == 0
    then some ProofType.register
    else if n == 1
    then some ProofType.dsc
    else if n == 2
    then some ProofType.disclose
    else if n == 3
    then some ProofType.register_id
    else if n == 4
    then some ProofType.dsc_id
    else if n == 5
    then some ProofType.disclose_id
    else if n == 6
    then some ProofType.register_aadhaar
    else if n == 7
    then some ProofType.disclose_aadhaar
    else if n == 8
    then some ProofType.register_kyc
    else if n == 9
    then some ProofType.disclose_kyc
    else none

-- `Into<i32> for ProofRequest`
unfoldable pub request_to_i32 : ProofRequest → ℤ
unfolding proof_type to_i32
request_to_i32 r = to_i32 (proof_type r)
