-- ===== src/Server/Submit/Endpoint.antt =====
-- What `submit_request` of src/server.rs reads from each kind of request for its record.
use tee_prover_server.Prelude.{ℕ, Text, codes, Option, some}
use tee_prover_server.Types.{ℤ, pos, EndpointType, ProofRequest, as_i32}

-- `(endpoint_type, endpoint, user_defined_data, self_defined_data, version)`
pub record Endpoint : Type 0 where
  pub endpoint_type : Option EndpointType
  pub endpoint : Option Text
  pub user_defined_data : Text
  pub self_defined_data : Text
  pub version : ℤ

abbrev plain_endpoint : Option EndpointType → Option Text → Endpoint
plain_endpoint t e = record {
  endpoint_type = t;
  endpoint = e;
  user_defined_data = codes "";
  self_defined_data = codes "";
  version = pos 1;
}

abbrev disclosed_endpoint : EndpointType → Text → Text → Text → ℕ → Endpoint
disclosed_endpoint t e user own v = record {
  endpoint_type = some t;
  endpoint = some e;
  user_defined_data = user;
  self_defined_data = own;
  version = as_i32 v;
}

unfoldable pub endpoint_of : ProofRequest → Endpoint
endpoint_of (ProofRequest.register _ t e) = plain_endpoint t e
endpoint_of (ProofRequest.dsc _ t e) = plain_endpoint t e
endpoint_of (ProofRequest.disclose _ t e user own v) = disclosed_endpoint t e user own v
endpoint_of (ProofRequest.register_id _ t e) = plain_endpoint t e
endpoint_of (ProofRequest.dsc_id _ t e) = plain_endpoint t e
endpoint_of (ProofRequest.disclose_id _ t e user own v) = disclosed_endpoint t e user own v
endpoint_of (ProofRequest.register_aadhaar _ t e) = plain_endpoint t e
endpoint_of (ProofRequest.disclose_aadhaar _ t e user own v) = disclosed_endpoint t e user own v
endpoint_of (ProofRequest.register_kyc _ t e) = plain_endpoint t e
endpoint_of (ProofRequest.disclose_kyc _ t e user own v) = disclosed_endpoint t e user own v
