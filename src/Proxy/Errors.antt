-- ===== src/Proxy/Errors.antt =====
-- `ProxyError` of src/proxy/error.rs: the status and the code of each. The source of an error is
-- left out, but for that of the policy.
use npmfilter.Prelude.{ℕ, String}
use npmfilter.Policy.Types.{PolicyError}

pub data ProxyError : Type 0 where
  client : (base : String) → ProxyError
  upstream : (url : String) → ProxyError
  bad_packument : (package_name : String) → ProxyError
  packument_too_large packument_too_many_versions : (package_name : String) (limit : ℕ) → ProxyError
  unavailable : (detail : String) → ProxyError
  policy : (error : PolicyError) → ProxyError
  store_unavailable : (detail : String) → ProxyError
  joining serialize request_body response : ProxyError

-- The numbers of the statuses.
unfoldable pub status : ProxyError → ℕ
status (client _) = 502
status (upstream _) = 502
status (bad_packument _) = 502
status (packument_too_large _ _) = 502
status (packument_too_many_versions _ _) = 502
status (store_unavailable _) = 502
status (policy _) = 502
status (unavailable _) = 503
status request_body = 413
status joining = 500
status serialize = 500
status response = 500

unfoldable pub code : ProxyError → String
code (client _) = "upstream_client"
code (upstream _) = "upstream_unavailable"
code (bad_packument _) = "bad_packument"
code (packument_too_large _ _) = "packument_too_large"
code (packument_too_many_versions _ _) = "packument_too_many_versions"
code (unavailable _) = "unavailable"
code (store_unavailable _) = "store_unavailable"
code (policy _) = "malformed_packument"
code joining = "policy_task_failed"
code serialize = "serialization_failed"
code request_body = "request_body"
code response = "response_build"
