-- ===== src/Client/Requests.antt =====
-- The requests of `OpcUaClient` that wrap a call of the stack, and what they make of its answer.
pub mod Methods
use opc_ua_modules.Base.{
  ℕ, zero, suc, Bool, true, false, Option, none, some, String, ◌==◌, string_eq, List, [], ◌∷◌,
  nat_beq, map, ltb, if◌then◌else◌,
}
use opc_ua_modules.Client.Stack.{has_succeeded}
use opc_ua_modules.ClientModule.LocalId.{ApplicationDescription}

-- A value, an `OpcUaException` with its status, or a read beyond the end of an array.
pub data Answer {ℓ} (A : Type ℓ) : Type ℓ where
  answered : A → Answer A
  refused : ℕ → Answer A
  beyond_end : Answer A

pub record ReadResponse (V : Type 0) : Type 0 where
  pub service_result : ℕ
  pub results : List V

abbrev pub bad_node_id_unknown : ℕ
bad_node_id_unknown = 0x80340000

abbrev pub bad_invalid_state : ℕ
bad_invalid_state = 0x80AF0000

-- `CheckStatusCodeException` on what the stack answers, and then the value: `readValue`,
-- `readNodeClass`, `readAccessLevel`, `readDataType`, and the writes, where the value is nothing.
unfoldable pub check_status_code {ℓ} : {A : Type ℓ} → ℕ × A → Answer A
check_status_code (status, a) = if nat_beq status 0 then answered a else refused status

unfoldable pub node_exists : {A : Type 0} → ℕ × A → Answer Bool
node_exists (status, node_class) =
    if nat_beq status bad_node_id_unknown
    then answered false
    else if nat_beq status 0
    then answered true
    else refused status

-- With the length of the variant's array.
unfoldable pub read_dimension : ℕ × ℕ → Answer ℕ
unfolding check_status_code
read_dimension (status, array_length) =
    check_status_code (status, if ltb 0 array_length then array_length else 1)

unfoldable pub read_data_value : {V : Type 0} → ReadResponse V → Answer V
read_data_value {V} r =
    if nat_beq r.service_result 0
    then elim r.results [
      | [] ↦ refused bad_invalid_state
      | v ∷ vs ↦ elim vs [ [] ↦ answered v | w ∷ ws ↦ refused bad_invalid_state ]
    ]
    else refused r.service_result

-- `callMethod`: the number of results is not tested.
unfoldable pub call_method : {V : Type 0} → ReadResponse V → Answer V
call_method r =
    if nat_beq r.service_result 0
    then elim r.results [ [] ↦ beyond_end | v ∷ vs ↦ answered v ]
    else refused r.service_result

-- The loop at the end of `callMethods`, over the requests with their process functions: the calls of
-- the functions, and whether the results were enough.
unfoldable pub process_results : {Q H V : Type 0} → List (Q × H) → List V → List (H × V) × Bool
process_results [] vs = ([], true)
process_results (p ∷ ps) [] = ([], false)
process_results (p ∷ ps) (v ∷ vs) =
    let (calls, enough) = process_results ps vs in ((p.1, v) ∷ calls, enough)

-- `callMethods`, where `call` is the stack's service: the calls of the process functions that were
-- made, and how it ended.
unfoldable pub call_methods :
    {Q H V : Type 0} → (List Q → ReadResponse V) → List (Q × H) → List (H × V) × Answer (Unit {0})
unfolding process_results
call_methods call [] = ([], answered tt)
call_methods {Q} {H} call (x ∷ xs) =
    let response = call (map (λ (p : Q × H). p.0) (x ∷ xs)) in
    if nat_beq response.service_result 0
    then (let (calls, enough) = process_results (x ∷ xs) response.results in
        (calls, if enough then answered tt else beyond_end))
    else ([], refused response.service_result)

-- One of the descriptions that a server gives of its endpoints.
pub record EndpointDescription : Type 0 where
  pub endpoint_url : String
  pub server : ApplicationDescription

-- The loop of `readApplicationDescription`: an endpoint with the URL takes the place of one before.
unfoldable pub describe_from :
    String → List EndpointDescription → ApplicationDescription → ApplicationDescription
describe_from url [] desc = desc
describe_from url (e ∷ es) desc =
    describe_from url es (if url == e.endpoint_url then e.server else desc)

unfoldable pub read_application_description :
    String → ℕ × List EndpointDescription → ApplicationDescription → ApplicationDescription
unfolding describe_from
read_application_description url (status, endpoints) empty =
    if has_succeeded status then describe_from url endpoints empty else empty
