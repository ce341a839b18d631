-- ===== src/MonitoredItem/State.antt =====
-- The state of a monitored item, its errors and the check of its node.
use Prim.Native.String.{◌++◌ as str_append}
use opc_ua_modules.Base.{ℕ, Bool, true, false, not, ◌||◌, Option, List, String, if◌then◌else◌}
use opc_ua_modules.Base.Int.{ℤ}
use opc_ua_modules.Status.{Entry, add_entry, read_updated}
use opc_ua_modules.MonitoredItem.Values.{Kind, SampleType, DataValue}

pub data DomainSource : Type 0 where
  no_timestamp server_time source_time local_time : DomainSource

-- A descriptor is known by its sample type and whether it declares time.
pub record Descriptor : Type 0 where
  pub sample_type : SampleType
  pub is_time : Bool

pub data Content : Type 0 where
  text_content : String → Content
  scalar_content : Kind → ℤ → Content

pub data ComponentStatus : Type 0 where
  component_ok : ComponentStatus
  component_error : String → ComponentStatus

pub record Errors : Type 0 where
  pub config : Entry
  pub node_validation : Entry
  pub response_validation : Entry
  pub value_validation : Entry
  pub exception : Entry

-- `sent` is the packets of the output signal with their domain values, the last one first.
pub record Item {ℓ} (N : Type ℓ) : Type ℓ where
  pub errors : Errors
  pub node_id : N
  pub domain_source : DomainSource
  pub sampling_interval_ms : ℕ
  pub node_data_type : Option Kind
  pub output_descriptor : Descriptor
  pub signal_descriptor : Descriptor
  pub has_domain_signal : Bool
  pub last_published : Option ℕ
  pub component_status : ComponentStatus
  pub sent : List (Option ℕ × Content)

-- How a request of the client ends: `denied` and `failed` are an `OpcUaException`, with the status
-- for denied access and with another one.
pub data Reply {ℓ} (A : Type ℓ) : Type ℓ where
  replied : A → Reply A
  denied failed : Reply A

pub data ReadReply : Type 0 where
  returned : DataValue → ReadReply
  opc_ua_exception unknown_exception : ReadReply
  std_exception : String → ReadReply

-- The client, and the texts that the messages have of ids and numbers.
pub record Client {ℓ} (N : Type ℓ) : Type ℓ where
  pub node_exists : N → Reply Bool
  pub is_variable : N → Reply Bool
  pub is_readable : N → Reply Bool
  pub read_data_value : N → ReadReply
  pub node_text : N → String
  pub status_text : ℕ → String
  pub kind_text : Kind → String

abbrev pub around : String → String → String → String
around a b c = str_append (str_append a b) c

abbrev error_message : String → Entry → ComponentStatus
error_message name e = component_error (str_append (str_append name " error: ") e.message)

-- The status that `updateStatuses` picks.
unfoldable pub reported : Errors → ComponentStatus
reported e =
    if e.config.present
    then error_message "Config" e.config
    else if e.node_validation.present
    then error_message "Node validation" e.node_validation
    else if e.response_validation.present
    then error_message "Response validation" e.response_validation
    else if e.value_validation.present
    then error_message "Value validation" e.value_validation
    else if e.exception.present
    then error_message "Exception" e.exception
    else component_ok

unfoldable pub is_any_updated : Errors → Bool
is_any_updated e =
    e.config.updated || e.node_validation.updated || e.value_validation.updated
    || e.response_validation.updated || e.exception.updated

unfoldable pub map_errors : (Entry → Entry) → Errors → Errors
map_errors f e = record {
  config = f e.config;
  node_validation = f e.node_validation;
  response_validation = f e.response_validation;
  value_validation = f e.value_validation;
  exception = f e.exception;
}

unfoldable pub add_node_error : String → Errors → Errors
unfolding add_entry
add_node_error msg e = record e { node_validation = add_entry msg e.node_validation }

module _ {ℓ} {N : Type ℓ} where
  -- `isUpdated` reads every flag and clears it.
  unfoldable pub update_statuses : Item N → Item N
  unfolding is_any_updated map_errors read_updated reported
  update_statuses i = if not (is_any_updated i.errors) then i else record i {
    errors = map_errors read_updated i.errors;
    component_status = reported i.errors;
  }

  -- One request of `validateNode`; `next` is what the rest makes of the errors.
  unfoldable pub check_reply : Client N → N → Reply Bool → String → Errors → Errors → Errors
  unfolding add_node_error
  check_reply c id denied refusal e next =
      add_node_error (str_append "Access denied for node " (c.node_text id)) e
  check_reply c id failed refusal e next =
      add_node_error (around "Exception was thrown while node " (c.node_text id) " validatiion") e
  check_reply c id (replied false) refusal e next = add_node_error refusal e
  check_reply c id (replied true) refusal e next = next

  -- The checks of `validateNode`, after the reset of its error.
  unfoldable pub check_node : Client N → N → Errors → Errors
  unfolding check_reply
  check_node c id e =
      let name = c.node_text id in
      check_reply c id (c.node_exists id) (around "Node " name " does not exist") e (
        check_reply c id (c.is_variable id) (around "Node " name " is not a variable node") e (
          check_reply c id (c.is_readable id)
            (str_append "There is no read permission to node " name) e e))
