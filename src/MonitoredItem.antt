-- ===== src/MonitoredItem.antt =====
-- A monitored item of the generic client: opcua_monitored_item_fb_impl.h and
-- opcua_monitored_item_fb_impl.cpp of shared/libraries/opcuageneric/opcuageneric_client.
-- The processing mutex makes each operation atomic. The item's errors are the entries of its status
-- container, each under its handle's name; the OPC UA client is an argument.
pub mod Values
pub mod State
pub mod Reports
pub mod Valid
pub mod Publishing
pub mod Configuration
pub mod Interval
pub mod Coherence
pub mod Changes
pub mod Samples
pub mod Time
mod Examples
use Prim.Native.String.{◌++◌ as str_append}
use opc_ua_modules.Base.{
  ℕ, suc, ◌%◌, ◌^◌, ◌-◌, Bool, true, false, not, ◌&&◌, ◌||◌, Option, none, some, List, [], ◌∷◌,
  String, HasEq, ◌==◌, string_eq, nat_beq, ltb, leb, if◌then◌else◌,
}
use opc_ua_modules.Base.Int.{ℤ, pos, negsuc}
use opc_ua_modules.Status.{Entry, set_entry, add_entry, reset_entry, clear_entry}
use Values.{
  Kind, SampleType, undefined_sample, int_64, date_time, DataValue, sample_type_of_kind,
  sample_type_of_node, data_type_of_kind, same_data_type, is_string, is_integer, is_real,
  is_date_time, read_scalar, since_epoch_us, to_unix_time_us,
}
use State.{
  DomainSource, no_timestamp, server_time, source_time, local_time, Descriptor, Content,
  text_content, scalar_content, Errors, Item, ReadReply, returned, opc_ua_exception,
  unknown_exception, std_exception, Client, map_errors, update_statuses, check_node,
}

abbrev pub reset_response : Errors → Errors
reset_response e = record e { response_validation = reset_entry e.response_validation }

abbrev pub set_response : String → Errors → Errors
set_response msg e = record e { response_validation = set_entry msg e.response_validation }

abbrev pub reset_value : Errors → Errors
reset_value e = record e { value_validation = reset_entry e.value_validation }

abbrev pub set_value : String → Errors → Errors
set_value msg e = record e { value_validation = set_entry msg e.value_validation }

abbrev pub reset_exception : Errors → Errors
reset_exception e = record e { exception = reset_entry e.exception }

abbrev pub set_exception : String → Errors → Errors
set_exception msg e = record e { exception = set_entry msg e.exception }

abbrev pub reset_node : Errors → Errors
reset_node e = record e { node_validation = reset_entry e.node_validation }

-- `hasServerTimestamp` and a timestamp other than 0.
abbrev pub is_stamped : Option ℤ → Bool
is_stamped none = false
is_stamped (some (pos n)) = not (nat_beq n 0)
is_stamped (some (negsuc n)) = true

abbrev pub is_status_good : Option ℕ → Bool
is_status_good none = true
is_status_good (some s) = nat_beq s 0

abbrev pub is_source : DomainSource → DomainSource → Bool
is_source server_time server_time = true
is_source source_time source_time = true
is_source s t = false

-- The message of the check that fails in `validateResponse`, in their order; none is a valid
-- response.
unfoldable pub response_error : (ℕ → String) → DomainSource → DataValue → Option String
response_error status_text source v =
    if not (is_status_good v.status)
    then some
        (elim v.status [ none ↦ "" | some s ↦ str_append "Reading value error: " (status_text s) ])
    else if not v.has_value
    then some "Reading value error: response without a value."
    else if v.is_empty
    then some "Reading value error: response with an empty value."
    else if is_source source server_time && not (is_stamped v.server_timestamp)
    then some "Reading value error: there is no required server timestamp"
    else if is_source source source_time && not (is_stamped v.source_timestamp)
    then some "Reading value error: there is no required source timestamp"
    else none

abbrev pub is_supported : Kind → Bool
is_supported k = elim (sample_type_of_kind k) [ none ↦ false | some t ↦ true ]

-- `adjustSignalDescriptor`
unfoldable pub descriptor_of : Errors → Option Kind → Descriptor
unfolding sample_type_of_node
descriptor_of e type =
    if e.node_validation.present
    then record { sample_type = undefined_sample; is_time = false }
    else (elim (sample_type_of_node type) [
      | none ↦ record { sample_type = undefined_sample; is_time = false }
      | some t ↦ record {
        sample_type = t;
        is_time = elim type [ some date_time ↦ true | _ ↦ false ];
      }
    ])

-- What `buildDataPacket` makes of a value: no packet, a packet, or an exception.
pub data Packet : Type 0 where
  unassigned : Packet
  thrown : String → Packet
  assigned : Content → Packet

unfoldable pub build_data_packet : DataValue → Packet
unfolding is_string is_integer is_real is_date_time read_scalar since_epoch_us
build_data_packet v =
    if is_string v
    then assigned (text_content v.text)
    else if is_integer v || is_real v || is_date_time v
    then (if is_date_time v
        then assigned (scalar_content v.kind (since_epoch_us v.raw))
        else (elim (read_scalar v) [
          | none ↦ thrown (
              if v.is_scalar
              then "Variant does not contain a scalar of specified return type"
              else "Variant is not a scalar")
          | some n ↦ assigned (scalar_content v.kind n)
        ]))
    else unassigned

-- `isNewDomainTimestamp`
unfoldable pub is_new_domain_timestamp : Option ℕ → ℕ → Bool
is_new_domain_timestamp none ts = true
is_new_domain_timestamp (some last) ts = not (nat_beq last ts)

-- A sample without a domain value is always published.
unfoldable pub is_due : Option ℕ → Option ℕ → Bool
unfolding is_new_domain_timestamp
is_due last none = true
is_due last (some ts) = is_new_domain_timestamp last ts

module _ {ℓ} {N : Type ℓ} where
  -- `resolveDomainTimestamp`; `now` is the system clock in microseconds.
  unfoldable pub resolve_domain_timestamp : ℕ → Item N → DataValue → Option ℕ
  unfolding to_unix_time_us
  resolve_domain_timestamp now i v =
      if not i.has_domain_signal then none else elim i.domain_source [
        | no_timestamp ↦ none
        | server_time ↦ elim v.server_timestamp [ none ↦ none | some t ↦ some (to_unix_time_us t) ]
        | source_time ↦ elim v.source_timestamp [ none ↦ none | some t ↦ some (to_unix_time_us t) ]
        | local_time ↦ some (now % 2 ^ 64)
      ]

  unfoldable pub publish_packet : (Kind → String) → Option ℕ → DataValue → Packet → Item N → Item N
  unfolding set_entry
  publish_packet kind_text ts v unassigned i = record i {
    errors =
        set_value
          (str_append (str_append "Failed to build a packet for value type (" (kind_text v.kind))
            ").")
          i.errors;
  }
  publish_packet kind_text ts v (thrown what) i = record i {
    errors = set_exception (str_append "Exception while reading: " what) i.errors;
  }
  publish_packet kind_text ts v (assigned content) i = record i {
    last_published = ts;
    sent = (ts, content) ∷ i.sent;
  }

  unfoldable pub publish : (Kind → String) → ℕ → DataValue → Item N → Item N
  unfolding resolve_domain_timestamp is_due publish_packet build_data_packet
  publish kind_text now v i =
      let ts = resolve_domain_timestamp now i v in
      if is_due i.last_published ts
      then publish_packet kind_text ts v (build_data_packet v) i
      else i

  -- `adjustSignalDescriptor`, and the descriptor of the signal set to the result.
  unfoldable pub set_descriptors : Item N → Item N
  unfolding descriptor_of
  set_descriptors i = record i {
    output_descriptor = descriptor_of i.errors i.node_data_type;
    signal_descriptor = descriptor_of i.errors i.node_data_type;
  }

  unfoldable pub validate_response : (ℕ → String) → DataValue → Item N → Item N × Bool
  unfolding response_error reset_entry set_entry
  validate_response status_text v i = elim (response_error status_text i.domain_source v) [
    | none ↦ (record i { errors = reset_response i.errors }, true)
    | some msg ↦ (record i { errors = set_response msg i.errors }, false)
  ]

  unfoldable pub validate_value_data_type : (Kind → String) → DataValue → Item N → Item N × Bool
  unfolding data_type_of_kind same_data_type set_descriptors sample_type_of_kind reset_entry
      set_entry
  validate_value_data_type kind_text v i =
      let type = data_type_of_kind v.kind in
      let j =
        if same_data_type type i.node_data_type
        then i
        else set_descriptors (record i { node_data_type = type }) in
      if is_supported v.kind then (record j { errors = reset_value j.errors }, true) else (
        record j {
          errors =
              set_value
                (str_append (str_append "Value has unsupported type (" (kind_text v.kind)) ").")
                j.errors;
        },
        false,
      )

  -- The value that was read, inside of `processSample`.
  unfoldable pub accept_value : Client N → ℕ → DataValue → Item N → Item N
  unfolding validate_response validate_value_data_type publish reset_entry
  accept_value c now v i =
      let r = validate_response c.status_text v (record i { errors = reset_exception i.errors }) in
      let t = validate_value_data_type c.kind_text v (r.0) in
      if r.1 then (if t.1 then publish c.kind_text now v (t.0) else t.0) else r.0

  unfoldable pub read_sample : Client N → ℕ → ReadReply → Item N → Item N
  unfolding accept_value set_entry
  read_sample c now (returned v) i = accept_value c now v i
  read_sample c now opc_ua_exception i = record i {
    errors = set_exception "Exception while reading." i.errors;
  }
  read_sample c now (std_exception what) i = record i {
    errors = set_exception (str_append "Exception while reading: " what) i.errors;
  }
  read_sample c now unknown_exception i = record i {
    errors = set_exception "Unknown exception while reading." i.errors;
  }

  pub process_sample : Client N → ℕ → Item N → Item N
  unfolding read_sample update_statuses
  process_sample c now i = update_statuses (
      if i.errors.config.present || i.errors.node_validation.present
      then i
      else read_sample c now (c.read_data_value i.node_id) i)

  unfoldable pub validate_node : Client N → Item N → Item N
  unfolding check_node reset_entry
  validate_node c i = record i { errors = check_node c i.node_id (reset_node i.errors) }

  pub on_connection_restored : Client N → Item N → Item N
  unfolding reset_entry validate_node set_descriptors update_statuses
  on_connection_restored c i =
      let e = reset_exception (reset_value (reset_response i.errors)) in
      update_statuses (set_descriptors (validate_node c (record i { errors = e })))
