-- ===== src/MonitoredItem/Configuration.antt =====
-- The properties of a monitored item: `readProperties`, `reconfigureSignal` and `propertyChanged`.
use opc_ua_modules.Base.{
  ℕ, suc, ◌%◌, ◌^◌, ◌-◌, Bool, true, false, ◌||◌, none, String, ◌==◌, string_eq, nat_beq, ltb, leb,
  if◌then◌else◌,
}
use opc_ua_modules.Base.Int.{ℤ, pos, negsuc}
use opc_ua_modules.Status.{add_entry, reset_entry, clear_entry}
use opc_ua_modules.MonitoredItem.State.{
  DomainSource, no_timestamp, server_time, source_time, local_time, Errors, Item, Client,
  map_errors, update_statuses,
}
use opc_ua_modules.MonitoredItem.{descriptor_of, validate_node}

-- The values of the properties, and the ids that the two constructors of a node id make.
pub record Properties {ℓ} (N : Type ℓ) : Type ℓ where
  pub node_id_type : ℤ
  pub namespace_index : ℤ
  pub node_id_string : String
  pub node_id_numeric : ℤ
  pub timestamp_mode : ℤ
  pub sampling_interval : ℤ
  pub string_node_id : ℕ → String → N
  pub numeric_node_id : ℕ → ℕ → N

-- A conversion to an unsigned integer of `w` bits.
unfoldable pub as_unsigned : ℕ → ℤ → ℕ
as_unsigned w (pos n) = n % 2 ^ w
as_unsigned w (negsuc n) = (2 ^ w - suc (n % 2 ^ w)) % 2 ^ w

abbrev pub is_pos : ℕ → ℤ → Bool
is_pos k (pos n) = nat_beq n k
is_pos k (negsuc n) = false

unfoldable pub domain_source_of : ℤ → DomainSource
domain_source_of z =
    if is_pos 0 z
    then no_timestamp
    else if is_pos 1 z
    then server_time
    else if is_pos 2 z
    then source_time
    else if is_pos 3 z
    then local_time
    else server_time

abbrev pub default_sampling_interval : ℕ
default_sampling_interval = 100

-- The interval, and whether it is valid.
unfoldable pub sampling_interval_of : ℤ → ℕ × Bool
sampling_interval_of (negsuc n) = (default_sampling_interval, false)
sampling_interval_of (pos n) =
    if leb n 0 || ltb (2 ^ 32 - 1) n then (default_sampling_interval, false) else (n, true)

abbrev pub add_config : String → Errors → Errors
add_config msg e = record e { config = add_entry msg e.config }

abbrev pub interval_message : String
interval_message =
    "Invalid value for the \"SamplingInterval\" property! Sampling interval must be a positive integer."

module _ {ℓ} {N : Type ℓ} where
  -- The node id of the configuration.
  unfoldable pub read_node_id : Properties N → Item N → Item N
  unfolding as_unsigned add_entry
  read_node_id p i =
      let ns = as_unsigned 16 p.namespace_index in
      if is_pos 0 p.node_id_type
      then record i { node_id = p.numeric_node_id ns (as_unsigned 32 p.node_id_numeric) }
      else if p.node_id_string == ""
      then record i { errors = add_config "\"NodeIDString\" property is empty!" i.errors }
      else record i { node_id = p.string_node_id ns p.node_id_string }

  unfoldable pub read_interval : Properties N → Item N → Item N
  unfolding sampling_interval_of add_entry
  read_interval p i =
      let t = sampling_interval_of p.sampling_interval in
      record i {
        sampling_interval_ms = t.0;
        errors = if t.1 then i.errors else add_config interval_message i.errors;
      }

  unfoldable pub read_properties : Properties N → Item N → Item N
  unfolding reset_entry read_node_id domain_source_of read_interval update_statuses
  read_properties p i =
      let e = record i.errors { config = reset_entry i.errors.config } in
      let j = read_node_id p (record i { errors = e }) in
      update_statuses
        (read_interval p (record j { domain_source = domain_source_of p.timestamp_mode }))

  -- Removing the domain signal, or creating it, and the descriptor of the output signal.
  unfoldable pub reconfigure_signal : Item N → Item N
  reconfigure_signal i =
      let j = record i { signal_descriptor = i.output_descriptor } in
      elim i.domain_source [
        | no_timestamp ↦ record j { has_domain_signal = false }
        | _ ↦
            if i.has_domain_signal
            then j
            else record j { has_domain_signal = true; last_published = none }
      ]

  unfoldable pub property_changed : Client N → Properties N → Item N → Item N
  unfolding map_errors clear_entry read_properties validate_node descriptor_of reconfigure_signal
      update_statuses
  property_changed c p i =
      let j =
        validate_node c
          (read_properties p (record i { errors = map_errors clear_entry i.errors })) in
      let k = record j { output_descriptor = descriptor_of j.errors j.node_data_type } in
      update_statuses (reconfigure_signal k)
