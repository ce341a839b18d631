-- ===== src/MonitoredItem/Examples.antt =====
-- A monitored item on concrete inputs: a node whose value is an int32 with a source timestamp.
use opc_ua_modules.Base.{ℕ, ◌≡◌, refl, true, false, none, some, [], ◌∷◌}
use opc_ua_modules.Base.Int.{pos}
use opc_ua_modules.Status.{Entry}
use opc_ua_modules.MonitoredItem.Values.{DataValue, int32, int_32}
use opc_ua_modules.MonitoredItem.State.{
  Client, Item, replied, returned, source_time, component_ok, scalar_content, reported,
  is_any_updated,
}
use opc_ua_modules.MonitoredItem.{process_sample, on_connection_restored}
use opc_ua_modules.MonitoredItem.Coherence.{IsSettled, operations-IsSettled}
use opc_ua_modules.MonitoredItem.Publishing.{IsFresh, last_of}
use opc_ua_modules.MonitoredItem.Samples.{samples, reconnects, run, IsLinked, run-IsFresh}
use opc_ua_modules.MonitoredItem.Configuration.{Properties}

abbrev value : DataValue
value = record {
  status = none;
  has_value = true;
  is_empty = false;
  is_scalar = true;
  is_own_type = true;
  is_namespace_zero = true;
  kind = int32;
  raw = pos 42;
  text = "";
  server_timestamp = none;
  source_timestamp = some (pos 116444736000000050);
}

abbrev client : Client ℕ
client = record {
  node_exists = λ id. replied true;
  is_variable = λ id. replied true;
  is_readable = λ id. replied true;
  read_data_value = λ id. returned value;
  node_text = λ id. "node";
  status_text = λ s. "status";
  kind_text = λ k. "kind";
}

abbrev quiet : Entry
quiet = record { message = ""; present = false; updated = false }

abbrev item : Item ℕ
item = record {
  errors = record {
    config = quiet;
    node_validation = quiet;
    response_validation = quiet;
    value_validation = quiet;
    exception = quiet;
  };
  node_id = 3;
  domain_source = source_time;
  sampling_interval_ms = 100;
  node_data_type = some int32;
  output_descriptor = record { sample_type = int_32; is_time = false };
  signal_descriptor = record { sample_type = int_32; is_time = false };
  has_domain_signal = true;
  last_published = none;
  component_status = component_ok;
  sent = [];
}

item-IsSettled : IsSettled item
unfolding is_any_updated reported
item-IsSettled = (refl, refl)

item-IsLinked : IsLinked item
unfolding last_of IsFresh
item-IsLinked = (refl, tt)

operations-IsSettled_example :
    IsSettled (process_sample client 8 item) × IsSettled (on_connection_restored client item)
operations-IsSettled_example = operations-IsSettled client 8 item item-IsSettled

process_sample-item :
    (process_sample client 8 item).sent ≡ (some 5, scalar_content int32 (pos 42)) ∷ []
unfolding process_sample
process_sample-item = refl

run-IsFresh_example :
    IsFresh
      (run
        (samples client 8 ∷ samples client 9 ∷ reconnects client ∷ samples client 10 ∷ [])
        item).sent
run-IsFresh_example =
    run-IsFresh (samples client 8 ∷ samples client 9 ∷ reconnects client ∷ samples client 10 ∷ [])
      item item-IsLinked

abbrev properties : Properties ℕ
properties = record {
  node_id_type = pos 0;
  namespace_index = pos 2;
  node_id_string = "";
  node_id_numeric = pos 7;
  timestamp_mode = pos 2;
  sampling_interval = pos 4294967296;
  string_node_id = λ ns s. ns;
  numeric_node_id = λ ns n. n;
}

abbrev a_date : ℕ
a_date = 116444736000000057
