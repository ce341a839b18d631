-- ===== src/MonitoredItem/Changes.antt =====
-- A change of a property leaves the status up to date.
use opc_ua_modules.Base.{
  ◌≡◌, refl, sym, subst, ◌⊎◌, inl, inr, arith, true, Bool-cases, String, string_eq, ◌==◌,
}
use opc_ua_modules.Status.{Entry, add_entry, reset_entry, clear_entry}
use opc_ua_modules.Status.Updates.{reset_entry_raises}
use opc_ua_modules.MonitoredItem.State.{Errors, Item, Client, map_errors, is_any_updated, reported}
use opc_ua_modules.MonitoredItem.Reports.{
  Evolves, Evolves-refl, Tame, Tame-trans, validate_node-Tame,
}
use opc_ua_modules.MonitoredItem.Coherence.{IsSettled, update_statuses-IsSettled}
use opc_ua_modules.MonitoredItem.{validate_node, descriptor_of}
use opc_ua_modules.MonitoredItem.Configuration.{
  Properties, add_config, is_pos, sampling_interval_of, domain_source_of, interval_message,
  read_node_id, read_interval, read_properties, reconfigure_signal, property_changed,
}

Evolves-config :
    (e : Errors) (y : Entry)
    → (y ≡ e.config) ⊎ (y.updated ≡ true)
    → Evolves e (record e { config = y })
Evolves-config e y (inl h) =
    subst (λ z. Evolves e (record e { config = z })) (sym h) (Evolves-refl e)
Evolves-config e y (inr u) = inl (unfold is_any_updated in ground arith)

Evolves-add_config : (msg : String) (e : Errors) → Evolves e (add_config msg e)
Evolves-add_config msg e = Evolves-config e _ (inr (unfold add_entry in refl))

Evolves-clear : (e : Errors) → Evolves e (map_errors clear_entry e)
unfolding is_any_updated reported map_errors clear_entry
Evolves-clear e = ground arith

module _ {ℓ} {N : Type ℓ} where
  read_node_id-Tame : (p : Properties N) (i : Item N) → Tame i (read_node_id p i)
  unfolding read_node_id
  read_node_id-Tame p i = elim (Bool-cases (is_pos 0 p.node_id_type)) [
    | inl h ↦ rw h (refl, Evolves-refl i.errors)
    | inr h ↦ elim (Bool-cases (p.node_id_string == "")) [
      | inl g ↦ rw (h, g) (refl, Evolves-add_config _ i.errors)
      | inr g ↦ rw (h, g) (refl, Evolves-refl i.errors)
    ]
  ]

  read_interval-Tame : (p : Properties N) (i : Item N) → Tame i (read_interval p i)
  unfolding read_interval
  read_interval-Tame p i = elim (Bool-cases (sampling_interval_of p.sampling_interval).1) [
    | inl h ↦ rw h (refl, Evolves-refl i.errors)
    | inr h ↦ rw h (refl, Evolves-add_config interval_message i.errors)
  ]

  read_properties-IsSettled :
      (p : Properties N) (i j : Item N) → IsSettled i → Tame i j → IsSettled (read_properties p j)
  unfolding read_properties
  read_properties-IsSettled p i j h t =
      let k = record j { errors = record j.errors { config = reset_entry j.errors.config } } in
      let l = record (read_node_id p k) { domain_source = domain_source_of p.timestamp_mode } in
      let tk : Tame j k = (refl, Evolves-config j.errors _ (reset_entry_raises j.errors.config)) in
      let tl : Tame i l = Tame-trans i k l (Tame-trans i j k t tk) (read_node_id-Tame p k) in
      update_statuses-IsSettled i (read_interval p l) h
        (Tame-trans i l (read_interval p l) tl (read_interval-Tame p l))

  reconfigure_signal-errors :
      (i : Item N)
      → ((reconfigure_signal i).component_status ≡ i.component_status)
        × ((reconfigure_signal i).errors ≡ i.errors)
  unfolding reconfigure_signal
  reconfigure_signal-errors i = (ground arith, ground arith)

  reconfigure_signal-Tame : (i : Item N) → Tame i (reconfigure_signal i)
  reconfigure_signal-Tame i =
      let (status, errors) = reconfigure_signal-errors i in
      (status, subst (Evolves i.errors) (sym errors) (Evolves-refl i.errors))

  -- On an item whose status is up to date, a change of its properties leaves a status that is up to
  -- date, whatever the properties are and whatever the client answers.
  pub property_changed-IsSettled :
      (c : Client N) (p : Properties N) (i : Item N)
      → IsSettled i
      → IsSettled (property_changed c p i)
  unfolding property_changed
  property_changed-IsSettled c p i h =
      let e = record i { errors = map_errors clear_entry i.errors } in
      let r = read_properties p e in
      let s = read_properties-IsSettled p i e h (refl, Evolves-clear i.errors) in
      let j = validate_node c r in
      let k = record j { output_descriptor = descriptor_of j.errors j.node_data_type } in
      update_statuses-IsSettled r (reconfigure_signal k) s
        (Tame-trans r k (reconfigure_signal k) (validate_node-Tame c r) (reconfigure_signal-Tame k))
