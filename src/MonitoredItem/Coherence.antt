-- ===== src/MonitoredItem/Coherence.antt =====
-- After each operation the component's status is the one that the errors ask for.
use opc_ua_modules.Base.{
  ℕ, ◌≡◌, refl, sym, ◌∙◌, subst, inl, inr, true, false, ◌||◌, Bool-cases, string_eq, String, List,
  [], ◌∷◌, if◌then◌else◌,
}
use opc_ua_modules.Status.{Entry, read_updated}
use Prim.Native.String.{◌++◌ as str_append}
use opc_ua_modules.MonitoredItem.State.{
  Item, Client, Errors, ComponentStatus, component_ok, component_error, map_errors, update_statuses,
  is_any_updated, reported,
}
use opc_ua_modules.MonitoredItem.Reports.{
  Evolves-refl, Tame, Tame-trans, read_sample-Tame, validate_node-Tame, reset_reads-Tame,
}
use opc_ua_modules.MonitoredItem.{
  reset_response, reset_value, reset_exception, read_sample, process_sample, validate_node,
  set_descriptors, on_connection_restored,
}

-- The errors with their names in the status, the one that counts most first.
abbrev pub by_rank : Errors → List (String × Entry)
by_rank e =
    ("Config", e.config)
    ∷ ("Node validation", e.node_validation)
    ∷ ("Response validation", e.response_validation)
    ∷ ("Value validation", e.value_validation)
    ∷ ("Exception", e.exception)
    ∷ []

-- The first error that is there, as name and message.
abbrev pub first_error : List (String × Entry) → ComponentStatus
first_error [] = component_ok
first_error ((name, e) ∷ rest) =
    if e.present
    then component_error (str_append (str_append name " error: ") e.message)
    else first_error rest

reported-first_error : (e : Errors) → reported e ≡ first_error (by_rank e)
unfolding reported
reported-first_error e = refl

module _ {ℓ} {N : Type ℓ} where
  -- The flags are down and the status is the one that the errors ask for.
  abbrev pub IsSettled : Item N → Type 0
  IsSettled i =
      (is_any_updated i.errors ≡ false) × (i.component_status ≡ first_error (by_rank i.errors))

  update_statuses-raised :
      (i : Item N) → is_any_updated i.errors ≡ true → IsSettled (update_statuses i)
  unfolding update_statuses is_any_updated map_errors read_updated reported
  update_statuses-raised i h = rw h (refl, refl)

  update_statuses-same : (i : Item N) → is_any_updated i.errors ≡ false → update_statuses i ≡ i
  unfolding update_statuses
  update_statuses-same i h = rw h refl

  pub update_statuses-IsSettled :
      (i j : Item N) → IsSettled i → Tame i j → IsSettled (update_statuses j)
  update_statuses-IsSettled i j (n, s) (t, inl h) = update_statuses-raised j h
  update_statuses-IsSettled i j (n, s) (t, inr (m, h)) =
      elim (Bool-cases (is_any_updated j.errors)) [
        | inl u ↦ update_statuses-raised j u
        | inr u ↦
            subst IsSettled (sym (update_statuses-same j u)) (
              u,
              t ∙ s ∙ sym (reported-first_error i.errors) ∙ sym h ∙ reported-first_error j.errors,
            )
      ]

  process_sample-IsSettled :
      (c : Client N) (now : ℕ) (i : Item N) → IsSettled i → IsSettled (process_sample c now i)
  unfolding process_sample
  process_sample-IsSettled c now i h =
      elim (Bool-cases (i.errors.config.present || i.errors.node_validation.present)) [
        | inl off ↦ rw off (update_statuses-IsSettled i i h (refl, Evolves-refl i.errors))
        | inr on ↦ rw on (
            update_statuses-IsSettled i (read_sample c now (c.read_data_value i.node_id) i) h
              (read_sample-Tame c now (c.read_data_value i.node_id) i))
      ]

  on_connection_restored-IsSettled :
      (c : Client N) (i : Item N) → IsSettled i → IsSettled (on_connection_restored c i)
  unfolding on_connection_restored set_descriptors
  on_connection_restored-IsSettled c i h =
      let e = reset_exception (reset_value (reset_response i.errors)) in
      let j = record i { errors = e } in
      update_statuses-IsSettled i (set_descriptors (validate_node c j)) h
        (Tame-trans i j (validate_node c j) (reset_reads-Tame i) (validate_node-Tame c j))

  -- On an item whose status is up to date, `processSample` and `onConnectionRestored` leave a status
  -- that is up to date: the message of the first error in the order configuration, node, response,
  -- value, exception, and ok where there is none; whatever the client answers.
  pub operations-IsSettled :
      (c : Client N) (now : ℕ) (i : Item N)
      → IsSettled i
      → IsSettled (process_sample c now i) × IsSettled (on_connection_restored c i)
  operations-IsSettled c now i h =
      (process_sample-IsSettled c now i h, on_connection_restored-IsSettled c i h)
