-- ===== src/MonitoredItem/Samples.antt =====
-- The packets that a history of samples and reconnects sends.
use opc_ua_modules.Base.{
  ℕ, ◌≡◌, ◌≢◌, refl, sym, ap, ◌∙◌, subst, ◌⊎◌, inl, inr, false, ◌||◌, none, List, [], ◌∷◌,
  Bool-cases,
}
use opc_ua_modules.MonitoredItem.Values.{DataValue}
use opc_ua_modules.MonitoredItem.State.{
  Item, ReadReply, returned, opc_ua_exception, unknown_exception, std_exception, Client,
  update_statuses,
}
use opc_ua_modules.MonitoredItem.{
  read_sample, process_sample, validate_node, set_descriptors, on_connection_restored,
  reset_response, reset_value, reset_exception,
}
use opc_ua_modules.MonitoredItem.Valid.{IsValid}
use opc_ua_modules.MonitoredItem.Publishing.{
  last_of, IsFresh, IsSilent, Sends, accept_value-Sends, update_statuses-sent,
}

pub data Event {ℓ} (N : Type ℓ) : Type ℓ where
  samples : Client N → ℕ → Event N
  reconnects : Client N → Event N

module _ {ℓ} {N : Type ℓ} where
  -- A packet was sent for a value that the client returned and that is valid, on an item with
  -- neither a configuration error nor a node error.
  abbrev pub SendsValid : Client N → Item N → Item N → Type 0
  SendsValid c i j =
      Sends i j
      × (v : DataValue) × (c.read_data_value i.node_id ≡ returned v)
      × IsValid i.domain_source v
      × (i.errors.config.present || i.errors.node_validation.present ≡ false)

  read_sample-Sends :
      (c : Client N) (now : ℕ) (r : ReadReply) (i : Item N)
      → IsSilent i (read_sample c now r i)
        ⊎ (Sends i (read_sample c now r i)
            × (v : DataValue) × (r ≡ returned v)
            × IsValid i.domain_source v)
  unfolding read_sample
  read_sample-Sends c now (returned v) i = elim (accept_value-Sends c now v i) [
    | inl h ↦ inl h
    | inr (s, valid) ↦ inr (s, v, refl, valid)
  ]
  read_sample-Sends c now opc_ua_exception i = inl (refl, refl)
  read_sample-Sends c now (std_exception what) i = inl (refl, refl)
  read_sample-Sends c now unknown_exception i = inl (refl, refl)

  IsSilent-update : (i j : Item N) → IsSilent i j → IsSilent i (update_statuses j)
  IsSilent-update i j (s, l) = ((update_statuses-sent j).0 ∙ s, (update_statuses-sent j).1 ∙ l)

  Sends-update : (i j : Item N) → Sends i j → Sends i (update_statuses j)
  Sends-update i j (ts, content, s, l, n) =
      (ts, content, (update_statuses-sent j).0 ∙ s, (update_statuses-sent j).1 ∙ l, n)

  pub process_sample-Sends :
      (c : Client N) (now : ℕ) (i : Item N)
      → IsSilent i (process_sample c now i) ⊎ SendsValid c i (process_sample c now i)
  unfolding process_sample
  process_sample-Sends c now i =
      let j = read_sample c now (c.read_data_value i.node_id) i in
      elim (Bool-cases (i.errors.config.present || i.errors.node_validation.present)) [
        | inl off ↦ rw off (inl (IsSilent-update i i (refl, refl)))
        | inr on ↦ rw on (elim (read_sample-Sends c now (c.read_data_value i.node_id) i) [
          | inl h ↦ inl (IsSilent-update i j h)
          | inr (s, v, r, valid) ↦ inr (Sends-update i j s, v, r, valid, refl)
        ])
      ]

  pub apply : Event N → Item N → Item N
  apply (samples c now) i = process_sample c now i
  apply (reconnects c) i = on_connection_restored c i

  pub run : List (Event N) → Item N → Item N
  run [] i = i
  run (x ∷ xs) i = run xs (apply x i)

  -- What was published last is the domain value of the last packet, and the packets are fresh.
  abbrev pub IsLinked : Item N → Type 0
  IsLinked i = (i.last_published ≡ last_of i.sent) × IsFresh i.sent

  IsLinked-IsSilent : (i j : Item N) → IsSilent i j → IsLinked i → IsLinked j
  IsLinked-IsSilent i j (s, l) (k, f) = (l ∙ k ∙ ap last_of (sym s), subst IsFresh (sym s) f)

  IsLinked-Sends : (i j : Item N) → Sends i j → IsLinked i → IsLinked j
  unfolding last_of IsFresh
  IsLinked-Sends i j (ts, content, s, l, n) (k, f) =
      (l ∙ ap last_of (sym s), subst IsFresh (sym s) (subst (λ x. (ts ≡ none) ⊎ (ts ≢ x)) k n, f))

  apply-IsLinked : (x : Event N) (i : Item N) → IsLinked i → IsLinked (apply x i)
  unfolding apply on_connection_restored set_descriptors validate_node
  apply-IsLinked (samples c now) i h = elim (process_sample-Sends c now i) [
    | inl s ↦ IsLinked-IsSilent i (process_sample c now i) s h
    | inr (s, v, r, valid, on) ↦ IsLinked-Sends i (process_sample c now i) s h
  ]
  apply-IsLinked (reconnects c) i h =
      IsLinked-IsSilent i (on_connection_restored c i)
        (IsSilent-update i
          (set_descriptors (
            validate_node c
              (record i { errors = reset_exception (reset_value (reset_response i.errors)) })))
          (refl, refl))
        h

  -- From an item whose packets are fresh and whose last published domain value is that of its last
  -- packet, through any history of samples and reconnects, no packet with a domain value is sent with
  -- the domain value of the packet before it.
  pub run-IsFresh : (xs : List (Event N)) (i : Item N) → IsLinked i → IsFresh (run xs i).sent
  unfolding run
  run-IsFresh [] i h = h.1
  run-IsFresh (x ∷ xs) i h = run-IsFresh xs (apply x i) (apply-IsLinked x i h)
