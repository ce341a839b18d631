-- ===== src/MonitoredItem/Publishing.antt =====
-- Which samples a monitored item publishes.
use opc_ua_modules.Base.{
  ℕ, ◌≡◌, ◌≢◌, refl, ap, ◌∙◌, subst, ◌⊎◌, inl, inr, arith, true, Option, none, some, List, [], ◌∷◌,
  Bool-cases, Option-cases, String,
}
use opc_ua_modules.MonitoredItem.Values.{Kind, DataValue, same_data_type, data_type_of_kind}
use opc_ua_modules.MonitoredItem.State.{Content, Item, Client, update_statuses}
use opc_ua_modules.MonitoredItem.{
  response_error, is_supported, is_due, is_new_domain_timestamp, Packet, unassigned, thrown,
  assigned, build_data_packet, resolve_domain_timestamp, publish_packet, publish, set_descriptors,
  validate_response, validate_value_data_type, accept_value, reset_exception,
}
use opc_ua_modules.MonitoredItem.Valid.{IsValid, response_error-IsValid}

-- The domain value of the packet that was sent last.
unfoldable pub last_of : List (Option ℕ × Content) → Option ℕ
last_of [] = none
last_of (p ∷ ps) = p.0

-- No packet has the domain value of the packet before it, unless it has none.
unfoldable pub IsFresh : List (Option ℕ × Content) → Type 0
unfolding last_of
IsFresh [] = Unit
IsFresh (p ∷ ps) = ((p.0 ≡ none) ⊎ (p.0 ≢ last_of ps)) × IsFresh ps

is_due-new : (last ts : Option ℕ) → is_due last ts ≡ true → ((ts ≡ none) ⊎ (ts ≢ last))
unfolding is_due is_new_domain_timestamp
is_due-new last none h = inl refl
is_due-new none (some t) h = inr λ e. absurd (cc)
is_due-new (some l) (some t) h = inr λ e. ground arith

module _ {ℓ} {N : Type ℓ} where
  -- Nothing was sent.
  abbrev pub IsSilent : Item N → Item N → Type 0
  IsSilent i j = (j.sent ≡ i.sent) × (j.last_published ≡ i.last_published)

  -- One packet was sent, with a new domain value or none.
  abbrev pub Sends : Item N → Item N → Type 0
  Sends i j =
      (ts : Option ℕ) × (content : Content) × (j.sent ≡ (ts, content) ∷ i.sent)
      × (j.last_published ≡ ts)
      × ((ts ≡ none) ⊎ (ts ≢ i.last_published))

  publish_packet-Sends :
      (f : Kind → String) (ts : Option ℕ) (v : DataValue) (p : Packet) (i : Item N)
      → ((ts ≡ none) ⊎ (ts ≢ i.last_published))
      → IsSilent i (publish_packet f ts v p i) ⊎ Sends i (publish_packet f ts v p i)
  unfolding publish_packet
  publish_packet-Sends f ts v unassigned i h = inl (refl, refl)
  publish_packet-Sends f ts v (thrown what) i h = inl (refl, refl)
  publish_packet-Sends f ts v (assigned content) i h = inr (ts, content, refl, refl, h)

  publish-Sends :
      (f : Kind → String) (now : ℕ) (v : DataValue) (i : Item N)
      → IsSilent i (publish f now v i) ⊎ Sends i (publish f now v i)
  unfolding publish
  publish-Sends f now v i =
      let ts = resolve_domain_timestamp now i v in
      elim (Bool-cases (is_due i.last_published ts)) [
        | inl h ↦
            rw h (
              publish_packet-Sends f ts v (build_data_packet v) i
                (is_due-new i.last_published ts h))
        | inr h ↦ rw h (inl (refl, refl))
      ]

  validate_response-IsSilent :
      (f : ℕ → String) (v : DataValue) (i : Item N)
      → IsSilent i (validate_response f v i).0
        × ((validate_response f v i).1 ≡ true → response_error f i.domain_source v ≡ none)
  unfolding validate_response
  validate_response-IsSilent f v i = elim (Option-cases (response_error f i.domain_source v)) [
    | inl h ↦ rw (h, validate_response) ((refl, refl), λ x. refl)
    | inr (msg, h) ↦ rw (h, validate_response) ((refl, refl), λ x. absurd (cc))
  ]

  validate_value_data_type-IsSilent :
      (f : Kind → String) (v : DataValue) (i : Item N)
      → IsSilent i (validate_value_data_type f v i).0
        × ((validate_value_data_type f v i).1 ≡ true → is_supported v.kind ≡ true)
  unfolding validate_value_data_type set_descriptors
  validate_value_data_type-IsSilent f v i =
      elim (Bool-cases (same_data_type (data_type_of_kind v.kind) i.node_data_type)) [
        | inl h ↦ elim (Bool-cases (is_supported v.kind)) [
          | inl g ↦ rw (h, g) ((refl, refl), λ x. refl)
          | inr g ↦ rw (h, g) ((refl, refl), λ x. x)
        ]
        | inr h ↦ elim (Bool-cases (is_supported v.kind)) [
          | inl g ↦ rw (h, g) ((refl, refl), λ x. refl)
          | inr g ↦ rw (h, g) ((refl, refl), λ x. x)
        ]
      ]

  Sends-IsSilent :
      (i j k : Item N) → IsSilent i j → IsSilent j k ⊎ Sends j k → IsSilent i k ⊎ Sends i k
  Sends-IsSilent i j k (s, l) (inl (t, m)) = inl (t ∙ s, m ∙ l)
  Sends-IsSilent i j k (s, l) (inr (ts, content, e, m, n)) =
      inr
        (ts, content, e ∙ ap (λ x. (ts, content) ∷ x) s, m, subst (λ x. (ts ≡ none) ⊎ (ts ≢ x)) l n)

  pub accept_value-Sends :
      (c : Client N) (now : ℕ) (v : DataValue) (i : Item N)
      → IsSilent i (accept_value c now v i)
        ⊎ (Sends i (accept_value c now v i) × IsValid i.domain_source v)
  unfolding accept_value
  accept_value-Sends c now v i =
      let j = record i { errors = reset_exception i.errors } in
      let k = (validate_response c.status_text v j).0 in
      let l = (validate_value_data_type c.kind_text v k).0 in
      let (sk, valid) = validate_response-IsSilent c.status_text v j in
      let (sl, supported) = validate_value_data_type-IsSilent c.kind_text v k in
      let s : IsSilent i l = (sl.0 ∙ sk.0, sl.1 ∙ sk.1) in
      elim (Bool-cases (validate_response c.status_text v j).1) [
        | inl h ↦ elim (Bool-cases (validate_value_data_type c.kind_text v k).1) [
          | inl g ↦
              rw (h, g)
                (elim (Sends-IsSilent i l (publish c.kind_text now v l) s
                  (publish-Sends c.kind_text now v l)) [
                    | inl x ↦ inl x
                    | inr x ↦ inr (
                      x,
                      response_error-IsValid c.status_text i.domain_source v (valid h)
                          (supported g),
                    )
                  ])
          | inr g ↦ rw (h, g) (inl s)
        ]
        | inr h ↦ rw h (inl sk)
      ]

  pub update_statuses-sent :
      (i : Item N)
      → ((update_statuses i).sent ≡ i.sent)
        × ((update_statuses i).last_published ≡ i.last_published)
  unfolding update_statuses
  update_statuses-sent i = (ground arith, ground arith)
