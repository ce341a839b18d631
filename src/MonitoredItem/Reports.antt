-- ===== src/MonitoredItem/Reports.antt =====
-- The component's status says what the errors are.
use Prim.Native.String.{◌++◌ as str_append}
use opc_ua_modules.Base.{
  ℕ, ◌≡◌, refl, sym, ◌∙◌, subst, ◌⊎◌, inl, inr, arith, Bool, true, false, Option, String,
  Bool-cases, Option-cases,
}
use opc_ua_modules.Status.{Entry, add_entry}
use opc_ua_modules.Status.Updates.{set_entry_raises, reset_entry_raises}
use opc_ua_modules.MonitoredItem.Values.{Kind, DataValue, same_data_type, data_type_of_kind}
use opc_ua_modules.MonitoredItem.State.{
  Errors, Item, ReadReply, returned, opc_ua_exception, unknown_exception, std_exception, Client,
  Reply, denied, failed, replied, check_node, check_reply, add_node_error, is_any_updated, reported,
  around,
}
use opc_ua_modules.MonitoredItem.{
  reset_response, reset_value, reset_exception, set_exception, reset_node, response_error,
  is_supported, is_due, Packet, unassigned, thrown, assigned, build_data_packet,
  resolve_domain_timestamp, publish_packet, publish, set_descriptors, validate_response,
  validate_value_data_type, accept_value, read_sample, validate_node,
}

-- Either a flag is up, or none was up before and the errors report the same.
abbrev pub Evolves : Errors → Errors → Type 0
Evolves a b = (is_any_updated b ≡ true) ⊎ ((is_any_updated a ≡ false) × (reported b ≡ reported a))

pub Evolves-refl : (a : Errors) → Evolves a a
Evolves-refl a = elim (Bool-cases (is_any_updated a)) [ inl h ↦ inl h | inr h ↦ inr (h, refl) ]

pub Evolves-trans : (a b c : Errors) → Evolves a b → Evolves b c → Evolves a c
Evolves-trans a b c g (inl h) = inl h
Evolves-trans a b c (inl u) (inr (n, h)) = absurd (ground arith)
Evolves-trans a b c (inr (m, g)) (inr (n, h)) = inr (m, h ∙ g)

-- An entry that is the same or raises its flag.
abbrev Raised : Entry → Entry → Type 0
Raised x y = (y ≡ x) ⊎ (y.updated ≡ true)

Evolves-response :
    (e : Errors) (y : Entry)
    → Raised e.response_validation y
    → Evolves e (record e { response_validation = y })
Evolves-response e y (inl h) =
    subst (λ z. Evolves e (record e { response_validation = z })) (sym h) (Evolves-refl e)
Evolves-response e y (inr u) = inl (unfold is_any_updated in ground arith)

Evolves-value :
    (e : Errors) (y : Entry)
    → Raised e.value_validation y
    → Evolves e (record e { value_validation = y })
Evolves-value e y (inl h) =
    subst (λ z. Evolves e (record e { value_validation = z })) (sym h) (Evolves-refl e)
Evolves-value e y (inr u) = inl (unfold is_any_updated in ground arith)

Evolves-exception :
    (e : Errors) (y : Entry) → Raised e.exception y → Evolves e (record e { exception = y })
Evolves-exception e y (inl h) =
    subst (λ z. Evolves e (record e { exception = z })) (sym h) (Evolves-refl e)
Evolves-exception e y (inr u) = inl (unfold is_any_updated in ground arith)

Evolves-node :
    (e : Errors) (y : Entry)
    → Raised e.node_validation y
    → Evolves e (record e { node_validation = y })
Evolves-node e y (inl h) =
    subst (λ z. Evolves e (record e { node_validation = z })) (sym h) (Evolves-refl e)
Evolves-node e y (inr u) = inl (unfold is_any_updated in ground arith)

Evolves-add_node_error : (msg : String) (e : Errors) → Evolves e (add_node_error msg e)
unfolding add_node_error
Evolves-add_node_error msg e = Evolves-node e _ (inr (unfold add_entry in refl))

module _ {ℓ} {N : Type ℓ} where
  Evolves-check_reply :
      (c : Client N) (id : N) (r : Reply Bool) (refusal : String) (e next : Errors)
      → Evolves e next
      → Evolves e (check_reply c id r refusal e next)
  unfolding check_reply
  Evolves-check_reply c id denied refusal e next h = Evolves-add_node_error _ e
  Evolves-check_reply c id failed refusal e next h = Evolves-add_node_error _ e
  Evolves-check_reply c id (replied false) refusal e next h = Evolves-add_node_error _ e
  Evolves-check_reply c id (replied true) refusal e next h = h

  Evolves-check_node : (c : Client N) (id : N) (e : Errors) → Evolves e (check_node c id e)
  unfolding check_node
  Evolves-check_node c id e =
      let name = c.node_text id in
      let access =
        check_reply c id (c.is_readable id) (str_append "There is no read permission to node " name)
          e e in
      let class =
        check_reply c id (c.is_variable id) (around "Node " name " is not a variable node") e
          access in
      Evolves-check_reply c id (c.node_exists id) (around "Node " name " does not exist") e class (
        Evolves-check_reply c id (c.is_variable id) (around "Node " name " is not a variable node")
          e access
          (Evolves-check_reply c id (c.is_readable id)
            (str_append "There is no read permission to node " name) e e (Evolves-refl e)))

  -- The status stays, and the errors evolve.
  abbrev pub Tame : Item N → Item N → Type 0
  Tame i j = (j.component_status ≡ i.component_status) × Evolves i.errors j.errors

  pub Tame-trans : (i j k : Item N) → Tame i j → Tame j k → Tame i k
  Tame-trans i j k (s, g) (t, h) = (t ∙ s, Evolves-trans i.errors j.errors k.errors g h)

  validate_response-Tame :
      (f : ℕ → String) (v : DataValue) (i : Item N) → Tame i (validate_response f v i).0
  unfolding validate_response
  validate_response-Tame f v i = elim (Option-cases (response_error f i.domain_source v)) [
    | inl h ↦
        rw (h, validate_response)
          (refl, Evolves-response i.errors _ (reset_entry_raises i.errors.response_validation))
    | inr (msg, h) ↦
        rw (h, validate_response)
          (refl, Evolves-response i.errors _ (set_entry_raises msg i.errors.response_validation))
  ]

  publish_packet-Tame :
      (f : Kind → String) (ts : Option ℕ) (v : DataValue) (p : Packet) (i : Item N)
      → Tame i (publish_packet f ts v p i)
  unfolding publish_packet
  publish_packet-Tame f ts v unassigned i =
      (refl, Evolves-value i.errors _ (set_entry_raises _ i.errors.value_validation))
  publish_packet-Tame f ts v (thrown what) i =
      (refl, Evolves-exception i.errors _ (set_entry_raises _ i.errors.exception))
  publish_packet-Tame f ts v (assigned content) i = (refl, Evolves-refl i.errors)

  publish-Tame :
      (f : Kind → String) (now : ℕ) (v : DataValue) (i : Item N) → Tame i (publish f now v i)
  unfolding publish
  publish-Tame f now v i =
      elim (Bool-cases (is_due i.last_published (resolve_domain_timestamp now i v))) [
        | inl h ↦ rw h (publish_packet-Tame f _ v (build_data_packet v) i)
        | inr h ↦ rw h (refl, Evolves-refl i.errors)
      ]

  validate_value_data_type-Tame :
      (f : Kind → String) (v : DataValue) (i : Item N) → Tame i (validate_value_data_type f v i).0
  unfolding validate_value_data_type set_descriptors
  validate_value_data_type-Tame f v i =
      elim (Bool-cases (same_data_type (data_type_of_kind v.kind) i.node_data_type)) [
        | inl h ↦ elim (Bool-cases (is_supported v.kind)) [
          | inl g ↦
              rw (h, g)
                (refl, Evolves-value i.errors _ (reset_entry_raises i.errors.value_validation))
          | inr g ↦
              rw (h, g)
                (refl, Evolves-value i.errors _ (set_entry_raises _ i.errors.value_validation))
        ]
        | inr h ↦ elim (Bool-cases (is_supported v.kind)) [
          | inl g ↦
              rw (h, g)
                (refl, Evolves-value i.errors _ (reset_entry_raises i.errors.value_validation))
          | inr g ↦
              rw (h, g)
                (refl, Evolves-value i.errors _ (set_entry_raises _ i.errors.value_validation))
        ]
      ]

  reset_exception-Tame : (i : Item N) → Tame i (record i { errors = reset_exception i.errors })
  reset_exception-Tame i =
      (refl, Evolves-exception i.errors _ (reset_entry_raises i.errors.exception))

  set_exception-Tame :
      (msg : String) (i : Item N) → Tame i (record i { errors = set_exception msg i.errors })
  set_exception-Tame msg i =
      (refl, Evolves-exception i.errors _ (set_entry_raises msg i.errors.exception))

  accept_value-Tame :
      (c : Client N) (now : ℕ) (v : DataValue) (i : Item N) → Tame i (accept_value c now v i)
  unfolding accept_value
  accept_value-Tame c now v i =
      let j = record i { errors = reset_exception i.errors } in
      let k = (validate_response c.status_text v j).0 in
      let l = (validate_value_data_type c.kind_text v k).0 in
      let tk : Tame i k =
        Tame-trans i j k (reset_exception-Tame i) (validate_response-Tame c.status_text v j) in
      let tl : Tame i l = Tame-trans i k l tk (validate_value_data_type-Tame c.kind_text v k) in
      elim (Bool-cases (validate_response c.status_text v j).1) [
        | inl h ↦ elim (Bool-cases (validate_value_data_type c.kind_text v k).1) [
          | inl g ↦
              rw (h, g)
                (Tame-trans i l (publish c.kind_text now v l) tl (publish-Tame c.kind_text now v l))
          | inr g ↦ rw (h, g) tl
        ]
        | inr h ↦ rw h tk
      ]

  pub read_sample-Tame :
      (c : Client N) (now : ℕ) (r : ReadReply) (i : Item N) → Tame i (read_sample c now r i)
  unfolding read_sample
  read_sample-Tame c now (returned v) i = accept_value-Tame c now v i
  read_sample-Tame c now opc_ua_exception i = set_exception-Tame _ i
  read_sample-Tame c now (std_exception what) i = set_exception-Tame _ i
  read_sample-Tame c now unknown_exception i = set_exception-Tame _ i

  pub validate_node-Tame : (c : Client N) (i : Item N) → Tame i (validate_node c i)
  unfolding validate_node
  validate_node-Tame c i = (
    refl,
    Evolves-trans i.errors (reset_node i.errors) (check_node c i.node_id (reset_node i.errors))
        (Evolves-node i.errors _ (reset_entry_raises i.errors.node_validation))
        (Evolves-check_node c i.node_id (reset_node i.errors)),
  )

  pub reset_reads-Tame :
      (i : Item N)
      → Tame i (record i { errors = reset_exception (reset_value (reset_response i.errors)) })
  reset_reads-Tame i =
      let a = reset_response i.errors in
      let b = reset_value a in
      (
        refl,
        Evolves-trans i.errors b (reset_exception b)
            (Evolves-trans i.errors a b
              (Evolves-response i.errors _ (reset_entry_raises i.errors.response_validation))
              (Evolves-value a _ (reset_entry_raises a.value_validation)))
            (Evolves-exception b _ (reset_entry_raises b.exception)),
      )
