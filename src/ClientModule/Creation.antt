-- ===== src/ClientModule/Creation.antt =====
-- What a device has that `onCreateDevice` makes.
use text.Mathlib.Text.{starts_with}
use opc_ua_modules.Base.{
  ℕ, ◌≡◌, refl, ◌⊎◌, inl, inr, subst, Bool, true, false, some, String, HasEq, ◌==◌, string_eq,
  Bool-cases,
}
use opc_ua_modules.Base.Dict.{lookup}
use opc_ua_modules.MonitoredItem.State.{Reply, replied, denied, failed}
use opc_ua_modules.ClientModule.Service.{text_field}
use opc_ua_modules.ClientModule.LocalId.{Parent, is_taken, build_device_local_id_lem}
use opc_ua_modules.ClientModule.Populate.{device_prefix, populate_device_info_lem}
use opc_ua_modules.ClientModule.Connection.{
  returned, CreateError, >>=-eq-returned, Surroundings, DeviceConfig, Device, check, of_reply,
  form_connection_string, build_opcua_url, accepts_connection_parameters, create_device,
}

returned-eq {ℓ} : {A : Type ℓ} {a b : A} → returned a ≡ returned b → a ≡ b
returned-eq h = cc

check-eq-returned : (t : Bool) (x : CreateError) {u : Unit} → check t x ≡ returned u → t ≡ true
check-eq-returned true x h = refl
check-eq-returned false x h = absurd (cc)

of_reply-eq-returned {ℓ} :
    {A : Type ℓ} (r : Reply A) {a : A} → of_reply r ≡ returned a → r ≡ replied a
of_reply-eq-returned (replied b) h = cc
of_reply-eq-returned denied h = absurd (cc)
of_reply-eq-returned failed h = absurd (cc)

accepts_connection_parameters-eq_empty :
    (url : String)
    → (accepts_connection_parameters url == "") ≡ true
    → starts_with url device_prefix ≡ true
unfolding accepts_connection_parameters
accepts_connection_parameters-eq_empty url h = elim (Bool-cases (starts_with url device_prefix)) [
  | inl p ↦ p
  | inr n ↦
      let refused : (accepts_connection_parameters url == "") ≡ false =
        rw (n, accepts_connection_parameters) refl in
      absurd (cc)
]

module _ {ℓ} {N : Type ℓ} ⦃e : HasEq N⦄ (null : N) (di_id : ℕ → ℕ → N) where
  -- A device is only made for a connection string with the prefix of the module and in a context. It
  -- has the client that the connection gave, and a local id that is empty or that no sibling has, and
  -- its info shows the connection string.
  pub create_device_lem :
      (s : Surroundings N) (url : String) (parent : Parent) (c : DeviceConfig N) {d : Device N}
      → create_device null di_id s (some url) parent c ≡ returned d
      → (starts_with url device_prefix ≡ true)
        × (s.has_context ≡ true)
        × (form_connection_string s url ≡ returned d.connection)
        × (s.connect (build_opcua_url s d.connection) c.username c.password ≡ replied d.client)
        × ((d.local_id ≡ "") ⊎ (is_taken parent d.local_id ≡ false))
        × (lookup "connectionString" d.info.fields ≡ some (text_field url))
  unfolding create_device
  create_device_lem s url parent c {d} h =
      let (u, accepted, h1) =
        >>=-eq-returned (check (accepts_connection_parameters url == "") _) _ h in
      let (v, present, h2) = >>=-eq-returned (check s.has_context _) _ h1 in
      let (info, parsed, h3) = >>=-eq-returned (form_connection_string s url) _ h2 in
      let (client, connected, h4) =
        >>=-eq-returned (of_reply (s.connect (build_opcua_url s info) c.username c.password)) _
          h3 in
      let (desc, described, h5) = >>=-eq-returned (of_reply s.describe) _ h4 in
      let made = returned-eq h5 in
      subst
        (λ (x : Device N).
          (starts_with url device_prefix ≡ true)
          × (s.has_context ≡ true)
          × (form_connection_string s url ≡ returned x.connection)
          × (s.connect (build_opcua_url s x.connection) c.username c.password ≡ replied x.client)
          × ((x.local_id ≡ "") ⊎ (is_taken parent x.local_id ≡ false))
          × (lookup "connectionString" x.info.fields ≡ some (text_field url)))
        made
        (
          accepts_connection_parameters-eq_empty url (check-eq-returned _ _ accepted),
          check-eq-returned s.has_context _ present,
          parsed,
          of_reply-eq-returned (s.connect (build_opcua_url s info) c.username c.password) connected,
          (build_device_local_id_lem parent c.local_id _ desc).1,
          (populate_device_info_lem url info c.username desc.product_uri _ s.new_info).0,
        )
