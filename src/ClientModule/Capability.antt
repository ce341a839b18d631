-- ===== src/ClientModule/Capability.antt =====
-- Server capabilities: `onCompleteServerCapability` and `populateDiscoveredDevice`.
use Prim.Native.String.{◌++◌ as str_append}
use opc_ua_modules.Base.{
  ℕ, ◌≡◌, refl, ◌⊎◌, inl, inr, sym, ap, ◌∙◌, arith, Bool, true, false, not, ◌||◌, Option, some,
  List, [], ◌∷◌, ◌++◌, map, String, ◌==◌, ==_sound, string_eq, if◌then◌else◌, Bool-cases, or_else,
}

-- `AddressReachabilityStatus`
pub data Reachability : Type 0 where
  unknown reachable unreachable : Reachability

pub record AddressInfo : Type 0 where
  pub address : String
  pub host_type : String
  pub reachability : Reachability
  pub connection_string : String

-- `port` is none for -1; `addresses` and `address_infos` are empty where they are not assigned.
pub record Capability : Type 0 where
  pub protocol_id : String
  pub connection_type : String
  pub prefix : String
  pub port : Option ℕ
  pub path : Option String
  pub addresses : List String
  pub address_infos : List AddressInfo
  pub connection_string : String

abbrev pub protocol : String
protocol = "OPCUAGeneric"

abbrev pub default_port : ℕ
default_port = 4840

abbrev pub has_address : String → List String → Bool
has_address a [] = false
has_address a (b ∷ bs) = b == a || has_address a bs

-- `{prefix}://{address}:{port}{path}`, with the text of the port.
abbrev pub make_url : String → String → String → String → String
make_url prefix address port path =
    str_append (str_append (str_append (str_append (str_append prefix "://") address) ":") port)
      path

-- One round of the loop: the address is new.
pub add_address : (ℕ → String) → Capability → ℕ → AddressInfo → Capability → Capability
add_address number_text source port info target =
    let path = or_else target.path "" in
    let url =
      if source.prefix == target.prefix
      then info.connection_string
      else make_url target.prefix info.address (number_text port) path in
    record target {
      address_infos = target.address_infos ++ record info { connection_string = url } ∷ [];
      connection_string = url;
      addresses = target.addresses ++ info.address ∷ [];
    }

-- The loop, with the addresses that the target had before it, which are read once.
pub add_addresses :
    (ℕ → String) → Capability → ℕ → List String → List AddressInfo → Capability → Capability
unfolding add_address
add_addresses number_text source port known [] target = target
add_addresses number_text source port known (info ∷ infos) target =
    if has_address info.address known
    then add_addresses number_text source port known infos target
    else add_addresses number_text source port known infos
        (add_address number_text source port info target)

abbrev is_nil {ℓ} : {A : Type ℓ} → List A → Bool
is_nil [] = true
is_nil (x ∷ xs) = false

-- `onCompleteServerCapability`
pub on_complete_server_capability : (ℕ → String) → Capability → Capability → Capability × Bool
unfolding add_addresses
on_complete_server_capability number_text source target =
    if not (target.protocol_id == protocol)
    then (target, false)
    else if not (source.connection_type == "TCP/IP")
    then (target, false)
    else if is_nil source.addresses
    then (target, false)
    else if is_nil source.address_infos
    then (target, false)
    else (
      let port = or_else target.port default_port in
          let t = record target { port = some port } in
          add_addresses number_text source port t.addresses source.address_infos t,
      true,
    )

-- The addresses that the loop adds.
unfoldable pub new_addresses : List String → List AddressInfo → List String
new_addresses known [] = []
new_addresses known (info ∷ infos) =
    let rest = new_addresses known infos in
    if has_address info.address known then rest else info.address ∷ rest

append_assoc : (xs ys zs : List String) → (xs ++ ys) ++ zs ≡ xs ++ (ys ++ zs)
append_assoc [] ys zs = refl
append_assoc (x ∷ xs) ys zs = ap (λ l. x ∷ l) (append_assoc xs ys zs)

append_nil : (xs : List String) → xs ++ [] ≡ xs
append_nil [] = refl
append_nil (x ∷ xs) = ap (λ l. x ∷ l) (append_nil xs)

addresses_of : List AddressInfo → List String
addresses_of infos = map (λ (i : AddressInfo). i.address) infos

add_addresses-addresses :
    (f : ℕ → String) (source : Capability) (port : ℕ) (known : List String)
    (infos : List AddressInfo) (target : Capability)
    → (add_addresses f source port known infos target).addresses
      ≡ target.addresses ++ new_addresses known infos
unfolding add_addresses new_addresses
add_addresses-addresses f source port known [] target = sym (append_nil target.addresses)
add_addresses-addresses f source port known (info ∷ infos) target =
    elim (Bool-cases (has_address info.address known)) [
      | inl h ↦ rw h (add_addresses-addresses f source port known infos target)
      | inr h ↦ rw h (
          add_addresses-addresses f source port known infos (add_address f source port info target)
          ∙ unfold add_address in
            append_assoc target.addresses (info.address ∷ []) (new_addresses known infos))
    ]

has_address-append :
    (a : String) (xs ys : List String)
    → has_address a (xs ++ ys) ≡ (has_address a xs || has_address a ys)
has_address-append a [] ys = refl
has_address-append a (x ∷ xs) ys = ground (arith, has_address-append a xs ys)

has_address-new_addresses :
    (a : String) (known : List String) (infos : List AddressInfo)
    → (has_address a known || has_address a (new_addresses known infos))
      ≡ (has_address a known || has_address a (addresses_of infos))
unfolding new_addresses addresses_of
has_address-new_addresses a known [] = refl
has_address-new_addresses a known (info ∷ infos) =
    let ih = has_address-new_addresses a known infos in
    elim (Bool-cases (info.address == a)) [
      | inl h ↦
          let same = ==_sound info.address a h in
          elim (Bool-cases (has_address info.address known)) [
            | inl g ↦ rw g (rw (← same) (rw g refl))
            | inr g ↦ rw g (rw h (ground arith))
          ]
      | inr h ↦ elim (Bool-cases (has_address info.address known)) [
        | inl g ↦ rw (g, h) ih
        | inr g ↦ rw (g, h) ih
      ]
    ]

-- A capability is completed only for the protocol of the module and a source that is reached by
-- TCP/IP and has addresses. Then exactly the addresses of the target and those of the source's
-- address infos are the target's, and an unset port is the default; otherwise nothing is changed.
pub on_complete_server_capability_lem :
    (f : ℕ → String) (source target : Capability)
    → let r = on_complete_server_capability f source target in
      ((r.1 ≡ false) × (r.0 ≡ target))
      ⊎ ((target.protocol_id ≡ protocol)
          × (source.connection_type ≡ "TCP/IP")
          × ((a : String)
              → has_address a r.0.addresses ≡ (
                  has_address a target.addresses
                  || has_address a (map (λ (i : AddressInfo). i.address) source.address_infos))))
unfolding on_complete_server_capability addresses_of
on_complete_server_capability_lem f source target =
    elim (Bool-cases (target.protocol_id == protocol)) [
      | inr h ↦ rw h (inl (refl, refl))
      | inl h ↦ elim (Bool-cases (source.connection_type == "TCP/IP")) [
        | inr g ↦ rw (h, g) (inl (refl, refl))
        | inl g ↦ elim (Bool-cases (is_nil source.addresses)) [
          | inl k ↦ rw (h, g, k) (inl (refl, refl))
          | inr k ↦ elim (Bool-cases (is_nil source.address_infos)) [
            | inl l ↦ rw (h, g, k, l) (inl (refl, refl))
            | inr l ↦
                rw (h, g, k, l)
                  (inr (
                    ==_sound target.protocol_id protocol h,
                    ==_sound source.connection_type "TCP/IP" g,
                    λ a.
                        ap (has_address a) (
                          add_addresses-addresses f source _ target.addresses source.address_infos
                            _)
                        ∙ has_address-append a target.addresses
                            (new_addresses target.addresses source.address_infos)
                        ∙ has_address-new_addresses a target.addresses source.address_infos,
                  ))
          ]
        ]
      ]
    ]
