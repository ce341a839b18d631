-- ===== src/Server.antt =====
-- The server. Here are its sessions: `activateSession`, `closeSession`, `createSession` and the validation of
-- identity tokens in opcuaserver.cpp of shared/libraries/opcua/opcuaserver.
pub mod Sessions
pub mod Lifecycle
pub mod EventManager
pub mod TaskQueue
mod Examples
use opc_ua_modules.Base.{
  ℕ, Bool, true, false, Option, none, some, List, [], ◌∷◌, String, HasEq, ◌==◌, if◌then◌else◌, keep,
  not, nat_eq, nat_beq,
}
use opc_ua_modules.Base.Int.{ℤ}
use opc_ua_modules.ServerLock.{ServerLock, refuse_configuration_control_lock}

pub data Status : Type 0 where
  good bad_user_access_denied bad_identity_token_invalid bad_other : Status

pub data IdentityToken : Type 0 where
  username : String → String → IdentityToken
  anonymous other_token : IdentityToken

-- What the server is given: the authentication provider, where none is a thrown `DaqException`, and
-- the callback that creates a session's context, where none is no callback and `some none` one
-- that answers with a null pointer. `peer_of` is the peer address of a session's socket, where it has
-- one and `getpeername` succeeds.
pub record Hooks {ℓ} (N : Type ℓ) : Type ℓ where
  pub authenticate : String → String → Option ℕ
  pub is_anonymous_allowed : Bool
  pub authenticate_anonymous : Option ℕ
  pub create_session_context : Option (N → Option ℕ → Option ℕ)
  pub has_connected_handler : Bool
  pub has_disconnected_handler : Bool
  pub has_delete_callback : Bool
  pub has_client_info_handler : Bool
  pub peer_of : N → Option ℕ

-- `session_context` is the set of contexts; `connected` and `disconnected` are the calls of the two
-- handlers, the last one first; `deleted` is the calls of the callback for contexts, and `scheduled`
-- the client infos that were scheduled.
pub record Server {ℓ} (N : Type ℓ) : Type ℓ where
  pub server_lock : ServerLock N
  pub session_context : List ℕ
  pub connected : List N
  pub disconnected : List N
  pub deleted : List (Option ℕ)
  pub scheduled : List (N × ℕ)

-- `std::set` of context pointers.
unfoldable pub member : ℕ → List ℕ → Bool
member c [] = false
member c (d ∷ ds) = if nat_beq d c then true else member c ds

unfoldable pub insert_context : ℕ → List ℕ → List ℕ
unfolding member
insert_context c cs = if member c cs then cs else c ∷ cs

abbrev pub erase_context : ℕ → List ℕ → List ℕ
erase_context c = keep (λ d. not (nat_beq d c))

module _ {ℓ} {N : Type ℓ} where
  -- The user that the provider answers with, and none where it throws.
  pub validate_identity_token : Hooks N → IdentityToken → Status × Option ℕ
  validate_identity_token h (username u p) = elim (h.authenticate u p) [
    | none ↦ (bad_user_access_denied, none)
    | some user ↦ (good, some user)
  ]
  validate_identity_token h anonymous =
      if h.is_anonymous_allowed
      then (elim h.authenticate_anonymous [
        | none ↦ (bad_user_access_denied, none)
        | some user ↦ (good, some user)
      ])
      else (bad_user_access_denied, none)
  validate_identity_token h other_token = (bad_identity_token_invalid, none)

  insert_created : Option ℕ → Server N → Server N
  insert_created none s = s
  insert_created (some c) s = record s { session_context = insert_context c s.session_context }

  -- `context` is what `*sessionContext` points to, and the result its new value.
  pub create_session : Hooks N → N → Option ℕ → Option ℕ → Server N → Server N × Option ℕ
  unfolding insert_created insert_context
  create_session h id user (some c) s = (s, some c)
  create_session h id user none s = elim h.create_session_context [
    | none ↦ (s, none)
    | some create ↦ (insert_created (create id user) s, create id user)
  ]

  -- The part of `activateSession` after the default handler, whose answer is `status`.
  revalidate : Hooks N → IdentityToken → Status → Status × Option ℕ
  revalidate h token bad_other = (bad_other, none)
  revalidate h token good = validate_identity_token h token
  revalidate h token bad_user_access_denied = validate_identity_token h token
  revalidate h token bad_identity_token_invalid = validate_identity_token h token

  -- The calls of the handlers once a session is active.
  unfoldable pub report_connected : Hooks N → N → Server N → Server N
  report_connected h id s =
      if h.has_connected_handler then record s { connected = id ∷ s.connected } else s

  unfoldable pub schedule_client_info : Hooks N → N → Server N → Server N
  schedule_client_info h id s =
      if h.has_client_info_handler
      then (elim (h.peer_of id) [
        | none ↦ s
        | some address ↦ record s { scheduled = (id, address) ∷ s.scheduled }
      ])
      else s

  activated : Hooks N → N → Option ℕ → Status × Option ℕ → Server N → Server N × Option ℕ × Status
  unfolding create_session report_connected schedule_client_info
  activated h id context (good, user) s =
      let t = create_session h id user context s in
      (schedule_client_info h id (report_connected h id (t.0)), t.1, good)
  activated h id context (bad_user_access_denied, user) s = (s, context, bad_user_access_denied)
  activated h id context (bad_identity_token_invalid, user) s =
      (s, context, bad_identity_token_invalid)
  activated h id context (bad_other, user) s = (s, context, bad_other)

  pub activate_session :
      Hooks N → Status → N → IdentityToken → Option ℕ → Server N → Server N × Option ℕ × Status
  unfolding revalidate validate_identity_token activated
  activate_session h status id token context s =
      activated h id context (revalidate h token status) s

  pub close_session : ⦃e : HasEq N⦄ → Hooks N → ℤ → N → Option ℕ → Server N → Server N
  close_session h now id context s = record s {
    server_lock = refuse_configuration_control_lock now id s.server_lock;
    session_context = elim context [
      | none ↦ s.session_context
      | some c ↦ erase_context c s.session_context
    ];
    deleted = if h.has_delete_callback then context ∷ s.deleted else s.deleted;
    disconnected = if h.has_disconnected_handler then id ∷ s.disconnected else s.disconnected;
  }
