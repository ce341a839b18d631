-- ===== src/Server/Sessions.antt =====
-- Who gets a session, and which contexts the server keeps.
use opc_ua_modules.Base.{
  ℕ, ◌≡◌, ◌≢◌, ◌⊎◌, inl, inr, refl, true, false, Option, none, some, List, [], ◌∷◌, String, HasEq,
  arith, Option-cases, ap, ◌∙◌,
}
use opc_ua_modules.Base.Int.{ℤ}
use opc_ua_modules.Server.{
  Status, good, bad_user_access_denied, bad_identity_token_invalid, bad_other, IdentityToken,
  username, anonymous, other_token, Hooks, Server, member, insert_context, erase_context,
  validate_identity_token, activate_session, close_session, activated, revalidate,
}

-- The token is accepted by the provider, and names the user.
pub data Accepted {ℓ} {N : Type ℓ} (h : Hooks N) : IdentityToken → ℕ → Type ℓ where
  by_password :
      {u p : String} {user : ℕ} → h.authenticate u p ≡ some user → Accepted h (username u p) user
  by_anonymity :
      {user : ℕ}
      → h.is_anonymous_allowed ≡ true
      → h.authenticate_anonymous ≡ some user
      → Accepted h anonymous user

erase_context_absent : (c : ℕ) (cs : List ℕ) → member c cs ≡ false → erase_context c cs ≡ cs
unfolding member
erase_context_absent c [] m = refl
erase_context_absent c (d ∷ ds) m = ground (arith, erase_context_absent c ds)

erase_context-insert_context :
    (c : ℕ) (cs : List ℕ) → member c cs ≡ false → erase_context c (insert_context c cs) ≡ cs
unfolding insert_context
erase_context-insert_context c cs m = ground (arith, m, erase_context_absent c cs m)

module _ {ℓ} {N : Type ℓ} where
  validate-Accepted :
      (h : Hooks N) (t : IdentityToken)
      → (validate_identity_token h t).0 ≡ good
      → (user : ℕ) × ((validate_identity_token h t).1 ≡ some user) × Accepted h t user
  unfolding validate_identity_token
  validate-Accepted h (username u p) g = elim (Option-cases (h.authenticate u p)) [
    | inl e ↦ absurd (ground arith)
    | inr (user, e) ↦ (user, ground arith, by_password e)
  ]
  validate-Accepted h anonymous g = elim (Option-cases h.authenticate_anonymous) [
    | inl e ↦ absurd (ground arith)
    | inr (user, e) ↦ (user, ground arith, by_anonymity (ground arith) e)
  ]
  validate-Accepted h other_token g = absurd (cc)

  activated-Accepted :
      (h : Hooks N) (id : N) (t : IdentityToken) (context : Option ℕ) (s : Server N)
      (v : Status × Option ℕ)
      → validate_identity_token h t ≡ v
      → let r = activated h id context v s in
        ((r.2 ≡ good) × ((user : ℕ) × Accepted h t user))
        ⊎ ((r.2 ≢ good) × (r.0 ≡ s) × (r.1 ≡ context))
  unfolding activated
  activated-Accepted h id t context s (good, user) e =
      let (u, _, a) = validate-Accepted h t (ap (λ (x : Status × Option ℕ). x.0) e) in
      inl (refl, (u, a))
  activated-Accepted h id t context s (bad_user_access_denied, user) e =
      inr ((λ x. absurd (cc)), refl, refl)
  activated-Accepted h id t context s (bad_identity_token_invalid, user) e =
      inr ((λ x. absurd (cc)), refl, refl)
  activated-Accepted h id t context s (bad_other, user) e = inr ((λ x. absurd (cc)), refl, refl)

  -- A session is activated only for a token that the authentication provider accepts, also where
  -- the default handler of the stack answered good. Any other call answers with a bad status and
  -- changes nothing.
  pub activate_session-Accepted :
      (h : Hooks N) (status : Status) (id : N) (t : IdentityToken) (context : Option ℕ)
      (s : Server N)
      → let r = activate_session h status id t context s in
        ((r.2 ≡ good) × ((user : ℕ) × Accepted h t user))
        ⊎ ((r.2 ≢ good) × (r.0 ≡ s) × (r.1 ≡ context))
  unfolding activate_session
  activate_session-Accepted h bad_other id t context s = inr ((λ x. absurd (cc)), refl, refl)
  activate_session-Accepted h good id t context s = activated-Accepted h id t context s _ refl
  activate_session-Accepted h bad_user_access_denied id t context s =
      activated-Accepted h id t context s _ refl
  activate_session-Accepted h bad_identity_token_invalid id t context s =
      activated-Accepted h id t context s _ refl

  activated_again :
      (h : Hooks N) (id : N) (c : ℕ) (v : Status × Option ℕ) (s : Server N)
      → let r = activated h id (some c) v s in
        (r.1 ≡ some c) × (r.0.session_context ≡ s.session_context)
  unfolding activated
  activated_again h id c (good, user) s = (refl, ground arith)
  activated_again h id c (bad_user_access_denied, user) s = (refl, refl)
  activated_again h id c (bad_identity_token_invalid, user) s = (refl, refl)
  activated_again h id c (bad_other, user) s = (refl, refl)

  activate_session_again :
      (h : Hooks N) (status : Status) (id : N) (t : IdentityToken) (c : ℕ) (s : Server N)
      → let r = activate_session h status id t (some c) s in
        (r.1 ≡ some c) × (r.0.session_context ≡ s.session_context)
  unfolding activate_session
  activate_session_again h status id t c s = activated_again h id c (revalidate h t status) s

  activated-context :
      (h : Hooks N) (id : N) (v : Status × Option ℕ) (c : ℕ) (s : Server N)
      → (activated h id none v s).1 ≡ some c
      → (activated h id none v s).0.session_context ≡ insert_context c s.session_context
  unfolding activated
  activated-context h id (good, user) c s e = ground arith
  activated-context h id (bad_user_access_denied, user) c s e = absurd (cc)
  activated-context h id (bad_identity_token_invalid, user) c s e = absurd (cc)
  activated-context h id (bad_other, user) c s e = absurd (cc)

  -- Closing a session gives up the context that its activation created, and only that, also when the
  -- session was activated again in between: a second activation keeps the context.
  pub close_session-activate_session :
      ⦃e : HasEq N⦄ (h : Hooks N) (status status' : Status) (id : N) (t t' : IdentityToken) (c : ℕ)
      (now : ℤ) (s : Server N)
      → member c s.session_context ≡ false
      → (activate_session h status id t none s).1 ≡ some c
      → let first = (activate_session h status id t none s).0 in
        let again = activate_session h status' id t' (some c) first in
        (again.1 ≡ some c)
        × ((close_session h now id (some c) first).session_context ≡ s.session_context)
        × ((close_session h now id (some c) again.0).session_context ≡ s.session_context)
  unfolding activate_session close_session
  close_session-activate_session h status status' id t t' c now s m a =
      let first = (activate_session h status id t none s).0 in
      let (context, kept) = activate_session_again h status' id t' c first in
      let closed =
        ap (erase_context c) (activated-context h id (revalidate h t status) c s a)
        ∙ erase_context-insert_context c s.session_context m in
      (context, closed, ap (erase_context c) kept ∙ closed)
