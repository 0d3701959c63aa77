-- ===== src/Management/Policy.antt =====
-- backend/crates/management-policy/src/identity.rs and policy.rs: the decision of an operation's scope
-- from an authentication snapshot.
use grove_storage.Prelude.{ℕ, ◌≡◌, ◌≤◌, Bool, true, false, arith}

pub data Role : Type 0 where
  reader writer admin : Role

pub data AccountState : Type 0 where
  active disabled deleted : AccountState

pub data CredentialState : Type 0 where
  valid expired revoked invalid : CredentialState

pub data AuthMethod : Type 0 where
  user_session management_token : AuthMethod

pub data Surface : Type 0 where
  console cli mcp resource_api : Surface

-- `Actor::User` is its only case.
pub record Caller : Type 0 where
  pub role : Role
  pub account : AccountState
  pub method : AuthMethod
  pub credential : CredentialState

pub data Action : Type 0 where
  read_resources write_resources manage_service_credentials read_own_sessions revoke_own_sessions
        read_identities manage_identities read_audit_history read_invocation_history
        read_security_events :
      Action

pub data Scope : Type 0 where
  installation self_only : Scope

pub data Denial : Type 0 where
  invalid_credential inactive_account invalid_authentication_context console_session_required
        insufficient_role :
      Denial

pub data Decision : Type 0 where
  allowed : Scope → Decision
  denied : Denial → Decision

-- The pairs of method and surface that routing may produce.
abbrev pub context_ok : AuthMethod → Surface → Bool
context_ok user_session console = true
context_ok user_session _ = false
context_ok management_token console = false
context_ok management_token _ = true

abbrev pub require_console_session : AuthMethod → Decision → Decision
require_console_session user_session d = d
require_console_session management_token d = denied console_session_required

abbrev pub decide : Action → AuthMethod → Role → Decision
decide read_resources m r = allowed installation
decide write_resources m reader = denied insufficient_role
decide write_resources m _ = allowed installation
decide manage_service_credentials m reader = denied insufficient_role
decide manage_service_credentials m _ = allowed installation
decide read_own_sessions m r = require_console_session m (allowed self_only)
decide revoke_own_sessions m r = require_console_session m (allowed self_only)
decide read_identities m admin = require_console_session m (allowed installation)
decide read_identities m _ = require_console_session m (denied insufficient_role)
decide manage_identities m admin = require_console_session m (allowed installation)
decide manage_identities m _ = require_console_session m (denied insufficient_role)
decide read_security_events m admin = require_console_session m (allowed installation)
decide read_security_events m _ = require_console_session m (denied insufficient_role)
decide read_audit_history m admin = require_console_session m (allowed installation)
decide read_audit_history m _ = require_console_session m (allowed self_only)
decide read_invocation_history m admin = require_console_session m (allowed installation)
decide read_invocation_history m _ = require_console_session m (allowed self_only)

abbrev pub decide_in_context : Caller → Surface → Action → Decision
decide_in_context c surface action = elim (context_ok c.method surface) [
  | true ↦ decide action c.method c.role
  | false ↦ denied invalid_authentication_context
]

abbrev pub decide_active : Caller → Surface → Action → Decision
decide_active c surface action = elim c.account [
  | active ↦ decide_in_context c surface action
  | _ ↦ denied inactive_account
]

unfoldable pub authorize : Caller → Surface → Action → Decision
authorize c surface action = elim c.credential [
  | valid ↦ decide_active c surface action
  | _ ↦ denied invalid_credential
]

abbrev pub rank : Role → ℕ
rank reader = 0
rank writer = 1
rank admin = 2

-- How far a decision reaches.
abbrev pub reach : Decision → ℕ
reach (denied d) = 0
reach (allowed self_only) = 1
reach (allowed installation) = 2

-- A role of a higher rank reaches at least as far, for the same session, surface and action.
pub authorize-rank :
    (c : Caller) (role : Role) (surface : Surface) (action : Action)
    → rank c.role ≤ rank role
    → reach (authorize c surface action)
      ≤ reach (authorize (record c { role = role }) surface action)
unfolding authorize
authorize-rank c role surface action h = ground arith

abbrev pub console_only : Action → Bool
console_only read_resources = false
console_only write_resources = false
console_only manage_service_credentials = false
console_only _ = true

abbrev pub is_console : Surface → Bool
is_console console = true
is_console _ = false

-- A caller that is allowed anything has a valid credential and an active account; an identity,
-- session, audit or security action is allowed to a user session on the console only.
pub authorize-allowed :
    (c : Caller) (surface : Surface) (action : Action) (scope : Scope)
    → authorize c surface action ≡ allowed scope
    → (c.credential ≡ valid)
      × (c.account ≡ active)
      × (console_only action ≡ true → (c.method ≡ user_session) × (is_console surface ≡ true))
unfolding authorize
authorize-allowed c surface action scope h = ground arith
