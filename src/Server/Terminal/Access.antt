-- ===== src/Server/Terminal/Access.antt =====
-- Who runs a terminal, and as which user of the server.
use aerodocs.Server.Gate.{User}
use aerodocs.Server.Terminal.{
  TerminalRequest, grants, is_ldap, has_terminal_server_assignment, ldap_execution_username,
  resolve_assigned_user, resolve_terminal_execution_user,
}
use aerodocs.Base.{
  ◌≡◌, refl, ◌≢◌, ◌⊎◌, inl, inr, true, Option, none, some, List, [], arith, Bool-cases,
  Option-cases, Bytes, text, text_eq, eq_of_text_eq, text_eq_iff,
}

-- A user of LDAP with terminal access, to whom the root of the server is assigned.
pub record Assigned (r : TerminalRequest) (user : User) (execution_user : Bytes) : Type 0 where
  pub provider : user.auth_provider ≡ text "ldap"
  pub access : user.terminal_access ≡ true
  pub paths : List Bytes
  pub granted : r.paths ≡ some paths
  pub root : has_terminal_server_assignment paths ≡ true
  pub named : execution_user ≢ []

-- The user of the request, and what it may run a terminal as.
pub record MayRun (r : TerminalRequest) (execution_user : Bytes) : Type 0 where
  pub user : User
  pub known : r.user ≡ some user
  pub runs_as : execution_user ≡ ldap_execution_username user
  pub allowed : (user.role ≡ text "admin") ⊎ Assigned r user execution_user

assigned :
    (r : TerminalRequest) (user : User) (execution_user : Bytes) (paths : Option (List Bytes))
    → r.paths ≡ paths
    → is_ldap user ≡ true
    → user.terminal_access ≡ true
    → resolve_assigned_user user paths ≡ grants execution_user
    → (execution_user ≡ ldap_execution_username user) × Assigned r user execution_user
unfolding resolve_assigned_user
assigned r user u none at ldap access ok = cc
assigned r user u (some paths) at ldap access ok =
    let same : u ≡ ldap_execution_username user = ground (arith, ok) in
    let named : ldap_execution_username user ≢ [] =
      ground (arith, ok, text_eq_iff (ldap_execution_username user) []) in
    (
      same,
      record {
        provider = eq_of_text_eq user.auth_provider (text "ldap") ldap;
        access = access;
        paths = paths;
        granted = at;
        root = ground (arith, ok);
        named = rw same named;
      },
    )

-- A terminal is granted only to a user that the store knows: to an admin, or to an LDAP user with terminal
-- access to whom the root of that server is assigned. It runs as that user's own LDAP name, and only
-- an admin's terminal can run without a name, as the agent itself.
pub resolve_terminal_execution_user-IsSound :
    (r : TerminalRequest) (execution_user : Bytes)
    → resolve_terminal_execution_user r ≡ grants execution_user
    → MayRun r execution_user
unfolding resolve_terminal_execution_user
resolve_terminal_execution_user-IsSound r u ok = elim (Option-cases r.user) [
  | inl gone ↦ absurd (ground (arith, gone, ok))
  | inr (user, known) ↦ elim (Bool-cases (text_eq user.role (text "admin"))) [
    | inl admin ↦ record {
      user = user;
      known = known;
      runs_as = ground (arith, known, admin, ok);
      allowed = inl (eq_of_text_eq user.role (text "admin") admin);
    }
    | inr ordinary ↦
        let ldap : is_ldap user ≡ true = ground (arith, known, ordinary, ok) in
        let access : user.terminal_access ≡ true = ground (arith, known, ordinary, ok) in
        let resolved : resolve_assigned_user user r.paths ≡ grants u =
          ground (arith, known, ordinary, ldap, access, ok) in
        let (same, rest) = assigned r user u r.paths refl ldap access resolved in
        record { user = user; known = known; runs_as = same; allowed = inr rest }
  ]
]
