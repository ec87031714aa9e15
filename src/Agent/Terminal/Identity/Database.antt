-- ===== src/Agent/Terminal/Identity/Database.antt =====
-- What the system says of a user.
use aerodocs.Agent.Terminal.Identity.{
  OsUser, System, first_line, parse_getent_passwd_line, lookup_user_with_getent, parse_group_ids,
  lookup_group_ids_with_id, with_groups, lookup_run_as_identity,
}
use aerodocs.Agent.Terminal.Identity.Passwd.{IsPasswdLine, parse-IsPasswdLine}
use aerodocs.Base.{◌≡◌, inl, inr, none, some, List, arith, Option-cases, Bytes}

-- A user that the system knows by a name: from the library, or else from `getent`.
pub data IsKnown (sys : System) (name : Bytes) (u : OsUser) : Type 0 where
  by_library : sys.lookup_os_user name ≡ some u → IsKnown sys name u
  by_getent :
      (output : Bytes)
      → sys.lookup_os_user name ≡ none
      → sys.getent_passwd name ≡ some output
      → IsPasswdLine (first_line (sys.trim_space output)) u
      → IsKnown sys name u

-- The groups of a user: from the library, or else from `id`.
pub data AreGroups (sys : System) (name : Bytes) (u : OsUser) (ids : List Bytes) : Type 0 where
  of_library : sys.lookup_os_user_groups u ≡ some ids → AreGroups sys name u ids
  of_id :
      (output : Bytes)
      → sys.id_groups name ≡ some output
      → sys.fields output ≡ ids
      → AreGroups sys name u ids

id-AreGroups :
    (sys : System) (name : Bytes) (u v : OsUser) (ids : List Bytes)
    → with_groups v (lookup_group_ids_with_id sys name) ≡ some (u, ids)
    → (v ≡ u) × AreGroups sys name u ids
unfolding lookup_group_ids_with_id parse_group_ids
id-AreGroups sys name u v ids e = elim (Option-cases (sys.id_groups name)) [
  | inl gone ↦ absurd (ground (arith, gone, e))
  | inr (output, told) ↦ (ground (arith, told, e), of_id output told (ground (arith, told, e)))
]

pub lookup-IsKnown :
    (sys : System) (name : Bytes) (u : OsUser) (ids : List Bytes)
    → lookup_run_as_identity sys name ≡ some (u, ids)
    → IsKnown sys name u × AreGroups sys name u ids
unfolding lookup_run_as_identity lookup_user_with_getent
lookup-IsKnown sys name u ids e = elim (Option-cases (sys.lookup_os_user name)) [
  | inr (v, found) ↦ elim (Option-cases (sys.lookup_os_user_groups v)) [
    | inr (groups, listed) ↦
        let same : v ≡ u = ground (arith, found, listed, e) in
        let same_ids : groups ≡ ids = ground (arith, found, listed, e) in
        (by_library (rw (← same) found), of_library (rw (← same, ← same_ids) listed))
    | inl unlisted ↦
        let (same, groups) =
          id-AreGroups sys name u v ids (rw (found, unlisted, lookup_run_as_identity) at e) in
        (by_library (rw (← same) found), groups)
  ]
  | inl unknown ↦ elim (Option-cases (sys.getent_passwd name)) [
    | inl gone ↦ absurd (ground (arith, unknown, gone, e))
    | inr (output, told) ↦
        let line = first_line (sys.trim_space output) in
        elim (Option-cases (parse_getent_passwd_line line)) [
          | inl bad ↦ absurd (ground (arith, unknown, told, bad, e))
          | inr (v, parsed) ↦
              let (same, groups) = id-AreGroups sys name u v ids (
                rw (unknown, told, parsed, lookup_run_as_identity, lookup_user_with_getent) at e) in
              (
                by_getent output unknown told (parse-IsPasswdLine line u (rw (← same) parsed)),
                groups,
              )
        ]
  ]
]
