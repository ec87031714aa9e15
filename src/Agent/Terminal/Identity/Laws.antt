-- ===== src/Agent/Terminal/Identity/Laws.antt =====
-- Which identities a terminal can get.
use aerodocs.Agent.Terminal.Identity.{
  OsUser, System, starts_with_dash, is_username_char, validate_run_as_username, parse_uint32,
  parse_groups, ExecutionIdentity, identity_of, lookup_run_as_identity,
  execution_identity_for_run_as,
}
use aerodocs.Agent.Terminal.Identity.Numbers.{
  IsNumber, AreNumbers, parse_uint32-IsNumber, parse_groups-AreNumbers,
}
use aerodocs.Agent.Terminal.Identity.Database.{IsKnown, AreGroups, lookup-IsKnown}
use aerodocs.Base.{
  ◌≤◌, ◌≡◌, refl, ◌≢◌, ◌⊎◌, inl, inr, true, false, not, some, List, [], arith, Bool-cases,
  Option-cases, returns, raises, length, any, Bytes, text, text_eq, text_eq_iff,
}

-- A name that the agent runs a command for: it is no option of the command.
pub record IsName (name : Bytes) : Type 0 where
  pub nonempty : name ≢ []
  pub short : length name ≤ 128
  pub no_dash : starts_with_dash name ≡ false
  pub plain : any (λ r. not (is_username_char r)) name ≡ false

validated : (name : Bytes) → validate_run_as_username name ≡ true → IsName name
unfolding validate_run_as_username
validated name ok = record {
  nonempty = ground (arith, ok, text_eq_iff name []);
  short = ground (arith, ok);
  no_dash = ground (arith, ok);
  plain = ground (arith, ok);
}

-- The identity of the user that the system knows by a name, with its groups.
pub record IsIdentity (sys : System) (name : Bytes) (i : ExecutionIdentity) : Type 0 where
  pub user : OsUser
  pub known : IsKnown sys name user
  pub ids : List Bytes
  pub grouped : AreGroups sys name user ids
  pub uid : IsNumber user.uid i.uid
  pub gid : IsNumber user.gid i.gid
  pub groups : AreNumbers ids i.groups
  pub username : i.username ≡ user.username
  pub home_dir : i.home_dir ≡ user.home_dir

identity_of-IsIdentity :
    (sys : System) (name : Bytes) (u : OsUser) (ids : List Bytes)
    → IsKnown sys name u
    → AreGroups sys name u ids
    → ((error : Bytes) × (identity_of u ids ≡ raises error))
      ⊎ ((i : ExecutionIdentity) × ((identity_of u ids ≡ returns (some i)) × IsIdentity sys name i))
unfolding identity_of
identity_of-IsIdentity sys name u ids known grouped = elim (Option-cases (parse_uint32 u.uid)) [
  | inl bad ↦ inl (text "terminal execution user has invalid uid", rw (bad, identity_of) refl)
  | inr (uid, e) ↦ elim (Option-cases (parse_uint32 u.gid)) [
    | inl bad ↦ inl (text "terminal execution user has invalid gid", rw (e, bad, identity_of) refl)
    | inr (gid, e') ↦ elim (Option-cases (parse_groups ids)) [
      | inl bad ↦
          inl (text "terminal execution user has invalid group", rw (e, e', bad, identity_of) refl)
      | inr (groups, e'') ↦ inr (
        record {
          uid = uid;
          gid = gid;
          groups = groups;
          username = u.username;
          home_dir = u.home_dir;
        },
        (
          rw (e, e', e'', identity_of) refl,
          record {
            user = u;
            known = known;
            ids = ids;
            grouped = grouped;
            uid = parse_uint32-IsNumber u.uid uid e;
            gid = parse_uint32-IsNumber u.gid gid e';
            groups = parse_groups-AreNumbers ids groups e'';
            username = refl;
            home_dir = refl;
          },
        ),
      )
    ]
  ]
]

-- A terminal that the hub wants to run as a user is refused; or it gets the identity of the user that
-- the system knows by that name: its numbers, all below 2^32, are those that the library's user, or else
-- the line of `getent`, has in decimal, as are the groups of the library or of `id`; and its user name
-- and home directory are that user's. Then the name is not empty, has at most 128 characters, all of
-- them letters, digits or one of `_-.@`, and does not begin with a dash.
pub execution_identity_for_run_as-IsIdentity :
    (sys : System) (run_as : Bytes)
    → run_as ≢ []
    → ((error : Bytes) × (execution_identity_for_run_as sys run_as ≡ raises error))
      ⊎ ((i : ExecutionIdentity) × ((execution_identity_for_run_as sys run_as ≡ returns (some i))
            × (IsIdentity sys run_as i × IsName run_as)))
unfolding execution_identity_for_run_as
execution_identity_for_run_as-IsIdentity sys run_as given =
    let named : text_eq run_as [] ≡ false = ground (arith, text_eq_iff run_as [], given) in
    elim (Bool-cases (validate_run_as_username run_as)) [
      | inr bad ↦ inl (
        text "invalid terminal execution user",
        rw (named, bad, execution_identity_for_run_as) refl,
      )
      | inl ok ↦ elim (Option-cases (lookup_run_as_identity sys run_as)) [
        | inl unknown ↦ inl (
          text "terminal execution user not available",
          rw (named, ok, unknown, execution_identity_for_run_as) refl,
        )
        | inr ((u, ids), found) ↦
            let (known, grouped) = lookup-IsKnown sys run_as u ids found in
            elim (identity_of-IsIdentity sys run_as u ids known grouped) [
              | inl (error, bad) ↦
                  inl (error, rw (named, ok, found, execution_identity_for_run_as) bad)
              | inr (i, (e, sound)) ↦ inr (
                i,
                (
                  rw (named, ok, found, execution_identity_for_run_as) e,
                  (sound, validated run_as ok),
                ),
              )
            ]
      ]
    ]
