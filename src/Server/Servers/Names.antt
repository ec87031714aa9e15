-- ===== src/Server/Servers/Names.antt =====
-- The name of a server that was created stays taken.
use aerodocs.Store.Servers.{Server, get_server_by_name, create_server}
use aerodocs.Store.Servers.Unique.{Change, run}
use aerodocs.Store.Servers.Names.{is_named, frees, run-Named, name_found}
use aerodocs.Server.Gate.{HttpRequest}
use aerodocs.Server.Servers.{fails, server_created, audited, Fleet}
use aerodocs.Server.Servers.Address.{Settings}
use aerodocs.Server.Servers.Creation.{
  CreateServer, new_server, answer_created, handle_create_server,
}
use aerodocs.Base.{
  ℕ, ◌≡◌, refl, ap, ◌⊎◌, inl, inr, true, false, some, List, [], ◌∷◌, ◌++◌, arith, Bool-cases,
  Option-cases, any, Bytes, text, text_eq, text_eq_refl,
}

last_named :
    (req : CreateServer) (rows : List Server)
    → any (is_named req.id req.name) (rows ++ new_server req ∷ []) ≡ true
unfolding new_server
last_named req [] = ground (arith, text_eq_refl req.id, text_eq_refl req.name)
last_named req (srv ∷ rows) = ground (arith, last_named req rows)

stored :
    (req : CreateServer) (rows rows' : List Server)
    → create_server (new_server req) rows ≡ some rows'
    → any (is_named req.id req.name) rows' ≡ true
unfolding create_server new_server
stored req rows rows' e =
    let value : rows ++ new_server req ∷ [] ≡ rows' = ground (arith, e) in
    rw (← value) (last_named req rows)

refused_again :
    (s : Settings) (r : HttpRequest) (req : CreateServer) (fleet : Fleet) (srv : Server)
    → text_eq req.name [] ≡ false
    → get_server_by_name req.name fleet.servers ≡ some srv
    → handle_create_server s r (some req) fleet
      ≡ (fleet, fails 409 (text "a server with this name already exists"))
unfolding handle_create_server
refused_again s r req fleet srv named held = rw (named, held, handle_create_server) refl

-- A request to create a server is refused and changes nothing; or its server is stored, whatever is
-- answered then, also if it is an error. In that case, after any operations on the table of servers
-- that neither delete that server nor set its name and labels, a request to create a server with the
-- same name is refused as a duplicate and changes nothing.
pub handle_create_server_again :
    (s s' : Settings) (r r' : HttpRequest) (req req' : CreateServer) (fleet later : Fleet)
    (cs : List Change)
    → later.servers ≡ run cs (handle_create_server s r (some req) fleet).0.servers
    → any (frees req.id) cs ≡ false
    → req'.name ≡ req.name
    → let out = handle_create_server s r (some req) fleet in
      ((status : ℕ) × ((message : Bytes) × (out ≡ (fleet, fails status message))))
      ⊎ ((out.1 ≡ answer_created s r req)
          × (handle_create_server s' r' (some req') later
              ≡ (later, fails 409 (text "a server with this name already exists"))))
unfolding handle_create_server get_server_by_name
handle_create_server_again s s' r r' req req' fleet later cs at spared same =
    elim (Bool-cases (text_eq req.name [])) [
      | inl unnamed ↦
          inl (400, (text "server name is required", rw (unnamed, handle_create_server) refl))
      | inr named ↦ elim (Option-cases (get_server_by_name req.name fleet.servers)) [
        | inr (srv, held) ↦ inl (
          409,
          (
            text "a server with this name already exists",
            refused_again s r req fleet srv named held,
          ),
        )
        | inl free ↦ elim (Option-cases (create_server (new_server req) fleet.servers)) [
          | inl lost ↦ inl (
            500,
            (text "failed to create server", rw (named, free, lost, handle_create_server) refl),
          )
          | inr (rows, kept_rows) ↦
              let value : handle_create_server s r (some req) fleet ≡ (
                audited (server_created req.id) (record fleet { servers = rows }),
                answer_created s r req,
              ) =
                rw (named, free, kept_rows, handle_create_server) refl in
              let there : later.servers ≡ run cs rows = rw value at at in
              let holds =
                run-Named req.id req.name cs rows spared
                  (stored req fleet.servers rows kept_rows) in
              let (srv, found) = name_found req.id req.name (run cs rows) holds in
              inr (
                ap (λ out. out.1) value,
                refused_again s' r' req' later srv (rw same named) (rw (there, same) found),
              )
        ]
      ]
    ]
