-- ===== src/Grpc/Handler/Once.antt =====
-- A registration token registers one agent, once.
use aerodocs.Grpc.Handler.{RegisterAgent, Environment}
use aerodocs.Grpc.Handler.Registration.{
  is_expired, issue_registration_certificate, activate, handle_register,
}
use aerodocs.Store.Servers.{Server, has_token, get_server_by_token, Activation, activate_server}
use aerodocs.Store.Servers.Updates.{query_row-none}
use aerodocs.Store.Servers.Unique.{Change, run, brings, run-OneEach, run-used}
use aerodocs.Store.Servers.Tokens.{activate_server-used}
use aerodocs.Base.{
  ℕ, ◌≡◌, refl, ap, ◌∙◌, ◌⊎◌, inl, inr, false, none, some, List, [], arith, Bool-cases,
  Option-cases, Result, returns, raises, any, Bytes, text,
}

abbrev pub Outcome : Type 0
Outcome = List Server × Result (Bytes × (Bytes × Bytes))

abbrev pub activation : RegisterAgent → Bytes → Activation
activation reg agent_ip = record {
  hostname = reg.hostname;
  ip = agent_ip;
  os = reg.os;
  agent_version = reg.agent_version;
}

-- A registration that succeeds: of the server that has the token, which is not expired, with a
-- certificate that the hub signed for that server's id.
pub record Registers (env : Environment) (now : ℕ) (reg : RegisterAgent) (agent_ip : Bytes)
    (rows : List Server) (out : Outcome) : Type 0 where
  pub srv : Server
  pub found : get_server_by_token (env.hash_token reg.token) rows ≡ some srv
  pub fresh : is_expired env now srv.token_expires_at ≡ false
  pub certs : Bytes × Bytes
  pub issued : issue_registration_certificate env srv.id reg.csr ≡ returns certs
  pub rows' : List Server
  pub stored :
      activate_server (env.format_time now) srv.id (activation reg agent_ip) rows ≡ some rows'
  pub answer : out ≡ (rows', returns (srv.id, certs))

Result-cases {ℓ} :
    {A : Type ℓ} (r : Result A)
    → ((error : Bytes) × (r ≡ raises error)) ⊎ ((a : A) × (r ≡ returns a))
Result-cases (raises error) = inl (error, refl)
Result-cases (returns a) = inr (a, refl)

-- A registration fails, and leaves the table as it was, or it succeeds.
pub handle_register-cases :
    (env : Environment) (now : ℕ) (reg : RegisterAgent) (agent_ip : Bytes) (rows : List Server)
    → ((error : Bytes) × (handle_register env now reg agent_ip rows ≡ (rows, raises error)))
      ⊎ Registers env now reg agent_ip rows (handle_register env now reg agent_ip rows)
unfolding handle_register activate
handle_register-cases env now reg agent_ip rows =
    elim (Option-cases (get_server_by_token (env.hash_token reg.token) rows)) [
      | inl gone ↦
          inl (text "invalid or expired registration token", rw (gone, handle_register) refl)
      | inr (srv, found) ↦ elim (Bool-cases (is_expired env now srv.token_expires_at)) [
        | inl late ↦ inl (text "registration token expired", rw (found, late, handle_register) refl)
        | inr fresh ↦ elim (Result-cases (issue_registration_certificate env srv.id reg.csr)) [
          | inl (error, bad) ↦ inl (error, rw (found, fresh, bad, handle_register, activate) refl)
          | inr (certs, issued) ↦
              elim (Option-cases
                (activate_server (env.format_time now) srv.id (activation reg agent_ip) rows)) [
                  | inl lost ↦ inl (
                    text "failed to activate server: server not found",
                    rw (found, fresh, issued, lost, handle_register, activate) refl,
                  )
                  | inr (rows', stored) ↦ inr (record {
                    srv = srv;
                    found = found;
                    fresh = fresh;
                    certs = certs;
                    issued = issued;
                    rows' = rows';
                    stored = stored;
                    answer = rw (found, fresh, issued, stored, handle_register, activate) refl;
                  })
                ]
        ]
      ]
    ]

unknown_refused :
    (env : Environment) (now : ℕ) (reg : RegisterAgent) (agent_ip : Bytes) (rows : List Server)
    → get_server_by_token (env.hash_token reg.token) rows ≡ none
    → handle_register env now reg agent_ip rows
      ≡ (rows, raises (text "invalid or expired registration token"))
unfolding handle_register
unknown_refused env now reg agent_ip rows gone = rw (gone, handle_register) refl

-- Once a token has registered an agent, it registers none again, whenever it is tried and whatever was
-- done with the table before and after, if no server was created with the same token afterwards: it
-- is refused as invalid and the table stays as it is.
pub handle_register-once :
    (env : Environment) (before after : List Change) (now later : ℕ) (reg again : RegisterAgent)
    (ip ip' : Bytes)
    → Registers env now reg ip (run before []) (handle_register env now reg ip (run before []))
    → env.hash_token again.token ≡ env.hash_token reg.token
    → any (brings (env.hash_token reg.token)) after ≡ false
    → let rows = run after (handle_register env now reg ip (run before [])).0 in
      handle_register env later again ip' rows
      ≡ (rows, raises (text "invalid or expired registration token"))
unfolding get_server_by_token
handle_register-once env before after now later reg again ip ip' done same old =
    let token = env.hash_token reg.token in
    let one = run-OneEach before [] (λ t. omega arith) token in
    let (rows', (stored, used)) =
      activate_server-used (env.format_time now) token (activation reg ip) (run before []) done.srv
        done.found one in
    let kept : done.rows' ≡ rows' = ground (arith, done.stored, stored) in
    let is : (handle_register env now reg ip (run before [])).0 ≡ rows' =
      ap (λ o. o.0) done.answer ∙ kept in
    let gone =
      query_row-none (has_token token) (run after rows') (run-used token after rows' old used) in
    unknown_refused env later again ip' _ (rw (same, is) gone)
