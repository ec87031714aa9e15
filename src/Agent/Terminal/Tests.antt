-- ===== src/Agent/Terminal/Tests.antt =====
-- A terminal that is opened before CloseAll, one that is asked for afterwards, and two with one id.
use aerodocs.Agent.Terminal.{
  running, new_manager, validate_open_slot, register, close_session, begin_open, finish_open,
}
use aerodocs.Agent.Terminal.{close_all}
use aerodocs.Agent.Terminal.Tracked.{IsValid}
use aerodocs.Agent.Terminal.Laws.{Event, begins, finishes, closes, step, run, AllFresh}
use aerodocs.Agent.Terminal.Ended.{AllShut, close_all-final}
use aerodocs.Agent.Terminal.Identity.{
  System, OsUser, ExecutionIdentity, execution_identity_for_run_as,
}
use aerodocs.Agent.Terminal.Identity.Laws.{
  IsIdentity, IsName, execution_identity_for_run_as-IsIdentity,
}
use aerodocs.Base.{
  ◌≡◌, refl, ◌⊎◌, none, some, List, [], ◌∷◌, returns, raises, Bytes, text, text_eq, lookup, delete,
  assign,
}

abbrev before : List Event
before = begins (text "a") (text "h") none ∷ finishes (text "h") ∷ []

abbrev after : List Event
after = begins (text "b") (text "i") none ∷ finishes (text "h") ∷ closes (text "a") ∷ []

fresh : AllFresh before new_manager
unfolding new_manager lookup
fresh = ((refl, λ j s e. cc), (tt, tt))

close_all-final_example :
    let m = run before new_manager in IsValid m × AllShut (run after (close_all m))
close_all-final_example = close_all-final before after fresh

-- Of two sessions with one id, the end of the second takes the first out of the map: it runs on.
abbrev twice : List Event
twice =
    begins (text "a") (text "h") none
    ∷ begins (text "a") (text "i") none
    ∷ finishes (text "h")
    ∷ finishes (text "i")
    ∷ []

forgotten :
    (lookup (text "a") (run twice new_manager).sessions ≡ none)
    × (lookup (text "h") (run twice new_manager).started
        ≡ some (record { id = text "a"; phase = running }))
unfolding new_manager step begin_open finish_open register validate_open_slot close_session lookup
    assign delete text_eq
forgotten = (refl, refl)

abbrev nobody : OsUser
nobody = record {
  uid = text "65534";
  gid = text "65534";
  username = text "nobody";
  name = [];
  home_dir = [];
}

abbrev system : System
system = record {
  lookup_os_user = λ n. some nobody;
  lookup_os_user_groups = λ u. some (text "65534" ∷ []);
  getent_passwd = λ n. none;
  id_groups = λ n. none;
  trim_space = λ s. s;
  fields = λ s. [];
}

execution_identity_for_run_as-IsIdentity_example :
    ((error : Bytes) × (execution_identity_for_run_as system (text "nobody") ≡ raises error))
    ⊎ ((i : ExecutionIdentity) × ((execution_identity_for_run_as system (text "nobody")
            ≡ returns (some i))
          × (IsIdentity system (text "nobody") i × IsName (text "nobody"))))
execution_identity_for_run_as-IsIdentity_example =
    execution_identity_for_run_as-IsIdentity system (text "nobody") (λ e. cc)
