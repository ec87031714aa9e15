-- ===== src/Server/Files/Laws.antt =====
-- Who gets at which path.
use aerodocs.Paths.{dot_dot, is_abs, words, clean, rel}
use aerodocs.Paths.Laws.{is_abs-clean, words-clean}
use aerodocs.Paths.Relative.{clean-relative}
use aerodocs.Paths.Rel.{is_above, stays_below, is_below, rel-is_below}
use aerodocs.Messages.{negsuc}
use aerodocs.Server.Files.{
  Reply, fails, Effect, asks_list, asks_read, audits_read, Answer, not_sent, timed_out, file_list,
  file_read, other_message, Request, max_file_read_size, max_file_view_size, after_read,
  validate_request_path, is_inside, is_under_root, is_path_allowed, or_denied, check_file_access,
  require_agent, handle_list_files, handle_read_file,
}
use aerodocs.Base.{
  ℕ, ◌≡◌, refl, sym, ap, ◌∙◌, ◌⊎◌, inl, inr, Bool, true, false, ◌&&◌, Option, none, some, List, [],
  ◌∷◌, arith, ltb, All, if◌then◌else◌, Bool-cases, Option-cases, any, Bytes, text, text_eq,
  eq_of_text_eq, contains,
}

-- A granted root covers a path: it is absolute, and its words are the first words of the path.
abbrev pub covers : Bytes → Bytes → Bool
covers path root = is_abs root && is_above (words root) (words path)

is_inside_lem : (r : Option Bytes) → is_inside r ≡ is_below r
unfolding is_inside is_below stays_below
is_inside_lem none = refl
is_inside_lem (some r) = refl

inside_covers :
    (path root : Bytes)
    → is_abs path ≡ true
    → is_inside (rel (clean root) (clean path)) ≡ covers path root
inside_covers path root abs =
    let below = rel-is_below (clean root) (clean path) (is_abs-clean path abs) in
    let at_path = words-clean path abs in
    elim (Bool-cases (is_abs root)) [
      | inl rooted ↦
          rw
            (
              is_inside_lem (rel (clean root) (clean path)),
              below,
              is_abs-clean root rooted,
              words-clean root rooted,
              at_path,
              rooted,
            )
            refl
      | inr relative ↦
          rw
            (
              is_inside_lem (rel (clean root) (clean path)),
              below,
              clean-relative root relative,
              relative,
            )
            refl
    ]

is_under_root-covers :
    (path : Bytes) (paths : List Bytes)
    → is_abs path ≡ true
    → is_under_root (clean path) paths ≡ any (covers path) paths
unfolding is_under_root
is_under_root-covers path [] abs = refl
is_under_root-covers path (root ∷ paths) abs =
    let ih = is_under_root-covers path paths abs in
    elim (Bool-cases (covers path root)) [
      | inl yes_ ↦ rw (inside_covers path root abs, yes_) refl
      | inr no_ ↦ rw (inside_covers path root abs, no_) ih
    ]

-- An absolute path is allowed exactly if one of the granted roots covers it: the root is absolute and,
-- as a list of words, it is a prefix of the path. The text alone, as /data of /database, is not enough.
pub is_path_allowed-covers :
    (path : Bytes) (paths : List Bytes)
    → is_abs path ≡ true
    → is_path_allowed (some paths) path ≡ some (any (covers path) paths)
unfolding is_path_allowed
is_path_allowed-covers path paths abs = ap some (is_under_root-covers path paths abs)

-- What must hold before a file of a server is listed or read.
pub record Granted (r : Request) : Type 0 where
  pub absolute : is_abs r.path ≡ true
  pub straight : contains r.path dot_dot ≡ false
  pub covered :
      (r.role ≡ text "admin")
      ⊎ ((paths : List Bytes) × (r.paths ≡ some paths) × (any (covers r.path) paths ≡ true))

-- What a request to list, and one to read, may do: with its own path on its own server.
abbrev pub IsListing : Request → Effect → Type 0
IsListing r (asks_list server path) = (server ≡ r.server_id) × (path ≡ r.path)
IsListing r _ = ⊥

abbrev pub IsReading : Request → Effect → Type 0
IsReading r (asks_read server path offset limit) =
    (server ≡ r.server_id)
    × ((path ≡ r.path) × ((offset ≡ negsuc 0) × (limit ≡ max_file_read_size)))
IsReading r (audits_read user server path) =
    (user ≡ r.user_id) × ((server ≡ r.server_id) × (path ≡ r.path))
IsReading r _ = ⊥

-- An error response that leaves nothing else behind.
abbrev pub Refused : Reply × List Effect → Type 0
Refused out = (status : ℕ) × (message : Bytes) × (out ≡ (fails status message, []))

valid_path :
    (path : Bytes)
    → validate_request_path path ≡ none
    → (is_abs path ≡ true) × (contains path dot_dot ≡ false)
unfolding validate_request_path is_abs
valid_path path ok = ground arith

allowed_covers :
    (path : Bytes) (paths : Option (List Bytes))
    → is_abs path ≡ true
    → or_denied (is_path_allowed paths path) ≡ true
    → (ps : List Bytes) × (paths ≡ some ps) × (any (covers path) ps ≡ true)
unfolding is_path_allowed
allowed_covers path none abs ok = cc
allowed_covers path (some ps) abs ok = (ps, refl, sym (is_under_root-covers path ps abs) ∙ ok)

check-Granted :
    (r : Request)
    → (check_file_access r ≡ none → Granted r)
      × ((reply : Reply)
          → check_file_access r ≡ some reply
          → (s : ℕ) × (m : Bytes) × (reply ≡ fails s m))
unfolding check_file_access
check-Granted r = elim (Option-cases (validate_request_path r.path)) [
  | inr (message, bad) ↦
      let value : check_file_access r ≡ some (fails 400 message) =
        rw (bad, check_file_access) refl in
      rw value (λ e. cc, λ reply e. (400, message, ground (arith, e)))
  | inl good ↦
      let (abs, straight) = valid_path r.path good in
      elim (Bool-cases (text_eq r.role (text "admin"))) [
        | inl admin ↦
            let value : check_file_access r ≡ none = rw (good, admin, check_file_access) refl in
            rw value (
              λ e. record {
                absolute = abs;
                straight = straight;
                covered = inl (eq_of_text_eq r.role (text "admin") admin);
              },
              λ reply e. cc,
            )
        | inr user ↦ elim (Bool-cases (or_denied (is_path_allowed r.paths r.path))) [
          | inl yes_ ↦
              let value : check_file_access r ≡ none =
                rw (good, user, yes_, check_file_access) refl in
              rw value (
                λ e. record {
                  absolute = abs;
                  straight = straight;
                  covered = inr (allowed_covers r.path r.paths abs yes_);
                },
                λ reply e. cc,
              )
          | inr no_ ↦
              let value : check_file_access r ≡ some (fails 403 (text "access denied")) =
                rw (good, user, no_, check_file_access) refl in
              rw value (λ e. cc, λ reply e. (403, text "access denied", ground (arith, e)))
        ]
      ]
]

handle_list_files-IsListing :
    (r0 : Request)
    → All
        (IsListing (if text_eq r0.path [] then record r0 { path = text "/" } else r0))
        (handle_list_files r0).1
unfolding handle_list_files
handle_list_files-IsListing r0 =
    let r = if text_eq r0.path [] then record r0 { path = text "/" } else r0 in
    elim (Option-cases (check_file_access r)) [
      | inr (reply, denied) ↦ rw (denied, handle_list_files) tt
      | inl ok ↦ elim (Option-cases (require_agent r)) [
        | inr (reply, gone) ↦ rw (ok, gone, handle_list_files) tt
        | inl there ↦ rw (ok, there, handle_list_files) ((refl, refl), tt)
      ]
    ]

-- A request to list files is refused with an error and nothing else; or the path, `/` if none is
-- given, is granted to the user, and the agent of the server is asked for that path, or for nothing.
pub handle_list_files-Guarded :
    (r : Request)
    → let asked = if text_eq r.path [] then record r { path = text "/" } else r in
      Refused (handle_list_files r)
      ⊎ (Granted asked × All (IsListing asked) (handle_list_files r).1)
unfolding handle_list_files
handle_list_files-Guarded r0 =
    let r = if text_eq r0.path [] then record r0 { path = text "/" } else r0 in
    elim (Option-cases (check_file_access r)) [
      | inl ok ↦ inr ((check-Granted r).0 ok, handle_list_files-IsListing r0)
      | inr (reply, denied) ↦
          let (s, m, e) = (check-Granted r).1 reply denied in
          inl (s, m, rw (denied, e, handle_list_files) refl)
    ]

audits-IsReading :
    (encode : Bytes → Bytes) (r : Request) (answer : Answer)
    → All (IsReading r) (after_read encode r answer).1
unfolding after_read
audits-IsReading encode r not_sent = tt
audits-IsReading encode r timed_out = tt
audits-IsReading encode r (file_list resp) = tt
audits-IsReading encode r other_message = tt
audits-IsReading encode r (file_read resp) = elim (Bool-cases (text_eq resp.error [])) [
  | inr error ↦ rw error tt
  | inl fine ↦ elim (Bool-cases (ltb max_file_view_size resp.total_size)) [
    | inl large ↦ rw (fine, large) tt
    | inr small ↦ rw (fine, small) ((refl, (refl, refl)), tt)
  ]
]

handle_read_file-IsReading :
    (encode : Bytes → Bytes) (r : Request) → All (IsReading r) (handle_read_file encode r).1
unfolding handle_read_file
handle_read_file-IsReading encode r = elim (Bool-cases (text_eq r.path [])) [
  | inl empty ↦ rw empty tt
  | inr given ↦ elim (Option-cases (check_file_access r)) [
    | inr (reply, denied) ↦ rw (given, denied, handle_read_file) tt
    | inl ok ↦ elim (Option-cases (require_agent r)) [
      | inr (reply, gone) ↦ rw (given, ok, gone, handle_read_file) tt
      | inl there ↦
          rw (given, ok, there, handle_read_file)
            ((refl, (refl, (refl, refl))), audits-IsReading encode r r.answer)
    ]
  ]
]

-- A request to read a file is refused with an error and nothing else; or its path is granted to the
-- user, the agent of the server is asked for exactly that file, from its end and at most 1 MB, or for
-- nothing, and what is entered in the audit log names that user, server and path.
pub handle_read_file-Guarded :
    (encode_to_string : Bytes → Bytes) (r : Request)
    → Refused (handle_read_file encode_to_string r)
      ⊎ (Granted r × All (IsReading r) (handle_read_file encode_to_string r).1)
unfolding handle_read_file
handle_read_file-Guarded encode_to_string r = elim (Bool-cases (text_eq r.path [])) [
  | inl empty ↦ inl (400, text "path is required", rw empty refl)
  | inr given ↦ elim (Option-cases (check_file_access r)) [
    | inl ok ↦ inr ((check-Granted r).0 ok, handle_read_file-IsReading encode_to_string r)
    | inr (reply, denied) ↦
        let (s, m, e) = (check-Granted r).1 reply denied in
        inl (s, m, rw (given, denied, e, handle_read_file) refl)
  ]
]
