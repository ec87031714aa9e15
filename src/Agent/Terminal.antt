-- ===== src/Agent/Terminal.antt =====
-- agent/internal/terminal/manager.go: the agent's terminals. A `*session` is a handle, an arbitrary name
-- of its own; what Open does before and after it starts the process are two steps, with other calls
-- between them, since the agent handles each message in its own goroutine. The process is a parameter.
pub mod Identity
pub mod Tracked
pub mod Laws
pub mod Ended
mod Tests
use aerodocs.Paths.{clean, is_abs}
use aerodocs.Base.{
  ℕ, ◌%◌, ◌^◌, Bool, true, false, not, ◌&&◌, Option, none, some, List, [], ◌∷◌, map, ltb, leb, ◌==◌,
  if◌then◌else◌, Result, returns, raises, length, Bytes, text, text_eq, Table, lookup, delete,
  assign,
}

abbrev pub max_sessions : ℕ
max_sessions = 8

-- A session that was started: Open has not registered it yet, it was registered, or it was closed.
pub data Phase : Type 0 where
  starting running shut : Phase

pub record Session : Type 0 where
  pub id : Bytes
  pub phase : Phase

-- The manager: the map from ids to sessions, and every session that was started, by its handle.
pub record Manager : Type 0 where
  pub sessions : Table Bytes
  pub stopped : Bool
  pub started : Table Session

unfoldable pub new_manager : Manager
new_manager = record { sessions = []; stopped = false; started = [] }

-- The error, if there is one.
unfoldable pub validate_open_slot : Bytes → Manager → Option Bytes
validate_open_slot id m =
    if m.stopped then some (text "terminal manager unavailable") else elim (lookup id m.sessions) [
      | some handle ↦ some (text "terminal session already exists")
      | none ↦
          if leb max_sessions (length m.sessions)
          then some (text "too many active terminal sessions")
          else none
    ]

unfoldable pub register : Bytes → Bytes → Manager → Manager × Option Bytes
unfolding validate_open_slot
register id handle m = elim (validate_open_slot id m) [
  | some error ↦ (m, some error)
  | none ↦ (record m { sessions = assign id handle m.sessions }, none)
]

abbrev pub with_phase : Bytes → Session → Phase → Manager → Manager
with_phase handle s phase m = record m {
  started = assign handle (record s { phase = phase }) m.started;
}

-- `closeOnce` of a session, whose entry of the map goes by its id.
unfoldable pub close_session : Bytes → Manager → Manager
close_session handle m = elim (lookup handle m.started) [
  | none ↦ m
  | some s ↦ elim s.phase [
    | shut ↦ m
    | _ ↦ with_phase handle s shut (record m { sessions = delete s.id m.sessions })
  ]
]

-- Open up to the start of its process; `error` is what fails before, or the start itself.
unfoldable pub begin_open : Bytes → Bytes → Option Bytes → Manager → Manager × Option Bytes
begin_open id handle error m =
    if text_eq id []
    then (m, some (text "session id is required"))
    else elim (validate_open_slot id m) [
      | some e ↦ (m, some e)
      | none ↦ elim error [
        | some e ↦ (m, some e)
        | none ↦ (
          record m { started = assign handle (record { id = id; phase = starting }) m.started },
          none,
        )
      ]
    ]

-- The rest of Open.
unfoldable pub finish_open : Bytes → Manager → Manager × Option Bytes
unfolding close_session
finish_open handle m = elim (lookup handle m.started) [
  | none ↦ (m, none)
  | some s ↦ elim s.phase [
    | starting ↦
        let (m', error) = register s.id handle m in
        elim error [
          | some e ↦ (close_session handle m', some e)
          | none ↦ (with_phase handle s running m', none)
        ]
    | _ ↦ (m, none)
  ]
]

-- `Close`; the error is `ErrSessionNotFound`.
unfoldable pub close : Bytes → Manager → Manager × Option Bytes
unfolding close_session
close id m = elim (lookup id m.sessions) [
  | none ↦ (m, some (text "terminal session not found"))
  | some handle ↦ (close_session handle m, none)
]

unfoldable pub stop : Manager → Manager
stop m = record m { stopped = true }

-- The loop of CloseAll.
unfoldable pub close_each : List Bytes → Manager → Manager
unfolding close_session
close_each [] m = m
close_each (handle ∷ handles) m = close_each handles (close_session handle m)

abbrev pub handles_of : Table Bytes → List Bytes
handles_of sessions = map (λ e. e.1) sessions

unfoldable pub close_all : Manager → Manager
unfolding stop close_each
close_all m = close_each (handles_of m.sessions) (stop m)

-- A size of a terminal, whose zero stands for the default.
abbrev pub clamp : ℕ → ℕ → ℕ → ℕ
clamp default max n =
    let given = if n == 0 then default else n in if ltb max given then max else given

-- Columns and rows, as uint16.
unfoldable pub normalized_size : ℕ → ℕ → ℕ × ℕ
normalized_size cols rows = (clamp 120 300 cols % 2 ^ 16, clamp 36 120 rows % 2 ^ 16)

-- `resolveShell`: the first candidate that is there; `is_file` is a file that is no directory.
unfoldable pub first_shell : (Bytes → Bool) → List Bytes → Option Bytes
first_shell is_file [] = none
first_shell is_file (candidate ∷ rest) =
    if not (text_eq candidate []) && is_file candidate
    then some candidate
    else first_shell is_file rest

abbrev pub resolve_shell : Bytes → (Bytes → Bool) → Option Bytes
resolve_shell shell is_file =
    first_shell is_file
      (shell ∷ text "/bin/bash" ∷ text "/usr/bin/bash" ∷ text "/bin/sh" ∷ text "/usr/bin/sh" ∷ [])

-- `applyWorkingDirectory`: the directory of the command, which `dir` was; `is_dir` is none on an error.
unfoldable pub apply_working_directory : (Bytes → Option Bool) → Bytes → Bytes → Result Bytes
apply_working_directory is_dir cwd dir =
    if text_eq cwd []
    then returns dir
    else if not (is_abs (clean cwd))
    then raises (text "terminal cwd must be absolute")
    else elim (is_dir (clean cwd)) [
      | none ↦ raises (text "terminal cwd not available")
      | some false ↦ raises (text "terminal cwd must be a directory")
      | some true ↦ returns (clean cwd)
    ]
