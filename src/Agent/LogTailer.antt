-- ===== src/Agent/LogTailer.antt =====
-- agent/internal/logtailer/tailer.go: the tail of a log file. What the system answers to each poll is a
-- parameter, as are the scanner of lines and the conversion to lower case. The lists of blocked paths are
-- the same as those of the file browser.
pub mod Laws
pub mod Contiguous
mod Tests
use aerodocs.Paths.{dot_dot, slash, is_abs, clean}
use aerodocs.Agent.FileBrowser.{is_blocked_path}
use aerodocs.Base.{
  ℕ, ◌+◌, ◌-◌, Bool, true, false, not, ◌&&◌, Option, none, some, List, [], ◌∷◌, ◌++◌, ltb, ◌==◌,
  if◌then◌else◌, Result, returns, raises, length, Bytes, text, text_eq, has_prefix, contains,
}

-- The path that is opened, or the error; `eval_symlinks` is none on an error.
unfoldable pub validate_log_path : (Bytes → Option Bytes) → Bytes → Result Bytes
validate_log_path eval_symlinks path =
    if contains path dot_dot
    then raises (text "path traversal not allowed")
    else if not (is_abs (clean path))
    then raises (text "path must be absolute")
    else if is_blocked_path (clean path)
    then raises (text "access to this path is restricted")
    else elim (eval_symlinks (clean path)) [
      | none ↦ raises (text "cannot resolve path")
      | some resolved ↦
          if is_blocked_path resolved
          then raises (text "access to this path is restricted")
          else if not (text_eq resolved (clean path))
              && not (has_prefix resolved (clean path ++ slash ∷ []))
          then raises (text "path resolves outside requested directory")
          else returns resolved
    ]

-- The search for lines; `scan_lines` is `bufio.Scanner` on the data.
pub record Grep : Type 0 where
  pub pattern : Bytes
  pub to_lower : Bytes → Bytes
  pub scan_lines : Bytes → List Bytes

unfoldable pub matching_lines : Grep → List Bytes → Bytes
matching_lines g [] = []
matching_lines g (line ∷ lines) =
    let rest = matching_lines g lines in
    if contains (g.to_lower line) g.pattern then line ++ 10 ∷ rest else rest

-- A chunk that is sent, with its offset.
abbrev pub LogChunk : Type 0
LogChunk = Bytes × ℕ

unfoldable pub send_filtered : Grep → Bytes → ℕ → List LogChunk
unfolding matching_lines
send_filtered g bytes offset =
    let out = if text_eq g.pattern [] then bytes else matching_lines g (g.scan_lines bytes) in
    if length out == 0 then [] else (out, offset) ∷ []

-- What the system answers to a poll; none is an error.
pub record Poll : Type 0 where
  -- The size of the file that the path names.
  pub stat : Option ℕ
  -- The first megabyte of that file, opened anew.
  pub reopened : Option Bytes
  -- A read of the held file, from an offset, of at most a number of bytes; the end of the file is no error.
  pub read : ℕ → ℕ → Option Bytes

abbrev pub megabyte : ℕ
megabyte = 1048576

-- Whether the file is replaced by the one opened anew, the offset, and what is sent.
abbrev pub Polled : Type 0
Polled = Bool × (ℕ × List LogChunk)

unfoldable pub rotated : Grep → Poll → ℕ → ℕ → Polled
unfolding send_filtered
rotated g p size last_offset = elim p.reopened [
  | none ↦ (false, (last_offset, []))
  | some content ↦ (true, (size, send_filtered g content size))
]

abbrev pub read_size : ℕ → ℕ → ℕ
read_size size last_offset =
    if ltb megabyte (size - last_offset) then megabyte else size - last_offset

unfoldable pub grown : Grep → Poll → ℕ → ℕ → Polled
unfolding send_filtered
grown g p size last_offset = elim (p.read last_offset (read_size size last_offset)) [
  | none ↦ (false, (last_offset, []))
  | some content ↦ if length content == 0 then (false, (last_offset, [])) else (
    false,
    (last_offset + length content, send_filtered g content (last_offset + length content)),
  )
]

unfoldable pub read_new_data : Grep → Poll → ℕ → Polled
unfolding rotated grown
read_new_data g p last_offset = elim p.stat [
  | none ↦ (false, (last_offset, []))
  | some size ↦
      if ltb size last_offset
      then rotated g p size last_offset
      else if size == last_offset
      then (false, (last_offset, []))
      else grown g p size last_offset
]

-- The loop of StartTail: the offset and all that was sent, in order.
unfoldable pub run : Grep → List Poll → ℕ → ℕ × List LogChunk
unfolding read_new_data
run g [] offset = (offset, [])
run g (p ∷ ps) offset =
    let (replaced, (next, sent)) = read_new_data g p offset in
    let (last, rest) = run g ps next in (last, sent ++ rest)

-- Where a tail begins; `size` is what a seek to the end gives. An offset that is not positive is 0.
unfoldable pub start_offset : ℕ → ℕ → ℕ
start_offset offset size = if offset == 0 then size else offset
