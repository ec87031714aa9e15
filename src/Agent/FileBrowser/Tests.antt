-- ===== src/Agent/FileBrowser/Tests.antt =====
-- A file system with one file, and reads of it.
use aerodocs.Messages.{pos, negsuc}
use aerodocs.Paths.{is_abs, clean, split, resolve, enter, words, join}
use aerodocs.Agent.FileBrowser.{
  is_blocked_path, validate_path, OpenFile, FileSystem, clamp_limit, resolve_and_validate_symlink,
  read_file, max_read_size,
}
use aerodocs.Agent.FileBrowser.Laws.{Holds, read_file_tail}
use aerodocs.Base.{
  ◌-◌, ◌≤◌, ◌≡◌, refl, true, false, none, some, [], ◌∷◌, returns, length, take, drop, Bytes, text,
  text_eq, has_prefix, contains,
}

abbrev content : Bytes
content = 1 ∷ 2 ∷ 3 ∷ []

abbrev file : OpenFile
file = record {
  stat = some (false, 3);
  seeks = λ n. true;
  read_full = λ start limit. some (take limit (drop start content));
}

abbrev fs : FileSystem
fs = record {
  eval_symlinks = λ p. some p;
  read_dir = λ p. none;
  open_file = λ p. some file;
  is_root = true;
  access = λ p. true;
}

abbrev lower : Bytes → Bytes
lower s = s

file-Holds : Holds file content
file-Holds = record { regular = refl; moves = λ n. refl; reads = λ start limit. refl }

path_valid : validate_path (text "/a") ≡ none
unfolding validate_path contains has_prefix clean is_abs words split resolve enter join text_eq
    is_blocked_path
path_valid = refl

path_resolves : resolve_and_validate_symlink fs (text "/a") ≡ returns (text "/a")
unfolding resolve_and_validate_symlink validate_path contains has_prefix clean is_abs words split
    resolve enter join text_eq is_blocked_path
path_resolves = refl

read_file_tail_example :
    let out = read_file fs lower (text "/a") (negsuc 0) (pos 2) in
    (out.error ≡ [])
    × (out.content ≡ drop (length content - clamp_limit (pos 2)) content)
    × (out.total_size ≡ length content)
    × (clamp_limit (pos 2) ≤ max_read_size)
read_file_tail_example =
    read_file_tail fs lower (text "/a") (text "/a") content 0 (pos 2) file path_valid path_resolves
      refl file-Holds
