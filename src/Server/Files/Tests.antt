-- ===== src/Server/Files/Tests.antt =====
-- Requests for files.
use aerodocs.Paths.{is_abs}
use aerodocs.Server.Files.{Request, file_read, is_path_allowed, handle_read_file}
use aerodocs.Server.Files.Laws.{
  covers, Granted, IsReading, Refused, is_path_allowed-covers, handle_read_file-Guarded,
}
use aerodocs.Base.{◌≡◌, refl, ◌⊎◌, true, some, List, [], ◌∷◌, any, All, Bytes, text, has_prefix}

abbrev roots : List Bytes
roots = text "/data" ∷ text "relative" ∷ []

abbrev request : Request
request = record {
  user_id = text "u";
  role = text "viewer";
  server_id = text "s";
  path = text "/data/log";
  paths = some roots;
  connected = true;
  answer = file_read (record {
    request_id = text "r";
    content = 1 ∷ [];
    total_size = 1;
    mime_type = text "text/plain";
    error = [];
  });
}

path_is_abs : is_abs (text "/data//./log") ≡ true
unfolding is_abs has_prefix
path_is_abs = refl

is_path_allowed-covers_example :
    is_path_allowed (some roots) (text "/data//./log")
    ≡ some (any (covers (text "/data//./log")) roots)
is_path_allowed-covers_example = is_path_allowed-covers (text "/data//./log") roots path_is_abs

handle_read_file-Guarded_example :
    Refused (handle_read_file (λ b. b) request)
    ⊎ (Granted request × All (IsReading request) (handle_read_file (λ b. b) request).1)
handle_read_file-Guarded_example = handle_read_file-Guarded (λ b. b) request
