-- ===== src/Lib.antt =====
-- Veyport: a hub (hub/) that serves a web UI and an HTTP API, and an agent (agent/) on each server that
-- the hub manages. The agents connect to the hub by gRPC; the hub passes the users' requests for files,
-- logs and terminals on to them, checks who may ask for what, and returns the answers.
--
-- Each file models one part of the Go code, with the functions' names in antt's spelling:
--   Base: Boolean tests, lists, Go strings (as bytes) and Go maps (as association lists), shared by all.
--   Channel: Go's buffered channels.
--   ConnMgr: hub/internal/connmgr/connmgr.go, the table of the connected agents.
--   Grpc/Pending, Grpc/LogSessions, Grpc/TerminalSessions, Grpc/Coalescer: the files pending.go,
--     logsessions.go, terminalsessions.go and heartbeat_coalescer.go of hub/internal/grpcserver, by which
--     the answers of the agents find the requests that wait for them. Grpc/Key: their keys.
--   Paths: what the code uses of Go's path/filepath: clean, base, rel.
--   Messages: the messages on files of proto/veyport/v1.
--   Auth/Totp, Auth/Blacklist: totp_cache.go with totp.go, and blacklist.go, of hub/internal/auth.
--   Server/RateLimiter, Server/Gate: middleware.go of hub/internal/server, with parts of cookies.go.
--   Server/Csrf: csrf.go. Server/LogSlots: the limits of handlers_logs.go.
--   Server/Files: handlers_files.go with agent_request.go. Server/Permissions: handlers_paths.go with
--     hub/internal/store/permissions.go.
--   Server/Upload, Server/Terminal: handlers_upload.go and handlers_terminal.go. Server/Servers:
--     handlers_servers.go and handlers_unregister.go. Store/Servers: hub/internal/store/servers.go.
--   Grpc/Handler: handler.go of hub/internal/grpcserver, the stream of an agent, which uses the parts
--     above for what it delivers.
--   Server/Login: the login and the refresh of handlers_auth.go. Agent/Terminal, Agent/LogTailer: manager.go
--     and tailer.go of agent/internal/terminal and agent/internal/logtailer.
--   Agent/FileBrowser, Agent/Access, Agent/Dropzone: filebrowser.go, the handlers of files of client.go,
--     and dropzone.go, of agent/internal. Agent/Reconnect: the loop Run of client.go.
--
-- A method that changes state takes the state and returns it; a method under a mutex is one step, and
-- lists of steps stand for any interleaving of the callers. Time is an argument of a call, in
-- nanoseconds. `none`, where a file says so, is a panic of Go, and the theorems show that there is none.
-- All recursion is structural, so no fuel is needed. The sizes of files and tables, and the counts, are
-- natural numbers; where a counter wraps around, at 2^64, the wrap-around is written out.
-- What Go's libraries and the operating system decide is a parameter: the check of a signature or of a
-- one-time code, the parts of an address, the file system, and whether the database answers.
--
-- Not modelled: the handlers of registration and of passwords, LDAP, the queries of the audit log, the
-- users and notifications of the store but for a login, certificates (hub/internal/ca,
-- agent/internal/certs), the web UI, generated code, and main.
pub mod Base
pub mod Channel
pub mod ConnMgr
pub mod Grpc
pub mod Agent
pub mod Auth
pub mod Messages
pub mod Paths
pub mod Server
pub mod Store
