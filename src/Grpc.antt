-- ===== src/Grpc.antt =====
-- hub/internal/grpcserver: what the hub keeps for each agent stream.
pub mod Key
pub mod Elsewhere
pub mod Pending
pub mod LogSessions
pub mod Coalescer
pub mod TerminalSessions
pub mod Handler
