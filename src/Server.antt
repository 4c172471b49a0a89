-- ===== src/Server.antt =====
-- The gRPC server: server/grpc, server/grpc_mux and infrastructure/handler.
pub mod Messages
pub mod Convert
pub mod Mux
pub mod Handlers
pub mod Trials
