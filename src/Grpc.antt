-- ===== src/Grpc.antt =====
-- credbroker/grpcserver: the agent-facing RPCs.
pub mod Messages
pub mod Servicer
