-- ===== src/Messages.antt =====
-- src/messages.c: the handlers of the messages that servers and clients send.
pub mod Limiter
pub mod Infostring
pub mod InfoResponse
pub mod Packet
pub mod Query
pub mod Master
pub mod GetServers
pub mod Heartbeat
pub mod Handle
