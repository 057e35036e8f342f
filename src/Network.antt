-- ===== src/Network.antt =====
-- libs/networking_node: a repository on another machine, over ZeroMQ and protobuf.
pub mod Exec
pub mod Messages
pub mod Node
pub mod Server
pub mod Responder
pub mod Client
pub mod Requester
pub mod StreamProvider
pub mod Mailbox
pub mod Link
