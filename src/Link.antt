-- ===== src/Link.antt =====
-- LinkLayer.cpp: the protocol that joins a network, exchanges keys and routes, and carries data.
pub mod Send
pub mod Keys
pub mod Join
pub mod Routes
pub mod Peers
pub mod Life
pub mod Dispatch
