-- ===== src/Messaging.antt =====
-- sippy, the messenger: its control packets, its list of contacts and its application layer.
pub mod Control
pub mod Html
pub mod Contacts
pub mod Layer
pub mod Delivery
pub mod Carried
pub mod Chat
pub mod Storage
pub mod AddressText
pub mod Authorizing
