-- ===== src/Security.antt =====
-- Encryption: the keyring, and the payloads it seals and opens.
pub mod Keyring
pub mod Payload
