-- ===== src/Encryption.antt =====
-- internal/encryption: files and texts under AES-GCM.
pub mod Hex
pub mod Cipher
pub mod Certificates
