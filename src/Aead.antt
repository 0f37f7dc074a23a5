-- ===== src/Aead.antt =====
-- ascon/: the AEAD demo. A sender and a receiver exchange UDP packets that one of four providers,
-- chosen by the configuration, encrypts and authenticates.
pub mod Provider
pub mod Mock
pub mod Codec
pub mod Mbedtls
pub mod Ascon
pub mod Sender
pub mod Receiver
pub mod EndToEnd
mod Tests
