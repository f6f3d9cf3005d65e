-- ===== src/KeysManager.antt =====
-- qt/qkeywin/KeysManager.cpp and KeysManager.h: the keys of a phone, by which text is typed into the
-- widget that is being edited.
pub mod Symbols
pub mod State
pub mod Edit
pub mod Keys
pub mod System
mod Tests
