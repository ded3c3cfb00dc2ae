-- ===== src/Config.antt =====
-- src/config/config_store.h and src/config/config_store.cpp: the store of settings. The form of its
-- text is in Codec, the store and its file in Store.
pub mod Codec
pub mod Store
