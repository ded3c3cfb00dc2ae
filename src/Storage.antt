-- ===== src/Storage.antt =====
-- src/storage/storage.cpp and storage.h: the lines of the file of events, the files, and the
-- storage over them.
pub mod Codec
pub mod Disk
pub mod File
