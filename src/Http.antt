-- ===== src/Http.antt =====
-- The HTTP side of the extension: httpfs.cpp, http_state.cpp and their headers.
pub mod Types
pub mod ClientCache
pub mod MetadataCache
pub mod CachedFile
pub mod Handle
pub mod Preconditions
pub mod FileInfo
pub mod Range
pub mod Download
pub mod Read
pub mod Load
pub mod Open
