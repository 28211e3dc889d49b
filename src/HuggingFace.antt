-- ===== src/HuggingFace.antt =====
-- The Hugging Face file system (hffs.cpp, include/hffs.hpp).
pub mod Url
pub mod Listing
pub mod Glob
