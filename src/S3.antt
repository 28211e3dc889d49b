-- ===== src/S3.antt =====
-- The S3 file system (s3fs.cpp, s3_multi_part_upload.cpp).
pub mod Xml
pub mod Upload
pub mod Write
pub mod Auth
pub mod Refresh
pub mod Url
pub mod Glob
pub mod DeleteBatch
pub mod Remove
