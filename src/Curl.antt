-- ===== src/Curl.antt =====
-- The clients of libcurl (httpfs_curl_multi_dispatcher.cpp, httpfs_curl_client.cpp).
pub mod Dispatcher
pub mod Headers
pub mod Options
pub mod Client
