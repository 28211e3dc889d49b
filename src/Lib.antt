-- ===== src/Lib.antt =====
-- Verification of the httpfs extension: HTTP(S) files, and the S3 and Hugging Face file systems above
-- them.
--
-- An HTTP file handle (HTTPFileHandle) reads ranges of a remote file into its read buffer, or, where the
-- server has no range requests, downloads the file once into a buffer that all handles of a path share
-- (CachedFile, kept by HTTPState). Requests go through HTTPUtil of DuckDB, which calls back into the
-- handle; clients are kept in a cache of the handle, and what a HEAD request told is kept in a metadata
-- cache, which a failed precondition erases. The S3 file system makes URLs and parameters out of an
-- s3:// path, sends its requests again after a credential refresh or to another region, reads listings
-- and errors as XML, and writes a file as a multipart upload with one thread for each part. The Hugging
-- Face file system makes URLs out of an hf:// path and walks the listings of a repository. Below all of
-- them, transfers of libcurl are run by one dispatcher thread.
--
-- Base: lists, texts (std::string as a list of character codes), maps, decimal numbers.
-- Http/Types: responses, exceptions and results. A message keeps which text of the source it is; the
--   values formatted into it are left out.
-- Http/ClientCache: HTTPClientCache (src/include/httpfs.hpp, src/httpfs.cpp).
-- Http/MetadataCache: HTTPMetadataCache (src/include/http_metadata_cache.hpp).
-- Http/CachedFile: CachedFile and CachedFileHandle (src/include/http_state.hpp, src/http_state.cpp), the
--   growing buffer of RunGetRequest, and in Sharing the steps of the threads that share a file.
-- Http/Handle: the state of a file handle, and HttpUtil, the operations of DuckDB that are called.
-- Http/Preconditions: the If-Match and If-Unmodified-Since headers, and what a 412 means (src/httpfs.cpp).
-- Http/FileInfo: TryParseContentRange and TryParseContentLength.
-- Http/Range: RunGetRangeRequest and GetRangeRequest. An Exchange is what HTTPUtil delivers for one
--   request: any responses and data, since it retries; the callbacks run until one throws.
-- Http/Download: RunGetRequest, GetRequest and FullDownload.
-- Http/Load: HeadRequest and LoadFileInfo.
-- Http/Open: Initialize. The cache that TryGetMetadataCache chooses is given.
-- Http/Read: TryRangeRequest, ReadInternal and Read.
-- S3/Xml: TryFindTagContents, ParseS3Error, and the pages of AWSListObjectV2 (src/s3fs.cpp).
-- S3/Upload: S3MultiPartUpload (src/s3_multi_part_upload.cpp) and the part size of
--   S3FileHandle::Initialize. Threads has the steps of the writer and the upload threads.
-- S3/Write: the loop of S3FileSystem::Write and GetBuffer.
-- S3/Auth: S3AuthParams, its endpoint and the query parameters of a URL.
-- S3/Refresh: ReloadS3AuthMaterial, TryRefreshS3AuthMaterial and RunS3RequestWithAuthRefreshInternal.
-- S3/Url: S3UrlParse and GetHTTPUrl.
-- S3/DeleteBatch: the keys by which RemoveFiles groups objects.
-- S3/Remove: RemoveFiles, with the requests of its batches. Remove/Bodies reads the keys out of a body.
-- S3/Glob: Match, by which a hierarchical listing is pruned.
-- HuggingFace/Url: HFUrlParse, GetHFUrl, GetTreeUrl and GetFileUrl (src/hffs.cpp).
-- HuggingFace/Listing: ParseListResult, a round for each step of its index.
-- HuggingFace/Glob: the link header, ListHFRequest, Match and the loop of Glob over any server.
-- Curl/Dispatcher: the thread that runs the transfers of all workers
--   (src/httpfs_curl_multi_dispatcher.cpp), by what it does between two accesses to shared state.
-- Curl/Headers: RequestHeaderCallback, and the response that HTTPFSCurlClient makes of what libcurl
--   delivered (src/httpfs_curl_client.cpp).
-- Curl/Options: the state of HTTPFSCurlClient, the options that its requests set on the libcurl handle,
--   with the options that libcurl documents them to imply, and the cancellation of a transfer.
-- Curl/Client: its Get, Put, Head, Delete and Post. Client/Calls describes the options of a transfer by
--   the request and by what the handle carries on from the requests before.
-- Connections: HTTPClientConnectionCache (src/httpfs_connection_caching.cpp), the idle clients of the process.
--
-- Numbers are natural numbers. Where the source adds idx_t or uint16_t values the sum is taken modulo
-- 2^64 or 2^16, but for the counters, the positions in a text, and the positions in Http/Read, which the
-- theorems keep inside files below 2^63 bytes. Loops without a bound in the source run on fuel and
-- take the result for spent fuel as an argument or as an exception of the model's own: ReadInternal has
-- fuel for three rounds, the XML loops for one more round than the response has characters, an S3 request
-- for three sends, Write and ParseListResult for a round for each byte, a request of RemoveFiles for two
-- rounds and a batch for one for each key (Remove/Fuel), and Glob of the Hugging Face file system for the
-- requests that are given.
--
-- Parameters: the server and HTTPUtil (their answers), HTTPHeaders::Insert, the formatting of dates, the
-- constructors of HTTPException and optional_idx, libcurl (what it delivers for a transfer with given
-- options), StringUtil::Lower, URL encoding and decoding, the settings and secrets, and what other
-- threads do while an upload waits. Locks are not modelled but for that of a CachedFile; the operations
-- of the other shared states are atomic steps.
--
-- Not modelled: CreateHandle, glob results and listing requests of S3, signatures, the session options
-- that Initialize of the curl client sets, and the glue to httplib, secrets and settings.
pub mod Base
pub mod Http
pub mod S3
pub mod HuggingFace
pub mod Curl
pub mod Connections
