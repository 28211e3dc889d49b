-- ===== src/S3/Remove.antt =====
-- S3FileSystem::RemoveFiles (s3fs.cpp): the batches of objects and the requests that delete them.
mod Groups
mod Bodies
mod Sent
mod Removes
mod Fuel
mod Tests
use haybarn_httpfs.Base.{
  ℕ, zero, suc, ◌+◌, Bool, true, false, ◌&&◌, not, Option, none, some, List, [], ◌∷◌, ◌++◌, ◌==◌,
  if◌then◌else◌, take, drop, Text, codes, lookup,
}
use haybarn_httpfs.Base
use haybarn_httpfs.Http.Types.{
  io, internal, unknown_error, remove_failed, out_of_fuel, Response, Result, ok, throw, ◌>>=◌,
  plain,
}
use haybarn_httpfs.S3.Xml.{find_tag_contents}
use haybarn_httpfs.S3.Auth.{S3AuthParams, read_from, read_query_params}
use haybarn_httpfs.S3.Refresh.{is_auth_refresh_response}
use haybarn_httpfs.S3.Url.{UrlUtil, s3_url_parse, get_s3_bucket_path}
use haybarn_httpfs.S3.DeleteBatch.{S3DeleteBatchUrlInfo}

-- S3DeleteBatch.
pub record S3DeleteBatch : Type 0 where
  pub url_info : S3DeleteBatchUrlInfo
  pub keys : List Text
  pub secret_lookup_paths : List Text

-- The map from batch keys to batches.
abbrev pub DeleteBatches : Type 0
DeleteBatches = List (Text × S3DeleteBatch)

-- A request that deletes objects, before it is signed.
pub record DeleteRequest : Type 0 where
  pub http_url : Text
  pub request_path : Text
  pub host : Text
  pub auth_params : S3AuthParams
  pub body : Text

-- What RemoveFiles calls: the settings and secrets of a path, the key of a batch
-- (CreateDeleteBatchKey with the secrets of the path), the query parameters of DuckDB's parser, the
-- order in which std::unordered_map is traversed, PostRequest by the number of the request, and
-- TryRefreshS3AuthParams by the number of the request and the path.
pub record RemoveUtil : Type 0 where
  pub url_util : UrlUtil
  pub read_from : Text → S3AuthParams
  pub batch_key : S3DeleteBatchUrlInfo → Text → Text
  pub parse_query : Text → List (Text × Text)
  pub traverse : DeleteBatches → DeleteBatches
  pub post : ℕ → DeleteRequest → Result (Option Response)
  pub refresh : ℕ → Text → S3AuthParams → Option S3AuthParams

-- The requests that were accepted, each with the key of its batch, and the number of requests.
pub record Removal : Type 0 where
  pub accepted : List (Text × DeleteRequest)
  pub requests : ℕ

abbrev pub max_keys_per_request : ℕ
max_keys_per_request = 1000

abbrev pub object_elements : List Text → Text
object_elements [] = []
object_elements (key ∷ keys) =
    codes "<Object><Key>" ++ key ++ codes "</Key></Object>" ++ object_elements keys

-- The body of a request. The keys are not escaped.
unfoldable pub xml_body : List Text → Text
xml_body keys =
    codes "<?xml version=\"1.0\" encoding=\"UTF-8\"?>"
    ++ codes "<Delete xmlns=\"http://s3.amazonaws.com/doc/2006-03-01/\">"
    ++ object_elements keys
    ++ codes "<Quiet>true</Quiet>"
    ++ codes "</Delete>"

abbrev pub batch_of : Text → DeleteBatches → S3DeleteBatchUrlInfo → S3DeleteBatch
batch_of batch_key batches url_info = elim (lookup batch_key batches) [
  | some batch ↦ batch
  | none ↦ record { url_info = url_info; keys = []; secret_lookup_paths = [] }
]

-- The path that a batch is told of, in the map.
unfoldable pub add_to_batch :
    Text → S3DeleteBatchUrlInfo → Text → Text → DeleteBatches → DeleteBatches
add_to_batch batch_key url_info key path batches =
    let batch = batch_of batch_key batches url_info in
    Base.insert batch_key
      (record batch {
        keys = batch.keys ++ key ∷ [];
        secret_lookup_paths = batch.secret_lookup_paths ++ path ∷ [];
      })
      batches

-- The batch key and the object key of a path.
pub record Located : Type 0 where
  pub batch_key : Text
  pub url_info : S3DeleteBatchUrlInfo
  pub key : Text

module _ (util : RemoveUtil) where
  unfoldable pub locate : Text → Result Located
  unfolding s3_url_parse read_query_params get_s3_bucket_path
  locate path = s3_url_parse util.url_util path (util.read_from path) >>= λ parsed_url.
      read_query_params util.parse_query parsed_url.query_param (util.read_from path)
      >>= λ auth_params.
          let url_info : S3DeleteBatchUrlInfo = record {
            prefix = parsed_url.prefix;
            http_proto = parsed_url.http_proto;
            host = parsed_url.host;
            path = get_s3_bucket_path parsed_url;
            auth_params = auth_params;
          } in
          ok (record {
            batch_key = util.batch_key url_info path;
            url_info = url_info;
            key = parsed_url.key;
          })

  unfoldable pub group_paths : List Text → DeleteBatches → Result DeleteBatches
  unfolding locate add_to_batch
  group_paths [] batches = ok batches
  group_paths (path ∷ paths) batches = locate path >>= λ l.
      group_paths paths (add_to_batch l.batch_key l.url_info l.key path batches)

  unfoldable pub delete_request : Text → S3AuthParams → Text → Result DeleteRequest
  unfolding s3_url_parse get_s3_bucket_path
  delete_request secret_lookup_url auth_params body =
      s3_url_parse util.url_util secret_lookup_url auth_params >>= λ request_url.
      let request_path = get_s3_bucket_path request_url in
      ok (record {
        http_url =
            request_url.http_proto
            ++ request_url.host
            ++ util.url_util.url_encode request_path
            ++ codes "?delete";
        request_path = request_path;
        host = request_url.host;
        auth_params = auth_params;
        body = body;
      })

  -- The last request with what it answered, the parameters, and the number of requests.
  abbrev pub Sent : Type 0
  Sent = Result (DeleteRequest × Option Response) × S3AuthParams × ℕ

  abbrev pub answered :
      DeleteRequest → Result (Option Response) → Result (DeleteRequest × Option Response)
  answered request (throw e) = throw e
  answered request (ok response) = ok (request, response)

  -- One turn of the loop, with the parameters for the next one if there is a refresh.
  abbrev pub refreshed_params :
      Bool → Result (Option Response) → ℕ → Text → S3AuthParams → Option S3AuthParams
  refreshed_params retried (throw e) k url p = none
  refreshed_params retried (ok none) k url p = none
  refreshed_params retried (ok (some r)) k url p =
      if not retried && is_auth_refresh_response r then util.refresh k url p else none

  -- The loop of a request: it is sent once more at most, after a refresh. The fuel is two rounds.
  unfoldable pub send_delete : ℕ → Bool → Text → Text → S3AuthParams → ℕ → Sent
  unfolding delete_request is_auth_refresh_response
  send_delete zero retried url body p k = (throw (plain internal out_of_fuel), p, k)
  send_delete (suc fuel) retried url body p k = elim (delete_request url p body) [
    | throw e ↦ (throw e, p, k)
    | ok request ↦
        let answer = util.post k request in
        elim (refreshed_params retried answer k url p) [
          | some p' ↦ send_delete fuel true url body p' (k + 1)
          | none ↦ (answered request answer, p, k + 1)
        ]
  ]

  -- What is made of the last answer, and of the request it is for.
  unfoldable pub judge_delete : Response → Result (Unit {0})
  unfolding find_tag_contents
  judge_delete r =
      if not (r.status == 200)
      then throw (plain io remove_failed)
      else find_tag_contents r.body (codes "Error") 0 >>= λ found. elim found [
        | none ↦ ok tt
        | some e ↦ throw (plain io remove_failed)
      ]

  abbrev pub judge_answer : Result (DeleteRequest × Option Response) → Result DeleteRequest
  judge_answer (throw e) = throw e
  judge_answer (ok (request, none)) = throw (plain internal unknown_error)
  judge_answer (ok (request, some r)) = judge_delete r >>= λ accepted. ok request

  -- The requests of a batch from an object on, with fuel for a round for each object.
  unfoldable pub send_batch :
      ℕ → Text → List Text → List Text → S3AuthParams → Removal → Result (Unit {0}) × Removal
  unfolding send_delete judge_delete xml_body
  send_batch fuel batch_key [] paths p removal = (ok tt, removal)
  send_batch zero batch_key (key ∷ keys) paths p removal =
      (throw (plain internal out_of_fuel), removal)
  send_batch (suc fuel) batch_key (key ∷ keys) paths p removal =
      let sent_keys = take max_keys_per_request (key ∷ keys) in
      let (answer, p', k) =
        send_delete 2 false (Base.get_or paths 0 []) (xml_body sent_keys) p removal.requests in
      elim (judge_answer answer) [
        | throw e ↦ (throw e, record removal { requests = k })
        | ok request ↦
            send_batch fuel batch_key (drop max_keys_per_request (key ∷ keys))
              (drop max_keys_per_request paths) p'
              (record { accepted = removal.accepted ++ (batch_key, request) ∷ []; requests = k })
      ]

  unfoldable pub send_batches : DeleteBatches → Removal → Result (Unit {0}) × Removal
  unfolding send_batch
  send_batches [] removal = (ok tt, removal)
  send_batches ((batch_key, batch) ∷ batches) removal =
      let (sent, removal') =
        send_batch (Base.length batch.keys) batch_key batch.keys batch.secret_lookup_paths
          batch.url_info.auth_params removal in
      elim sent [ throw e ↦ (throw e, removal') | ok _ ↦ send_batches batches removal' ]

  -- RemoveFiles.
  unfoldable pub remove_files : List Text → Result (Unit {0}) × Removal
  unfolding group_paths send_batches
  remove_files paths =
      let none_yet : Removal = record { accepted = []; requests = 0 } in
      elim (group_paths paths []) [
        | throw e ↦ (throw e, none_yet)
        | ok batches ↦ send_batches (util.traverse batches) none_yet
      ]
