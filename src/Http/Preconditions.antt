-- ===== src/Http/Preconditions.antt =====
-- Conditional reads (httpfs.cpp): the validators that a request carries, and what a 412 means.
mod Tests
mod Validators
use haybarn_httpfs.Base.{
  ℕ, ◌-◌, Bool, true, false, ◌&&◌, not, List, [], ◌∷◌, ltb, leb, ◌==◌, if◌then◌else◌, length, take,
  Text, codes, is_empty, starts_with, insert,
}
use haybarn_httpfs.Http.Types.{remote_changed, Exception, Response}
use haybarn_httpfs.Http.Handle.{Params, FileHandle, Session, HttpUtil}
use haybarn_httpfs.Http.MetadataCache as Cache
use mathlib.Core.Option

abbrev pub if_match : Text
if_match = codes "If-Match"

abbrev pub if_unmodified_since : Text
if_unmodified_since = codes "If-Unmodified-Since"

abbrev weak_prefix : Text
weak_prefix = codes "W/"

unfoldable pub is_strong_etag : Text → Bool
unfolding starts_with
is_strong_etag etag = leb 2 (length etag) && not (starts_with etag weak_prefix)

abbrev unquoted : Text → Text
unquoted [] = []
unquoted (c ∷ s) = take (length s - 1) s

abbrev last_is : ℕ → Text → Bool
last_is q [] = false
last_is q (c ∷ []) = c == q
last_is q (c ∷ d ∷ s) = last_is q (d ∷ s)

abbrev first_is : ℕ → Text → Bool
first_is q [] = false
first_is q (c ∷ s) = c == q

unfoldable pub strip_etag_quotes : Text → Text
strip_etag_quotes etag =
    if leb 2 (length etag) && (first_is b'"' etag && last_is b'"' etag) then unquoted etag else etag

-- AddUserAgentIfAvailable, then AddHandleHeaders: the headers and the parameters after it.
unfoldable pub add_extra_headers : List (Text × Text) → List (Text × Text) → List (Text × Text)
add_extra_headers [] headers = headers
add_extra_headers ((k, v) ∷ extra) headers = add_extra_headers extra (insert k v headers)

unfoldable pub add_handle_headers : Params → List (Text × Text) → List (Text × Text) × Params
add_handle_headers p headers =
    (add_extra_headers p.extra_headers headers, record p { pre_merged_headers = true })

-- global_metadata_cache->Erase(path), where there is a global cache.
unfoldable pub erase_metadata : Text → Session → Session
unfolding Cache.erase
erase_metadata path s = record s {
  global_metadata_cache = Option.map (Cache.erase path) s.global_metadata_cache;
}

module _ (util : HttpUtil) where
  unfoldable pub add_user_agent_if_available : Params → List (Text × Text) → List (Text × Text)
  add_user_agent_if_available p headers =
      if is_empty p.user_agent
      then headers
      else util.insert_header (codes "User-Agent") p.user_agent headers

  -- The headers, and whether a precondition was added.
  unfoldable pub add_consistency_preconditions :
      FileHandle → List (Text × Text) → List (Text × Text) × Bool
  unfolding is_strong_etag
  add_consistency_preconditions h headers =
      if h.http_params.unsafe_disable_etag_checks
      then (headers, false)
      else if is_strong_etag h.etag
      then (util.insert_header if_match h.etag headers, true)
      else if ltb 0 h.last_modified
      then (
        util.insert_header if_unmodified_since (util.format_http_date h.last_modified) headers,
        true,
      )
      else (headers, false)

  -- `base_error` is what the request reports for any other failure.
  unfoldable pub make_consistency_aware_error :
      (Response → Exception) → Bool → Text → Response → Session → Exception × Session
  unfolding erase_metadata
  make_consistency_aware_error base_error sent_precondition path r s =
      if sent_precondition && r.status == 412
      then (util.http_exception remote_changed r, erase_metadata path s)
      else (base_error r, s)
