-- ===== src/Http/Types.antt =====
-- What the HTTP code exchanges with DuckDB: statuses, responses and exceptions.
use haybarn_httpfs.Base.{ℕ, ◌^◌, ◌≡◌, refl, ◌⊎◌, inl, inr, Bool, Option, List, Text}

-- ExceptionType, as far as the sources throw or compare it.
pub data ExceptionType : Type 0 where
  io http internal invalid_input not_implemented : ExceptionType

-- The message of an exception, one constructor for each text of the sources. The formatted values
-- are left out.
pub data Message : Type 0 where
  range_not_supported etag_changed remote_changed more_data_than_expected short_read : Message
  request_failed unknown_error cached_not_initialized cached_too_short size_mismatch : Message
  retry_failed full_download_failed file_does_not_exist http_get_error : Message
  already_initialized no_lock buffer_of_initialized : Message
  unmatched_tag key_not_found bad_list_result bad_upload_response : Message
  no_uploads_active unknown_part bad_part_response bad_finalization upload_failed : Message
  not_write_mode non_sequential_write retries_exceeded moved_region : Message
  bad_scheme no_slash no_bucket no_key bad_query bad_use_ssl bad_requester_pays : Message
  bad_hf_list bad_hf_url bad_repo_type not_hf_url bad_link_header no_next_link remove_failed :
      Message
  -- The model's own: a loop ran out of fuel.
  out_of_fuel : Message

-- `extra_info` is ErrorData::ExtraInfo.
pub record Exception : Type 0 where
  pub type : ExceptionType
  pub message : Message
  pub extra_info : List (Text × Text)

-- HTTPResponse. `success` is what Success() answers, and `request_error` is set when HasRequestError()
-- holds. Header names are held in one case, as the case-insensitive HTTPHeaders compares them.
pub record Response : Type 0 where
  pub status : ℕ
  pub headers : List (Text × Text)
  pub body : Text
  pub success : Bool
  pub request_error : Option Exception

-- A C++ call that returns or throws.
pub data Result {ℓ} (A : Type ℓ) : Type ℓ where
  ok : A → Result A
  throw : Exception → Result A

infixl 5 ◌>>=◌
abbrev pub ◌>>=◌ {ℓ κ} : {A : Type ℓ} {B : Type κ} → Result A → (A → Result B) → Result B
ok a >>= f = f a
throw e >>= f = throw e

-- An exception with no extra information.
abbrev pub plain : ExceptionType → Message → Exception
plain t m = record { type = t; message = m; extra_info = List.[] }

abbrev pub word : ℕ
word = 2 ^ 64

-- To split on a computed result and keep the equation.
pub Result-cases {ℓ} :
    {A : Type ℓ} (r : Result A) → ((a : A) × (r ≡ ok a)) ⊎ ((e : Exception) × (r ≡ throw e))
Result-cases (ok a) = inl (a, refl)
Result-cases (throw e) = inr (e, refl)
