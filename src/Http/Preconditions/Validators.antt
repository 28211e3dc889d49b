-- ===== src/Http/Preconditions/Validators.antt =====
-- Which validators a conditional read sends.
use haybarn_httpfs.Base.{
  ◌≡◌, refl, Bool, true, false, ◌&&◌, not, Option, some, List, ltb, if◌then◌else◌, Text, or_else,
}
use haybarn_httpfs.Http.Handle.{FileHandle, HttpUtil}
use haybarn_httpfs.Http.Preconditions.{
  if_match, if_unmodified_since, is_strong_etag, add_consistency_preconditions,
}

-- What the code relies on in HTTPHeaders: a header that is inserted is found unless the name has a
-- value already, which is kept, and inserting one of the two validators leaves the other.
pub record IsHeaderMap (get : Text → List (Text × Text) → Option Text) (util : HttpUtil)
    : Type 0 where
  pub insert-same :
      (k v : Text) (headers : List (Text × Text))
      → get k (util.insert_header k v headers) ≡ or_else (get k headers) (some v)
  pub insert-since :
      (v : Text) (headers : List (Text × Text))
      → get if_match (util.insert_header if_unmodified_since v headers) ≡ get if_match headers
  pub insert-match :
      (v : Text) (headers : List (Text × Text))
      → get if_unmodified_since (util.insert_header if_match v headers)
        ≡ get if_unmodified_since headers

module _ (get : Text → List (Text × Text) → Option Text) (util : HttpUtil)
    (laws : IsHeaderMap get util) (h : FileHandle) (headers : List (Text × Text)) where
  abbrev date : Text
  date = util.format_http_date h.last_modified

  validators :
      (disabled strong timed : Bool)
      → let out =
          (if◌then◌else◌ {A = List (Text × Text) × Bool} disabled
            (headers, false)
            (if strong
              then (util.insert_header if_match h.etag headers, true)
              else if timed
              then (util.insert_header if_unmodified_since date headers, true)
              else (headers, false))).0 in
        (get if_match out ≡ (
          if not disabled && strong
          then or_else (get if_match headers) (some h.etag)
          else get if_match headers))
        × (get if_unmodified_since out ≡ (
            if not disabled && (not strong && timed)
            then or_else (get if_unmodified_since headers) (some date)
            else get if_unmodified_since headers))
  validators true strong timed = (refl, refl)
  validators false true timed =
      (laws.insert-same if_match h.etag headers, laws.insert-match h.etag headers)
  validators false false true =
      (laws.insert-since date headers, laws.insert-same if_unmodified_since date headers)
  validators false false false = (refl, refl)

  -- With headers that are found once they are inserted where the name had no value, and validators
  -- that do not disturb each other: when etag checks are not disabled and the etag is strong, If-Match
  -- is what it was before, and that etag where there was none; when they are not disabled, the etag is
  -- not strong and there is a modification time, If-Unmodified-Since is what it was before, and the
  -- date where there was none; and either is as it was in every other case.
  pub add_consistency_preconditions-validators :
      let out = (add_consistency_preconditions util h headers).0 in
      let checked = not h.http_params.unsafe_disable_etag_checks in
      (get if_match out ≡ (
        if checked && is_strong_etag h.etag
        then or_else (get if_match headers) (some h.etag)
        else get if_match headers))
      × (get if_unmodified_since out ≡ (
          if checked && (not (is_strong_etag h.etag) && ltb 0 h.last_modified)
          then or_else
              (get if_unmodified_since headers)
              (some (util.format_http_date h.last_modified))
          else get if_unmodified_since headers))
  unfolding add_consistency_preconditions
  add_consistency_preconditions-validators =
      validators h.http_params.unsafe_disable_etag_checks (is_strong_etag h.etag)
        (ltb 0 h.last_modified)
