-- ===== src/S3/DeleteBatch/Separates.antt =====
-- Keys of batches are equal only for equal parts.
use mathlib.Core.Path.{ap₂}
use mathlib.Core.List.{append_assoc}
use haybarn_httpfs.Base.{
  ℕ, ◌≡◌, refl, sym, ap, ◌∙◌, ◌≢◌, Bool, true, false, List, [], ◌∷◌, ◌++◌, arith, length,
  length-append, get_or, take, drop, Text, codes, text_eq, text_eq_refl, to_string, read_digits,
  read_digits-to_string, drop-append, take-append,
}
use haybarn_httpfs.S3.Auth.{S3AuthParams}
use haybarn_httpfs.S3.Refresh.{S3RefreshableHttpParams, bool_eq, auth_params_match}
use haybarn_httpfs.S3.DeleteBatch.{
  S3DeleteBatchUrlInfo, length_prefixed, bool_part, build, add_url_parts, add_auth_parts,
  add_http_parts, create_delete_batch_key,
}

-- A part and what follows it.
abbrev behind : Text → Text → Text
behind value rest = b':' ∷ (value ++ (b';' ∷ rest))

length_prefixed-append :
    (value rest : Text)
    → length_prefixed value ++ rest ≡ to_string (length value) ++ behind value rest
unfolding length_prefixed
length_prefixed-append value rest =
    append_assoc (to_string (length value)) (b':' ∷ (value ++ codes ";")) rest
    ∙ ap (λ l. to_string (length value) ++ (b':' ∷ l)) (append_assoc value (codes ";") rest)

same_length :
    (s t r q : Text)
    → to_string (length s) ++ behind s r ≡ to_string (length t) ++ behind t q
    → length s ≡ length t
same_length s t r q e =
    sym (read_digits-to_string (length s) (behind s r) refl)
    ∙ ap (read_digits 0) e
    ∙ read_digits-to_string (length t) (behind t q) refl

cancel_front : (a b c : Text) → a ++ b ≡ a ++ c → b ≡ c
cancel_front a b c e =
    sym (drop-append (length a) a b refl) ∙ ap (drop (length a)) e ∙ drop-append (length a) a c refl

same_part : (s t r q : Text) → length_prefixed s ++ r ≡ length_prefixed t ++ q → (s ≡ t) × (r ≡ q)
same_part s t r q e =
    let whole = sym (length_prefixed-append s r) ∙ e ∙ length_prefixed-append t q in
    let size = same_length s t r q whole in
    let numbered : to_string (length s) ++ behind s r ≡ to_string (length s) ++ behind t q =
      whole ∙ ap (λ n. to_string n ++ behind t q) (sym size) in
    let tails : s ++ (b';' ∷ r) ≡ t ++ (b';' ∷ q) =
      ap (drop 1) (cancel_front (to_string (length s)) (behind s r) (behind t q) numbered) in
    (
      sym (take-append (length s) s (b';' ∷ r) refl)
          ∙ ap (take (length s)) tails
          ∙ take-append (length s) t (b';' ∷ q) size,
      ap (drop 1) (
          sym (drop-append (length s) s (b';' ∷ r) refl)
          ∙ ap (drop (length s)) tails
          ∙ drop-append (length s) t (b';' ∷ q) size),
    )

length_prefixed-not_empty : (value rest : Text) → length_prefixed value ++ rest ≢ []
length_prefixed-not_empty value rest e =
    let size = ap length (sym (length_prefixed-append value rest) ∙ e) in
    omega (arith, size, length-append (to_string (length value)) (behind value rest))

-- Different lists of parts have different keys.
build-injective : (xs ys : List Text) → build xs ≡ build ys → xs ≡ ys
unfolding build
build-injective [] [] e = refl
build-injective [] (y ∷ ys) e = absurd (length_prefixed-not_empty y (build ys) (sym e))
build-injective (x ∷ xs) [] e = absurd (length_prefixed-not_empty x (build xs) e)
build-injective (x ∷ xs) (y ∷ ys) e =
    let (here, later) = same_part x y (build xs) (build ys) e in
    ap₂ (λ z zs. z ∷ zs) here (build-injective xs ys later)

eq-text_eq : (s t : Text) → s ≡ t → text_eq s t ≡ true
eq-text_eq s t e = ap (text_eq s) (sym e) ∙ text_eq_refl s

bool_part-eq : (a b : Bool) → bool_part a ≡ bool_part b → bool_eq a b ≡ true
unfolding bool_part text_eq
bool_part-eq true true e = refl
bool_part-eq false false e = refl
bool_part-eq true false e = sym (ap (text_eq (codes "1")) e)
bool_part-eq false true e = sym (ap (text_eq (codes "0")) e)

add_auth_parts-match :
    (p q : S3AuthParams) (xs ys : List Text)
    → add_auth_parts p xs ≡ add_auth_parts q ys
    → auth_params_match p q ≡ true
unfolding add_auth_parts auth_params_match
add_auth_parts-match p q xs ys e =
    let part = λ (k : ℕ). ap (λ l. get_or l k []) e in
    rw
      (
        eq-text_eq p.region q.region (part 0),
        eq-text_eq p.access_key_id q.access_key_id (part 1),
        eq-text_eq p.secret_access_key q.secret_access_key (part 2),
        eq-text_eq p.session_token q.session_token (part 3),
        eq-text_eq p.endpoint q.endpoint (part 4),
        eq-text_eq p.kms_key_id q.kms_key_id (part 5),
        eq-text_eq p.url_style q.url_style (part 6),
        bool_part-eq p.use_ssl q.use_ssl (part 7),
        bool_part-eq p.s3_url_compatibility_mode q.s3_url_compatibility_mode (part 8),
        bool_part-eq p.requester_pays q.requester_pays (part 9),
        eq-text_eq p.oauth2_bearer_token q.oauth2_bearer_token (part 10),
        auth_params_match,
      )
      refl

-- Two objects whose keys of a batch are equal are removed with the same credentials at the same place:
-- the parameters match by S3AuthParamsMatch, and the prefix, the protocol, the host and the path of the
-- bucket are equal, whatever the other parts of the keys are.
pub create_delete_batch_key-separates :
    (sort : List (Text × Text) → List (Text × Text)) (u v : S3DeleteBatchUrlInfo)
    (h k : S3RefreshableHttpParams) (secrets others : List Text)
    → create_delete_batch_key sort u h secrets ≡ create_delete_batch_key sort v k others
    → (auth_params_match u.auth_params v.auth_params ≡ true)
      × (u.prefix ≡ v.prefix)
      × (u.http_proto ≡ v.http_proto)
      × (u.host ≡ v.host)
      × (u.path ≡ v.path)
unfolding create_delete_batch_key add_url_parts
create_delete_batch_key-separates sort u v h k secrets others e =
    let parts_u = add_auth_parts u.auth_params (add_http_parts sort h secrets) in
    let parts_v = add_auth_parts v.auth_params (add_http_parts sort k others) in
    let same = build-injective (add_url_parts u parts_u) (add_url_parts v parts_v) e in
    (
      add_auth_parts-match u.auth_params v.auth_params (add_http_parts sort h secrets)
          (add_http_parts sort k others) (ap (drop 4) same),
      ap (λ l. get_or l 0 []) same,
      ap (λ l. get_or l 1 []) same,
      ap (λ l. get_or l 2 []) same,
      ap (λ l. get_or l 3 []) same,
    )
