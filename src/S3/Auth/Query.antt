-- ===== src/S3/Auth/Query.antt =====
-- The query parameters of an S3 URL.
use haybarn_httpfs.Base.{
  ◌≡◌, refl, inl, inr, Bool, false, ◌||◌, not, some, List, [], ◌∷◌, arith, if◌then◌else◌,
  Option-cases, drop, Text, codes, text_eq, is_empty, lookup, lookup-erase,
}
use haybarn_httpfs.Http.Types.{
  io, Message, bad_query, bad_use_ssl, bad_requester_pays, Exception, Result, ok, throw, ◌>>=◌,
  plain, Result-cases,
}
use haybarn_httpfs.S3.Auth.{S3AuthParams, get_query_param, get_query_flag, read_query_params}

-- The parameters that ReadQueryParams knows.
abbrev pub known_params : List Text
known_params =
    codes "s3_region"
    ∷ codes "s3_access_key_id"
    ∷ codes "s3_secret_access_key"
    ∷ codes "s3_session_token"
    ∷ codes "s3_endpoint"
    ∷ codes "s3_url_style"
    ∷ codes "s3_use_ssl"
    ∷ codes "s3_requester_pays"
    ∷ []

unfoldable pub is_among : Text → List Text → Bool
is_among k [] = false
is_among k (j ∷ keys) = text_eq j k || is_among k keys

get_query_param-keeps :
    (key param k v : Text) (q : List (Text × Text))
    → text_eq key k ≡ false
    → lookup k q ≡ some v
    → lookup k (get_query_param key param q).1 ≡ some v
unfolding get_query_param
get_query_param-keeps key param k v q other here = elim (Option-cases (lookup key q)) [
  | inl e ↦ ground (arith, e, here)
  | inr (w, e) ↦ ground (arith, e, here, lookup-erase key k q, other)
]

get_query_flag-keeps :
    (key k v : Text) (incorrect : Message) (param flag : Bool) (q q' : List (Text × Text))
    → text_eq key k ≡ false
    → lookup k q ≡ some v
    → get_query_flag key incorrect param q ≡ ok (flag, q')
    → lookup k q' ≡ some v
unfolding get_query_flag
get_query_flag-keeps key k v incorrect param flag q q' other here went =
    elim (Option-cases (lookup key q)) [
      | inl e ↦ ground (arith, e, here, went)
      | inr (w, e) ↦ ground (arith, e, here, lookup-erase key k q, other, went)
    ]

is_among-cons :
    (k j : Text) (keys : List Text)
    → is_among k (j ∷ keys) ≡ false
    → (text_eq j k ≡ false) × (is_among k keys ≡ false)
unfolding is_among
is_among-cons k j keys h = ground (arith, h)

module _ (k v : Text) where
  abbrev Held : List (Text × Text) → Type 0
  Held q = lookup k q ≡ some v

  -- The flags, then the check that nothing is left, with what is done then.
  abbrev read_flags :
      Bool → Bool → List (Text × Text) → (Bool → Bool → S3AuthParams) → Result S3AuthParams
  read_flags use_ssl requester_pays q done =
      get_query_flag (codes "s3_use_ssl") bad_use_ssl use_ssl q >>= λ (s, q6).
      get_query_flag (codes "s3_requester_pays") bad_requester_pays requester_pays q6 >>= λ (r, q7).
      if not (is_empty q7) then throw (plain io bad_query) else ok (done s r)

  Held-not_empty : (q : List (Text × Text)) → Held q → is_empty q ≡ false
  unfolding lookup
  Held-not_empty [] held = cc
  Held-not_empty (e ∷ q) held = refl

  read_flags-refuses :
      (use_ssl requester_pays : Bool) (q : List (Text × Text)) (done : Bool → Bool → S3AuthParams)
      → Held q
      → text_eq (codes "s3_use_ssl") k ≡ false
      → text_eq (codes "s3_requester_pays") k ≡ false
      → (e : Exception) × (read_flags use_ssl requester_pays q done ≡ throw e)
  read_flags-refuses use_ssl requester_pays q done held other other' =
      elim (Result-cases (get_query_flag (codes "s3_use_ssl") bad_use_ssl use_ssl q)) [
        | inr (e, a) ↦ (e, rw a refl)
        | inl ((s, q6), a) ↦
            let held' =
              get_query_flag-keeps (codes "s3_use_ssl") k v bad_use_ssl use_ssl s q q6 other held
                a in
            elim (Result-cases
              (get_query_flag (codes "s3_requester_pays") bad_requester_pays requester_pays q6)) [
                | inr (e, b) ↦ (e, rw (a, b) refl)
                | inl ((r, q7), b) ↦
                    let left = Held-not_empty q7 (
                      get_query_flag-keeps (codes "s3_requester_pays") k v bad_requester_pays
                        requester_pays r q6 q7 other' held' b) in
                    (plain io bad_query, rw (a, b, left) refl)
              ]
      ]

  -- A query with a parameter that is not one of the eight known ones is refused: ReadQueryParams
  -- throws, whatever else the query holds.
  pub read_query_params-refuses :
      (parse : Text → List (Text × Text)) (query : Text) (p : S3AuthParams)
      → is_empty query ≡ false
      → lookup k (parse query) ≡ some v
      → is_among k known_params ≡ false
      → (e : Exception) × (read_query_params parse query p ≡ throw e)
  unfolding read_query_params
  read_query_params-refuses parse query p some_query held unknown =
      let (n0, u0) = is_among-cons k (codes "s3_region") (drop 1 known_params) unknown in
      let (n1, u1) = is_among-cons k (codes "s3_access_key_id") (drop 2 known_params) u0 in
      let (n2, u2) = is_among-cons k (codes "s3_secret_access_key") (drop 3 known_params) u1 in
      let (n3, u3) = is_among-cons k (codes "s3_session_token") (drop 4 known_params) u2 in
      let (n4, u4) = is_among-cons k (codes "s3_endpoint") (drop 5 known_params) u3 in
      let (n5, u5) = is_among-cons k (codes "s3_url_style") (drop 6 known_params) u4 in
      let (n6, u6) = is_among-cons k (codes "s3_use_ssl") (drop 7 known_params) u5 in
      let (n7, u7) = is_among-cons k (codes "s3_requester_pays") (drop 8 known_params) u6 in
      let next =
        λ (key : Text) (param : Text) (q : List (Text × Text)). (get_query_param key param q).1 in
      let q0 = next (codes "s3_region") p.region (parse query) in
      let q1 = next (codes "s3_access_key_id") p.access_key_id q0 in
      let q2 = next (codes "s3_secret_access_key") p.secret_access_key q1 in
      let q3 = next (codes "s3_session_token") p.session_token q2 in
      let q4 = next (codes "s3_endpoint") p.endpoint q3 in
      let q5 = next (codes "s3_url_style") p.url_style q4 in
      let h0 = get_query_param-keeps (codes "s3_region") p.region k v (parse query) n0 held in
      let h1 = get_query_param-keeps (codes "s3_access_key_id") p.access_key_id k v q0 n1 h0 in
      let h2 =
        get_query_param-keeps (codes "s3_secret_access_key") p.secret_access_key k v q1 n2 h1 in
      let h3 = get_query_param-keeps (codes "s3_session_token") p.session_token k v q2 n3 h2 in
      let h4 = get_query_param-keeps (codes "s3_endpoint") p.endpoint k v q3 n4 h3 in
      let h5 = get_query_param-keeps (codes "s3_url_style") p.url_style k v q4 n5 h4 in
      let (e, thrown) =
        read_flags-refuses p.use_ssl p.requester_pays q5
          (λ s r. record p {
            region = (get_query_param (codes "s3_region") p.region (parse query)).0;
            access_key_id = (get_query_param (codes "s3_access_key_id") p.access_key_id q0).0;
            secret_access_key =
                (get_query_param (codes "s3_secret_access_key") p.secret_access_key q1).0;
            session_token = (get_query_param (codes "s3_session_token") p.session_token q2).0;
            endpoint = (get_query_param (codes "s3_endpoint") p.endpoint q3).0;
            url_style = (get_query_param (codes "s3_url_style") p.url_style q4).0;
            use_ssl = s;
            requester_pays = r;
          })
          h5 n6 n7 in
      (e, rw some_query thrown)
