-- ===== src/S3/Refresh/Reloads.antt =====
-- A refresh that is reported has changed what the request was made with.
use mathlib.Core.Path.{subst}
use haybarn_httpfs.Base.{
  ◌≡◌, refl, sym, ap, ◌∙◌, ◌≢◌, ◌⊎◌, inl, inr, Bool, true, false, ◌&&◌, ◌||◌, not, none, some,
  arith, if◌then◌else◌, Bool-cases,
}
use haybarn_httpfs.S3.Auth.{S3AuthParams}
use haybarn_httpfs.S3.Refresh.{
  S3RefreshableHttpParams, HttpfsParams, auth_params_match, snapshot, apply_refreshable,
  refreshable_match, Material, Opened, keep_region, reload_auth_material, or_then,
  try_refresh_auth_material,
}

true-ne-false : true ≢ false
true-ne-false e = cc

-- What is read from the settings is what a later snapshot gives.
snapshot-apply :
    (source target : HttpfsParams)
    → snapshot (apply_refreshable (snapshot source) target) ≡ snapshot source
unfolding snapshot apply_refreshable
snapshot-apply source target = ground arith

-- Whether a request made now is made as `auth` and `http` say.
abbrev pub same_material : Material → S3AuthParams → S3RefreshableHttpParams → Bool
same_material m auth connection =
    auth_params_match m.auth_params auth && refreshable_match (snapshot m.http_params) connection

abbrev unchanged :
    S3AuthParams → HttpfsParams → S3AuthParams → S3RefreshableHttpParams → Bool → Material → Bool
unchanged secrets settings auth connection preserve m =
    auth_params_match (keep_region preserve m.auth_params.region secrets) auth
    && refreshable_match (snapshot settings) connection

-- The answer is false and nothing is changed, or it is true and a request made now differs from the
-- failed one in its credentials or in the parameters of its connection.
abbrev pub IsRefresh : S3AuthParams → S3RefreshableHttpParams → Material → Bool × Material → Type 0
IsRefresh auth connection m answer =
    (answer ≡ (false, m)) ⊎ ((answer.0 ≡ true) × (same_material answer.1 auth connection ≡ false))

module _ (auth : S3AuthParams) (connection : S3RefreshableHttpParams) (preserve : Bool) where
  reload_auth_material-IsRefresh :
      (opened : Opened) (m : Material)
      → IsRefresh auth connection m (reload_auth_material opened auth connection preserve m)
  unfolding reload_auth_material
  reload_auth_material-IsRefresh none m = inl refl
  reload_auth_material-IsRefresh (some (secrets, settings)) m =
      elim (Bool-cases (unchanged secrets settings auth connection preserve m)) [
        | inl e ↦ inl (rw (e, reload_auth_material) refl)
        | inr e ↦ inr (
            rw (e, reload_auth_material)
              (
                refl,
                ap
                      (λ p.
                        auth_params_match (keep_region preserve m.auth_params.region secrets) auth
                        && refreshable_match p connection)
                      (snapshot-apply settings m.http_params)
                    ∙ e,
              ))
      ]

  or_then-IsRefresh :
      (m : Material) (answer : Bool × Material) (next : Material → Bool × Material)
      → IsRefresh auth connection m answer
      → IsRefresh auth connection m (next m)
      → IsRefresh auth connection m (or_then answer next)
  or_then-IsRefresh m (true, m') next (inr changed) later = inr changed
  or_then-IsRefresh m (false, m') next (inl same) later =
      subst (λ n. IsRefresh auth connection m (next n)) (sym (ap (λ a. a.1) same)) later
  or_then-IsRefresh m (true, m') next (inl same) later = absurd (true-ne-false (ap (λ a. a.0) same))
  or_then-IsRefresh m (false, m') next (inr (said, _)) later = absurd (true-ne-false (sym said))

  -- TryRefreshS3AuthMaterial answers true only when a request made now differs from the failed one in
  -- its credentials or in the parameters of its connection, and when it answers false it has changed
  -- nothing, whatever the secrets hold at each of its readings.
  pub try_refresh_auth_material-IsRefresh :
      (enabled has_context : Bool) (first locked after : Opened) (refreshed : Bool) (m : Material)
      → IsRefresh auth connection m (
          try_refresh_auth_material enabled has_context first locked after refreshed auth connection
            preserve m)
  unfolding try_refresh_auth_material
  try_refresh_auth_material-IsRefresh false has_context first locked after refreshed m = inl refl
  try_refresh_auth_material-IsRefresh true has_context first locked after refreshed m =
      elim (Bool-cases (
        not (auth_params_match m.auth_params auth)
        || not (refreshable_match (snapshot m.http_params) connection))) [
          | inl e ↦ rw (e, try_refresh_auth_material) (inr (refl, ground (arith, e)))
          | inr e ↦ rw (e, try_refresh_auth_material) (steps has_context refreshed)
        ]
    where
      reload : Opened → Material → Bool × Material
      reload opened n = reload_auth_material opened auth connection preserve n

      last : (r : Bool) → IsRefresh auth connection m (if not r then (false, m) else reload after m)
      last false = inl refl
      last true = reload_auth_material-IsRefresh after m

      steps :
          (c r : Bool)
          → IsRefresh auth connection m (
              if not c
              then (false, m)
              else or_then (reload first m) (λ m'.
                or_then
                  (reload locked m')
                  (λ m''. if not r then (false, m'') else reload after m'')))
      steps false r = inl refl
      steps true r =
          or_then-IsRefresh m (reload first m)
            (λ m'.
              or_then (reload locked m') (λ m''. if not r then (false, m'') else reload after m''))
            (reload_auth_material-IsRefresh first m)
            (or_then-IsRefresh m (reload locked m)
              (λ m''. if not r then (false, m'') else reload after m'')
              (reload_auth_material-IsRefresh locked m) (last r))
