-- ===== src/Http/Download/Tests.antt =====
-- A full download of a file that changed after it was opened.
use haybarn_httpfs.Base.{◌≡◌, refl}
use haybarn_httpfs.Http.Types.{Exception, throw}
use haybarn_httpfs.Http.Range.Refused.{IsVerdict}
use haybarn_httpfs.Http.Range.Tests.{util, known_session, precondition_failed, refused, base_error}
use haybarn_httpfs.Http.Download.{get_request}
use haybarn_httpfs.Http.Download.Refused.{get_request-refused}

get_request-refused_example :
    let ran = get_request util base_error (λ k client headers. refused) known_session in
    (thrown : Exception) × (ran.0 ≡ throw thrown)
    × IsVerdict util base_error precondition_failed known_session ran.1 thrown
get_request-refused_example =
    get_request-refused util base_error (λ k client headers. refused) known_session
      precondition_failed
      (record { events = refl; response = refl; error_status = refl; no_request_error = refl })
