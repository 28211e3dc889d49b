-- ===== src/S3/Remove/Fuel.antt =====
-- The fuel of the loops of RemoveFiles.
use haybarn_httpfs.Base.{
  ℕ, zero, suc, ◌≤◌, ◌≡◌, refl, sym, ap, ◌∙◌, inl, inr, true, false, Option, none, some, List, [],
  ◌∷◌, ◌++◌, arith, length, get_or, take, drop, length-drop, Text,
}
use haybarn_httpfs.Http.Types.{Response, Result, ok, throw, Result-cases}
use haybarn_httpfs.S3.Auth.{S3AuthParams}
use haybarn_httpfs.S3.Remove.{
  DeleteRequest, RemoveUtil, Removal, max_keys_per_request, xml_body, delete_request,
  refreshed_params, send_delete, judge_answer, send_batch,
}

length-drop-cons :
    (key : Text) (keys : List Text) (n : ℕ) → length (drop (suc n) (key ∷ keys)) ≤ length keys
length-drop-cons key keys n = omega (arith, length-drop n keys)

module _ (util : RemoveUtil) where
  -- With fuel for a round for each key, more fuel changes nothing.
  send_batch-enough_fuel :
      (fuel more : ℕ) (k : Text) (keys paths : List Text) (p : S3AuthParams) (removal : Removal)
      → length keys ≤ fuel
      → length keys ≤ more
      → send_batch util fuel k keys paths p removal ≡ send_batch util more k keys paths p removal
  unfolding send_batch
  send_batch-enough_fuel fuel more k [] paths p removal h h' = refl
  send_batch-enough_fuel zero more k (key ∷ keys) paths p removal h h' = absurd (omega arith)
  send_batch-enough_fuel (suc fuel) zero k (key ∷ keys) paths p removal h h' = absurd (omega arith)
  send_batch-enough_fuel (suc fuel) (suc more) k (key ∷ keys) paths p removal h h' =
      let sent_keys = take max_keys_per_request (key ∷ keys) in
      let rest = drop max_keys_per_request (key ∷ keys) in
      let sent =
        send_delete util 2 false (get_or paths 0 []) (xml_body sent_keys) p removal.requests in
      let told : DeleteRequest → Removal =
        λ request. record { accepted = removal.accepted ++ (k, request) ∷ []; requests = sent.2 } in
      let go : ℕ → Result DeleteRequest → Result (Unit {0}) × Removal = λ n m. elim m [
        | throw x ↦ (throw x, record removal { requests = sent.2 })
        | ok request ↦
            send_batch util n k rest (drop max_keys_per_request paths) sent.1 (told request)
      ] in
      let shorter = length-drop-cons key keys 999 in
      elim (Result-cases (judge_answer util sent.0)) [
        | inr (x, failed) ↦ ap (go fuel) failed ∙ sym (ap (go more) failed)
        | inl (request, went) ↦
            ap (go fuel) went
            ∙ send_batch-enough_fuel fuel more k rest (drop max_keys_per_request paths) sent.1
                (told request) (omega (arith, shorter, h)) (omega (arith, shorter, h'))
            ∙ sym (ap (go more) went)
      ]

  refreshed_params-retried :
      (answer : Result (Option Response)) (n : ℕ) (url : Text) (p : S3AuthParams)
      → refreshed_params util true answer n url p ≡ none
  refreshed_params-retried (throw e) n url p = refl
  refreshed_params-retried (ok none) n url p = refl
  refreshed_params-retried (ok (some r)) n url p = refl

  -- After a refresh the loop of a request ends with its next round, so two rounds are enough.
  send_delete-retried :
      (fuel : ℕ) (url body : Text) (p : S3AuthParams) (n : ℕ)
      → send_delete util (suc fuel) true url body p n ≡ send_delete util 1 true url body p n
  unfolding send_delete
  send_delete-retried fuel url body p n = elim (Result-cases (delete_request util url p body)) [
    | inr (e, bad) ↦ rw (bad, send_delete) refl
    | inl (request, good) ↦
        rw (good, refreshed_params-retried (util.post n request) n url p, send_delete) refl
  ]
