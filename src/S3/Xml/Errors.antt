-- ===== src/S3/Xml/Errors.antt =====
-- ParseS3Error and TryGetS3ErrorCode on the error body that S3 sends.
use mathlib.Core.List.{append-nil, append_assoc}
use haybarn_httpfs.Base.{
  ℕ, ◌≡◌, refl, sym, ap, true, false, some, [], ◌∷◌, ◌++◌, Text, codes, text_eq, is_empty,
}
use haybarn_httpfs.S3.Xml.{
  open_tag, close_tag, try_find_tag_contents, try_get_s3_error_code, parse_s3_error,
}
use haybarn_httpfs.S3.Xml.Tags.{
  misses, behind_tag, try_find_tag_contents-at, has_no_tag, misses-tag, misses-append,
}

abbrev inner_xml : Text → Text → Text → Text
inner_xml code message more =
    open_tag (codes "Code")
    ++ (code
        ++ (close_tag (codes "Code")
            ++ (open_tag (codes "Message") ++ (message ++ (close_tag (codes "Message") ++ more)))))

-- The body of an S3 error: a code, a message and more elements.
abbrev pub error_body : Text → Text → Text → Text → Text → Text
error_body before code message more after =
    before
    ++ (open_tag (codes "Error")
        ++ (inner_xml code message more ++ (close_tag (codes "Error") ++ after)))

is_empty-append : (s t : Text) (c : ℕ) → is_empty (s ++ (c ∷ t)) ≡ false
is_empty-append [] t c = refl
is_empty-append (d ∷ s) t c = refl

module _ (before code message more after : Text)
    (at_error : misses before (open_tag (codes "Error")) ≡ true)
    (plain_code : has_no_tag code ≡ true) (plain_message : has_no_tag message ≡ true)
    (ends : misses more (close_tag (codes "Error")) ≡ true) where
  misses-inner_xml : misses (inner_xml code message more) (close_tag (codes "Error")) ≡ true
  misses-inner_xml =
      let error = close_tag (codes "Error") in
      misses-append (open_tag (codes "Code")) _ error (unfold misses in refl) (
        misses-append code _ error (misses-tag code (codes "/Error>") plain_code) (
          misses-append (close_tag (codes "Code")) _ error (unfold misses in refl) (
            misses-append (open_tag (codes "Message")) _ error (unfold misses in refl) (
              misses-append message _ error (misses-tag message (codes "/Error>") plain_message) (
                misses-append (close_tag (codes "Message")) more error (unfold misses in refl)
                  ends)))))

  found_error :
      try_find_tag_contents (error_body before code message more after) (codes "Error") 0
      ≡ some (
        inner_xml code message more,
        behind_tag before (codes "Error") (inner_xml code message more) 0,
      )
  found_error =
      (try_find_tag_contents-at (error_body before code message more after) (codes "Error") before
        (inner_xml code message more) after 0 refl at_error misses-inner_xml).0

  found_code :
      try_find_tag_contents (inner_xml code message more) (codes "Code") 0
      ≡ some (code, behind_tag [] (codes "Code") code 0)
  found_code =
      (try_find_tag_contents-at (inner_xml code message more) (codes "Code") [] code
        (open_tag (codes "Message") ++ (message ++ (close_tag (codes "Message") ++ more))) 0 refl
        (unfold misses in refl) (misses-tag code (codes "/Code>") plain_code)).0

  abbrev code_xml : Text
  code_xml = open_tag (codes "Code") ++ (code ++ close_tag (codes "Code"))

  found_message :
      try_find_tag_contents (inner_xml code message more) (codes "Message") 0
      ≡ some (message, behind_tag code_xml (codes "Message") message 0)
  found_message =
      let text = open_tag (codes "Message") in
      (try_find_tag_contents-at (inner_xml code message more) (codes "Message") code_xml message
        more 0
        (sym (
          ap (λ l. open_tag (codes "Code") ++ l)
            (append_assoc code (close_tag (codes "Code"))
              (text ++ (message ++ (close_tag (codes "Message") ++ more))))))
        (misses-append (open_tag (codes "Code")) _ text (unfold misses in refl) (
          misses-append code (close_tag (codes "Code")) text
            (misses-tag code (codes "Message>") plain_code) (unfold misses in refl)))
        (misses-tag message (codes "/Message>") plain_message)).0

  -- An error body that starts with the error's code and message, after a text without an open Error
  -- tag and before a text without a close one, is read back: ParseS3Error gives the code and the
  -- message, and TryGetS3ErrorCode the code. The code and the message hold no '<', and the code is
  -- not InvalidAccessKeyId.
  pub parse_s3_error-error_body :
      text_eq code (codes "InvalidAccessKeyId") ≡ false
      → (parse_s3_error (error_body before code message more after)
          ≡ codes "\n\n" ++ code ++ codes ": " ++ message)
        × (try_get_s3_error_code (error_body before code message more after) ≡ some code)
  unfolding parse_s3_error try_get_s3_error_code
  parse_s3_error-error_body other =
      let full =
        is_empty-append before
          (codes "Error>" ++ (inner_xml code message more ++ (close_tag (codes "Error") ++ after)))
          b'<' in
      (
        rw (full, found_error, found_code, found_message, other, parse_s3_error)
            (append-nil (codes "\n\n" ++ code ++ codes ": " ++ message)),
        rw (full, found_error, found_code, try_get_s3_error_code) refl,
      )
