-- ===== src/HuggingFace/Glob/Crawls.antt =====
-- The loop of Glob walks a finite tree of pages to its end.
use mathlib.Core.List.{append-nil, append_assoc}
use haybarn_httpfs.Base.{
  ℕ, suc, ◌+◌, ◌-◌, ◌<◌, ◌≡◌, refl, sym, ap, ◌∙◌, false, some, List, [], ◌∷◌, ◌++◌, arith, take,
  Text, codes, is_empty,
}
use haybarn_httpfs.Http.Types.{Result, ok}
use haybarn_httpfs.Http.Range.{Exchange}
use haybarn_httpfs.HuggingFace.Url.{ParsedHfUrl, hf_url_parse}
use haybarn_httpfs.HuggingFace.Listing.{started, parse_list_result}
use haybarn_httpfs.HuggingFace.Glob.{
  HfUtil, list_hf_request, pop_back, tree_url, list_page, next_request, crawl, matching_urls,
  find_first_of, before_last_slash, glob_path, glob,
}

pop_back-append {ℓ} : {A : Type ℓ} (xs : List A) (x : A) → pop_back (xs ++ x ∷ []) ≡ some (xs, x)
unfolding pop_back
pop_back-append [] x = refl
pop_back-append (y ∷ xs) x = rw (pop_back-append xs x, pop_back) refl

module _ (util : HfUtil) (server : Text → Exchange) (repository : ParsedHfUrl)
    (hf_max_per_page : ℕ) where
  -- A request for a page finds files and directories, and the URL of the next page.
  abbrev pub Finds : Text → List Text → List Text → Text → Type 0
  Finds url found below next =
      (files dirs : List Text)
      → list_page util server repository hf_max_per_page url files dirs
        ≡ ok (record { next_page_url = next; files = files ++ found; dirs = dirs ++ below })

  -- A request whose response is a page of a listing.
  pub list_page-lists :
      (url response next : Text) (files dirs found below : List Text)
      → list_hf_request util server repository.endpoint url ≡ ok (response, next)
      → parse_list_result response files dirs ≡ ok (started (files ++ found) (dirs ++ below))
      → list_page util server repository hf_max_per_page url files dirs
        ≡ ok (record { next_page_url = next; files = files ++ found; dirs = dirs ++ below })
  unfolding list_page
  list_page-lists url response next files dirs found below e f = rw (e, f, list_page) refl

  -- The pages of a directory from a URL on: its files, its directories, the number of requests.
  pub data Pages : Text → List Text → List Text → ℕ → Type 0 where
    last_page :
        {url : Text} {found below : List Text} {total : ℕ}
        → Finds url found below []
        → total ≡ 1
        → Pages url found below total
    page :
        {url next : Text} {found below more deeper all_found all_below : List Text} {n total : ℕ}
        → Finds url found below next
        → is_empty next ≡ false
        → Pages next more deeper n
        → all_found ≡ found ++ more
        → all_below ≡ below ++ deeper
        → total ≡ suc n
        → Pages url all_found all_below total

  -- A stack of directories, the one to take next at its end, with all that is below them: the files in
  -- the order in which they are found, and the number of requests.
  pub data Walk : List Text → List Text → ℕ → Type 0 where
    done :
        {dirs' all : List Text} {total : ℕ}
        → dirs' ≡ []
        → all ≡ []
        → total ≡ 0
        → Walk dirs' all total
    directory :
        (d : Text) {dirs below dirs' found deeper others all : List Text} {n m k total : ℕ}
        → Pages (tree_url util server repository hf_max_per_page d) found below n
        → Walk below deeper m
        → Walk dirs others k
        → dirs' ≡ dirs ++ d ∷ []
        → all ≡ found ++ (deeper ++ others)
        → total ≡ n + (m + k)
        → Walk dirs' all total

  abbrev loop : ℕ → Text → List Text → List Text → Result (List Text)
  loop fuel next files dirs =
      crawl util server repository hf_max_per_page fuel
        (record { next_page_url = next; files = files; dirs = dirs })

  -- A round that requests a page.
  crawl-round :
      (fuel : ℕ) (next url : Text) (files dirs rest found below : List Text) (after : Text)
      → next_request util server repository hf_max_per_page
          (record { next_page_url = next; files = files; dirs = dirs })
        ≡ some (url, rest)
      → Finds url found below after
      → loop (suc fuel) next files dirs ≡ loop fuel after (files ++ found) (rest ++ below)
  unfolding crawl
  crawl-round fuel next url files dirs rest found below after e finds =
      rw (e, finds files rest, crawl) refl

  next_request-page :
      (next : Text) (files dirs : List Text)
      → is_empty next ≡ false
      → next_request util server repository hf_max_per_page
          (record { next_page_url = next; files = files; dirs = dirs })
        ≡ some (next, dirs)
  unfolding next_request
  next_request-page next files dirs h = rw (h, next_request) refl

  next_request-directory :
      (files dirs : List Text) (d : Text)
      → next_request util server repository hf_max_per_page
          (record { next_page_url = []; files = files; dirs = dirs ++ d ∷ [] })
        ≡ some (tree_url util server repository hf_max_per_page d, dirs)
  unfolding next_request
  next_request-directory files dirs d = rw (pop_back-append dirs d, next_request) refl

  loop-eq :
      (next : Text) {fuel fuel' : ℕ} {files files' dirs dirs' : List Text}
      → fuel ≡ fuel'
      → files ≡ files'
      → dirs ≡ dirs'
      → loop fuel next files dirs ≡ loop fuel' next files' dirs'
  loop-eq next e f g = rw (e, f, g) refl

  -- The pages of a directory, from any request that asks for the first one.
  crawl-Pages :
      (fuel : ℕ) (next url : Text) (files dirs rest : List Text) {found below : List Text} {n : ℕ}
      → next_request util server repository hf_max_per_page
          (record { next_page_url = next; files = files; dirs = dirs })
        ≡ some (url, rest)
      → Pages url found below n
      → loop (n + fuel) next files dirs ≡ loop fuel [] (files ++ found) (rest ++ below)
  crawl-Pages fuel next url files dirs rest e (last_page finds one) =
      loop-eq next (omega arith) refl refl
      ∙ crawl-round fuel next url files dirs rest _ _ [] e finds
  crawl-Pages fuel next url files dirs rest e
        (page {next = after} {found} {below} {more} {deeper} {n = n} finds more_pages rest_pages f b
          t) =
      loop-eq next (omega arith) refl refl
      ∙ crawl-round (n + fuel) next url files dirs rest found below after e finds
      ∙ crawl-Pages fuel after after (files ++ found) (rest ++ below) (rest ++ below)
          (next_request-page after (files ++ found) (rest ++ below) more_pages) rest_pages
      ∙ loop-eq [] refl (append_assoc files found more ∙ ap (λ l. files ++ l) (sym f))
          (append_assoc rest below deeper ∙ ap (λ l. rest ++ l) (sym b))

  crawl-Walk :
      (fuel : ℕ) (files dirs : List Text) {above found : List Text} {n : ℕ}
      → Walk above found n
      → loop (n + fuel) [] files (dirs ++ above) ≡ loop fuel [] (files ++ found) dirs
  crawl-Walk fuel files dirs (done d a t) =
      loop-eq [] (omega arith) (sym (ap (λ l. files ++ l) a ∙ append-nil files))
        (ap (λ l. dirs ++ l) d ∙ append-nil dirs)
  crawl-Walk fuel files dirs
        (directory d {dirs = before} {below} {found = found} {deeper} {others} {n = n} {m} {k} p w v
          e a t) =
      let stack = (dirs ++ before) ++ d ∷ [] in
      let top = next_request-directory files (dirs ++ before) d in
      loop-eq [] (omega arith) refl
        (ap (λ l. dirs ++ l) e ∙ sym (append_assoc dirs before (d ∷ [])))
      ∙ crawl-Pages (m + (k + fuel)) [] (tree_url util server repository hf_max_per_page d) files
          stack (dirs ++ before) top p
      ∙ crawl-Walk (k + fuel) (files ++ found) (dirs ++ before) w
      ∙ crawl-Walk fuel ((files ++ found) ++ deeper) dirs v
      ∙ loop-eq [] refl (sym (ap (λ l. files ++ l) a ∙ simp (append_assoc))) refl

  -- Where the pages below a directory make a finite tree, the loop of Glob ends: with fuel for one more
  -- round than there are pages it gives the files of all of them, those of a directory's pages in
  -- their order before those of its subdirectories, of which the last comes first.
  pub crawl-Walk_all :
      (fuel : ℕ) (dirs found : List Text) (n : ℕ)
      → Walk dirs found n
      → n < fuel
      → crawl util server repository hf_max_per_page fuel
          (record { next_page_url = []; files = []; dirs = dirs })
        ≡ ok found
  unfolding crawl next_request pop_back
  crawl-Walk_all fuel dirs found n w enough =
      loop-eq [] {fuel' = n + suc (fuel - n - 1)} {dirs' = dirs} (omega arith) refl refl
      ∙ crawl-Walk (suc (fuel - n - 1)) [] [] w

  -- Glob of a pattern with a wildcard, where the pages below the directory before it make a finite tree
  -- and fuel is given for one more round than there are pages: the URLs of the files of all these
  -- pages that match the pattern, in the order of the walk.
  pub glob-Walk :
      (fuel n pos : ℕ) (path : Text) (found : List Text)
      → hf_url_parse path ≡ ok repository
      → find_first_of repository.path (codes "*[\\") ≡ some pos
      → Walk (before_last_slash (take pos repository.path) ∷ []) found n
      → n < fuel
      → glob util server hf_max_per_page fuel path
        ≡ ok (matching_urls util repository (util.split_text (codes "/") repository.path) found)
  unfolding glob glob_path
  glob-Walk fuel n pos path found parsed wildcard w enough =
      rw
        (
          parsed,
          wildcard,
          crawl-Walk_all fuel (before_last_slash (take pos repository.path) ∷ []) found n w enough,
          glob,
          glob_path,
        )
        refl
