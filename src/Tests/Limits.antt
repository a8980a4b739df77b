-- ===== src/Tests/Limits.antt =====
-- Limits on concrete inputs: the rate limiter, uploads, downloads and file names.
use open_key_server.Base.{
  ℕ, ◌+◌, ◌≡◌, refl, arith, ◌≤◌, String, List, [], ◌∷◌, All, length, concat, ltb, if◌then◌else◌,
}
use open_key_server.Orm.Session.{ok, err, http}
use open_key_server.Api.Attachments.Transfer.{
  read_upload_bounded, iter_blob, upload_chunk, clean_filename, too_large,
}
use open_key_server.Api.Attachments.Uploads.{IsStream, read_upload_bounded_lem, iter_blob_lem}
use open_key_server.Api.Attachments.Filenames.{
  AllChars, is_header_safe, num_chars, clean_filename_lem,
}
use open_key_server.RateLimit.{Hits, check}
use open_key_server.RateLimit.Keys.{IsFilled, has_key, check_grows}
use open_key_server.RateLimit.Promise.{IsTimed, decide_all, promised, decide_all_lem}

abbrev requests : List (ℕ × String)
requests = (1, "a") ∷ (2, "a") ∷ (2, "b") ∷ (3, "a") ∷ (70, "a") ∷ []

timed : IsTimed 0 requests
timed = (omega arith, (omega arith, (omega arith, (omega arith, (omega arith, tt)))))

decide_all_lem_example : decide_all 2 60 requests [] ≡ promised 2 60 requests (λ _. [])
decide_all_lem_example = decide_all_lem 2 60 (omega arith) requests timed

abbrev buckets : Hits
buckets = ("a", 1 ∷ []) ∷ []

check_grows_example :
    IsFilled (check 500 "b" 10 60 buckets).1
    × (length (check 500 "b" 10 60 buckets).1
        ≡ (if has_key "b" buckets then length buckets else length buckets + 1))
check_grows_example = check_grows 500 10 60 "b" buckets (omega arith) (refl, tt)

abbrev reads : List (List ℕ)
reads = (1 ∷ 2 ∷ []) ∷ (3 ∷ []) ∷ []

stream : IsStream reads
stream = (omega arith, (omega arith, tt))

read_upload_bounded_lem_example :
    read_upload_bounded 2 reads
    ≡ (if ltb 2 (length (concat reads)) then err (http 413 (too_large 2)) else ok (concat reads))
read_upload_bounded_lem_example = read_upload_bounded_lem 2 reads stream

iter_blob_lem_example :
    (concat (iter_blob (1 ∷ 2 ∷ [])) ≡ 1 ∷ 2 ∷ [])
    × All (λ c. length c ≤ upload_chunk) (iter_blob (1 ∷ 2 ∷ []))
iter_blob_lem_example = iter_blob_lem (1 ∷ 2 ∷ [])

clean_filename_lem_example :
    AllChars is_header_safe (clean_filename "a\"b.txt")
    × (num_chars (clean_filename "a\"b.txt") ≤ 200)
clean_filename_lem_example = clean_filename_lem "a\"b.txt"
