-- ===== src/Api/Attachments/Transfer.antt =====
-- The transfer of blobs in app/api/attachments.py: the bounded upload, the download in chunks, and
-- the header that names the file.
use Prim.Native.Char.{Char, code}
use Prim.Native.String.{◌++◌ as append}
use open_key_server.Base.{
  ℕ, zero, suc, ◌+◌, ◌-◌, ◌*◌, ◌/◌, String, Bool, not, ◌||◌, List, [], ◌∷◌, ◌++◌, ◌==◌, nat_eq, ltb,
  leb, length, take, drop, concat, if◌then◌else◌,
}
use open_key_server.Orm.Session.{Result, ok, err, http}
use open_key_server.Text.{is_empty, strip, show}

-- `_UPLOAD_CHUNK`, and the step of a download.
abbrev pub upload_chunk : ℕ
upload_chunk = 64 * 1024

-- `_UNSAFE_FILENAME`: CR, LF, the quote and the backslash.
unfoldable pub is_unsafe : Char → Bool
is_unsafe c = let n = code c in n == 13 || n == 10 || n == 34 || n == 92

unfoldable pub keep_chars : (Char → Bool) → String → String
keep_chars p String.[] = String.[]
keep_chars p (String.◌∷◌ c s) = let rest = keep_chars p s in if p c then String.◌∷◌ c rest else rest

-- `s[:n]`
unfoldable pub take_chars : ℕ → String → String
take_chars zero s = String.[]
take_chars (suc n) String.[] = String.[]
take_chars (suc n) (String.◌∷◌ c s) = String.◌∷◌ c (take_chars n s)

-- The name between the quotes of the header.
unfoldable pub clean_filename : String → String
unfolding is_unsafe keep_chars take_chars
clean_filename filename =
    let cleaned =
      keep_chars (λ c. leb 32 (code c)) (strip (keep_chars (λ c. not (is_unsafe c)) filename)) in
    take_chars 200 (if is_empty cleaned then "attachment.bin" else cleaned)

unfoldable pub content_disposition : String → String
unfolding clean_filename
content_disposition filename =
    append "attachment; filename=\"" (append (clean_filename filename) "\"")

abbrev pub too_large : ℕ → String
too_large max_bytes = append "Attachment exceeds " (append (show max_bytes) " byte limit")

-- The loop of `_read_upload_bounded` over what the reads of the upload give; an empty read is its
-- end. `chunks` holds what was read, in order.
unfoldable pub read_loop : ℕ → ℕ → List (List ℕ) → List (List ℕ) → Result (List ℕ)
read_loop max_bytes total chunks [] = ok (concat chunks)
read_loop max_bytes total chunks ([] ∷ reads) = ok (concat chunks)
read_loop max_bytes total chunks ((b ∷ bs) ∷ reads) =
    let total' = total + length (b ∷ bs) in
    let rest = read_loop max_bytes total' (chunks ++ (b ∷ bs) ∷ []) reads in
    if ltb max_bytes total' then err (http 413 (too_large max_bytes)) else rest

unfoldable pub read_upload_bounded : ℕ → List (List ℕ) → Result (List ℕ)
unfolding read_loop
read_upload_bounded max_bytes reads = read_loop max_bytes 0 [] reads

-- `for start in range(0, len(view), step): yield bytes(view[start : start + step])`
unfoldable pub yields : ℕ → ℕ → List ℕ → List (List ℕ)
yields step zero view = []
yields step (suc n) view = take step view ∷ yields step n (drop step view)

unfoldable pub iter_blob : List ℕ → List (List ℕ)
unfolding yields
iter_blob blob = yields upload_chunk ((length blob + (upload_chunk - 1)) / upload_chunk) blob
