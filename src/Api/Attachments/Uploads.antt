-- ===== src/Api/Attachments/Uploads.antt =====
-- The bounded upload and the chunked download of app/api/attachments.py.
use mathlib.Core.List.{append-nil, append_assoc}
use open_key_server.Base.{
  ◌⊎◌, inl, inr, ℕ, zero, suc, ◌+◌, ◌*◌, ◌≤◌, ◌<◌, ◌≡◌, refl, Bool, true, false, ap, ◌∙◌, List, [],
  ◌∷◌, ◌++◌, arith, ltb, length, take, drop, concat, length-append, length-drop, length-take-le,
  take-append-drop, All, if◌then◌else◌,
}
use open_key_server.Orm.Session.{Error, Result, ok, err, http}
use open_key_server.Api.Attachments.Transfer.{
  read_loop, read_upload_bounded, yields, iter_blob, upload_chunk, too_large,
}

-- No read but the last is empty: what reads of a file give.
abbrev pub IsStream : List (List ℕ) → Type 0
IsStream = All λ r. 0 < length r

concat-append : (xs ys : List (List ℕ)) → concat (xs ++ ys) ≡ concat xs ++ concat ys
unfolding concat
concat-append [] ys = refl
concat-append (x ∷ xs) ys = simp (concat-append xs ys, append_assoc)

read_loop_lem :
    (m total : ℕ) (chunks reads : List (List ℕ))
    → IsStream reads
    → total ≤ m
    → read_loop m total chunks reads ≡ (
        if ltb m (total + length (concat reads))
        then err (http 413 (too_large m))
        else ok (concat (chunks ++ reads)))
unfolding read_loop concat
read_loop_lem m total chunks [] h le = rw append-nil (ground arith)
read_loop_lem m total chunks ([] ∷ reads) h le = absurd (omega arith)
read_loop_lem m total chunks ((b ∷ bs) ∷ reads) h le = ground (
  arith,
  length-append (b ∷ bs) (concat reads),
  append_assoc chunks ((b ∷ bs) ∷ []) reads,
  read_loop_lem m (total + suc (length bs)) (chunks ++ (b ∷ bs) ∷ []) reads h.1,
)

yields-concat :
    (step n : ℕ) (view : List ℕ) → length view ≤ n * step → concat (yields step n view) ≡ view
unfolding yields concat
yields-concat step zero [] h = refl
yields-concat step zero (b ∷ bs) h = absurd (omega arith)
yields-concat step (suc n) view h =
    ap (λ v. take step view ++ v)
      (yields-concat step n (drop step view) (omega (arith, length-drop step view)))
    ∙ take-append-drop step view

-- An upload, read in any non-empty pieces, is taken whole if it has at most as many bytes as the
-- limit, and refused with 413 otherwise.
pub read_upload_bounded_lem :
    (max_bytes : ℕ) (reads : List (List ℕ))
    → IsStream reads
    → read_upload_bounded max_bytes reads ≡ (
        if ltb max_bytes (length (concat reads))
        then err (http 413 (too_large max_bytes))
        else ok (concat reads))
unfolding read_upload_bounded
read_upload_bounded_lem max_bytes reads h =
    rw (read_loop_lem max_bytes 0 [] reads h (omega arith)) (ground (arith))

-- The bytes of an upload: what the reads give, up to the first empty one.
unfoldable pub received : List (List ℕ) → List ℕ
received [] = []
received ([] ∷ reads) = []
received ((b ∷ bs) ∷ reads) = (b ∷ bs) ++ received reads

if_within :
    {A : Type 0} (large : Bool) (e : Error) (r : Result A) (a : A)
    → (if large then err e else r) ≡ ok a
    → (large ≡ false) × (r ≡ ok a)
if_within true e r a h = (cc, cc)
if_within false e r a h = (refl, h)

one_more :
    (chunks : List (List ℕ)) (read rest : List ℕ)
    → concat (chunks ++ read ∷ []) ++ rest ≡ concat chunks ++ (read ++ rest)
unfolding concat
one_more chunks read rest =
    ap (λ x. x ++ rest) (concat-append chunks (read ∷ []))
    ∙ ap (λ x. (concat chunks ++ x) ++ rest) (append-nil read)
    ∙ append_assoc (concat chunks) read rest

read_loop-received :
    (m total : ℕ) (chunks reads : List (List ℕ)) (blob : List ℕ)
    → total ≤ m
    → read_loop m total chunks reads ≡ ok blob
    → (blob ≡ concat chunks ++ received reads) × (total + length (received reads) ≤ m)
unfolding read_loop received
read_loop-received m total chunks [] blob le h = (rw append-nil cc, omega arith)
read_loop-received m total chunks ([] ∷ reads) blob le h = (rw append-nil cc, omega arith)
read_loop-received m total chunks ((b ∷ bs) ∷ reads) blob le h =
    let total' = total + length (b ∷ bs) in
    let within =
      if_within (ltb m total') (http 413 (too_large m))
        (read_loop m total' (chunks ++ (b ∷ bs) ∷ []) reads) blob h in
    let ih =
      read_loop-received m total' (chunks ++ (b ∷ bs) ∷ []) reads blob (ground (arith, within.0))
        within.1 in
    (
      ih.0 ∙ one_more chunks (b ∷ bs) (received reads),
      omega (arith, ih.1, length-append (b ∷ bs) (received reads)),
    )

-- An upload that is taken has the bytes that were received, within the limit.
pub read_upload_bounded-received :
    (m : ℕ) (reads : List (List ℕ)) (blob : List ℕ)
    → read_upload_bounded m reads ≡ ok blob
    → (blob ≡ received reads) × (length (received reads) ≤ m)
unfolding read_upload_bounded concat
read_upload_bounded-received m reads blob h =
    let took = read_loop-received m 0 [] reads blob (omega arith) h in
    (took.0, omega (arith, took.1))

if_over :
    {A : Type 0} (large : Bool) (e f : Error) (r : Result A)
    → (if large then err e else r) ≡ err f
    → ((large ≡ true) × (f ≡ e)) ⊎ ((large ≡ false) × (r ≡ err f))
if_over true e f r h = inl (refl, cc)
if_over false e f r h = inr (refl, h)

read_loop-refused :
    (m total : ℕ) (chunks reads : List (List ℕ)) (f : Error)
    → total ≤ m
    → read_loop m total chunks reads ≡ err f
    → (f ≡ http 413 (too_large m)) × (m < total + length (received reads))
unfolding read_loop received
read_loop-refused m total chunks [] f le h = (cc, cc)
read_loop-refused m total chunks ([] ∷ reads) f le h = (cc, cc)
read_loop-refused m total chunks ((b ∷ bs) ∷ reads) f le h =
    let total' = total + length (b ∷ bs) in
    let sum = length-append (b ∷ bs) (received reads) in
    elim (if_over (ltb m total') (http 413 (too_large m)) f
      (read_loop m total' (chunks ++ (b ∷ bs) ∷ []) reads) h) [
        | inl (large, same) ↦
            let over : m < total' = ground arith in (same, omega (arith, over, sum))
        | inr (small, later) ↦
            let ih =
              read_loop-refused m total' (chunks ++ (b ∷ bs) ∷ []) reads f (ground arith) later in
            (ih.0, omega (arith, ih.1, sum))
      ]

-- An upload that is refused is too large.
pub read_upload_bounded-refused :
    (m : ℕ) (reads : List (List ℕ)) (f : Error)
    → read_upload_bounded m reads ≡ err f
    → (f ≡ http 413 (too_large m)) × (m < length (received reads))
unfolding read_upload_bounded
read_upload_bounded-refused m reads f h =
    let over = read_loop-refused m 0 [] reads f (omega arith) h in (over.0, omega (arith, over.1))

yields-small : (step n : ℕ) (view : List ℕ) → All (λ c. length c ≤ step) (yields step n view)
unfolding yields
yields-small step zero view = tt
yields-small step (suc n) view = (length-take-le step view, yields-small step n (drop step view))

-- A download streams the stored bytes, in order and complete, in chunks of 64 KiB at most.
pub iter_blob_lem :
    (blob : List ℕ)
    → (concat (iter_blob blob) ≡ blob) × All (λ c. length c ≤ upload_chunk) (iter_blob blob)
unfolding iter_blob
iter_blob_lem blob =
    (yields-concat upload_chunk _ blob (omega arith), yields-small upload_chunk _ blob)
