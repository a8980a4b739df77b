-- ===== src/Api/Sync/Attachments.antt =====
-- `_upsert_attachment_row` of app/api/sync.py: its checks, its merge, and what a pull answers pushed back.
use Prim.Native.Char.{Char}
use Prim.Native.String.{◌++◌ as append}
use Prim.Native.String.count
use open_key_server.Base.{
  ◌*◌, String, ℕ, ◌≤◌, ◌<◌, ◌≢◌, ◌==◌, ◌&&◌, eq_of_==, ==_refl, nat_eq, string_eq, bool_eq,
  option_eq, list_eq, true, leb, [], ◌∷◌, Option, false, none, some, List, length, ltb, ◌≡◌, refl,
  sym, ap, subst, ◌∙◌, ◌⊎◌, inl, inr, Bool-cases, Option-cases, arith, All,
}
use open_key_server.Base64.{b64encode, b64decode}
use open_key_server.Base64.RoundTrip.{IsByte, b64decode-b64encode}
use open_key_server.Models.Vault.{Attachment}
use open_key_server.Orm.Session.{Result, ok, err, http}
use open_key_server.Schemas.Attachments.{
  max_attachment_bytes, AttachmentResponse, from_orm_attachment,
}
use open_key_server.Schemas.Sync.{SyncAttachmentItem, validate_attachment_item}
use open_key_server.Schemas.Fields.{length_within, check_optional}
use open_key_server.Text.{show, str_len}
use open_key_server.Api.Request.{Env}
use open_key_server.Api.Sync.{
  Upserted, kept, same_attachment, won_attachment, check_blob, checked_blob, upsert_blob,
  upsert_checked, upsert_attachment_row,
}
use open_key_server.Api.Sync.Merge.{both, LastWriterWins, of_revisions}

-- The row says what the item says, with its bytes.
abbrev pub HoldsAttachment : SyncAttachmentItem → List ℕ → Attachment → Type 0
HoldsAttachment item blob a =
    (a.entry_uuid ≡ item.entry_uuid)
    × (a.filename ≡ item.filename)
    × (a.size_bytes ≡ item.size_bytes)
    × (a.encrypted_blob ≡ blob)
    × (a.content_type ≡ item.content_type)
    × (a.is_deleted ≡ item.is_deleted)

same_attachment-HoldsAttachment :
    (item : SyncAttachmentItem) (blob : List ℕ) (a : Attachment)
    → same_attachment item blob a ≡ true
    → HoldsAttachment item blob a
same_attachment-HoldsAttachment item blob a h =
    let e = a.entry_uuid == item.entry_uuid in
    let f = a.filename == item.filename in
    let s = a.size_bytes == item.size_bytes in
    let b = a.encrypted_blob == blob in
    let c = a.content_type == item.content_type in
    let h5 = both (e && f && s && b && c) (a.is_deleted == item.is_deleted) h in
    let h4 = both (e && f && s && b) c h5.0 in
    let h3 = both (e && f && s) b h4.0 in
    let h2 = both (e && f) s h3.0 in
    let h1 = both e f h2.0 in
    (
      eq_of_== _ _ h1.0,
      eq_of_== _ _ h1.1,
      eq_of_== _ _ h2.1,
      eq_of_== _ _ h3.1,
      eq_of_== _ _ h4.1,
      eq_of_== _ _ h5.1,
    )

-- What is wrong with an item, and the status of the response.
pub data Refused (item : SyncAttachmentItem) (status : ℕ) : Type 0 where
  not_base64 : status ≡ 400 → b64decode item.encrypted_blob ≡ none → Refused item status
  too_large :
      (blob : List ℕ)
      → status ≡ 413
      → b64decode item.encrypted_blob ≡ some blob
      → 20 * 1024 * 1024 < length blob
      → Refused item status
  wrong_size :
      (blob : List ℕ)
      → status ≡ 400
      → b64decode item.encrypted_blob ≡ some blob
      → length blob ≤ 20 * 1024 * 1024
      → item.size_bytes ≢ length blob
      → Refused item status

-- The bytes of an item that passes.
pub record Passes (item : SyncAttachmentItem) (blob : List ℕ) : Type 0 where
  pub decoded : b64decode item.encrypted_blob ≡ some blob
  pub within : length blob ≤ 20 * 1024 * 1024
  pub sized : item.size_bytes ≡ length blob

module _ (item : SyncAttachmentItem) where
  checked_blob-cases :
      ((status : ℕ) × (text : String) × (checked_blob item ≡ err (http status text))
        × Refused item status)
      ⊎ ((blob : List ℕ) × (checked_blob item ≡ ok blob) × Passes item blob)
  unfolding checked_blob
  checked_blob-cases = elim (Option-cases (b64decode item.encrypted_blob)) [
    | inl bad ↦ inl (
      400,
      append "Invalid base64 for attachment " item.uuid,
      ap (check_blob item) bad,
      not_base64 refl bad,
    )
    | inr (blob, good) ↦ elim (Bool-cases (ltb max_attachment_bytes (length blob))) [
      | inl large ↦ inl (
        413,
        append "Attachment " (
            append item.uuid
              (append " exceeds " (append (show max_attachment_bytes) " byte limit"))),
        ap (check_blob item) good ∙ rw large refl,
        too_large blob refl good (ground arith),
      )
      | inr small ↦ elim (Bool-cases (item.size_bytes == length blob)) [
        | inl sized ↦ inr (
          blob,
          ap (check_blob item) good ∙ rw (small, sized) refl,
          record { decoded = good; within = ground arith; sized = ground arith },
        )
        | inr other ↦ inl (
          400,
          append "size_bytes mismatch for attachment " item.uuid,
          ap (check_blob item) good ∙ rw (small, other) refl,
          wrong_size blob refl good (ground arith) (λ e. ground arith),
        )
      ]
    ]
  ]

-- The same row at a new time.
abbrev pub TouchesAttachment : ℕ → Attachment → Attachment → Type 0
TouchesAttachment now old a =
    (a.updated_at ≡ now)
    × (a.id ≡ old.id)
    × (a.user_id ≡ old.user_id)
    × (a.uuid ≡ old.uuid)
    × (a.created_at ≡ old.created_at)

-- What becomes of a pushed attachment where `old` is stored.
abbrev pub AttachmentOutcome :
    ℕ → SyncAttachmentItem → Attachment → Result (Upserted Attachment) → Type 0
AttachmentOutcome now item old (err e) =
    (status : ℕ) × (text : String) × (e ≡ http status text) × Refused item status
AttachmentOutcome now item old (ok u) =
    (blob : List ℕ) × Passes item blob
    × LastWriterWins (λ a. a.revision) (HoldsAttachment item blob) (TouchesAttachment now old) old
        item.revision u

-- A pushed attachment is refused if its text is not base64 (400), if it has more than 20 MiB
-- (413) or another number of bytes than announced (400). Otherwise it wins against the stored row
-- exactly if its revision is at least the row's: then each field of the row is that of the item,
-- and its bytes are the decoded ones; if it loses the row stays exactly as it is. A row that
-- changes has the time of the request, and its key, user and uuid do not change.
pub upsert_attachment_row_lem :
    (env : Env) (old : Attachment) (user_id : ℕ) (item : SyncAttachmentItem)
    → AttachmentOutcome env.now item old (upsert_attachment_row env (some old) user_id item)
unfolding upsert_attachment_row upsert_blob
upsert_attachment_row_lem env old user_id item = elim (checked_blob-cases item) [
  | inl (status, text, e, bad) ↦
      subst (AttachmentOutcome env.now item old)
        (sym (ap (upsert_checked env (some old) user_id item) e)) (status, text, refl, bad)
  | inr (blob, e, good) ↦
      subst (AttachmentOutcome env.now item old)
        (sym (ap (upsert_checked env (some old) user_id item) e))
        (
          blob,
          good,
          of_revisions (λ a. a.revision) (HoldsAttachment item blob) (TouchesAttachment env.now old)
              old (record (won_attachment env.now item blob old) { revision = item.revision })
              (won_attachment env.now item blob old) (same_attachment item blob old) item.revision
              refl (refl, refl, refl, refl, refl, refl) refl (refl, refl, refl, refl, refl, refl)
              (same_attachment-HoldsAttachment item blob old) (refl, refl, refl, refl, refl)
              (refl, refl, refl, refl, refl),
        )
]

-- The item that a client makes of an attachment it has pulled.
abbrev pub item_of : AttachmentResponse → SyncAttachmentItem
item_of a = record {
  uuid = a.uuid;
  entry_uuid = a.entry_uuid;
  filename = a.filename;
  size_bytes = a.size_bytes;
  content_type = a.content_type;
  revision = a.revision;
  is_deleted = a.is_deleted;
  encrypted_blob = a.encrypted_blob;
}

-- A stored attachment: its blob has bytes, at least one and within the limit, as many as the row says,
-- and the texts have the lengths that every way of storing one asks for.
pub record IsStored (a : Attachment) : Type 0 where
  pub uuid : (1 ≤ str_len a.uuid) × (str_len a.uuid ≤ 64)
  pub entry_uuid : (1 ≤ str_len a.entry_uuid) × (str_len a.entry_uuid ≤ 64)
  pub filename : (1 ≤ str_len a.filename) × (str_len a.filename ≤ 512)
  pub content_type : (text : String) → a.content_type ≡ some text → str_len text ≤ 255
  pub revision : 1 ≤ a.revision
  pub not_empty : 1 ≤ length a.encrypted_blob
  pub bytes : All IsByte a.encrypted_blob
  pub within : length a.encrypted_blob ≤ 20 * 1024 * 1024
  pub sized : a.size_bytes ≡ length a.encrypted_blob

same_self :
    (a : Attachment) → same_attachment (item_of (from_orm_attachment a)) a.encrypted_blob a ≡ true
unfolding from_orm_attachment
same_self a =
    rw
      (
        ==_refl a.entry_uuid,
        ==_refl a.filename,
        ==_refl a.size_bytes,
        ==_refl a.encrypted_blob,
        ==_refl a.content_type,
        ==_refl a.is_deleted,
      )
      refl

str_len-cons : (c : Char) (s : String) → 1 ≤ str_len (String.◌∷◌ c s)
str_len-cons c s = ground (arith, count.cons c s)

b64encode-not_empty : (blob : List ℕ) → 1 ≤ length blob → 1 ≤ str_len (b64encode blob)
unfolding b64encode
b64encode-not_empty [] h = absurd (omega arith)
b64encode-not_empty (a ∷ []) h = str_len-cons _ _
b64encode-not_empty (a ∷ b ∷ []) h = str_len-cons _ _
b64encode-not_empty (a ∷ b ∷ c ∷ blob) h = str_len-cons _ _

check_text :
    (o : Option String)
    → ((text : String) → o ≡ some text → str_len text ≤ 255)
    → check_optional (length_within 0 255) o ≡ true
check_text none h = refl
check_text (some text) h = let short = h text refl in ground arith

-- The schema lets the item in.
valid :
    (a : Attachment)
    → IsStored a
    → validate_attachment_item (item_of (from_orm_attachment a))
      ≡ some (item_of (from_orm_attachment a))
unfolding validate_attachment_item from_orm_attachment
valid a s =
    let u : length_within 1 64 a.uuid ≡ true = ground (arith, s.uuid) in
    let e : length_within 1 64 a.entry_uuid ≡ true = ground (arith, s.entry_uuid) in
    let f : length_within 1 512 a.filename ≡ true = ground (arith, s.filename) in
    let z : leb a.size_bytes max_attachment_bytes ≡ true = ground (arith, s.sized, s.within) in
    let c = check_text a.content_type s.content_type in
    let r : leb 1 a.revision ≡ true = ground (arith, s.revision) in
    let full = b64encode-not_empty a.encrypted_blob s.not_empty in
    let b : leb 1 (str_len (b64encode a.encrypted_blob)) ≡ true = ground (arith, full) in
    rw (u, e, f, z, c, r, b) refl

back :
    (env : Env) (a : Attachment) (user_id : ℕ)
    → IsStored a
    → upsert_attachment_row env (some a) user_id (item_of (from_orm_attachment a)) ≡ ok (kept a)
unfolding upsert_attachment_row checked_blob upsert_blob from_orm_attachment
back env a user_id s =
    let item = item_of (from_orm_attachment a) in
    let small : ltb max_attachment_bytes (length a.encrypted_blob) ≡ false =
      ground (arith, s.within) in
    let sized : (a.size_bytes == length a.encrypted_blob) ≡ true = ground (arith, s.sized) in
    let passes : checked_blob item ≡ ok a.encrypted_blob =
      ap (check_blob item) (b64decode-b64encode a.encrypted_blob s.bytes)
      ∙ rw (small, sized) refl in
    let not_newer : ltb a.revision a.revision ≡ false = ground arith in
    ap (upsert_checked env (some a) user_id item) passes
    ∙ rw (not_newer, ==_refl a.revision, same_self a) refl

-- What a pull answers of a stored attachment passes the validation of a pushed item, is accepted
-- when it is pushed back, and leaves the row exactly as it is, its bytes included. The attachment
-- is assumed to have at least one byte and at most 20 MiB, as many as it announces, a revision of
-- at least 1, and texts of the lengths that the schemas ask for.
pub upsert_attachment_row-from_orm_attachment :
    (env : Env) (a : Attachment) (user_id : ℕ)
    → IsStored a
    → (validate_attachment_item (item_of (from_orm_attachment a))
        ≡ some (item_of (from_orm_attachment a)))
      × (upsert_attachment_row env (some a) user_id (item_of (from_orm_attachment a)) ≡ ok (kept a))
upsert_attachment_row-from_orm_attachment env a user_id s = (valid a s, back env a user_id s)
