-- ===== src/RateLimit.antt =====
-- app/rate_limit.py: the sliding-window limiter of the authentication endpoints. A time is a number
-- of clock ticks (`time.monotonic()`), a window a number of the same ticks; `_hits` is an
-- association list, in the order of insertion.
pub mod Keys
pub mod Window
pub mod Promise
use Prim.Native.Char.{code}
use Prim.Native.String.{◌++◌ as append}
use open_key_server.Base.{
  ℕ, ◌+◌, String, Bool, ◌≡◌, refl, true, false, not, ◌&&◌, Option, none, some, List, [], ◌∷◌, ◌++◌,
  ltb, leb, ◌==◌, nat_eq, string_eq, length, filter, if◌then◌else◌,
}
use open_key_server.Text.{is_empty, strip}

abbrev pub max_keys : ℕ
max_keys = 10_000

abbrev pub Hits : Type 0
Hits = List (String × List ℕ)

-- `self._hits[key]`, of a `defaultdict(deque)`.
unfoldable pub bucket_of : String → Hits → List ℕ
bucket_of key [] = []
bucket_of key ((k, q) ∷ hits) = if k == key then q else bucket_of key hits

-- The bucket of a key put back; a key that was not there is added at the end.
unfoldable pub put_bucket : String → List ℕ → Hits → Hits
put_bucket key bucket [] = (key, bucket) ∷ []
put_bucket key bucket ((k, q) ∷ hits) =
    if k == key then (key, bucket) ∷ hits else (k, q) ∷ put_bucket key bucket hits

-- `while bucket and bucket[0] < cutoff: bucket.popleft()`, where `cutoff` is `now - window`.
unfoldable pub drop_old : ℕ → ℕ → List ℕ → List ℕ
drop_old now window [] = []
drop_old now window (t ∷ ts) = if ltb (t + window) now then drop_old now window ts else t ∷ ts

abbrev pub is_nonempty {ℓ} : {A : Type ℓ} → List A → Bool
is_nonempty [] = false
is_nonempty (x ∷ xs) = true

-- The sweep for stale keys, once there are more than `_MAX_KEYS`.
unfoldable pub sweep : Hits → Hits
sweep hits = if ltb max_keys (length hits) then filter (λ e. is_nonempty e.1) hits else hits

-- What `check` does: it raises 429 (`false`), or lets the request pass (`true`). The pruned bucket
-- stays in the dictionary in both cases.
unfoldable pub check : (now : ℕ) → String → (limit window : ℕ) → Hits → Bool × Hits
unfolding sweep
check now key limit window hits =
    let bucket = drop_old now window (bucket_of key hits) in
    if leb limit (length bucket)
    then (false, put_bucket key bucket hits)
    else (true, sweep (put_bucket key (bucket ++ now ∷ []) hits))

-- `forwarded.split(",")[0]`
unfoldable pub before_comma : String → String
before_comma String.[] = String.[]
before_comma (String.◌∷◌ c s) =
    let rest = before_comma s in if code c == b',' then String.[] else String.◌∷◌ c rest

-- The address of a request: the first X-Forwarded-For hop if proxies are trusted, else the peer.
abbrev pub peer : Option String → String
peer none = "unknown"
peer (some host) = host

unfoldable pub client_ip : (trust_proxy_headers : Bool) → (forwarded host : Option String) → String
unfolding before_comma
client_ip false forwarded host = peer host
client_ip true none host = peer host
client_ip true (some forwarded) host =
    if is_empty forwarded then peer host else strip (before_comma forwarded)

-- The key of `limit_auth_endpoint`.
unfoldable pub limit_key : (ip path : String) → String
limit_key ip path = append "auth:" (append ip (append ":" path))
