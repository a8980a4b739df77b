-- ===== src/Api/Sync/Cursor.antt =====
-- The sync cursor of app/api/sync.py: Unix microseconds, by way of floating-point seconds.
pub mod Exact
use open_key_server.Base.{
  ℕ, ◌+◌, ◌*◌, ◌≡◌, refl, Option, none, some, leb, ltb, ◌-◌, ◌==◌, nat_eq, if◌then◌else◌,
}
use open_key_server.Double.{nearest, times, floor, fraction, round}
use open_key_server.Orm.Session.{Result, ok, err, value_error}

-- The first second after the year 9999.
abbrev pub max_seconds : ℕ
max_seconds = 253402300800

-- `datetime.fromtimestamp(t, tz=UTC)` of the seconds and the rounded microseconds of `t`.
abbrev from_parts : ℕ → ℕ → Result ℕ
from_parts seconds micros =
    if ltb seconds max_seconds
    then ok (seconds * 1000000 + micros)
    else err (value_error "year is out of range")

unfoldable pub from_timestamp : ℕ → Result ℕ
from_timestamp since =
    let t = nearest since 1000000 in
    let micros = round (times (fraction t) 1000000) in
    if leb 1000000 micros
    then from_parts (floor t + 1) (micros - 1000000)
    else from_parts (floor t) micros

-- A cursor as a time; zero is the epoch, for a full pull.
unfoldable pub since_to_datetime : ℕ → Result ℕ
since_to_datetime since = if since == 0 then ok 0 else from_timestamp since

-- A time as a cursor: `int(value.timestamp() * 1_000_000)`.
unfoldable pub datetime_to_revision : Option ℕ → ℕ
datetime_to_revision none = 0
datetime_to_revision (some value) = floor (times (nearest value 1000000) 1000000)
