-- ===== src/Api/Request.antt =====
-- What a request reads of the world: the clock of the process (`datetime.now(UTC)`), the
-- database's (`func.now()`), and the key that `uuid4` makes for a new row.
use open_key_server.Base.{ℕ, Bool, true, false, Option, none, some}

pub record Env : Type 0 where
  pub now : ℕ
  pub db_now : ℕ
  pub new_id : ℕ

-- `x is None`
abbrev pub is_none {ℓ} : {A : Type ℓ} → Option A → Bool
is_none none = true
is_none (some a) = false
