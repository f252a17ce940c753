-- ===== src/Reliability/Idempotency.antt =====
-- `IdempotencyStore` of credbroker/reliability/idempotency.py.
pub mod Apart
pub mod Holds
pub mod Exclusive
pub mod AtMostOnce
use credbroker.Common.{
  ℕ, Text, Bool, true, false, not, ◌&&◌, Option, none, some, ◌++◌, codes, ltb, text_eq, starts_with,
  if◌then◌else◌,
}
use credbroker.Errors.{broker, value_error, idempotency_conflict}
use credbroker.Exec.{Result, ok, err, Exec, pure, raise, gets, ◌>>=◌, ◌>>◌}
use credbroker.Json.{Json, null}
use credbroker.World.{Outside, World, M, draw, redis_read, redis_write}

abbrev pub pending_marker : Text
pending_marker = codes "__pending__"

abbrev pub reservation_ttl_seconds : ℕ
reservation_ttl_seconds = 60

-- `_name`
abbrev pub name : Text → Text
name key = codes "idem:" ++ key

-- `_pending_value`
abbrev pub pending_value : Text → Text
pending_value owner = pending_marker ++ (codes ":" ++ owner)

-- `__init__`: the window, where it is accepted
unfoldable pub make : ℕ → Result ℕ
make window_seconds =
    if ltb window_seconds 1
    then err (value_error (codes "window_seconds must be >= 1"))
    else ok window_seconds

-- `value is not None and value.startswith(PENDING_MARKER)`
is_pending : Option Text → Bool
is_pending none = false
is_pending (some value) = starts_with value pending_marker

-- `owner is None or value == self._pending_value(owner)`
owned_by : Option Text → Option Text → Bool
owned_by none value = true
owned_by (some owner) none = false
owned_by (some owner) (some value) = text_eq value (pending_value owner)

module _ (o : Outside) where
  open o.redis use {get as redis_get, set, set_nx, delete}

  -- `json.loads`: a `ValueError` on a text that is no JSON, and `None` for JSON's `null`
  unfoldable pub loaded : Option Json → M o (Option Json)
  loaded none = raise (value_error (codes "Expecting value"))
  loaded (some null) = pure none
  loaded (some value) = pure (some value)

  -- What `get` makes of the stored value.
  unfoldable pub decode : Option Text → M o (Option Json)
  decode none = pure none
  decode (some value) =
      if starts_with value pending_marker
      then raise (
          broker idempotency_conflict
            (codes "a concurrent call with the same idempotency key is in flight"))
      else loaded (o.loads value)

  unfoldable pub get : Text → M o (Option Json)
  get key = do value ← redis_read o λ now s. redis_get now (name key) s; decode value

  unfoldable pub reserve : Text → M o (Option Text)
  reserve key = do
    r ← draw o
    let owner = o.token_hex r
    claimed ←
        redis_write o λ now s. set_nx now (name key) (pending_value owner) reservation_ttl_seconds s
    pure (if claimed then some owner else none)

  -- The write of `complete`, for the store's window.
  store_result : ℕ → Text → Json → M o (Unit {0})
  store_result window key result =
      redis_write o λ now s. (tt, set now (name key) (o.dumps result) window s)

  -- `owner` is looked up only where one is given.
  unfoldable pub complete : ℕ → Text → Json → Option Text → M o (Unit {0})
  unfolding store_result owned_by
  complete window key result none = store_result window key result
  complete window key result (some owner) = do
    value ← redis_read o λ now s. redis_get now (name key) s
    if owned_by (some owner) value then store_result window key result else pure tt

  unfoldable pub release : Text → Option Text → M o (Unit {0})
  unfolding is_pending owned_by
  release key owner = do
    value ← redis_read o λ now s. redis_get now (name key) s
    if is_pending value && owned_by owner value
        then redis_write o (λ now s. (tt, delete (name key) s))
        else pure tt
