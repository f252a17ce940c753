-- ===== src/Redis.antt =====
-- The Redis server that credbroker/cache and credbroker/reliability/idempotency.py talk to. It is
-- not part of the repository: its commands are given with what their documentation says of them.
-- Times are in microseconds, the lifetimes of keys in seconds.
use credbroker.Common.{
  ℕ, ◌+◌, ◌*◌, ◌≡◌, Bool, Option, none, some, Text, text_eq, decimal, is_some, leb, if◌then◌else◌,
}
use mathlib.Core.Option

-- A key's value, and when the key expires.
pub record Entry : Type 0 where
  pub value : Text
  pub deadline : Option ℕ

abbrev pub second : ℕ
second = 1_000_000

abbrev pub expired : ℕ → Option ℕ → Bool
expired now none = Bool.false
expired now (some d) = leb d now

-- What is left of an entry at a time.
abbrev pub live : ℕ → Option Entry → Option Entry
live now none = none
live now (some e) = if expired now e.deadline then none else some e

pub record Redis : Type 1 where
  pub Store : Type 0
  pub view : Store → Text → Option Entry
  -- GET, EXISTS, SET with EX, SET with NX and EX, DEL, INCR, EXPIRE
  pub get : ℕ → Text → Store → Option Text
  pub has : ℕ → Text → Store → Bool
  pub set : ℕ → Text → Text → ℕ → Store → Store
  pub set_nx : ℕ → Text → Text → ℕ → Store → Bool × Store
  pub delete : Text → Store → Store
  pub incr : ℕ → Text → Store → ℕ × Store
  pub expire : ℕ → Text → ℕ → Store → Store
  -- the integer at a key, 0 where there is none
  pub integer : ℕ → Text → Store → ℕ
  pub get_lem :
      (now : ℕ) (k : Text) (s : Store)
      → get now k s ≡ Option.map (λ e. e.value) (live now (view s k))
  pub has_lem : (now : ℕ) (k : Text) (s : Store) → has now k s ≡ is_some (live now (view s k))
  pub view-set :
      (now : ℕ) (k v : Text) (ttl : ℕ) (s : Store) (j : Text)
      → view (set now k v ttl s) j ≡ (
          if text_eq k j
          then some (record { value = v; deadline = some (now + ttl * second) })
          else view s j)
  pub set_nx_lem :
      (now : ℕ) (k v : Text) (ttl : ℕ) (s : Store)
      → set_nx now k v ttl s ≡ (
          if is_some (live now (view s k)) then (Bool.false, s) else (Bool.true, set now k v ttl s))
  pub view-delete :
      (k : Text) (s : Store) (j : Text)
      → view (delete k s) j ≡ (if text_eq k j then none else view s j)
  pub integer_none :
      (now : ℕ) (k : Text) (s : Store) → live now (view s k) ≡ none → integer now k s ≡ 0
  pub integer_some :
      (now n : ℕ) (k : Text) (s : Store) (e : Entry)
      → live now (view s k) ≡ some e
      → e.value ≡ decimal n
      → integer now k s ≡ n
  pub incr_lem : (now : ℕ) (k : Text) (s : Store) → (incr now k s).0 ≡ integer now k s + 1
  pub view-incr :
      (now : ℕ) (k : Text) (s : Store) (j : Text)
      → view (incr now k s).1 j ≡ (
          if text_eq k j
          then some (record {
            value = decimal (integer now k s + 1);
            deadline = Option.bind (live now (view s k)) (λ e. e.deadline);
          })
          else view s j)
  pub view-expire :
      (now : ℕ) (k : Text) (ttl : ℕ) (s : Store) (j : Text)
      → view (expire now k ttl s) j ≡ (
          if text_eq k j
          then Option.map
              (λ e. record { value = e.value; deadline = some (now + ttl * second) })
              (live now (view s k))
          else view s j)
