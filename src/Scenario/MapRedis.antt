-- ===== src/Scenario/MapRedis.antt =====
-- A Redis that is a function from keys to entries.
use credbroker.Common.{
  ℕ, ◌+◌, ◌*◌, ◌≡◌, refl, ap, Text, Bool, true, false, Option, none, some, decimal, decimal_value,
  decimal_value-decimal, is_some, text_eq, if◌then◌else◌,
}
use credbroker.Redis.{Redis, Entry, live, second}
use mathlib.Core.Option

abbrev pub Keys : Type 0
Keys = Text → Option Entry

abbrev put : Text → Option Entry → Keys → Keys
put k e s j = if text_eq k j then e else s j

abbrev number_at : Option Entry → ℕ
number_at none = 0
number_at (some e) = decimal_value e.value

pub number_at-some :
    (n : ℕ) (e : Entry) (x : Option Entry) → x ≡ some e → e.value ≡ decimal n → number_at x ≡ n
number_at-some n e x h v = rw (h, v) (decimal_value-decimal n)

abbrev entry : ℕ → Text → ℕ → Entry
entry now v ttl = record { value = v; deadline = some (now + ttl * second) }

abbrev claim_key : Bool → ℕ → Text → Text → ℕ → Keys → Bool × Keys
claim_key true now k v ttl s = (false, s)
claim_key false now k v ttl s = (true, put k (some (entry now v ttl)) s)

pub claim_key_if :
    (b : Bool) (now : ℕ) (k v : Text) (ttl : ℕ) (s : Keys)
    → claim_key b now k v ttl s
      ≡ (if b then (false, s) else (true, put k (some (entry now v ttl)) s))
claim_key_if true now k v ttl s = refl
claim_key_if false now k v ttl s = refl

abbrev counted_entry : ℕ → Option Entry → Entry
counted_entry n old = record {
  value = decimal (n + 1);
  deadline = Option.bind old (λ e. e.deadline);
}

abbrev renewed : ℕ → ℕ → Option Entry → Option Entry
renewed now ttl old =
    Option.map (λ (e : Entry). record { value = e.value; deadline = some (now + ttl * second) }) old

abbrev pub map_redis : Redis
map_redis = record {
  Store = Keys;
  view = λ s. s;
  get = λ now k s. Option.map (λ (e : Entry). e.value) (live now (s k));
  has = λ now k s. is_some (live now (s k));
  set = λ now k v ttl s. put k (some (entry now v ttl)) s;
  set_nx = λ now k v ttl s. claim_key (is_some (live now (s k))) now k v ttl s;
  delete = λ k s. put k none s;
  incr = λ now k s. (
    number_at (live now (s k)) + 1,
    put k (some (counted_entry (number_at (live now (s k))) (live now (s k)))) s,
  );
  expire = λ now k ttl s. put k (renewed now ttl (live now (s k))) s;
  integer = λ now k s. number_at (live now (s k));
  get_lem = λ now k s. refl;
  has_lem = λ now k s. refl;
  view-set = λ now k v ttl s j. refl;
  set_nx_lem = λ now k v ttl s. claim_key_if (is_some (live now (s k))) now k v ttl s;
  view-delete = λ k s j. refl;
  integer_none = λ now k s h. ap number_at h;
  integer_some = λ now n k s e h v. number_at-some n e (live now (s k)) h v;
  incr_lem = λ now k s. refl;
  view-incr = λ now k s j. refl;
  view-expire = λ now k ttl s j. refl;
}
