-- ===== src/Scenario/Tests/Operator.antt =====
-- The theorems at concrete inputs: the operator's API.
use credbroker.Common.{
  ◌≤◌, ◌≡◌, ◌≢◌, refl, true, false, some, List, [], ◌∷◌, ◌++◌, map, length, ◌⊎◌, codes, decimal,
  decimal_value-decimal, has-decimal, text_eq, ap, arith,
}
use credbroker.Console.Api.{grant_dict, recent_grants, demo_seed}
use credbroker.Console.State.{AppState, create_app}
use credbroker.Console.Views.{GrantDict}
use credbroker.Console.Grants.Shown.{recent_grants-Newest, recent_grants-Bounded, shows_active}
use credbroker.Console.Order.Laws.{count_if, Descending, Newest}
use credbroker.Console.Routes.{Route, handle, serve}
use credbroker.Console.Routes.Auth.{serve-Guarded, Guarded}
use credbroker.Console.Seeding.{demo_seed-Idempotent}
use credbroker.Grants.Service.{count_active, latest_account}
use credbroker.Grants.Service.Bound.{Bounded}
use credbroker.Exec.{◌>>=◌, attempt, lift, pure, gets}
use credbroker.World.{in_session, query, await, utcnow, draw, assign, commit}
use credbroker.Console.Order.{order_by_desc}
use credbroker.Demo.Seed.{seed_demo, query_own, named}
use credbroker.Crypto.{encrypt, encrypt_now, on_registry, to_thread}
use credbroker.Logging.{register}
use credbroker.Demo.Seed.{Seeded}
use credbroker.Exec.{ok}
use credbroker.Http.{answered}
use credbroker.Models.{Grant}
use credbroker.OAuth.Router.Flow.{UuidLaws}
use credbroker.OAuth.State.{bar}
use credbroker.Scenario.{
  calm, test_settings, test_grant, start_world, granted_world, drive_read, read_scope,
}
use credbroker.Scenario.MapRedis.{Keys}
use credbroker.Scenario.Tests.{calm-Alone}
use credbroker.World.{World}
use mathlib.Core.List.{Perm}

abbrev console : AppState
console = create_app test_settings true

recent_grants-Newest_example :
    (shown : List Grant) × (hidden : List Grant) × ((recent_grants calm console 5 granted_world).0
      ≡ ok (answered (map (grant_dict calm 1_000_000_000) shown)))
    × Perm (shown ++ hidden) granted_world.db.grants
    × Descending (λ g. g.issued_at) shown
    × Newest (λ g. g.issued_at) shown hidden
    × ((length shown ≡ 5) ⊎ ((length shown ≤ 5) × (hidden ≡ [])))
recent_grants-Newest_example = recent_grants-Newest calm calm-Alone console 5 granted_world

abbrev guarded : AppState
guarded = create_app (record test_settings { console_token = codes "operator" }) true

not_empty : codes "operator" ≢ []
not_empty e = ground arith

serve-Guarded_example :
    Guarded calm guarded
      (codes "operator")
      (handle calm guarded Route.get_tools)
      (some (codes "wrong"))
      (serve calm guarded (some (codes "wrong")) Route.get_tools start_world)
      start_world
serve-Guarded_example =
    serve-Guarded calm guarded (codes "operator") (some (codes "wrong")) Route.get_tools start_world
      refl not_empty

pub calm-UuidLaws : UuidLaws calm
calm-UuidLaws = record {
  parse_lem = λ n. ap some (decimal_value-decimal n);
  plain_lem = λ n. has-decimal bar n (omega arith);
}

granted-Bounded : Bounded 1 granted_world
unfolding count_active
granted-Bounded = record {
  within = λ agent tool scope. ground arith;
  pending_Harmless = λ agent tool scope now db. omega arith;
}

abbrev listed_grants : List GrantDict
listed_grants = grant_dict calm 1_000_000_000 test_grant ∷ []

lists_grants : (recent_grants calm console 5 granted_world).0 ≡ ok (answered listed_grants)
unfolding recent_grants ◌>>=◌ in_session attempt query await utcnow order_by_desc grant_dict decimal
lists_grants = refl

recent_grants-Bounded_example :
    count_if (shows_active (calm.uuid_str 1) drive_read read_scope) listed_grants ≤ 1
recent_grants-Bounded_example =
    recent_grants-Bounded calm calm-Alone calm-UuidLaws console 1 5 1 drive_read read_scope
      listed_grants granted_world granted-Bounded lists_grants

abbrev seeded_rows : Seeded
seeded_rows = record {
  user_id = decimal 1000;
  agent_id = decimal 1001;
  connected_account_id = decimal 1004;
  created = true;
}

seeds : (demo_seed calm console start_world).0 ≡ ok (answered seeded_rows)
unfolding demo_seed ◌>>=◌ in_session attempt seed_demo query_own await named lift draw utcnow assign
    commit pure latest_account gets encrypt_now on_registry to_thread encrypt register text_eq
seeds = refl

-- An hour after the first seeding.
abbrev seeded_world : World Keys
seeded_world = record start_world {
  shared = record start_world.shared {
    now = 4_600_000_000;
    db = (demo_seed calm console start_world).1.shared.db;
  };
}

demo_seed-Idempotent_example :
    ((demo_seed calm console seeded_world).0
      ≡ ok (answered (record seeded_rows { created = false })))
    × ((demo_seed calm console seeded_world).1.db ≡ seeded_world.db)
demo_seed-Idempotent_example =
    demo_seed-Idempotent calm calm-Alone console start_world seeded_world seeded_rows seeds refl
