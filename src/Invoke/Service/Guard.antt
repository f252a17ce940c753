-- ===== src/Invoke/Service/Guard.antt =====
-- No credential leaves the broker but behind a revocation check.
use credbroker.Common.{Text, true, false, Option, List, [], ◌∷◌}
use credbroker.Invoke.Discipline.{Discipline}
use credbroker.Invoke.Outcome.{InvokeService}
use credbroker.Invoke.Service.{invoke}
use credbroker.Invoke.Service.Trace.{Keeps-invoke}
use credbroker.Json.{Fields}
use credbroker.World.Trace.{anything}
use credbroker.World.{World, Event, Outside, decrypted, rechecked, refreshed, contacted}

-- The latest event that bears on the grant is a revocation check that answered no: since then no
-- credential was opened and no refresh was sent.
abbrev pub Cleared : List Event → Type 0
Cleared [] = ⊥
Cleared (rechecked true ∷ t) = ⊥
Cleared (rechecked false ∷ t) = Unit
Cleared (decrypted ∷ t) = ⊥
Cleared (refreshed ∷ t) = ⊥
Cleared (_ ∷ t) = Cleared t

-- Every request to a provider was cleared when it was sent.
abbrev pub Guarded : List Event → Type 0
Guarded [] = Unit
Guarded (contacted token ∷ t) = Cleared t × Guarded t
Guarded (_ ∷ t) = Guarded t

guard_discipline : Discipline Guarded (λ t. Cleared t × Guarded t)
guard_discipline = record {
  on_counted = λ n l t g. g;
  on_decrypted = λ t g. g;
  on_refreshed = λ t g. g;
  on_rechecked = λ b t g. g;
  cleared = λ t g. (tt, g);
  on_contacted = λ token t g. (g.0, g);
  weaken = λ t g. g.1;
}

-- Whatever other tasks do and whatever fails at each await, an invocation sends a provider request
-- only after a revocation check that answered no, with no credential opened and no refresh sent in
-- between.
pub invoke-Guarded :
    (o : Outside) (service : InvokeService) (token tool_name : Text) (arguments : Fields)
    (key : Option Text) (w : World o.redis.Store)
    → Guarded w.trace
    → Guarded (invoke o service token tool_name arguments key w).1.trace
invoke-Guarded o service token tool_name arguments key w g =
    ((Keeps-invoke o service (anything o) guard_discipline (λ row t g. g) token tool_name arguments
        key).at
      w (record { holds = g; frame_lem = tt })).holds
