-- ===== src/Invoke/Discipline.antt =====
-- Two predicates of the trace that an invocation carries along: one that holds throughout, and one
-- that holds from a revocation check that answered no until a credential is opened again.
use credbroker.Common.{Text, Bool, false, List, ◌∷◌}
use credbroker.World.{Event, counted, decrypted, rechecked, refreshed, contacted}

pub record Discipline (Q R : List Event → Type 0) : Type 0 where
  pub on_counted : (n : Text) (l : List Text) (t : List Event) → Q t → Q (counted n l ∷ t)
  pub on_decrypted : (t : List Event) → Q t → Q (decrypted ∷ t)
  pub on_refreshed : (t : List Event) → Q t → Q (refreshed ∷ t)
  pub on_rechecked : (b : Bool) (t : List Event) → Q t → Q (rechecked b ∷ t)
  pub cleared : (t : List Event) → Q t → R (rechecked false ∷ t)
  pub on_contacted : (token : Text) (t : List Event) → R t → R (contacted token ∷ t)
  pub weaken : (t : List Event) → R t → Q t
