-- ===== src/Invoke/Revocation.antt =====
-- A grant that was revoked is of no more use: `revoke_grant`, then `invoke`.
use credbroker.Common.{ℕ, ◌≡◌, ◌≢◌, refl, ap, ◌∙◌, Text, Bool, Option, none, some, arith}
use credbroker.Exec.{ok}
use credbroker.Grants.Service.{revoke_grant, set_revoked}
use credbroker.Grants.Service.Revoke.{by_hash, by_id, find-set_revoked, revoke_grant-db}
use credbroker.Grants.Tokens.{hash_token}
use credbroker.Invoke.Outcome.{InvokeOutcome, InvokeService}
use credbroker.Invoke.Service.{invoke}
use credbroker.Invoke.Service.Checks.{invoke-Checked}
use credbroker.Json.{Fields}
use credbroker.Models.{Status, Grant, Database, find}
use credbroker.World.{World, Outside}
use credbroker.World.Alone.{Alone}

still_active :
    (g x : Grant) (t : ℕ) (found : Option Grant)
    → found ≡ some (record g { revoked_at = some t })
    → found ≡ some x
    → x.revoked_at ≡ none
    → ⊥
still_active g x t found e f n = ground arith

-- Where nothing disturbs the two calls: after `revoke_grant` on the grant of a token, an invocation
-- with the token does not succeed, at any later time and whatever has become of Redis - all that must
-- remain of the revocation is the tables that it left.
pub revoke_grant-Denies :
    (o : Outside) (alone : Alone o) (service : InvokeService) (has_cache : Bool)
    (token tool_name : Text) (arguments : Fields) (key : Option Text) (g : Grant)
    (w u : World o.redis.Store) (outcome : InvokeOutcome)
    → ((db : Database) → w.pending db ≡ db)
    → find (by_id g.id) w.db.grants ≡ some g
    → find (by_hash (hash_token o token)) w.db.grants ≡ some g
    → g.revoked_at ≡ none
    → u.db ≡ (revoke_grant o has_cache g.id w).1.db
    → (invoke o service token tool_name arguments key u).0 ≡ ok outcome
    → outcome.status ≢ Status.success
revoke_grant-Denies o alone service has_cache token tool_name arguments key g w u outcome clean
      by_key by_token active same e s =
    let checked = invoke-Checked o alone service token tool_name arguments key u outcome e s in
    let tables : u.db ≡ set_revoked o g.id w.now w.db =
      same ∙ revoke_grant-db o alone has_cache g.id w g clean by_key active in
    let h = hash_token o token in
    still_active g checked.grant w.now (find (by_hash h) u.db.grants)
      (ap (λ db. find (by_hash h) db.grants) tables
        ∙ find-set_revoked h g.id w.now w.db.grants g by_token refl)
      checked.stored checked.active
