-- ===== src/Http.antt =====
-- What an HTTP route of the broker ends with: an answer, or an `HTTPException` with its status code
-- and detail.
use credbroker.Common.{ℕ, ◌≡◌, Text}

pub data HttpReply (A : Type 0) : Type 0 where
  answered : A → HttpReply A
  http_exception : ℕ → Text → HttpReply A

pub answered-inj : {A : Type 0} {a b : A} → answered a ≡ answered b → a ≡ b
answered-inj h = cc
