-- ===== src/Echo.antt =====
-- Examples/EchoServer/EchoServer.h: the callbacks of a server that sends back what it receives, on the engine.
-- The console is not modelled, only the reads of the session that is written there.
pub mod Queued
mod Tests
use kancho_net.Common.{ℕ, List, some, ◌==◌, if◌then◌else◌}
use kancho_net.Session.{Session}
use kancho_net.Manager.{Address}
use kancho_net.Net.{Outcome, ok, and_then}
use kancho_net.Engine.{NetworkModel, Engine, send_data}

-- `session_of` reads through a `Session*` of the network model.
module _ {M : Type 0} (network : NetworkModel M) (session_of : Address → M → Outcome Session) where
  unfoldable pub on_accept : Address → Engine M → Outcome (Unit {0} × Engine M)
  on_accept p e = and_then (session_of p e.model) (λ x. ok (tt, e))

  -- The answer of Send is not read.
  unfoldable pub on_receive : Address → List ℕ → ℕ → Engine M → Outcome (Unit {0} × Engine M)
  on_receive p data_bytes size e =
      and_then (session_of p e.model)
        (λ x. and_then (send_data network p (some data_bytes) size e) (λ r. ok (tt, r.1)))

  unfoldable pub on_disconnect : Address → Engine M → Outcome (Unit {0} × Engine M)
  on_disconnect p e = and_then (session_of p e.model) (λ x. ok (tt, e))

  unfoldable pub on_error : Address → ℕ → Engine M → Outcome (Unit {0} × Engine M)
  on_error p error_code e =
      if p == 0 then ok (tt, e) else and_then (session_of p e.model) (λ x. ok (tt, e))
