-- ===== src/Iocp/Deaf.antt =====
-- KanchoNet/Network/IOCPModel.cpp: what StartListen and ProcessIO make of a connection. `RegisterAccept` gives
-- `AcceptEx` no room for data, and `ProcessIO` takes a completion that moved no bytes for a failure.
use kancho_net.Common.{ℕ, ◌≤◌, ◌≡◌, ◌≢◌, Bool, true, List, [], ◌∷◌, Option, length}
use kancho_net.Manager.{Address}
use kancho_net.Net.{Kernel}
use kancho_net.Host.{◌>>=◌, pure}
use kancho_net.Types.{Socket}
use kancho_net.Windows.{Windows, Handle, completed}
use kancho_net.Iocp.State.{Iocp, App, Run, Context}
use kancho_net.Iocp.Complete.{process_io, is_accept}

-- `R k c` is to say of a system state and a context that the last request posted with the context was an
-- accept with no room for data. It is so after such an accept, taking completions posts no request,
-- and the completion of an accept with no room moves no bytes.
pub record IsRoomless {K : Type 0} (windows : Windows K) (R : K → Address → Type 0) : Type 0 where
  pub posted :
      (listener fd : Socket) (c : Address) (k k' : K)
      → windows.accept_ex listener fd 0 c k ≡ (true, k')
      → R k' c
  pub kept :
      (h : Option Handle) (t : ℕ) (k : K) (c : Address) → R k c → R (windows.dequeue h t k).1 c
  pub moves_nothing :
      (h : Option Handle) (t : ℕ) (k : K) (b : Bool) (n : ℕ) (c : Address) (l : List ℕ)
      → (windows.dequeue h t k).0 ≡ completed b n c l
      → R (windows.dequeue h t k).1 c
      → n ≡ 0

-- The requests that are under way are all accepts with no room.
abbrev pub AllAccept : {K : Type 0} → (K → Address → Type 0) → K → List (Address × Context) → Type 0
AllAccept R k [] = Unit {0}
AllAccept R k ((c, x) ∷ l) = (c ≢ 0) × (is_accept x ≡ true) × R k c × AllAccept R k l

-- As before, but for requests that are no more under way.
pub record Unmoved {K : Type 0} (R : K → Address → Type 0) (s t : Iocp K) : Type 0 where
  pub same_manager : t.manager ≡ s.manager
  pub same_log : t.log ≡ s.log
  pub same_port : t.handle.handle ≡ s.handle.handle
  pub same_running : t.running ≡ s.running
  pub accepts : AllAccept R t.kernel_state t.handle.contexts
  pub fewer : length t.handle.contexts ≤ length s.handle.contexts

module _ {K : Type 0} (kernel : Kernel K) (windows : Windows K) (app : App K) where
  -- `ProcessIO` again and again, with the timeouts given.
  unfoldable pub process_all : List ℕ → Run K (List Bool)
  process_all [] = pure []
  process_all (t ∷ ts) = do b ← process_io kernel windows app t; bs ← process_all ts; pure (b ∷ bs)
