-- ===== src/Iocp/State.antt =====
-- KanchoNet/Network/IOCPModel.h: the fields of the IOCP model, and its contexts.
use kancho_net.Common.{ℕ, Bool, List, [], ◌∷◌, Option, none, some, ◌==◌, if◌then◌else◌, replicate}
use kancho_net.Types.{Socket, IoOperation, receive, default_buffer_size}
use kancho_net.Manager.{Address}
use kancho_net.Net.{ok, or_fault, and_then, Kernel}
use kancho_net.Host.{Host, ◌>>=◌, ◌>>◌, pure, update, call}
use kancho_net.Host
use kancho_net.Windows.{Handle, invalid_socket}

-- `OverlappedContext`. Of `wsaBuf` only the length is kept: it always points to `buffer`.
pub record Context : Type 0 where
  pub operation : IoOperation
  pub session : Address
  pub wsa_length : ℕ
  pub buffer : List ℕ
  pub accept_socket : Socket

-- `mIocpHandle`, whether `mLpfnAcceptEx` of SocketUtils is set, and the contexts that are allocated, by
-- their addresses. The other three function pointers are never read.
pub record Port : Type 0 where
  pub handle : Option Handle
  pub accept_ex_loaded : Bool
  pub contexts : List (Address × Context)

-- The model has no `mSocketToSession`: `socket_map` stays empty.
abbrev pub Iocp : Type 0 → Type 0
Iocp K = Host Port K

abbrev pub Run : Type 0 → Type 0 → Type 0
Run K A = Host.Run Port K A

abbrev pub App : Type 0 → Type 0
App K = Host.App Port K

unfoldable pub context_of : Address → List (Address × Context) → Option Context
context_of c [] = none
context_of c ((a, x) ∷ l) = if a == c then some x else context_of c l

unfoldable pub without : Address → List (Address × Context) → List (Address × Context)
without c [] = []
without c ((a, x) ∷ l) = if a == c then l else (a, x) ∷ without c l

-- A context with some fields written.
unfoldable pub written :
    Address → (Context → Context) → List (Address × Context) → List (Address × Context)
written c f [] = []
written c f ((a, x) ∷ l) = if a == c then (a, f x) ∷ l else (a, x) ∷ written c f l

-- A new context: `AllocateContext` sets the fields, and `new` has cleared the rest.
unfoldable pub fresh : Context
fresh = record {
  operation = receive;
  session = 0;
  wsa_length = 0;
  buffer = replicate default_buffer_size 0;
  accept_socket = invalid_socket;
}

module _ {K : Type 0} where
  abbrev pub with_contexts : (List (Address × Context) → List (Address × Context)) → Iocp K → Iocp K
  with_contexts f s = record s { handle = record s.handle { contexts = f s.handle.contexts } }

  unfoldable pub allocate_context : Kernel K → Run K Address
  allocate_context kernel = do
    c ← call kernel.new_address
    update (with_contexts (λ l. (c, fresh) ∷ l))
    pure c

  -- A read and a write through a context pointer: undefined for one that is not allocated.
  unfoldable pub context_at : Address → Run K Context
  context_at c s = and_then (or_fault (context_of c s.handle.contexts)) (λ x. ok (x, s))

  unfoldable pub set_context : Address → (Context → Context) → Run K (Unit {0})
  set_context c f = do context_at c; update (with_contexts (written c f))

  unfoldable pub deallocate_context : Address → Run K (Unit {0})
  deallocate_context c =
      if c == 0 then pure tt else (do context_at c; update (with_contexts (without c)))
