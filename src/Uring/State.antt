-- ===== src/Uring/State.antt =====
-- KanchoNet/Network/IOUringModel.h: the fields of the io_uring model, its contexts, and liburing.
use kancho_net.Common.{ℕ, Bool, List, [], ◌∷◌, Option, none, some, ◌==◌, if◌then◌else◌}
use kancho_net.Types.{Socket, IoOperation}
use kancho_net.Manager.{Address}
use kancho_net.Net.{ok, or_fault, and_then, Kernel}
use kancho_net.Host.{Host, ◌>>=◌, ◌>>◌, pure, update, call}
use kancho_net.Host

-- `IOUringContext`. The buffer is the array that the context owns, or none.
pub record Context : Type 0 where
  pub operation : IoOperation
  pub session : Address
  pub buffer : Option (List ℕ)
  pub buffer_size : ℕ

-- `mRingInitialized`, the two static members on support, with unchecked as `none`, and the contexts
-- that are allocated, by their addresses.
pub record Rings : Type 0 where
  pub ring_initialized : Bool
  pub supported : Option Bool
  pub contexts : List (Address × Context)

abbrev pub Uring : Type 0 → Type 0
Uring K = Host Rings K

abbrev pub Run : Type 0 → Type 0 → Type 0
Run K A = Host.Run Rings K A

abbrev pub App : Type 0 → Type 0
App K = Host.App Rings K

-- What is prepared in a submission entry.
pub data Request : Type 0 where
  accepts : Socket → Request
  receives : Socket → ℕ → Request
  sends : Socket → List ℕ → Request

-- `cqe->res`, which is an error when it is negative.
pub data Result : Type 0 where
  returned : ℕ → Result
  errored : Result

-- A completion: the context that was set on the request, its result, and what the kernel has put into
-- the buffer of a receive.
pub record Completion : Type 0 where
  pub context : Address
  pub result : Result
  pub filled : List ℕ

pub data Polled : Type 0 where
  some_ready none_ready poll_failed : Polled

-- liburing. `wait` is `io_uring_wait_cqe_timeout`, or `io_uring_peek_cqe` for a timeout of 0; `entry` is
-- what `io_uring_for_each_cqe` finds at a position, from `head` on.
pub record Liburing (K : Type 0) : Type 0 where
  pub queue_init : ℕ → K → Bool × K
  pub queue_exit : K → K
  pub get_sqe : K → Bool × K
  pub prepare : Request → Address → K → K
  pub submit : K → Bool × K
  pub wait : ℕ → K → Polled × K
  pub head : K → ℕ
  pub entry : K → ℕ → Option Completion
  pub cqe_seen : K → K
  pub cq_advance : ℕ → K → K

unfoldable pub context_of : Address → List (Address × Context) → Option Context
context_of c [] = none
context_of c ((a, x) ∷ l) = if a == c then some x else context_of c l

unfoldable pub without : Address → List (Address × Context) → List (Address × Context)
without c [] = []
without c ((a, x) ∷ l) = if a == c then l else (a, x) ∷ without c l

-- The buffer of a context, overwritten.
unfoldable pub filled : Address → List ℕ → List (Address × Context) → List (Address × Context)
filled c b [] = []
filled c b ((a, x) ∷ l) =
    if a == c then (a, record x { buffer = some b }) ∷ l else (a, x) ∷ filled c b l

module _ {K : Type 0} where
  abbrev pub with_contexts :
      (List (Address × Context) → List (Address × Context)) → Uring K → Uring K
  with_contexts f s = record s { handle = record s.handle { contexts = f s.handle.contexts } }

  -- `new` gives the address; the fields are set after it.
  unfoldable pub allocate_context : Kernel K → Context → Run K Address
  allocate_context kernel x = do
    c ← call kernel.new_address
    update (with_contexts (λ l. (c, x) ∷ l))
    pure c

  -- A read through a context pointer, and its deletion: undefined for one that is not allocated.
  unfoldable pub context_at : Address → Run K Context
  context_at c s = and_then (or_fault (context_of c s.handle.contexts)) (λ x. ok (x, s))

  unfoldable pub deallocate_context : Address → Run K (Unit {0})
  deallocate_context c =
      if c == 0 then pure tt else (do context_at c; update (with_contexts (without c)))
