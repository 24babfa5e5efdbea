-- ===== src/Rio/State.antt =====
-- KanchoNet/Network/RIOModel.h: the fields of the RIO model, and the functions of the RIO table.
use kancho_net.Common.{
  ℕ, Bool, true, false, List, [], ◌∷◌, Option, none, some, ◌^◌, ◌-◌, ◌==◌, if◌then◌else◌,
}
use kancho_net.Types.{Socket, IoOperation}
use kancho_net.Manager.{Address}
use kancho_net.Net.{ok, fault, or_fault, and_then}
use kancho_net.Host.{Host, ◌>>=◌, ◌>>◌, pure, update, call}
use kancho_net.Host
use kancho_net.Windows.{Handle}

abbrev pub BufferId : Type 0
BufferId = ℕ

-- `RIO_INVALID_BUFFERID`
abbrev pub invalid_buffer_id : BufferId
invalid_buffer_id = 2 ^ 32 - 1

-- `RIOBufferInfo`. The array is known by its address, 0 for null.
pub record BufferInfo : Type 0 where
  pub id : BufferId
  pub buffer : Address
  pub buffer_size : ℕ
  pub buffer_count : ℕ

-- `RIOContext`, without `rioBuf`, which is cleared and never used.
pub record Context : Type 0 where
  pub operation : IoOperation
  pub session : Address

-- The fields of the model that are its own: the two static members on support, with unchecked as `none`,
-- whether the function table is loaded, the completion queue and the event, with none for
-- `RIO_INVALID_CQ` and null, and the two buffers. Then the heap: the arrays that are allocated, with their
-- lengths, and the contexts.
pub record Registered : Type 0 where
  pub supported : Option Bool
  pub loaded : Bool
  pub queue : Option Handle
  pub event : Option Handle
  pub receive_info : BufferInfo
  pub send_info : BufferInfo
  pub arrays : List (Address × ℕ)
  pub contexts : List (Address × Context)

abbrev pub Rio : Type 0 → Type 0
Rio K = Host Registered K

abbrev pub Run : Type 0 → Type 0 → Type 0
Run K A = Host.Run Registered K A

abbrev pub App : Type 0 → Type 0
App K = Host.App Registered K

-- `RIORESULT`
pub record Result : Type 0 where
  pub context : Address
  pub bytes : ℕ

-- What `RIODequeueCompletion` answers: `RIO_CORRUPT_CQ`, or the results.
pub data Dequeued : Type 0 where
  corrupt : Dequeued
  results : List Result → Dequeued

pub data WaitedFor : Type 0 where
  signalled timed_out wait_failed : WaitedFor

-- The RIO functions and the calls of Windows that only this model makes. `count_ready` is
-- `RIODequeueCompletion` with no room for results.
pub record Library (K : Type 0) : Type 0 where
  pub verify_version : K → Bool × K
  pub load_table : Socket → K → Bool × K
  pub create_event : K → Option Handle × K
  pub create_queue : ℕ → Option Handle → K → Option Handle × K
  pub close_queue : Handle → K → K
  pub register_buffer : Address → ℕ → K → BufferId × K
  pub deregister_buffer : BufferId → K → K
  pub count_ready : Option Handle → K → Option ℕ × K
  pub dequeue : Option Handle → ℕ → K → Dequeued × K
  pub wait : Option Handle → ℕ → K → WaitedFor × K
  pub notify : Option Handle → K → K

unfoldable pub context_of : Address → List (Address × Context) → Option Context
context_of c [] = none
context_of c ((a, x) ∷ l) = if a == c then some x else context_of c l

unfoldable pub without {ℓ} : {A : Type ℓ} → Address → List (Address × A) → List (Address × A)
without c [] = []
without c ((a, x) ∷ l) = if a == c then l else (a, x) ∷ without c l

unfoldable pub is_allocated : Address → List (Address × ℕ) → Bool
is_allocated c [] = false
is_allocated c ((a, n) ∷ l) = if a == c then true else is_allocated c l

module _ {K : Type 0} where
  abbrev pub with_handle : (Registered → Registered) → Rio K → Rio K
  with_handle f s = record s { handle = f s.handle }

  -- A call through the function table, undefined while it is null.
  unfoldable pub rio : {A : Type 0} → (K → A × K) → Run K A
  rio f s = if s.handle.loaded then call f s else fault

  -- `delete[]`: nothing for null, and undefined for what is not allocated.
  unfoldable pub delete_array : Address → Run K (Unit {0})
  delete_array a s =
      if a == 0
      then ok (tt, s)
      else if is_allocated a s.handle.arrays
      then ok (tt, with_handle (λ h. record h { arrays = without a h.arrays }) s)
      else fault

  unfoldable pub context_at : Address → Run K Context
  context_at c s = and_then (or_fault (context_of c s.handle.contexts)) (λ x. ok (x, s))

  unfoldable pub deallocate_context : Address → Run K (Unit {0})
  deallocate_context c = if c == 0 then pure tt else (do
    context_at c
    update (with_handle (λ h. record h { contexts = without c h.contexts })))
