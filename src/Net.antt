-- ===== src/Net.antt =====
-- What the network models under KanchoNet/Network share: how a call ends, the answers of the
-- operating system, the log of what was asked of it, and the callbacks of the application.
pub mod Accounts
use kancho_net.Common.{ℕ, Bool, List, Option, none, some, ◌+◌, ◌*◌, ◌/◌, ◌%◌, ◌^◌}
use kancho_net.Types.{Socket}

-- A call returns, or is undefined behaviour (a dangling pointer, an access out of bounds), or never
-- returns (a spin lock that its own thread holds), or has not returned within the rounds given.
pub data Outcome (A : Type 0) : Type 0 where
  ok : A → Outcome A
  fault : Outcome A
  hang : Outcome A
  no_fuel : Outcome A

abbrev pub and_then : {A B : Type 0} → Outcome A → (A → Outcome B) → Outcome B
and_then (ok a) f = f a
and_then fault f = fault
and_then hang f = hang
and_then no_fuel f = no_fuel

abbrev pub or_fault : {A : Type 0} → Option A → Outcome A
or_fault none = fault
or_fault (some a) = ok a

-- The answers of `accept`, `recv` and `send`: what they return, with `errno` where it is read.
pub data Accepted : Type 0 where
  client : Socket → Accepted
  no_more failed : Accepted

pub data Received : Type 0 where
  bytes : List ℕ → Received
  closed try_again broken : Received

-- `sent n` returned `n`, which is positive; `zero` returned 0.
pub data Sent : Type 0 where
  sent : ℕ → Sent
  nothing would_block broken : Sent

-- `epoll_event`: the flags that are read, and the 64 bits of the `data` union.
pub record Event : Type 0 where
  pub error_or_hangup : Bool
  pub readable : Bool
  pub writable : Bool
  pub data_word : ℕ

-- `ev.data.ptr = p; ev.data.fd = s;` on the union: the second write replaces the low 32 bits.
abbrev pub union_data : ℕ → Socket → ℕ
union_data p s = p / 2 ^ 32 * 2 ^ 32 + s

abbrev pub data_fd : ℕ → Socket
data_fd w = w % 2 ^ 32

pub data Waited : Type 0 where
  events : List Event → Waited
  interrupted wait_failed : Waited

-- `EPOLLIN | EPOLLET`, and the same with `EPOLLOUT`.
abbrev pub for_input : ℕ
for_input = 2 ^ 31 + 1

abbrev pub for_both : ℕ
for_both = 2 ^ 31 + 5

-- The operating system under the models, with a state of its own. An answer that the code does not
-- read is left out.
pub record Kernel (K : Type 0) : Type 0 where
  pub create_socket : K → Option Socket × K
  pub bind : K → Socket → ℕ → Bool × K
  pub listen : K → Socket → ℕ → Bool × K
  pub accept : K → Socket → Accepted × K
  pub recv : K → Socket → ℕ → Received × K
  pub send : K → Socket → List ℕ → Sent × K
  pub epoll_create : K → Option ℕ × K
  pub epoll_add : K → Socket → ℕ → ℕ → Bool × K
  pub epoll_mod : K → Socket → ℕ → ℕ → Bool × K
  pub epoll_del : K → Socket → Bool × K
  pub epoll_wait : K → ℕ → Waited × K
  pub new_address : K → ℕ × K

-- What is asked of the operating system for good or ill, newest first in a log.
pub data Action : Type 0 where
  opened shut closes : Socket → Action
  watches rewatches : Socket → ℕ → Action
  unwatches : Socket → Action
  delivers : Socket → List ℕ → Action
  starts_network ends_network : Action
