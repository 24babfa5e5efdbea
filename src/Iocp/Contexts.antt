-- ===== src/Iocp/Contexts.antt =====
-- KanchoNet/Network/IOCPModel.cpp: steps through the newest context.
use kancho_net.Common.{◌≡◌, ◌≢◌, refl, false, ◌∷◌, arith, ◌==◌, ==_refl}
use kancho_net.Types.{Socket}
use kancho_net.Manager.{Address}
use kancho_net.Net.{ok, Kernel, closes}
use kancho_net.Host.{call}
use kancho_net.Windows.{invalid_socket, close_socket}
use kancho_net.Iocp.State.{
  Iocp, Context, fresh, allocate_context, context_at, set_context, deallocate_context, context_of,
  written, without,
}

-- The context `x` at `c` is the newest, on top of `l`.
abbrev pub topped : {K : Type 0} → Address → Context → Iocp K → Iocp K
topped c x s = record s { handle = record s.handle { contexts = (c, x) ∷ s.handle.contexts } }

module _ {K : Type 0} where
  pub allocate_lem :
      (kernel : Kernel K) (s : Iocp K)
      → let (c, k) = kernel.new_address s.kernel_state in
        allocate_context kernel s ≡ ok (c, topped c fresh (record s { kernel_state = k }))
  unfolding allocate_context call
  allocate_lem kernel s = refl

  module _ (c : Address) (x : Context) (s : Iocp K) where
    pub context_top : context_at c (topped c x s) ≡ ok (x, topped c x s)
    unfolding context_at context_of
    context_top = rw (==_refl c) refl

    pub set_top :
        (f : Context → Context) → set_context c f (topped c x s) ≡ ok (tt, topped c (f x) s)
    unfolding set_context written context_at context_of
    set_top f = rw (==_refl c, ==_refl c) refl

    pub deallocate_top : c ≢ 0 → deallocate_context c (topped c x s) ≡ ok (tt, s)
    unfolding deallocate_context without context_at context_of
    deallocate_top ne =
        let real : (c == 0) ≡ false = ground arith in rw (real, ==_refl c, ==_refl c) refl

  pub close_valid :
      {fd : Socket} (s : Iocp K)
      → fd ≢ invalid_socket
      → close_socket fd s ≡ ok (tt, record s { log = closes fd ∷ s.log })
  unfolding close_socket
  close_valid {fd} s ne = let real : (fd == invalid_socket) ≡ false = ground arith in rw real refl
