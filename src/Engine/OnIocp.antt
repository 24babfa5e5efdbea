-- ===== src/Engine/OnIocp.antt =====
-- KanchoNet/Core/NetworkEngine over KanchoNet/Network/IOCPModel.
use kancho_net.Common.{
  Bool, true, false, List, ◌≡◌, refl, ◌∙◌, ◌⊎◌, inl, inr, none, some, Bool-cases,
}
use kancho_net.Config.{Config}
use kancho_net.Manager.{Manager}
use kancho_net.Manager
use kancho_net.Manager.Live.{Apart}
use kancho_net.Net.{ok, and_then, Kernel}
use kancho_net.Windows.{Windows}
use kancho_net.Iocp.State.{Iocp, App}
use kancho_net.Iocp.Post
use kancho_net.Iocp.Complete
use kancho_net.Iocp.Control
use kancho_net.Iocp.Lifecycle.{GivesSockets, IsUp, initialize_balances}
use kancho_net.Iocp.Listen.{NeverNull, start_listen_registers}
use kancho_net.Iocp.Down.{Valid, shutdown_closes}
use kancho_net.Engine.{NetworkModel, Engine}
use kancho_net.Engine.Phases.{Contract, Phase, Command, Walk, IsIn, act_all, act_all_lem}

-- The model and whether its callbacks have been set.
abbrev pub Driven : Type 0 → Type 0
Driven K = Bool × Iocp K

module _ {K : Type 0} (kernel : Kernel K) (windows : Windows K) (app : App K) where
  abbrev pub callbacks : Bool → App K
  callbacks true = app
  callbacks false = record {
    on_accept = none;
    on_receive = none;
    on_disconnect = none;
    on_error = none;
  }

  -- `IOCPModel` as an `INetworkModel`.
  unfoldable pub iocp_network : NetworkModel (Driven K)
  iocp_network = record {
    initialize =
        λ c m. and_then (Control.initialize kernel windows c m.1) (λ r. ok (r.0, (m.0, r.1)));
    start_listen =
        λ m. and_then (Control.start_listen kernel windows m.1) (λ r. ok (r.0, (m.0, r.1)));
    process_io = λ t m.
        and_then (Complete.process_io kernel windows (callbacks m.0) t m.1)
          (λ r. ok (r.0, (m.0, r.1)));
    send = λ p b m. and_then (Post.send kernel windows p b m.1) (λ r. ok (r.0, (m.0, r.1)));
    shutdown = λ m. and_then (Control.shutdown kernel windows m.1) (λ r. ok (tt, (m.0, r.1)));
    set_callbacks = λ m. (true, m.1);
  }

  -- Up, with the sessions apart and their sockets valid.
  pub record IsReady (d : Driven K) : Type 0 where
    pub up : IsUp d.1
    pub not_running : d.1.running ≡ false
    pub m : Manager
    pub managed_by : d.1.manager ≡ some m
    pub apart : Apart m.entries
    pub valid : Valid m.entries

  pub record IsLive (d : Driven K) : Type 0 where
    pub up : IsUp d.1
    pub m : Manager
    pub managed_by : d.1.manager ≡ some m
    pub apart : Apart m.entries
    pub valid : Valid m.entries

  pub record IsIdle (d : Driven K) : Type 0 where
    pub not_up : d.1.initialized ≡ false
    pub not_running : d.1.running ≡ false

  comes_up :
      (c : Config) (d : Driven K)
      → GivesSockets kernel
      → IsIdle d
      → (b : Bool) × (d' : Driven K) × (iocp_network.initialize c d ≡ ok (b, d'))
        × (((b ≡ true) × IsReady d') ⊎ ((b ≡ false) × IsIdle d'))
  unfolding iocp_network Manager.create
  comes_up c (set, s) gives idle =
      let (b, t, did, ends) = initialize_balances kernel windows c s gives in
      (
        b,
        (set, t),
        rw did refl,
        elim ends [
          | inl (good, was, up, r, its_config, fresh) ↦ inl (
            good,
            record {
              up = up;
              not_running = r ∙ idle.not_running;
              m = Manager.create c.max_sessions;
              managed_by = fresh;
              apart = tt;
              valid = tt;
            },
          )
          | inr (bad, same, r, balanced, released) ↦
              inr (bad, record { not_up = same ∙ idle.not_up; not_running = r ∙ idle.not_running })
        ],
      )

  hears :
      (d : Driven K)
      → GivesSockets kernel
      → NeverNull kernel
      → IsReady d
      → (b : Bool) × (d' : Driven K) × (iocp_network.start_listen d ≡ ok (b, d'))
        × (((b ≡ true) × IsLive d') ⊎ ((b ≡ false) × IsReady d'))
  unfolding iocp_network
  hears (set, s) gives never_null r =
      let (b, t, did, runs, same, up, ends) =
        start_listen_registers kernel windows s never_null gives r.up r.not_running in
      (
        b,
        (set, t),
        rw did refl,
        elim (Bool-cases b) [
          | inl good ↦ inl (
            good,
            record {
              up = up;
              m = r.m;
              managed_by = same ∙ r.managed_by;
              apart = r.apart;
              valid = r.valid;
            },
          )
          | inr bad ↦ inr (
            bad,
            record {
              up = up;
              not_running = runs ∙ bad;
              m = r.m;
              managed_by = same ∙ r.managed_by;
              apart = r.apart;
              valid = r.valid;
            },
          )
        ],
      )

  goes_down :
      (d : Driven K)
      → IsLive d
      → (d' : Driven K) × (iocp_network.shutdown d ≡ ok (tt, d')) × IsIdle d'
  unfolding iocp_network
  goes_down (set, s) live =
      let (t, did, not_up, not_running, cleared, listener, handle, log) =
        shutdown_closes kernel windows {s = s} live.up live.managed_by live.apart live.valid in
      ((set, t), rw did refl, record { not_up = not_up; not_running = not_running })

  -- The IOCP model keeps what the engine asks of a network model.
  pub iocp_contract :
      GivesSockets kernel → NeverNull kernel → Contract iocp_network IsIdle IsReady IsLive
  unfolding iocp_network
  iocp_contract gives never_null = record {
    arms = λ d idle. record { not_up = idle.not_up; not_running = idle.not_running };
    initializes = λ c d good idle. comes_up c d gives idle;
    listens = λ d ready. hears d gives never_null ready;
    shuts = goes_down;
  }

  -- An engine over the IOCP model, from the phase it is in, answers every sequence of `Initialize`,
  -- `Start` and `Stop` by a walk through the phases, and each call returns. `WSASocket` is taken not to
  -- return the invalid socket when it succeeds, nor `new` the null pointer.
  pub iocp_engine_lem :
      (p : Phase) (cs : List Command) (e : Engine (Driven K))
      → GivesSockets kernel
      → NeverNull kernel
      → IsIn iocp_network IsIdle IsReady IsLive p e
      → (bs : List Bool) × (e' : Engine (Driven K)) × (q : Phase) × (act_all iocp_network cs e
          ≡ ok (bs, e'))
        × IsIn iocp_network IsIdle IsReady IsLive q e'
        × Walk p cs bs q
  iocp_engine_lem p cs e gives never_null h =
      act_all_lem iocp_network IsIdle IsReady IsLive (iocp_contract gives never_null) p cs e h
