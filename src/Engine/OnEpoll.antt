-- ===== src/Engine/OnEpoll.antt =====
-- KanchoNet/Core/NetworkEngine over KanchoNet/Network/EpollModel.
use kancho_net.Common.{
  ℕ, Bool, true, false, List, ◌≡◌, refl, ◌∙◌, ◌⊎◌, inl, inr, none, some, arith, Bool-cases,
}
use kancho_net.Config.{Config}
use kancho_net.Manager.{Manager, Entry}
use kancho_net.Manager
use kancho_net.Manager.Live.{Apart}
use kancho_net.Net.{ok, and_then, Kernel}
use kancho_net.Epoll.State.{Epoll, App}
use kancho_net.Epoll.Io
use kancho_net.Epoll.Control
use kancho_net.Epoll.Lifecycle.{IsSound, Equipped, GivesSockets, initialize_lem}
use kancho_net.Epoll.Down.{Valid, start_listen_lem, shutdown_lem}
use kancho_net.Engine.{NetworkModel, Engine}
use kancho_net.Engine.Phases.{Contract, Phase, Command, Walk, IsIn, act_all, act_all_lem}

-- The model and whether its callbacks have been set.
abbrev pub Driven : Type 0 → Type 0
Driven K = Bool × Epoll K

module _ {K : Type 0} (kernel : Kernel K) (app : App K) (fuel : ℕ) where
  abbrev pub callbacks : Bool → App K
  callbacks true = app
  callbacks false = record {
    on_accept = none;
    on_receive = none;
    on_disconnect = none;
    on_error = none;
  }

  -- `EpollModel` as an `INetworkModel`.
  unfoldable pub epoll_network : NetworkModel (Driven K)
  epoll_network = record {
    initialize = λ c m.
        and_then (Control.initialize kernel (callbacks m.0) c m.1) (λ r. ok (r.0, (m.0, r.1)));
    start_listen =
        λ m. and_then (Control.start_listen kernel (callbacks m.0) m.1) (λ r. ok (r.0, (m.0, r.1)));
    process_io = λ t m.
        and_then (Io.process_io kernel (callbacks m.0) fuel t m.1) (λ r. ok (r.0, (m.0, r.1)));
    send = λ p b m. and_then (Io.send kernel (callbacks m.0) p b m.1) (λ r. ok (r.0, (m.0, r.1)));
    shutdown =
        λ m. and_then (Control.shutdown kernel (callbacks m.0) m.1) (λ r. ok (tt, (m.0, r.1)));
    set_callbacks = λ m. (true, m.1);
  }

  -- Up, with the sessions apart and their sockets valid.
  pub record IsUp (s : Epoll K) : Type 0 where
    pub sound : IsSound s
    pub up : s.initialized ≡ true
    pub m : Manager
    pub managed_by : s.manager ≡ some m
    pub apart : Apart m.entries
    pub valid : Valid m.entries

  pub record IsIdle (d : Driven K) : Type 0 where
    pub sound : IsSound d.1
    pub not_up : d.1.initialized ≡ false

  pub record IsReady (d : Driven K) : Type 0 where
    pub is_up : IsUp d.1

  pub record IsLive (d : Driven K) : Type 0 where
    pub is_up : IsUp d.1
    pub on_air : d.1.running ≡ true

  equipped : {s : Epoll K} → (u : IsUp s) → (q : Equipped s) × (q.m ≡ u.m)
  equipped u = elim u.sound.up [
    | inl down ↦ absurd (ground (arith, u.up))
    | inr q ↦ (q, ground (arith, q.managed_by, u.managed_by))
  ]

  comes_up :
      (c : Config) (d : Driven K)
      → GivesSockets kernel
      → IsIdle d
      → (b : Bool) × (d' : Driven K) × (epoll_network.initialize c d ≡ ok (b, d'))
        × (((b ≡ true) × IsReady d') ⊎ ((b ≡ false) × IsIdle d'))
  unfolding epoll_network Manager.create
  comes_up c (set, s) gives idle =
      let (b, t, did, sound, ends) = initialize_lem kernel (callbacks set) c s gives idle.sound in
      (
        b,
        (set, t),
        rw did refl,
        elim ends [
          | inl (yes_up, was, up, its_config, fresh) ↦ inl (
            yes_up,
            record {
              is_up = record {
                sound = sound;
                up = up;
                m = Manager.create c.max_sessions;
                managed_by = fresh;
                apart = tt;
                valid = tt;
              };
            },
          )
          | inr (not_up, same, closed) ↦
              inr (not_up, record { sound = sound; not_up = same ∙ idle.not_up })
        ],
      )

  hears :
      (d : Driven K)
      → IsReady d
      → (b : Bool) × (d' : Driven K) × (epoll_network.start_listen d ≡ ok (b, d'))
        × (((b ≡ true) × IsLive d') ⊎ ((b ≡ false) × IsReady d'))
  unfolding epoll_network
  hears (set, s) ready =
      let u = ready.is_up in
      let (b, t, did, sound, runs, same_up, same) =
        start_listen_lem kernel (callbacks set) {s = s} u.sound in
      let u' : IsUp t = record {
        sound = sound;
        up = same_up ∙ u.up;
        m = u.m;
        managed_by = same ∙ u.managed_by;
        apart = u.apart;
        valid = u.valid;
      } in
      (
        b,
        (set, t),
        rw did refl,
        elim (Bool-cases b) [
          | inl good ↦ inl (good, record { is_up = u'; on_air = runs ∙ good })
          | inr bad ↦ inr (bad, record { is_up = u' })
        ],
      )

  goes_down :
      (d : Driven K)
      → IsLive d
      → (d' : Driven K) × (epoll_network.shutdown d ≡ ok (tt, d')) × IsIdle d'
  unfolding epoll_network
  goes_down (set, s) live =
      let u = live.is_up in
      let (q, same) = equipped u in
      let (t, did, sound, not_up, cleared, unmapped, all, listener, epoll) =
        shutdown_lem kernel (callbacks set) {s = s} u.up q (rw same u.apart) (rw same u.valid) in
      ((set, t), rw did refl, record { sound = sound; not_up = not_up })

  -- The epoll model keeps what the engine asks of a network model.
  pub epoll_contract : GivesSockets kernel → Contract epoll_network IsIdle IsReady IsLive
  unfolding epoll_network
  epoll_contract gives = record {
    arms = λ d idle. record { sound = idle.sound; not_up = idle.not_up };
    initializes = λ c d good idle. comes_up c d gives idle;
    listens = hears;
    shuts = goes_down;
  }

  -- An engine over the epoll model, from the phase it is in, answers every sequence of
  -- `Initialize`, `Start` and `Stop` by a walk through the phases, and each call returns.
  -- `socket` is taken not to return the invalid handle when it succeeds.
  pub epoll_engine_lem :
      (p : Phase) (cs : List Command) (e : Engine (Driven K))
      → GivesSockets kernel
      → IsIn epoll_network IsIdle IsReady IsLive p e
      → (bs : List Bool) × (e' : Engine (Driven K)) × (q : Phase) × (act_all epoll_network cs e
          ≡ ok (bs, e'))
        × IsIn epoll_network IsIdle IsReady IsLive q e'
        × Walk p cs bs q
  epoll_engine_lem p cs e gives h =
      act_all_lem epoll_network IsIdle IsReady IsLive (epoll_contract gives) p cs e h
