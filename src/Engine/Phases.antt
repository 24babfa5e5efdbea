-- ===== src/Engine/Phases.antt =====
-- The life of a KanchoNet/Core/NetworkEngine as a machine of three phases, whatever network model it
-- drives, as long as that model keeps its side of INetworkModel.
use kancho_net.Common.{Bool, true, false, List, [], ◌∷◌, ◌≡◌, refl, ◌⊎◌, inl, inr, Bool-cases}
use kancho_net.Config.{Config}
use kancho_net.Config
use kancho_net.Net.{Outcome, ok, and_then}
use kancho_net.Engine.{NetworkModel, Engine, initialize, start, stop}

-- What the engine asks of a network model: from idle it comes up or stays idle, from ready it listens
-- or stays ready, and from live it goes down to idle. Each call returns.
pub record Contract {M : Type 0} (network : NetworkModel M) (Idle Ready Live : M → Type 0)
    : Type 0 where
  pub arms : (m : M) → Idle m → Idle (network.set_callbacks m)
  pub initializes :
      (config : Config) (m : M)
      → Config.validate config ≡ true
      → Idle m
      → (b : Bool) × (m' : M) × (network.initialize config m ≡ ok (b, m'))
        × (((b ≡ true) × Ready m') ⊎ ((b ≡ false) × Idle m'))
  pub listens :
      (m : M)
      → Ready m
      → (b : Bool) × (m' : M) × (network.start_listen m ≡ ok (b, m'))
        × (((b ≡ true) × Live m') ⊎ ((b ≡ false) × Ready m'))
  pub shuts : (m : M) → Live m → (m' : M) × (network.shutdown m ≡ ok (tt, m')) × Idle m'

pub data Phase : Type 0 where
  down ready live : Phase

pub data Command : Type 0 where
  initializes : Config → Command
  starts stops : Command

-- The moves that the engine may make, with its answer; `Stop` has none and answers true here.
pub data Moves : Phase → Command → Bool → Phase → Type 0 where
  comes_up : (c : Config) → Config.validate c ≡ true → Moves down (initializes c) true ready
  stays_down : (c : Config) → Moves down (initializes c) false down
  is_ready : (c : Config) → Moves ready (initializes c) false ready
  is_live : (c : Config) → Moves live (initializes c) false live
  goes_live : Moves ready starts true live
  stays_ready : Moves ready starts false ready
  too_early : Moves down starts false down
  already : Moves live starts false live
  goes_down : Moves live stops true down
  nothing_down : Moves down stops true down
  nothing_ready : Moves ready stops true ready

pub data Walk : Phase → List Command → List Bool → Phase → Type 0 where
  stay : (p : Phase) → Walk p [] [] p
  move :
      {p q r : Phase} {c : Command} {cs : List Command} {b : Bool} {bs : List Bool}
      → Moves p c b q
      → Walk q cs bs r
      → Walk p (c ∷ cs) (b ∷ bs) r

module _ {M : Type 0} (network : NetworkModel M) where
  unfoldable pub act : Command → Engine M → Outcome (Bool × Engine M)
  act (initializes c) e = initialize network c e
  act starts e = start network e
  act stops e = and_then (stop network e) (λ r. ok (true, r.1))

  unfoldable pub act_all : List Command → Engine M → Outcome (List Bool × Engine M)
  act_all [] e = ok ([], e)
  act_all (c ∷ cs) e =
      and_then (act c e) (λ r. and_then (act_all cs r.1) (λ q. ok (r.0 ∷ q.0, q.1)))

  module _ (Idle Ready Live : M → Type 0) where
    -- The flags of the engine agree with the phase and with the state of the network model.
    abbrev pub IsIn : Phase → Engine M → Type 0
    IsIn down e = (e.initialized ≡ false) × (e.running ≡ false) × Idle e.model
    IsIn ready e = (e.initialized ≡ true) × (e.running ≡ false) × Ready e.model
    IsIn live e = (e.initialized ≡ true) × (e.running ≡ true) × Live e.model

    pub record Reaches (p : Phase) (c : Command) (e : Engine M) : Type 0 where
      pub answer : Bool
      pub after : Engine M
      pub q : Phase
      pub returns : act c e ≡ ok (answer, after)
      pub there : IsIn q after
      pub moves : Moves p c answer q

    pub act_lem :
        (k : Contract network Idle Ready Live) (p : Phase) (c : Command) (e : Engine M)
        → IsIn p e
        → Reaches p c e
    unfolding act initialize start stop
    act_lem k down (initializes c) e (i, r, idle) = elim (Bool-cases (Config.validate c)) [
      | inr bad ↦ record {
        answer = false;
        after = e;
        q = down;
        returns = rw (i, bad) refl;
        there = (i, r, idle);
        moves = stays_down c;
      }
      | inl good ↦
          let armed = network.set_callbacks e.model in
          let (b, m, done, ends) = k.initializes c armed good (k.arms e.model idle) in
          elim ends [
            | inl (yes_up, up) ↦ record {
              answer = true;
              after = record e { config = c; model = m; initialized = true };
              q = ready;
              returns = rw (i, good, done, yes_up) refl;
              there = (refl, r, up);
              moves = comes_up c good;
            }
            | inr (not_up, still) ↦ record {
              answer = false;
              after = record e { config = c; model = m };
              q = down;
              returns = rw (i, good, done, not_up) refl;
              there = (i, r, still);
              moves = stays_down c;
            }
          ]
    ]
    act_lem k down starts e (i, r, idle) = record {
      answer = false;
      after = e;
      q = down;
      returns = rw i refl;
      there = (i, r, idle);
      moves = too_early;
    }
    act_lem k down stops e (i, r, idle) = record {
      answer = true;
      after = e;
      q = down;
      returns = rw r refl;
      there = (i, r, idle);
      moves = nothing_down;
    }
    act_lem k ready (initializes c) e (i, r, up) = record {
      answer = false;
      after = e;
      q = ready;
      returns = rw i refl;
      there = (i, r, up);
      moves = is_ready c;
    }
    act_lem k ready starts e (i, r, up) =
        let (b, m, done, ends) = k.listens e.model up in
        elim ends [
          | inl (hears, on_air) ↦ record {
            answer = true;
            after = record e { model = m; running = true };
            q = live;
            returns = rw (i, r, done, hears) refl;
            there = (i, refl, on_air);
            moves = goes_live;
          }
          | inr (deaf, still) ↦ record {
            answer = false;
            after = record e { model = m };
            q = ready;
            returns = rw (i, r, done, deaf) refl;
            there = (i, r, still);
            moves = stays_ready;
          }
        ]
    act_lem k ready stops e (i, r, up) = record {
      answer = true;
      after = e;
      q = ready;
      returns = rw r refl;
      there = (i, r, up);
      moves = nothing_ready;
    }
    act_lem k live (initializes c) e (i, r, on_air) = record {
      answer = false;
      after = e;
      q = live;
      returns = rw i refl;
      there = (i, r, on_air);
      moves = is_live c;
    }
    act_lem k live starts e (i, r, on_air) = record {
      answer = false;
      after = e;
      q = live;
      returns = rw (i, r) refl;
      there = (i, r, on_air);
      moves = already;
    }
    act_lem k live stops e (i, r, on_air) =
        let (m, done, idle) = k.shuts e.model on_air in
        record {
          answer = true;
          after = record e { running = false; model = m; initialized = false };
          q = down;
          returns = rw (r, done) refl;
          there = (refl, refl, idle);
          moves = goes_down;
        }

    -- Over a network model that keeps the contract, every sequence of `Initialize`, `Start` and `Stop`
    -- returns, and its answers are those of a walk through the phases.
    pub act_all_lem :
        (k : Contract network Idle Ready Live) (p : Phase) (cs : List Command) (e : Engine M)
        → IsIn p e
        → (bs : List Bool) × (e' : Engine M) × (q : Phase) × (act_all cs e ≡ ok (bs, e'))
          × IsIn q e'
          × Walk p cs bs q
    unfolding act_all
    act_all_lem k p [] e h = ([], e, p, refl, h, stay p)
    act_all_lem k p (c ∷ cs) e h =
        let r = act_lem k p c e h in
        let (bs, e', q, returns, there, walk) = act_all_lem k r.q cs r.after r.there in
        (r.answer ∷ bs, e', q, rw (r.returns, returns) refl, there, move r.moves walk)
