-- ===== src/Rio/Stalled.antt =====
-- KanchoNet/Network/RIOModel.cpp: what Send and ProcessIO together make of the bytes that are queued.
use kancho_net.Common.{
  ℕ, ◌≡◌, ◌≢◌, refl, ap, sym, ◌∙◌, ◌⊎◌, inl, inr, Bool, false, List, [], ◌∷◌, ◌++◌, take, leb,
  append-nil, append_assoc,
}
use kancho_net.Packet.{Packet}
use kancho_net.Packet
use kancho_net.Packet.Contents
use kancho_net.Ring.{available_write}
use kancho_net.Ring.Bounds
use kancho_net.Ring.Contents.{contents}
use kancho_net.Session.{Session}
use kancho_net.Manager.{Manager, Address}
use kancho_net.Net.{Outcome, ok, fault}
use kancho_net.Host.{◌>>=◌, pure}
use kancho_net.Host.Queue.{taken}
use kancho_net.Host.Access.{Owns}
use kancho_net.Rio.State.{Rio, Run, Library}
use kancho_net.Rio.Post.{send}
use kancho_net.Rio.Io.{process_io}
use kancho_net.Rio.Sends.{send_only_queues}
use kancho_net.Rio.Quiet.{Idles-process_io}

-- What the application calls.
pub data Step : Type 0 where
  sends : Packet → Step
  polls : ℕ → Step

abbrev pub AreValid : List Step → Type 0
AreValid [] = Unit {0}
AreValid (sends packet ∷ l) =
    Contents.IsValid packet × (Packet.is_empty packet ≡ false) × AreValid l
AreValid (polls t ∷ l) = AreValid l

-- The bytes are still queued, and more behind them; nothing was closed or sent, and no request was made.
pub record Waits {K : Type 0} (p : Address) (x : Session) (s : Rio K)
    (r : Outcome (List Bool × Rio K)) : Type 0 where
  pub answers : List Bool
  pub y : Session
  pub n : Manager
  pub t : Rio K
  pub returns : r ≡ ok (answers, t)
  pub lives : Owns p y n t
  pub behind : List ℕ
  pub queued : contents y.send_buffer ≡ contents x.send_buffer ++ behind
  pub same_sending : y.is_sending ≡ x.is_sending
  pub same_log : t.log ≡ s.log
  pub same_handle : t.handle ≡ s.handle

module _ {K : Type 0} (library : Library K) where
  unfoldable pub act : Address → Step → Run K Bool
  act p (sends packet) = send p packet
  act p (polls t) = process_io library t

  unfoldable pub act_all : Address → List Step → Run K (List Bool)
  act_all p [] = pure []
  act_all p (c ∷ cs) = do b ← act p c; bs ← act_all p cs; pure (b ∷ bs)

  -- For a session of the manager, if there is one, as long as no request is under way: any calls of `Send` to
  -- it and of `ProcessIO` leave every byte that was queued in the queue, or one of them is undefined,
  -- since the functions of registered I/O are not loaded or a completion has a context that was never made.
  pub nothing_is_sent :
      {p : Address} (cs : List Step) (s : Rio K) {x : Session} {m : Manager}
      → Owns p x m s
      → p ≢ 0
      → x.locked ≡ false
      → Bounds.IsValid x.send_buffer
      → AreValid cs
      → s.handle.contexts ≡ []
      → (act_all p cs s ≡ fault) ⊎ Waits p x s (act_all p cs s)
  unfolding act_all act
  nothing_is_sent {p} [] s {x} {m} o ne free v valid none_made = inr (record {
    answers = [];
    y = x;
    n = m;
    t = s;
    returns = refl;
    lives = o;
    behind = [];
    queued = sym (append-nil _);
    same_sending = refl;
    same_log = refl;
    same_handle = refl;
  })
  nothing_is_sent {p} (sends packet ∷ cs) s {x} {m} o ne free v (pv, full, valid) none_made =
      let q = send_only_queues o ne free v pv full in
      elim (nothing_is_sent cs q.t q.lives ne q.unlocked q.sound valid
        (rw q.same_handle none_made)) [
          | inl wild ↦ inl (rw (q.returns, wild) refl)
          | inr w ↦ inr (record {
            answers = leb packet.size (available_write x.send_buffer) ∷ w.answers;
            y = w.y;
            n = w.n;
            t = w.t;
            returns = rw (q.returns, w.returns) refl;
            lives = w.lives;
            behind = take (taken x packet) (Contents.contents packet) ++ w.behind;
            queued =
                w.queued
                ∙ ap (λ l. l ++ w.behind) q.queued
                ∙ append_assoc (contents x.send_buffer) _ w.behind;
            same_sending = w.same_sending ∙ q.same_sending;
            same_log = w.same_log ∙ q.same_log;
            same_handle = w.same_handle ∙ q.same_handle;
          })
        ]
  nothing_is_sent {p} (polls t ∷ cs) s {x} {m} o ne free v valid none_made =
      elim (Idles-process_io library t s none_made) [
        | inl wild ↦ inl (rw wild refl)
        | inr (b, k, did) ↦
            let o' : Owns p x m (record s { kernel_state = k }) = record {
              managed_by = o.managed_by;
              apart = o.apart;
              entry = o.entry;
            } in
            elim (nothing_is_sent cs (record s { kernel_state = k }) o' ne free v valid none_made) [
              | inl wild ↦ inl (rw (did, wild) refl)
              | inr w ↦ inr (record {
                answers = b ∷ w.answers;
                y = w.y;
                n = w.n;
                t = w.t;
                returns = rw (did, w.returns) refl;
                lives = w.lives;
                behind = w.behind;
                queued = w.queued;
                same_sending = w.same_sending;
                same_log = w.same_log;
                same_handle = w.same_handle;
              })
            ]
      ]
