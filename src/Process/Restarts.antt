-- ===== src/Process/Restarts.antt =====
-- What becomes of the bridge servers that the signal handler of nats-mq/main.go starts.
use nats_mq.Prelude.{
  ℕ, length, ◌+◌, ◌≡◌, refl, ap, ◌∙◌, true, false, List, [], ◌∷◌, none, inl, inr, Bool-cases, arith,
  if◌then◌else◌,
}
use nats_mq.Conf.{BridgeConfig}
use nats_mq.Float.{FloatOps}
use nats_mq.Bridge.Setup.{BridgeServer, StartAnswers, start_bridge, stop_bridge}
use nats_mq.Bridge.Release.{IsStarted, stop_reconnect_timer_lem, start_bridge-IsStarted}
use nats_mq.Bridge.Reconnect.{stop}
use nats_mq.Process.{
  new_server, Process, StopAnswers, Signal, interrupt, hup, on_signal, on_signals,
}

abbrev pub running_number : List BridgeServer → ℕ
running_number [] = 0
running_number (b ∷ bs) = let n = running_number bs in if b.core.running then n + 1 else n

module _ (f : FloatOps) where
  -- Every signal is a SIGHUP, and the Start in its handling returns no error.
  unfoldable pub AllRestart : List Signal → Type 0
  AllRestart [] = Unit
  AllRestart (interrupt s ∷ gs) = ⊥
  AllRestart (hup s config a ∷ gs) =
      ((start_bridge f a (new_server config)).0 ≡ none) × AllRestart gs

  hup_lem :
      (s : StopAnswers) (config : BridgeConfig) (a : StartAnswers) (p : Process)
      → p.exited ≡ false
      → (start_bridge f a (new_server config)).0 ≡ none
      → on_signal f (hup s config a) p ≡ record {
        server = stop_bridge s.services s.shutdown p.server;
        restarted = (start_bridge f a (new_server config)).1 ∷ p.restarted;
        exited = false;
      }
  unfolding on_signal
  hup_lem s config a p on e = rw (on, e) refl

  on_signals_lem :
      (gs : List Signal) (p : Process)
      → p.exited ≡ false
      → AllRestart gs
      → ((on_signals f gs p).exited ≡ false)
        × (running_number (on_signals f gs p).restarted ≡ length gs + running_number p.restarted)
  unfolding on_signals AllRestart
  on_signals_lem [] p on h = (on, omega arith)
  on_signals_lem (interrupt s ∷ gs) p on h = absurd h
  on_signals_lem (hup s config a ∷ gs) p on (e, h) =
      let q = start_bridge f a (new_server config) in
      let i : IsStarted a q.1 =
        start_bridge-IsStarted f a q.1 (new_server config) (ap (λ x. (x, q.1)) e) in
      let p' : Process = record {
        server = stop_bridge s.services s.shutdown p.server;
        restarted = q.1 ∷ p.restarted;
        exited = false;
      } in
      let (on', n) = on_signals_lem gs p' refl h in
      let one : running_number (q.1 ∷ p.restarted) ≡ running_number p.restarted + 1 =
        rw i.running refl in
      rw (on_signals, hup_lem s config a p on e) (on', n ∙ rw one (omega arith))

  stopped_lem :
      (s : StopAnswers) (b : BridgeServer)
      → (stop_bridge s.services s.shutdown b).core.running ≡ false
  unfolding stop_bridge stop
  stopped_lem s b = elim (Bool-cases (b.core.running)) [
    | inl on ↦ rw on ((stop_reconnect_timer_lem (record b.core { running = false })).0)
    | inr off ↦ rw off refl
  ]

  -- A process that has not exited handles SIGHUPs whose Starts return no error, and then an interrupt:
  -- it exits, its server variable is stopped, and none of the servers that the SIGHUPs started was
  -- ever stopped, so that as many run as there were SIGHUPs, beside those that ran before.
  pub restarted_servers_run :
      (gs : List Signal) (s : StopAnswers) (p : Process)
      → p.exited ≡ false
      → AllRestart gs
      → let p' = on_signal f (interrupt s) (on_signals f gs p) in
        (p'.exited ≡ true)
        × (p'.server.core.running ≡ false)
        × (running_number p'.restarted ≡ length gs + running_number p.restarted)
  unfolding on_signal
  restarted_servers_run gs s p on h =
      let (on', n) = on_signals_lem gs p on h in
      rw on' (refl, stopped_lem s (on_signals f gs p).server, n)
