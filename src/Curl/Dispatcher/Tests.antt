-- ===== src/Curl/Dispatcher/Tests.antt =====
-- Runs of the dispatcher.
use haybarn_httpfs.Base.{ℕ, ◌≤◌, ◌<◌, ◌≡◌, refl, none, some, [], ◌∷◌, arith, ltb, bit, count}
use haybarn_httpfs.Curl.Dispatcher.{
  harvesting, exited, Dispatcher, start, submit, stop, turn, submitting, stopping_now, turning,
  Reaches, here, next,
}
use haybarn_httpfs.Curl.Dispatcher.Ledger.{held, signals, Reaches-signals}
use haybarn_httpfs.Curl.Dispatcher.Exits.{run, stopping-signals}

-- Two submissions: the first is added to the multi handle, the second comes while it runs.
busy : Dispatcher
unfolding submit turn
busy = (submit (turn none (turn none (turn none (submit start).0)))).0

busy-Reaches : Reaches start busy
unfolding busy
busy-Reaches =
    next
      (next (next (next (next here (submitting _)) (turning none _ tt)) (turning none _ tt))
        (turning none _ tt))
      (submitting _)

busy_state : (busy.in_flight ≡ 0 ∷ []) × (busy.submit_queue ≡ 1 ∷ []) × (busy.place ≡ harvesting)
unfolding busy
busy_state = (refl, refl, refl)

-- Curl reports the first with the result 0.
ended : Dispatcher
unfolding turn
ended = turn none (turn (some (0, 0)) busy)

ended-Reaches : Reaches start ended
unfolding ended busy count
ended-Reaches = next (next busy-Reaches (turning (some (0, 0)) _ (omega arith))) (turning none _ tt)

Reaches-signals_example :
    (signals 0 ended.signalled ≤ 1)
    × (0 < signals 0 ended.signalled
        → (0 < ended.submitted)
          × (count 0 ended.attached ≡ 0)
          × (count 0 ended.submit_queue ≡ 0)
          × (count 0 (held ended.place ended.in_flight) ≡ 0))
Reaches-signals_example = Reaches-signals ended 0 ended-Reaches

ended_signals : signals 0 ended.signalled ≡ 1
unfolding ended busy signals
ended_signals = refl

-- The destructor runs while the second transfer is in the queue.
closing : Dispatcher
unfolding stop
closing = stop ended

closing-Reaches : Reaches start closing
unfolding closing
closing-Reaches = next ended-Reaches (stopping_now _)

stopping-signals_example :
    (n : ℕ) × ((run n closing).place ≡ exited)
    × ((p : ℕ) → signals p (run n closing).signalled ≡ bit (ltb p closing.submitted))
stopping-signals_example = stopping-signals closing closing-Reaches (unfold closing in refl)
