-- ===== src/Curl/Dispatcher/Exits.antt =====
-- The end of the dispatcher's thread.
use mathlib.Core.Path.{subst}
use haybarn_httpfs.Base.{
  ℕ, zero, suc, ◌≡◌, refl, sym, ap, ◌∙◌, true, none, List, [], ◌∷◌, ◌++◌, arith, ltb, bit, count,
  remove,
}
use haybarn_httpfs.Curl.Dispatcher.{
  Place, at_head, adding, harvesting, signalling, failing_queued, failing_in_flight, exited,
  Dispatcher, aborted_by_callback, start, signal_pending, take_queue, add_next, take_message,
  fail_queued, fail_in_flight, advance, turn, turning, Reaches, next,
}
use haybarn_httpfs.Curl.Dispatcher.Ledger.{held, signals, IsKept, Reaches-IsKept}

-- The thread alone, with no message from curl.
pub run : ℕ → Dispatcher → Dispatcher
run zero d = d
run (suc n) d = run n (turn none d)

abbrev Exits : Dispatcher → Type 0
Exits d = (n : ℕ) × ((run n d).place ≡ exited)

later : (d : Dispatcher) → Exits (turn none d) → Exits d
unfolding run
later d (n, e) = (suc n, e)

Exits-in_flight :
    (rest : List ℕ) (d : Dispatcher) → Exits (record d { place = failing_in_flight rest })
unfolding turn fail_in_flight run
Exits-in_flight [] d = (1, refl)
Exits-in_flight (pending ∷ rest) d = later _ (
    Exits-in_flight rest (
      signal_pending pending aborted_by_callback
        (record d { attached = remove pending d.attached })))

Exits-queued :
    (queued : List ℕ) (d : Dispatcher) → Exits (record d { place = failing_queued queued })
unfolding turn fail_queued signal_pending
Exits-queued [] d = later _ (Exits-in_flight d.in_flight d)
Exits-queued (pending ∷ queued) d =
    later _ (Exits-queued queued (signal_pending pending aborted_by_callback d))

Exits-head : (d : Dispatcher) → d.stopping ≡ true → Exits (record d { place = at_head })
unfolding turn take_queue
Exits-head d stopped =
    let taken : turn none (record d { place = at_head })
        ≡ record d { submit_queue = []; place = failing_queued d.submit_queue } =
      ground (arith, stopped) in
    later _ (subst Exits (sym taken) (Exits-queued d.submit_queue (record d { submit_queue = [] })))

Exits-harvesting : (d : Dispatcher) → d.stopping ≡ true → Exits (record d { place = harvesting })
unfolding turn take_message
Exits-harvesting d stopped = later _ (Exits-head d stopped)

Exits-adding :
    (to_add : List ℕ) (d : Dispatcher)
    → d.stopping ≡ true
    → Exits (record d { place = adding to_add })
unfolding turn add_next
Exits-adding [] d stopped = later _ (Exits-harvesting d stopped)
Exits-adding (pending ∷ to_add) d stopped = later _ (
    Exits-adding to_add
      (record d { attached = d.attached ++ pending ∷ []; in_flight = d.in_flight ++ pending ∷ [] })
      stopped)

Exits-at : (place : Place) (d : Dispatcher) → d.stopping ≡ true → Exits (record d { place = place })
unfolding turn run signal_pending
Exits-at at_head d stopped = Exits-head d stopped
Exits-at (adding to_add) d stopped = Exits-adding to_add d stopped
Exits-at harvesting d stopped = Exits-harvesting d stopped
Exits-at (signalling pending result) d stopped =
    later _ (Exits-harvesting (signal_pending pending result d) stopped)
Exits-at (failing_queued queued) d stopped = Exits-queued queued d
Exits-at (failing_in_flight rest) d stopped = Exits-in_flight rest d
Exits-at exited d stopped = (0, refl)

run-Reaches : (n : ℕ) {d : Dispatcher} → Reaches start d → Reaches start (run n d)
unfolding run
run-Reaches zero r = r
run-Reaches (suc n) {d} r = run-Reaches n (next r (turning none d tt))

advance-submitted :
    (place : Place) (d : Dispatcher) → (advance place none d).submitted ≡ d.submitted
unfolding advance
advance-submitted at_head d = unfold take_queue in ground arith
advance-submitted (adding []) d = refl
advance-submitted (adding (pending ∷ to_add)) d = refl
advance-submitted harvesting d = refl
advance-submitted (signalling pending result) d = refl
advance-submitted (failing_queued []) d = refl
advance-submitted (failing_queued (pending ∷ queued)) d = refl
advance-submitted (failing_in_flight []) d = refl
advance-submitted (failing_in_flight (pending ∷ rest)) d = refl
advance-submitted exited d = refl

run-submitted : (n : ℕ) (d : Dispatcher) → (run n d).submitted ≡ d.submitted
unfolding run turn
run-submitted zero d = refl
run-submitted (suc n) d = run-submitted n (turn none d) ∙ advance-submitted d.place d

exited-signals :
    {d : Dispatcher} (p : ℕ)
    → IsKept d
    → d.place ≡ exited
    → signals p d.signalled ≡ bit (ltb p d.submitted)
unfolding count
exited-signals {d} p v e =
    let empty = v.closing_empty (rw e refl) in
    let nothing_held : held d.place d.in_flight ≡ [] = rw e refl in
    ground (arith, v.once p, empty, nothing_held)

-- From every state that can be reached, once the destructor has set `stopping`: the dispatcher's thread
-- comes to its end in some number of its own rounds, even if curl reports nothing, and then every
-- transfer that was accepted has been signalled exactly once, so that no worker waits for ever.
pub stopping-signals :
    (d : Dispatcher)
    → Reaches start d
    → d.stopping ≡ true
    → (n : ℕ) × ((run n d).place ≡ exited)
      × ((p : ℕ) → signals p (run n d).signalled ≡ bit (ltb p d.submitted))
stopping-signals d r stopped =
    let (n, e) = Exits-at d.place d stopped in
    (
      n,
      e,
      λ p.
          exited-signals p (Reaches-IsKept (run-Reaches n r)) e
          ∙ ap (λ m. bit (ltb p m)) (run-submitted n d),
    )
