-- ===== src/Curl/Dispatcher/Ledger.antt =====
-- Where a transfer is, at any time.
use mathlib.Core.Path.{subst}
use haybarn_httpfs.Base.{
  ℕ, ◌+◌, ◌≤◌, ◌<◌, ◌≡◌, refl, sym, inl, inr, Bool, true, false, Option, none, some, List, [], ◌∷◌,
  ◌++◌, arith, ltb, ◌==◌, Bool-cases, bit, count, count-append, count-remove,
}
use haybarn_httpfs.Curl.Dispatcher.{
  Place, at_head, adding, harvesting, signalling, failing_queued, failing_in_flight, exited,
  Dispatcher, start, submit, stop, signal_pending, take_queue, add_next, take_message, fail_queued,
  fail_in_flight, advance, turn, IsOffered, Step, submitting, stopping_now, turning, Reaches, here,
  next,
}

-- What the thread has for itself, wherever it stands.
abbrev pub held : Place → List ℕ → List ℕ
held at_head flying = flying
held (adding to_add) flying = to_add ++ flying
held harvesting flying = flying
held (signalling pending result) flying = pending ∷ flying
held (failing_queued queued) flying = queued ++ flying
held (failing_in_flight rest) flying = rest
held exited flying = []

-- The handles that should be in the multi handle.
abbrev pub flying : Place → List ℕ → List ℕ
flying (failing_in_flight rest) in_flight = rest
flying exited in_flight = []
flying at_head in_flight = in_flight
flying (adding to_add) in_flight = in_flight
flying harvesting in_flight = in_flight
flying (signalling pending result) in_flight = in_flight
flying (failing_queued queued) in_flight = in_flight

abbrev pub is_closing : Place → Bool
is_closing (failing_queued queued) = true
is_closing (failing_in_flight rest) = true
is_closing exited = true
is_closing at_head = false
is_closing (adding to_add) = false
is_closing harvesting = false
is_closing (signalling pending result) = false

-- How often a transfer was signalled.
unfoldable pub signals : ℕ → List (ℕ × ℕ) → ℕ
signals p [] = 0
signals p ((q, result) ∷ log) = bit (p == q) + signals p log

flying-le-held :
    (p : ℕ) (place : Place) (in_flight : List ℕ)
    → count p (flying place in_flight) ≤ count p (held place in_flight)
unfolding count
flying-le-held p at_head l = omega arith
flying-le-held p (adding to_add) l = omega (arith, count-append p to_add l)
flying-le-held p harvesting l = omega arith
flying-le-held p (signalling pending result) l = omega arith
flying-le-held p (failing_queued queued) l = omega (arith, count-append p queued l)
flying-le-held p (failing_in_flight rest) l = omega arith
flying-le-held p exited l = omega arith

-- Every transfer that was accepted is in one place: in the queue, with the thread, or signalled.
pub record IsKept (d : Dispatcher) : Type 0 where
  pub once :
      (p : ℕ)
      → count p d.submit_queue + count p (held d.place d.in_flight) + signals p d.signalled
        ≡ bit (ltb p d.submitted)
  pub attached_once : (p : ℕ) → count p d.attached ≡ count p (flying d.place d.in_flight)
  pub rejects : d.stopping ≡ true → d.rejecting ≡ true
  pub closing_rejects : is_closing d.place ≡ true → d.rejecting ≡ true
  pub closing_empty : is_closing d.place ≡ true → d.submit_queue ≡ []
  pub closing_stops : is_closing d.place ≡ true → d.stopping ≡ true

submit-IsKept : (d : Dispatcher) → IsKept d → IsKept (submit d).0
unfolding submit count
submit-IsKept d v = elim (Bool-cases d.rejecting) [
  | inl closed ↦
      let same : (submit d).0 ≡ d = ground (arith, closed) in subst (λ e. IsKept e) (sym same) v
  | inr accepting ↦
      let d' = record d {
        submit_queue = d.submit_queue ++ d.submitted ∷ [];
        submitted = d.submitted + 1;
      } in
      let longer : (submit d).0 ≡ d' = ground (arith, accepting) in
      subst (λ e. IsKept e) (sym longer)
        (record {
          once = λ p. ground (arith, v.once p, count-append p d.submit_queue (d.submitted ∷ []));
          attached_once = v.attached_once;
          rejects = v.rejects;
          closing_rejects = v.closing_rejects;
          closing_empty = λ h. absurd (ground (arith, v.closing_rejects h));
          closing_stops = v.closing_stops;
        })
]

stop-IsKept : (d : Dispatcher) → IsKept d → IsKept (stop d)
unfolding stop
stop-IsKept d v = record {
  once = v.once;
  attached_once = v.attached_once;
  rejects = λ h. refl;
  closing_rejects = λ h. refl;
  closing_empty = v.closing_empty;
  closing_stops = λ h. refl;
}

module _ (d : Dispatcher) where
  take_queue-IsKept : IsKept (record d { place = at_head }) → IsKept (take_queue d)
  unfolding take_queue count
  take_queue-IsKept v = elim (Bool-cases d.stopping) [
    | inl stopped ↦
        let d' = record d { submit_queue = []; place = failing_queued d.submit_queue } in
        let taken : take_queue d ≡ d' = ground (arith, stopped) in
        subst (λ e. IsKept e) (sym taken)
          (record {
            once = λ p. omega (arith, v.once p, count-append p d.submit_queue d.in_flight);
            attached_once = v.attached_once;
            rejects = v.rejects;
            closing_rejects = λ h. v.rejects stopped;
            closing_empty = λ h. refl;
            closing_stops = λ h. stopped;
          })
    | inr running ↦
        let d' = record d { submit_queue = []; place = adding d.submit_queue } in
        let taken : take_queue d ≡ d' = ground (arith, running) in
        subst (λ e. IsKept e) (sym taken)
          (record {
            once = λ p. omega (arith, v.once p, count-append p d.submit_queue d.in_flight);
            attached_once = v.attached_once;
            rejects = v.rejects;
            closing_rejects = λ h. cc;
            closing_empty = λ h. cc;
            closing_stops = λ h. cc;
          })
  ]

  add_next-IsKept :
      (to_add : List ℕ)
      → IsKept (record d { place = adding to_add })
      → IsKept (add_next to_add (record d { place = adding to_add }))
  unfolding add_next count
  add_next-IsKept [] v = record {
    once = v.once;
    attached_once = v.attached_once;
    rejects = v.rejects;
    closing_rejects = λ h. cc;
    closing_empty = λ h. cc;
    closing_stops = λ h. cc;
  }
  add_next-IsKept (pending ∷ to_add) v = record {
    once = λ p. omega (
      arith,
      v.once p,
      count-append p to_add d.in_flight,
      count-append p to_add (d.in_flight ++ pending ∷ []),
      count-append p d.in_flight (pending ∷ []),
    );
    attached_once = λ p. omega (
      arith,
      v.attached_once p,
      count-append p d.attached (pending ∷ []),
      count-append p d.in_flight (pending ∷ []),
    );
    rejects = v.rejects;
    closing_rejects = λ h. cc;
    closing_empty = λ h. cc;
    closing_stops = λ h. cc;
  }

  take_message-IsKept :
      (message : Option (ℕ × ℕ))
      → IsOffered message (record d { place = harvesting })
      → IsKept (record d { place = harvesting })
      → IsKept (take_message message (record d { place = harvesting }))
  unfolding take_message count
  take_message-IsKept none o v = record {
    once = v.once;
    attached_once = v.attached_once;
    rejects = v.rejects;
    closing_rejects = λ h. cc;
    closing_empty = λ h. cc;
    closing_stops = λ h. cc;
  }
  take_message-IsKept (some (pending, result)) o v =
      let flies : 0 < count pending d.in_flight = omega (arith, v.attached_once pending) in
      record {
        once = λ p. omega (arith, v.once p, count-remove p pending d.in_flight flies);
        attached_once = λ p. omega (
          arith,
          v.attached_once p,
          count-remove p pending d.in_flight flies,
          count-remove p pending d.attached o,
        );
        rejects = v.rejects;
        closing_rejects = λ h. cc;
        closing_empty = λ h. cc;
        closing_stops = λ h. cc;
      }

  signalled-IsKept :
      (pending result : ℕ)
      → IsKept (record d { place = signalling pending result })
      → IsKept (signal_pending pending result (record d { place = harvesting }))
  unfolding signal_pending count signals
  signalled-IsKept pending result v = record {
    once = λ p. omega (arith, v.once p);
    attached_once = v.attached_once;
    rejects = v.rejects;
    closing_rejects = λ h. cc;
    closing_empty = λ h. cc;
    closing_stops = λ h. cc;
  }

  fail_queued-IsKept :
      (queued : List ℕ)
      → IsKept (record d { place = failing_queued queued })
      → IsKept (fail_queued queued (record d { place = failing_queued queued }))
  unfolding fail_queued count signals
  fail_queued-IsKept [] v = record {
    once = v.once;
    attached_once = v.attached_once;
    rejects = v.rejects;
    closing_rejects = v.closing_rejects;
    closing_empty = v.closing_empty;
    closing_stops = v.closing_stops;
  }
  fail_queued-IsKept (pending ∷ queued) v = record {
    once = λ p. omega (arith, v.once p);
    attached_once = v.attached_once;
    rejects = v.rejects;
    closing_rejects = v.closing_rejects;
    closing_empty = v.closing_empty;
    closing_stops = v.closing_stops;
  }

  fail_in_flight-IsKept :
      (rest : List ℕ)
      → IsKept (record d { place = failing_in_flight rest })
      → IsKept (fail_in_flight rest (record d { place = failing_in_flight rest }))
  unfolding fail_in_flight count signals
  fail_in_flight-IsKept [] v = record {
    once = v.once;
    attached_once = v.attached_once;
    rejects = v.rejects;
    closing_rejects = v.closing_rejects;
    closing_empty = v.closing_empty;
    closing_stops = v.closing_stops;
  }
  fail_in_flight-IsKept (pending ∷ rest) v =
      let flies : 0 < count pending d.attached = ground (arith, v.attached_once pending) in
      record {
        once = λ p. omega (arith, v.once p);
        attached_once =
            λ p. omega (arith, v.attached_once p, count-remove p pending d.attached flies);
        rejects = v.rejects;
        closing_rejects = v.closing_rejects;
        closing_empty = v.closing_empty;
        closing_stops = v.closing_stops;
      }

  advance-IsKept :
      (place : Place) (message : Option (ℕ × ℕ))
      → IsOffered message (record d { place = place })
      → IsKept (record d { place = place })
      → IsKept (advance place message (record d { place = place }))
  unfolding advance
  advance-IsKept at_head message o v = unfold take_queue in take_queue-IsKept v
  advance-IsKept (adding to_add) message o v = add_next-IsKept to_add v
  advance-IsKept harvesting message o v = take_message-IsKept message o v
  advance-IsKept (signalling pending result) message o v = signalled-IsKept pending result v
  advance-IsKept (failing_queued queued) message o v = fail_queued-IsKept queued v
  advance-IsKept (failing_in_flight rest) message o v = fail_in_flight-IsKept rest v
  advance-IsKept exited message o v = v

pub turn-IsKept :
    (message : Option (ℕ × ℕ)) (d : Dispatcher)
    → IsOffered message d
    → IsKept d
    → IsKept (turn message d)
unfolding turn
turn-IsKept message d o v = advance-IsKept d d.place message o v

Step-IsKept : {d e : Dispatcher} → Step d e → IsKept d → IsKept e
Step-IsKept (submitting d) v = submit-IsKept d v
Step-IsKept (stopping_now d) v = stop-IsKept d v
Step-IsKept (turning message d o) v = turn-IsKept message d o v

start-IsKept : IsKept start
unfolding count signals
start-IsKept = record {
  once = λ p. ground arith;
  attached_once = λ p. refl;
  rejects = λ h. cc;
  closing_rejects = λ h. cc;
  closing_empty = λ h. cc;
  closing_stops = λ h. cc;
}

pub Reaches-IsKept : {d : Dispatcher} → Reaches start d → IsKept d
Reaches-IsKept here = start-IsKept
Reaches-IsKept (next r st) = Step-IsKept st (Reaches-IsKept r)

-- At any time, whatever the workers and the dispatcher's thread did and in whatever order: a transfer is
-- signalled at most once, and only when it was submitted and accepted, and while its worker may use
-- its handle again, the handle is not in the multi handle, the transfer not in the queue and not in
-- what the thread still goes through.
pub Reaches-signals :
    (d : Dispatcher) (p : ℕ)
    → Reaches start d
    → (signals p d.signalled ≤ 1)
      × (0 < signals p d.signalled
          → (p < d.submitted)
            × (count p d.attached ≡ 0)
            × (count p d.submit_queue ≡ 0)
            × (count p (held d.place d.in_flight) ≡ 0))
Reaches-signals d p r =
    let v = Reaches-IsKept r in
    let once = v.once p in
    let flies = v.attached_once p in
    let in_held = flying-le-held p d.place d.in_flight in
    (ground arith, λ h. (ground arith, ground arith, ground arith, ground arith))
