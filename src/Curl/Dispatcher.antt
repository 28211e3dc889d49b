-- ===== src/Curl/Dispatcher.antt =====
-- The dispatcher of the curl_multi handle (httpfs_curl_multi_dispatcher.cpp): workers submit transfers
-- and wait, one thread runs them. A PendingTransfer is the number of its submission, and stands for its
-- easy handle too. Each function is what one thread does in a piece without another's interference:
-- under the lock of the queue, or on what the dispatcher's thread has for itself.
mod Ledger
mod Exits
mod Tests
use haybarn_httpfs.Base.{
  ℕ, ◌+◌, ◌<◌, Bool, true, false, Option, none, some, List, [], ◌∷◌, ◌++◌, if◌then◌else◌, count,
  remove,
}

-- Where the dispatcher's thread stands.
pub data Place : Type 0 where
  -- The test of `stopping`.
  at_head : Place
  -- The loop over `to_add`.
  adding : List ℕ → Place
  -- The loop over curl_multi_info_read.
  harvesting : Place
  -- A transfer taken out, with its result, before it is signalled.
  signalling : ℕ → ℕ → Place
  -- The two loops of FailAllPending.
  failing_queued failing_in_flight : List ℕ → Place
  exited : Place

-- `attached` are the handles in the multi handle, `signalled` the transfers that are done, with their
-- results, and `submitted` counts the submissions that were accepted.
pub record Dispatcher : Type 0 where
  pub stopping : Bool
  pub rejecting : Bool
  pub submit_queue : List ℕ
  pub in_flight : List ℕ
  pub place : Place
  pub attached : List ℕ
  pub signalled : List (ℕ × ℕ)
  pub submitted : ℕ

abbrev pub aborted_by_callback : ℕ
aborted_by_callback = 42

abbrev pub start : Dispatcher
start = record {
  stopping = false;
  rejecting = false;
  submit_queue = [];
  in_flight = [];
  place = at_head;
  attached = [];
  signalled = [];
  submitted = 0;
}

-- Submit up to the wait: the transfer to wait for, or none for CURLE_ABORTED_BY_CALLBACK.
unfoldable pub submit : Dispatcher → Dispatcher × Option ℕ
submit d = if d.rejecting then (d, none) else (
  record d { submit_queue = d.submit_queue ++ d.submitted ∷ []; submitted = d.submitted + 1 },
  some d.submitted,
)

-- The destructor up to the join.
unfoldable pub stop : Dispatcher → Dispatcher
stop d = record d { rejecting = true; stopping = true }

unfoldable pub signal_pending : ℕ → ℕ → Dispatcher → Dispatcher
signal_pending pending result d = record d { signalled = (pending, result) ∷ d.signalled }

-- Loop and LoopOnce up to the swap of the queue, or FailAllPending up to it.
unfoldable pub take_queue : Dispatcher → Dispatcher
take_queue d =
    let queued = d.submit_queue in
    if d.stopping
    then record d { submit_queue = []; place = failing_queued queued }
    else record d { submit_queue = []; place = adding queued }

-- One round of the loop over `to_add`, or what follows it.
unfoldable pub add_next : List ℕ → Dispatcher → Dispatcher
add_next [] d = record d { place = harvesting }
add_next (pending ∷ to_add) d = record d {
  attached = d.attached ++ pending ∷ [];
  in_flight = d.in_flight ++ pending ∷ [];
  place = adding to_add;
}

-- The answer of curl_multi_info_read: none when there is no message left, and then the poll.
unfoldable pub take_message : Option (ℕ × ℕ) → Dispatcher → Dispatcher
unfolding remove
take_message none d = record d { place = at_head }
take_message (some (pending, result)) d = record d {
  attached = remove pending d.attached;
  in_flight = remove pending d.in_flight;
  place = signalling pending result;
}

unfoldable pub fail_queued : List ℕ → Dispatcher → Dispatcher
unfolding signal_pending
fail_queued [] d = record d { place = failing_in_flight d.in_flight }
fail_queued (pending ∷ queued) d =
    signal_pending pending aborted_by_callback (record d { place = failing_queued queued })

unfoldable pub fail_in_flight : List ℕ → Dispatcher → Dispatcher
unfolding signal_pending remove
fail_in_flight [] d = record d { in_flight = []; place = exited }
fail_in_flight (pending ∷ rest) d =
    signal_pending pending aborted_by_callback
      (record d { attached = remove pending d.attached; place = failing_in_flight rest })

unfoldable pub advance : Place → Option (ℕ × ℕ) → Dispatcher → Dispatcher
unfolding take_queue add_next take_message fail_queued fail_in_flight signal_pending
advance at_head message d = take_queue d
advance (adding to_add) message d = add_next to_add d
advance harvesting message d = take_message message d
advance (signalling pending result) message d =
    signal_pending pending result (record d { place = harvesting })
advance (failing_queued queued) message d = fail_queued queued d
advance (failing_in_flight rest) message d = fail_in_flight rest d
advance exited message d = d

-- The dispatcher's thread goes on, with the message that curl_multi_info_read gives if it is called.
unfoldable pub turn : Option (ℕ × ℕ) → Dispatcher → Dispatcher
unfolding advance
turn message d = advance d.place message d

-- Curl reports only on handles that are in the multi handle.
abbrev pub IsOffered : Option (ℕ × ℕ) → Dispatcher → Type 0
IsOffered none d = Unit
IsOffered (some (pending, result)) d = 0 < count pending d.attached

pub data Step : Dispatcher → Dispatcher → Type 0 where
  submitting : (d : Dispatcher) → Step d (submit d).0
  stopping_now : (d : Dispatcher) → Step d (stop d)
  turning :
      (message : Option (ℕ × ℕ)) (d : Dispatcher) → IsOffered message d → Step d (turn message d)

pub data Reaches (d : Dispatcher) : Dispatcher → Type 0 where
  here : Reaches d d
  next : {e f : Dispatcher} → Reaches d e → Step e f → Reaches d f
