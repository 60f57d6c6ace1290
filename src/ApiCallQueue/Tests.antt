-- ===== src/ApiCallQueue/Tests.antt =====
-- A queue of two calls.
use cros.Common.{List, [], arith, minus_one, none, pos, refl, some, ℤ, ◌∷◌, ◌≡◌}
use cros.Mem.{done, plenty}
use cros.XmlrpcParams.{no_params}
use cros.ApiCallQueue.{ApiCall, CallQueue, Store, dequeue, enqueue, release_queue}
use cros.ApiCallQueue.Chain.{CallsHeld}
use cros.ApiCallQueue.Fifo.{
  AllReleasable, Dequeued, EnqueueOutcome, dequeue-Dequeued, enqueue-Enqueued,
  release_queue-CallsHeld,
}

abbrev call_with : ℤ → ApiCall
call_with id = record {
  id = id;
  user_call = pos 0;
  method = none;
  params = record { block = none; size = 0; max = 0 };
  host = none;
  port = minus_one;
  provider_idx = minus_one;
  result_callback = none;
  context_data = none;
  fetch_result_callback = none;
  free_result_callback = none;
}

-- The place 0 was freed.
abbrev two_nodes : Store
two_nodes =
    none
    ∷ some (record { call = call_with (pos 7); next = some 2 })
    ∷ some (record { call = call_with (pos 8); next = none })
    ∷ []

abbrev two_calls : CallQueue
two_calls = record { head = some 1; tail = some 2; call_count = 2 }

abbrev sevens_eights : List ApiCall
sevens_eights = call_with (pos 7) ∷ call_with (pos 8) ∷ []

two_calls-CallsHeld : CallsHeld two_nodes two_calls sevens_eights
two_calls-CallsHeld = (1, 2, refl, refl, refl, (2, omega arith, refl, (refl, refl)))

all_releasable : AllReleasable sevens_eights
all_releasable = (
  (no_params, record { size_eq = refl; storage = refl }, tt),
  ((no_params, record { size_eq = refl; storage = refl }, tt), tt),
)

enqueue-Enqueued_example :
    EnqueueOutcome two_nodes two_calls sevens_eights
      (call_with (pos 9))
      (enqueue plenty two_nodes two_calls (call_with (pos 9)))
enqueue-Enqueued_example =
    enqueue-Enqueued plenty two_nodes two_calls sevens_eights (call_with (pos 9))
      two_calls-CallsHeld (omega arith)

dequeue-Dequeued_example :
    Dequeued (call_with (pos 8) ∷ []) (call_with (pos 7)) (dequeue two_nodes two_calls)
dequeue-Dequeued_example =
    dequeue-Dequeued two_nodes two_calls (call_with (pos 7)) (call_with (pos 8) ∷ [])
      two_calls-CallsHeld (omega arith)

release_queue-CallsHeld_example :
    (st' : Store) × (q' : CallQueue) × (release_queue two_nodes two_calls ≡ done (st', q'))
    × CallsHeld st' q' []
release_queue-CallsHeld_example =
    release_queue-CallsHeld two_nodes two_calls sevens_eights two_calls-CallsHeld all_releasable
