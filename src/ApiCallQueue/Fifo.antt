-- ===== src/ApiCallQueue/Fifo.antt =====
-- Adding, taking and releasing calls.
use cros.Common.{
  Bool-cases, List, Option, [], add_size, ap, ap₂, arith, inl, inr, length, length-append,
  minus_one, none, pos, refl, set, some, sub_size, subst, suc, sym, true, ℕ, ℤ, ◌++◌, ◌<◌, ◌^◌, ◌∙◌,
  ◌∷◌, ◌≡◌, ◌⊎◌,
}
use cros.Mem.{Answers, Run, done, ◌>>=◌}
use cros.ApiCallQueue.{
  ApiCall, CallNode, CallQueue, Store, dequeue, enqueue, free_call, init_queue, link, release_nodes,
  release_queue,
}
use cros.ApiCallQueue.Chain.{
  CallsHeld, Chain, Chain-last, Chain-link, Chain-set, get-new_node, get_new, last_call,
}
use cros.XmlrpcParams.{Params}
use cros.XmlrpcParams.Valid.{AreParams}
use cros.XmlrpcParamVector.Valid.{VectorHolds, vector_release_lem}

-- The call is behind the others.
abbrev pub Enqueued : List ApiCall → ApiCall → Run (ℤ × Store × CallQueue) → Type 0
Enqueued cs d r =
    (st' : Store) × (q' : CallQueue) × (r ≡ done (pos 0, st', q'))
    × CallsHeld st' q' (cs ++ (d ∷ []))

abbrev pub EnqueueOutcome :
    Store → CallQueue → List ApiCall → ApiCall → Run (ℤ × Store × CallQueue) → Type 0
EnqueueOutcome st q cs d r = (r ≡ done (minus_one, st, q)) ⊎ Enqueued cs d r

abbrev node : ApiCall → Option CallNode
node d = some (record { call = d; next = none })

enqueue_empty :
    (a : Answers) (st : Store) (q : CallQueue) (d : ApiCall)
    → CallsHeld st q []
    → a 0 ≡ true
    → Enqueued [] d (enqueue a st q d)
unfolding enqueue
enqueue_empty a st q d (no_head, no_tail, zero_count) answer = (
  st ++ (node d ∷ []),
  record { head = some (length st); tail = some (length st); call_count = 1 },
  rw (enqueue, answer, no_head, zero_count),
  (length st, length st, refl, refl, refl, (refl, get_new st (node d))),
)

enqueue_more :
    (a : Answers) (st : Store) (h t : ℕ) (n : ℕ) (c : ApiCall) (cs : List ApiCall) (d : ApiCall)
    → n ≡ length (c ∷ cs)
    → Chain st h c cs t
    → length (c ∷ cs) < 2 ^ 63
    → a 0 ≡ true
    → Enqueued (c ∷ cs) d (enqueue a st (record { head = some h; tail = some t; call_count = n }) d)
unfolding enqueue link
enqueue_more a st h t n c cs d size chain few answer =
    let new_size : add_size n 1 ≡ length (c ∷ cs ++ (d ∷ [])) =
      omega (arith, length-append cs (d ∷ [])) in
    (
      set (st ++ (node d ∷ [])) t
          (some (record { call = last_call c cs; next = some (length st) })),
      record { head = some h; tail = some (length st); call_count = length (c ∷ cs ++ (d ∷ [])) },
      rw
          (
            enqueue,
            answer,
            get-new_node st h c cs t (node d) chain ∙ Chain-last st h c cs t chain,
            new_size,
          )
          refl,
      (h, length st, refl, refl, refl, Chain-link st h c cs t d chain),
    )

-- A queue is its three fields.
fields_are :
    (q : CallQueue) (h t : Option ℕ)
    → q.head ≡ h
    → q.tail ≡ t
    → q ≡ record { head = h; tail = t; call_count = q.call_count }
fields_are q h t e f =
    ap₂ (λ (x y : Option ℕ). record { head = x; tail = y; call_count = q.call_count }) e f

-- enqueueApiCall on a well-formed queue of fewer than 2 ^ 63 calls returns -1 and changes nothing, or
-- it returns 0 and the call stands behind the others.
pub enqueue-Enqueued :
    (a : Answers) (st : Store) (q : CallQueue) (cs : List ApiCall) (d : ApiCall)
    → CallsHeld st q cs
    → length cs < 2 ^ 63
    → EnqueueOutcome st q cs d (enqueue a st q d)
unfolding enqueue
enqueue-Enqueued a st q cs d held few = elim (Bool-cases (a 0)) [
  | inl answer ↦ inr (added cs held few answer)
  | inr answer ↦ inl (rw (enqueue, answer))
]
  where
    added :
        (cs : List ApiCall)
        → CallsHeld st q cs
        → length cs < 2 ^ 63
        → a 0 ≡ true
        → Enqueued cs d (enqueue a st q d)
    added [] held few answer = enqueue_empty a st q d held answer
    added (c ∷ cs) (i, t, head, tail, size, chain) few answer =
        subst (λ z. Enqueued (c ∷ cs) d (enqueue a st z d))
          (sym (fields_are q (some i) (some t) head tail))
          (enqueue_more a st i t q.call_count c cs d size chain few answer)

-- The oldest call leaves the queue.
abbrev pub Dequeued : List ApiCall → ApiCall → Run (ApiCall × Store × CallQueue) → Type 0
Dequeued cs c r = (st' : Store) × (q' : CallQueue) × (r ≡ done (c, st', q')) × CallsHeld st' q' cs

dequeue_at :
    (st : Store) (h t n : ℕ) (c : ApiCall) (cs : List ApiCall)
    → n ≡ length (c ∷ cs)
    → n < 2 ^ 64
    → Chain st h c cs t
    → Dequeued cs c (dequeue st (record { head = some h; tail = some t; call_count = n }))
unfolding dequeue
dequeue_at st h t n c [] size few (e, here) =
    let none_left : sub_size n 1 ≡ 0 = omega arith in
    (
      set st h none,
      record { head = none; tail = none; call_count = 0 },
      rw (here, none_left) refl,
      (refl, refl, refl),
    )
dequeue_at st h t n c (d ∷ cs) size few (j, lower, here, rest) =
    let left : sub_size n 1 ≡ length (d ∷ cs) = omega arith in
    (
      set st h none,
      record { head = some j; tail = some t; call_count = length (d ∷ cs) },
      rw (here, left) refl,
      (j, t, refl, refl, refl, Chain-set st h j none d cs t lower rest),
    )

-- dequeueApiCall on a well-formed queue that is not empty and holds fewer than 2 ^ 64 calls
-- returns the oldest call, and the queue holds the others in their order.
pub dequeue-Dequeued :
    (st : Store) (q : CallQueue) (c : ApiCall) (cs : List ApiCall)
    → CallsHeld st q (c ∷ cs)
    → length (c ∷ cs) < 2 ^ 64
    → Dequeued cs c (dequeue st q)
dequeue-Dequeued st q c cs (i, t, head, tail, size, chain) few =
    subst (λ z. Dequeued cs c (dequeue st z)) (sym (fields_are q (some i) (some t) head tail))
      (dequeue_at st i t q.call_count c cs size (omega arith) chain)

-- The parameters of every call can be released.
abbrev pub AllReleasable : List ApiCall → Type 0
AllReleasable [] = Unit {0}
AllReleasable (c ∷ cs) = ((ps : Params) × VectorHolds c.params ps × AreParams ps) × AllReleasable cs

free_call-done :
    (c : ApiCall) (ps : Params) → VectorHolds c.params ps → AreParams ps → free_call c ≡ done tt
unfolding free_call
free_call-done c ps h ok =
    let (v', returns, empty, again) = vector_release_lem c.params ps h ok in rw returns

release-Chain :
    (st : Store) (i : ℕ) (c : ApiCall) (cs : List ApiCall) (t : ℕ)
    → Chain st i c cs t
    → AllReleasable (c ∷ cs)
    → (st' : Store) × (release_nodes (suc (length (c ∷ cs))) st (some i) ≡ done st')
unfolding release_nodes
release-Chain st i c [] t (e, here) ((ps, h, ok), others) =
    (set st i none, rw (release_nodes, here, free_call-done c ps h ok))
release-Chain st i c (d ∷ cs) t (j, lower, here, rest) ((ps, h, ok), others) =
    let (st', returns) =
      release-Chain (set st i none) j d cs t (Chain-set st i j none d cs t lower rest) others in
    (st', rw (release_nodes, here, free_call-done c ps h ok) returns)

-- releaseApiCallQueue of a well-formed queue whose calls can be released ends, with no node and
-- no parameter freed twice, and leaves an empty queue.
pub release_queue-CallsHeld :
    (st : Store) (q : CallQueue) (cs : List ApiCall)
    → CallsHeld st q cs
    → AllReleasable cs
    → (st' : Store) × (q' : CallQueue) × (release_queue st q ≡ done (st', q')) × CallsHeld st' q' []
unfolding release_queue release_nodes init_queue
release_queue-CallsHeld st q [] (no_head, no_tail, zero_count) ok =
    (st, init_queue, rw no_head, (refl, refl, refl))
release_queue-CallsHeld st q (c ∷ cs) (i, t, head, tail, size, chain) ok =
    let (st', returns) = release-Chain st i c cs t chain ok in
    (
      st',
      init_queue,
      ap₂ (λ (k : ℕ) (p : Option ℕ). release_nodes (suc k) st p >>= λ z. done (z, init_queue)) size
            head
          ∙ ap (λ (r : Run Store). r >>= λ z. done (z, init_queue)) returns,
      (refl, refl, refl),
    )
