-- ===== src/ApiCallQueue/Chain.antt =====
-- Chains of nodes in the store. A node is older than the ones behind it, so that its place in the
-- store is a lower one.
use cros.Common.{
  List, Option, [], ap, arith, get_elem?, get_elem?-set_self, length, length-append, none, refl,
  set, some, subst, suc, sym, zero, ℕ, ◌++◌, ◌<◌, ◌∙◌, ◌∷◌, ◌≡◌, ◌≢◌, ◌≤◌,
}
use cros.ApiCallQueue.{ApiCall, CallNode, CallQueue, Store}

-- From the node at i, which holds c, the calls cs follow; the last node is at t.
abbrev pub Chain : Store → ℕ → ApiCall → List ApiCall → ℕ → Type 0
Chain st i c [] t = (i ≡ t) × (get_elem? st i ≡ some (some (record { call = c; next = none })))
Chain st i c (d ∷ cs) t =
    (j : ℕ) × (i < j)
    × (get_elem? st i ≡ some (some (record { call = c; next = some j })))
    × Chain st j d cs t

-- A well-formed queue holds these calls, oldest first.
abbrev pub CallsHeld : Store → CallQueue → List ApiCall → Type 0
CallsHeld st q [] = (q.head ≡ none) × (q.tail ≡ none) × (q.call_count ≡ 0)
CallsHeld st q (c ∷ cs) =
    (i : ℕ) × (t : ℕ) × (q.head ≡ some i)
    × (q.tail ≡ some t)
    × (q.call_count ≡ length (c ∷ cs))
    × Chain st i c cs t

get_set_ne :
    (st : Store) (i j : ℕ) (v : Option CallNode) → i ≢ j → get_elem? (set st i v) j ≡ get_elem? st j
get_set_ne [] i j v h = refl
get_set_ne (x ∷ st) zero zero v h = absurd (h refl)
get_set_ne (x ∷ st) zero (suc j) v h = refl
get_set_ne (x ∷ st) (suc i) zero v h = refl
get_set_ne (x ∷ st) (suc i) (suc j) v h = get_set_ne st i j v (λ e. h (ap suc e))

get_inside : (st : Store) (i : ℕ) (n : Option CallNode) → get_elem? st i ≡ some n → i < length st
get_inside [] i n h = cc
get_inside (x ∷ st) zero n h = omega arith
get_inside (x ∷ st) (suc i) n h = omega (arith, get_inside st i n h)

get_append :
    (st : Store) (i : ℕ) (n : Option CallNode)
    → i < length st
    → get_elem? (st ++ (n ∷ [])) i ≡ get_elem? st i
get_append [] i n h = absurd (omega arith)
get_append (x ∷ st) zero n h = refl
get_append (x ∷ st) (suc i) n h = get_append st i n (omega arith)

pub get_new : (st : Store) (n : Option CallNode) → get_elem? (st ++ (n ∷ [])) (length st) ≡ some n
get_new [] n = refl
get_new (x ∷ st) n = get_new st n

pub Chain-order :
    (st : Store) (i : ℕ) (c : ApiCall) (cs : List ApiCall) (t : ℕ)
    → Chain st i c cs t
    → (i ≤ t) × (t < length st)
Chain-order st i c [] t h = (
  omega (arith, h.0),
  subst (λ k. k < length st) (h.0)
      (get_inside st i (some (record { call = c; next = none })) (h.1)),
)
Chain-order st i c (d ∷ cs) t (j, lower, here, rest) =
    let r = Chain-order st j d cs t rest in (omega (arith, r.0), r.1)

-- A write to a lower place leaves the chain.
pub Chain-set :
    (st : Store) (k i : ℕ) (v : Option CallNode) (c : ApiCall) (cs : List ApiCall) (t : ℕ)
    → k < i
    → Chain st i c cs t
    → Chain (set st k v) i c cs t
Chain-set st k i v c [] t below (e, here) = (e, get_set_ne st k i v (λ same. omega arith) ∙ here)
Chain-set st k i v c (d ∷ cs) t below (j, lower, here, rest) = (
  j,
  lower,
  get_set_ne st k i v (λ same. omega arith) ∙ here,
  Chain-set st k j v d cs t (omega arith) rest,
)

-- The node at the end of a chain.
pub last_call : ApiCall → List ApiCall → ApiCall
last_call c [] = c
last_call c (d ∷ cs) = last_call d cs

pub Chain-last :
    (st : Store) (i : ℕ) (c : ApiCall) (cs : List ApiCall) (t : ℕ)
    → Chain st i c cs t
    → get_elem? st t ≡ some (some (record { call = last_call c cs; next = none }))
unfolding last_call
Chain-last st i c [] t (e, here) =
    subst (λ k. get_elem? st k ≡ some (some (record { call = c; next = none }))) e here
Chain-last st i c (d ∷ cs) t (j, lower, here, rest) = Chain-last st j d cs t rest

pub get-new_node :
    (st : Store) (i : ℕ) (c : ApiCall) (cs : List ApiCall) (t : ℕ) (n : Option CallNode)
    → Chain st i c cs t
    → get_elem? (st ++ (n ∷ [])) t ≡ get_elem? st t
get-new_node st i c cs t n h = get_append st t n ((Chain-order st i c cs t h).1)

-- A new node linked behind the last one makes the chain longer.
pub Chain-link :
    (st : Store) (i : ℕ) (c : ApiCall) (cs : List ApiCall) (t : ℕ) (d : ApiCall)
    → Chain st i c cs t
    → Chain
        (set
          (st ++ (some (record { call = d; next = none }) ∷ []))
          t
          (some (record { call = last_call c cs; next = some (length st) })))
        i
        c
        (cs ++ (d ∷ []))
        (length st)
unfolding last_call
Chain-link st i c [] t d (e, here) =
    let inside : t < length st = (Chain-order st i c [] t (e, here)).1 in
    (
      length st,
      omega arith,
      subst
          (λ k.
            get_elem?
              (set (st ++ (some (record { call = d; next = none }) ∷ [])) t
                (some (record { call = c; next = some (length st) })))
              k
            ≡ some (some (record { call = c; next = some (length st) })))
          (sym e)
          (get_elem?-set_self (st ++ (some (record { call = d; next = none }) ∷ [])) t
            (some (record { call = c; next = some (length st) }))
            (omega (arith, length-append st (some (record { call = d; next = none }) ∷ [])))),
      (
        refl,
        get_set_ne (st ++ (some (record { call = d; next = none }) ∷ [])) t (length st)
              (some (record { call = c; next = some (length st) })) (λ same. omega arith)
            ∙ get_new st (some (record { call = d; next = none })),
      ),
    )
Chain-link st i c (x ∷ cs) t d (j, lower, here, rest) =
    let order = Chain-order st j x cs t rest in
    (
      j,
      lower,
      get_set_ne (st ++ (some (record { call = d; next = none }) ∷ [])) t i
            (some (record { call = last_call x cs; next = some (length st) }))
            (λ same. omega (arith, order.0))
          ∙ (get_append st i (some (record { call = d; next = none }))
                (omega (arith, order.0, order.1))
              ∙ here),
      Chain-link st j x cs t d rest,
    )
