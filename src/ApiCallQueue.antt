-- ===== src/ApiCallQueue.antt =====
-- src/cros_api_call.c and include/cros_api_call.h: calls to the ROS API, and the linked list in which
-- they wait. The nodes stand in a store: a pointer to one is its place there, malloc takes a place
-- that was never used, and a freed node is `none`.
pub mod Chain
pub mod Fifo
mod Tests
use cros.Common.{
  Bool, List, Option, [], add_size, false, get_elem?, length, minus_one, none, pos, set, some,
  sub_size, suc, true, zero, ℕ, ℤ, ◌++◌, ◌==◌, ◌∷◌,
}
use cros.Mem.{Answers, Run, done, fault, later, no_fuel, ◌>>=◌}
use cros.XmlrpcParams.{Text}
use cros.XmlrpcParamVector.{ParamVector, vector_init, vector_release}

-- RosApiCall; functions and data of the caller are opaque pointers, and `method` is not set at first.
pub record ApiCall : Type 0 where
  pub id : ℤ
  pub user_call : ℤ
  pub method : Option ℕ
  pub params : ParamVector
  pub host : Option Text
  pub port : ℤ
  pub provider_idx : ℤ
  pub result_callback : Option ℕ
  pub context_data : Option ℕ
  pub fetch_result_callback : Option ℕ
  pub free_result_callback : Option ℕ

-- newRosApiCall: the result of malloc is written to without a test.
pub new_call : Answers → Run (ApiCall × Answers)
new_call a = elim (a 0) [
  | true ↦ done (
    record {
      id = minus_one;
      user_call = pos 0;
      method = none;
      params = vector_init;
      host = none;
      port = minus_one;
      provider_idx = minus_one;
      result_callback = none;
      context_data = none;
      fetch_result_callback = none;
      free_result_callback = none;
    },
    later a,
  )
  | false ↦ fault
]

unfoldable pub free_call : ApiCall → Run (Unit {0})
free_call call = vector_release call.params >>= λ v. done tt

-- ApiCallNode
pub record CallNode : Type 0 where
  pub call : ApiCall
  pub next : Option ℕ

abbrev pub Store : Type 0
Store = List (Option CallNode)

pub record CallQueue : Type 0 where
  pub head : Option ℕ
  pub tail : Option ℕ
  pub call_count : ℕ

unfoldable pub init_queue : CallQueue
init_queue = record { head = none; tail = none; call_count = 0 }

-- A read through a pointer to a node; freed memory is undefined.
abbrev pub loaded : Option (Option CallNode) → Run CallNode
loaded (some (some node)) = done node
loaded p = fault

abbrev pub load : Store → ℕ → Run CallNode
load st i = loaded (get_elem? st i)

unfoldable pub peek_queue : Store → CallQueue → Run (Option ApiCall)
peek_queue st q = elim (q.head) [
  | none ↦ done none
  | some i ↦ load st i >>= λ node. done (some node.call)
]

-- The node behind the tail, which must exist.
unfoldable pub link : Store → CallQueue → ℕ → Run (ℤ × Store × CallQueue)
link st q i = elim (q.tail) [
  | none ↦ fault
  | some t ↦ load st t >>= λ node. done (
    pos 0,
    set st t (some (record node { next = some i })),
    record q { tail = some i; call_count = add_size q.call_count 1 },
  )
]

unfoldable pub enqueue : Answers → Store → CallQueue → ApiCall → Run (ℤ × Store × CallQueue)
enqueue a st q c = elim (a 0) [
  | false ↦ done (minus_one, st, q)
  | true ↦ elim (q.head) [
    | none ↦ done (
      pos 0,
      st ++ (some (record { call = c; next = none }) ∷ []),
      record {
        head = some (length st);
        tail = some (length st);
        call_count = add_size q.call_count 1;
      },
    )
    | some h ↦ link (st ++ (some (record { call = c; next = none }) ∷ [])) q (length st)
  ]
]

abbrev pub new_tail : Option ℕ → Option ℕ → Option ℕ
new_tail none tail = none
new_tail (some h) tail = tail

-- dequeueApiCall reads the head without a test.
unfoldable pub dequeue : Store → CallQueue → Run (ApiCall × Store × CallQueue)
dequeue st q = elim (q.head) [
  | none ↦ fault
  | some h ↦ load st h >>= λ node. done (
    node.call,
    set st h none,
    record {
      head = node.next;
      tail = new_tail node.next q.tail;
      call_count = sub_size q.call_count 1;
    },
  )
]

-- The loop of releaseApiCallQueue.
unfoldable pub release_nodes : ℕ → Store → Option ℕ → Run Store
release_nodes zero st p = no_fuel
release_nodes (suc fuel) st none = done st
release_nodes (suc fuel) st (some i) =
    load st i >>= λ node. free_call node.call >>= λ u. release_nodes fuel (set st i none) node.next

-- One round for every call and one to see the end.
unfoldable pub release_queue : Store → CallQueue → Run (Store × CallQueue)
release_queue st q = release_nodes (suc q.call_count) st q.head >>= λ st'. done (st', init_queue)

pub queue_count : CallQueue → ℕ
queue_count q = q.call_count

unfoldable pub is_empty : CallQueue → Bool
is_empty q = q.call_count == 0
