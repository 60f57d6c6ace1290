-- ===== src/XmlrpcParamVector.antt =====
-- src/xmlrpc_params_vector.c and include/xmlrpc_params_vector.h: the growing vector of the parameters
-- of a call. `size` and `max` are never negative. Logging is left out, and xmlrpcParamVectorPrint
-- does nothing else.
pub mod Valid
mod Tests
use cros.Common.{
  Option, false, if◌then◌else◌, ltb, minus_one, negsuc, none, pos, some, suc, true, zero, ℕ, ℤ,
  ◌&&◌, ◌*◌, ◌+◌, ◌==◌,
}
use cros.Mem.{Answers, Run, done, fault, int, later, no_fuel, ◌>>=◌}
use cros.XmlrpcParams.{
  Param, Params, Setting, Text, elem_at, init, no_params, params_length, set_array, set_bool,
  set_double, set_int, set_string, set_struct, snoc,
}
use cros.XmlrpcParams.Copy.{release_elems}
use cros.XmlrpcParams.Push.{at_once}

-- `block` is the field `data`: NULL, or a block for so many parameters with those stored so far.
pub record ParamVector : Type 0 where
  pub block : Option (ℕ × Params)
  pub size : ℕ
  pub max : ℕ

abbrev pub vector_init_size : ℕ
vector_init_size = 4

abbrev pub vector_grow_rate : ℕ
vector_grow_rate = 2

unfoldable pub vector_init : ParamVector
vector_init = record { block = none; size = 0; max = 0 }

pub vector_release : ParamVector → Run ParamVector
vector_release v = elim (v.block) [
  | none ↦ done v
  | some blk ↦
      release_elems (v.size) (blk.1) >>= λ u. done (record { block = none; size = 0; max = 0 })
]

-- A call that adds a parameter: the new size or -1, the vector and the answers left.
abbrev pub Pushing : Type 0
Pushing = Run (ℤ × ParamVector × Answers)

-- The place `size` of the block is overwritten; it must lie in the block.
unfoldable pub vector_store : ParamVector → ℕ → Params → Param → Answers → Pushing
vector_store v room ps e a =
    if ltb (v.size) room && v.size == params_length ps
    then (int (v.size + 1) >>= λ size'.
        done (pos size', record v { block = some (room, snoc ps e); size = size' }, a))
    else fault

-- The loop `while (size == max)`, then the store.
unfoldable pub vector_grow : ℕ → ParamVector → ℕ → Params → Param → Answers → Pushing
unfolding vector_store
vector_grow zero v room ps e a = no_fuel
vector_grow (suc fuel) v room ps e a = elim (v.size == v.max) [
  | true ↦ int (vector_grow_rate * v.max) >>= λ max'. elim (a 0) [
    | true ↦ vector_grow fuel (record v { max = max'; block = some (max', ps) }) max' ps e (later a)
    | false ↦ done (minus_one, v, later a)
  ]
  | false ↦ vector_store v room ps e a
]

-- xmlrpcParamVectorPushBack; `none` is NULL. One round is enough to grow and one to see it.
unfoldable pub vector_push_back : Answers → ParamVector → Option Param → Pushing
unfolding vector_grow
vector_push_back a v none = done (minus_one, v, a)
vector_push_back a v (some e) = elim (v.block) [
  | none ↦ elim (a 0) [
    | true ↦
        vector_grow 2
          (record { block = some (vector_init_size, no_params); size = 0; max = vector_init_size })
          vector_init_size no_params e (later a)
    | false ↦ done (minus_one, v, later a)
  ]
  | some blk ↦ vector_grow 2 v (blk.0) (blk.1) e a
]

-- A parameter made by a setter on the stack, whose result is not looked at, is pushed.
pub vector_push_set : Setting → Answers → ParamVector → Pushing
vector_push_set setter a v = setter a init >>= λ r. vector_push_back (r.2) v (some (r.1))

pub vector_push_back_bool : ℤ → Answers → ParamVector → Pushing
vector_push_back_bool val a v = vector_push_set (at_once (λ e. set_bool e val)) a v

pub vector_push_back_int : ℤ → Answers → ParamVector → Pushing
vector_push_back_int val a v = vector_push_set (at_once (λ e. set_int e val)) a v

pub vector_push_back_double : ℕ → Answers → ParamVector → Pushing
vector_push_back_double val a v = vector_push_set (at_once (λ e. set_double e val)) a v

pub vector_push_back_string : Text → Answers → ParamVector → Pushing
vector_push_back_string val a v = vector_push_set (set_string val) a v

pub vector_push_back_array : Answers → ParamVector → Pushing
vector_push_back_array a v = vector_push_set set_array a v

pub vector_push_back_struct : Answers → ParamVector → Pushing
vector_push_back_struct a v = vector_push_set set_struct a v

unfoldable pub vector_get_size : ParamVector → ℕ
vector_get_size v = v.size

-- xmlrpcParamVectorAt; `none` is NULL.
unfoldable pub vector_at : ParamVector → ℤ → Run (Option Param)
vector_at v (negsuc k) = done none
vector_at v (pos i) =
    if ltb i (v.size)
    then (elim (v.block) [ none ↦ fault | some blk ↦ elem_at (blk.1) i >>= λ p. done (some p) ])
    else done none
