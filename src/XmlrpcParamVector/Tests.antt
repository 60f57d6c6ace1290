-- ===== src/XmlrpcParamVector/Tests.antt =====
-- Runs of src/xmlrpc_params_vector.c on a short vector.
use cros.Common.{arith, minus_one, pos, refl, some, ◌≡◌}
use cros.Mem.{done, nil_ptr, plenty}
use cros.XmlrpcParams.{Param, Params, as_int, cons, integer, no_params, param, snoc}
use cros.XmlrpcParamVector.{
  ParamVector, vector_at, vector_grow, vector_push_back, vector_release, vector_store,
}
use cros.XmlrpcParamVector.Valid.{
  VectorHolds, VectorPushed, at_index, vector_at_lem, vector_push_back-Pushed, vector_release_lem,
}

abbrev seven : Param
seven = param integer nil_ptr (as_int (pos 7)) minus_one minus_one

abbrev sevens : Params
sevens = cons seven (cons seven (cons seven (cons seven no_params)))

-- Four parameters in a block for four.
abbrev full_vector : ParamVector
full_vector = record { block = some (4, sevens); size = 4; max = 4 }

full_vector-Holds : VectorHolds full_vector sevens
full_vector-Holds = record { size_eq = refl; storage = (refl, refl, omega arith, omega arith) }

push_grows_to_eight :
    vector_push_back plenty full_vector (some seven)
    ≡ done (pos 5, record { block = some (8, snoc sevens seven); size = 5; max = 8 }, plenty)
unfolding vector_push_back vector_grow vector_store
push_grows_to_eight = refl

vector_push_back-Pushed_example :
    VectorPushed full_vector sevens seven (vector_push_back plenty full_vector (some seven))
vector_push_back-Pushed_example =
    vector_push_back-Pushed full_vector sevens seven plenty full_vector-Holds (omega arith)
      (omega arith)

vector_at_lem_example : vector_at full_vector (pos 3) ≡ done (at_index sevens (pos 3))
vector_at_lem_example = vector_at_lem full_vector sevens (pos 3) full_vector-Holds

vector_release_lem_example :
    (v' : ParamVector) × (vector_release full_vector ≡ done v')
    × VectorHolds v' no_params
    × (vector_release v' ≡ done v')
vector_release_lem_example =
    vector_release_lem full_vector sevens full_vector-Holds
      ((tt, tt), ((tt, tt), ((tt, tt), ((tt, tt), tt))))
