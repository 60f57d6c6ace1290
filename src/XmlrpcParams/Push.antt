-- ===== src/XmlrpcParams/Push.antt =====
-- arrayAddElem and the functions that add an element to an array or a member to a struct.
use cros.Common.{
  Bool, Option, false, if◌then◌else◌, ltb, minus_one, negsuc, none, not, pos, set, some, suc, true,
  zero, ℕ, ℤ, ◌&&◌, ◌*◌, ◌+◌, ◌==◌,
}
use cros.Common.Text.{same_text}
use cros.Mem.{Answers, Run, dangling_ptr, done, fault, int, later, nil_ptr, owned, ◌>>=◌}
use cros.XmlrpcParams.{
  Content, Param, Params, Setting, Text, array_grow_rate, as_array, cons, init, is_container,
  no_params, null_array, param, params_length, set_array, set_bool, set_double, set_int, set_string,
  set_string_n, set_struct, snoc, struct, zeros,
}

abbrev same_size : ℤ → ℤ → Bool
same_size (pos a) (pos b) = a == b
same_size (negsuc a) (negsuc b) = a == b
same_size a b = false

-- realloc of an array to twice its capacity. The elements written so far are no more than the old
-- capacity, so that all are kept; NULL is enlarged from nothing.
unfoldable pub regrow : Content → ℕ → Run Content
regrow (as_array room ps) size = done (as_array size ps)
regrow null_array size = done (as_array size no_params)
regrow zeros size = done (as_array size no_params)
regrow c size = fault

-- arrayAddElem up to the point where there is room, or NULL.
unfoldable pub array_grow : Answers → Param → Run (Bool × Param × Answers)
array_grow a (param ty m c n (pos mx)) =
    if not (is_container ty)
    then done (false, param ty m c n (pos mx), a)
    else if same_size n (pos mx)
    then (int (array_grow_rate * mx) >>= λ size. elim (a 0) [
      | true ↦ regrow c size >>= λ grown. done (true, param ty m grown n (pos size), later a)
      | false ↦ done (false, param ty m c n (pos mx), later a)
    ])
    else done (true, param ty m c n (pos mx), a)
array_grow a (param ty m c n (negsuc k)) =
    if not (is_container ty) then done (false, param ty m c n (negsuc k), a) else fault

-- The element goes to the place array_n_elem, which must lie in the block.
unfoldable pub store_elem : Param → Param → Run Param
store_elem (param ty m (as_array room ps) (pos n) mx) e =
    if ltb n room && n == params_length ps
    then done (param ty m (as_array room (snoc ps e)) (pos (n + 1)) mx)
    else fault
store_elem p e = fault

-- arrayAddElem, then the setting of the new element; the result says whether it is not NULL. The
-- results of the setters are ignored by the code.
unfoldable pub push_with : Setting → Answers → Param → Run (Bool × Param × Answers)
push_with set a p = array_grow a p >>= λ grown. elim (grown.0) [
  | true ↦ set (grown.2) init >>= λ r. store_elem (grown.1) (r.1) >>= λ p'. done (true, p', r.2)
  | false ↦ done grown
]

-- A setter that asks for no memory.
abbrev pub at_once : (Param → Param) → Setting
at_once set a p = done (pos 0, set p, a)

unfoldable pub array_add_elem : Answers → Param → Run (Bool × Param × Answers)
array_add_elem a p = push_with (at_once (λ e. e)) a p

unfoldable pub array_push_back_bool : ℤ → Answers → Param → Run (Bool × Param × Answers)
array_push_back_bool v a p = push_with (at_once (λ e. set_bool e v)) a p

unfoldable pub array_push_back_int : ℤ → Answers → Param → Run (Bool × Param × Answers)
array_push_back_int v a p = push_with (at_once (λ e. set_int e v)) a p

unfoldable pub array_push_back_double : ℕ → Answers → Param → Run (Bool × Param × Answers)
array_push_back_double v a p = push_with (at_once (λ e. set_double e v)) a p

unfoldable pub array_push_back_string : Text → Answers → Param → Run (Bool × Param × Answers)
array_push_back_string v a p = push_with (set_string v) a p

unfoldable pub array_push_back_string_n : Text → ℕ → Answers → Param → Run (Bool × Param × Answers)
array_push_back_string_n v n a p = push_with (set_string_n v n) a p

unfoldable pub array_push_back_array : Answers → Param → Run (Bool × Param × Answers)
array_push_back_array a p = push_with set_array a p

unfoldable pub array_push_back_struct : Answers → Param → Run (Bool × Param × Answers)
array_push_back_struct a p = push_with set_struct a p

-- paramSetMemberName: the old name is not freed.
unfoldable pub set_member_name : Text → Setting
set_member_name name a (param ty m c n mx) = done (
    if a 0
    then (pos 0, param ty (owned name) c n mx, later a)
    else (minus_one, param ty nil_ptr c n mx, later a))

-- The name first, then the value.
unfoldable pub named : Text → Setting → Setting
named name set a p = set_member_name name a p >>= λ r. set (r.2) (r.1)

unfoldable pub struct_push_back_bool : Text → ℤ → Answers → Param → Run (Bool × Param × Answers)
struct_push_back_bool name v a p = push_with (named name (at_once (λ e. set_bool e v))) a p

unfoldable pub struct_push_back_int : Text → ℤ → Answers → Param → Run (Bool × Param × Answers)
struct_push_back_int name v a p = push_with (named name (at_once (λ e. set_int e v))) a p

unfoldable pub struct_push_back_double : Text → ℕ → Answers → Param → Run (Bool × Param × Answers)
struct_push_back_double name v a p = push_with (named name (at_once (λ e. set_double e v))) a p

unfoldable pub struct_push_back_string :
    Text → Text → Answers → Param → Run (Bool × Param × Answers)
struct_push_back_string name v a p = push_with (named name (set_string v)) a p

unfoldable pub struct_push_back_string_n :
    Text → Text → ℕ → Answers → Param → Run (Bool × Param × Answers)
struct_push_back_string_n name v n a p = push_with (named name (set_string_n v n)) a p

unfoldable pub struct_push_back_array : Text → Answers → Param → Run (Bool × Param × Answers)
struct_push_back_array name a p = push_with (named name set_array) a p

unfoldable pub struct_push_back_struct : Text → Answers → Param → Run (Bool × Param × Answers)
struct_push_back_struct name a p = push_with (named name set_struct) a p

-- The loop of xmlrpcParamStructGetParam over the first n elements; strcmp of NULL or of freed memory
-- is undefined.
unfoldable pub find_member : ℕ → Params → Text → Run (Option Param)
find_member zero ps name = done none
find_member (suc n) no_params name = fault
find_member (suc n) (cons (param ty (owned m) c k mx) ps) name =
    let rest = find_member n ps name in
    if same_text m name then done (some (param ty (owned m) c k mx)) else rest
find_member (suc n) (cons (param ty nil_ptr c k mx) ps) name = fault
find_member (suc n) (cons (param ty dangling_ptr c k mx) ps) name = fault

unfoldable pub struct_get_param : Param → Text → Run (Option Param)
struct_get_param (param struct m (as_array room ps) (pos n) mx) name = find_member n ps name
struct_get_param (param struct m c (pos zero) mx) name = done none
struct_get_param (param struct m c (pos (suc n)) mx) name = fault
struct_get_param (param struct m c (negsuc k) mx) name = done none
struct_get_param p name = done none
