-- ===== src/XmlrpcParams.antt =====
-- src/xmlrpc_params.c and include/xmlrpc_params.h: the values that XMLRPC calls carry, as trees that
-- own their names, texts and arrays. A function that asks for memory takes the answers to its
-- requests and returns those that are left. The parser of XML is not here.
pub mod Push
pub mod Copy
pub mod Valid
pub mod Pushes
pub mod Members
pub mod Copies
pub mod Releases
mod Tests
use cros.Common.{
  Bool, List, Option, [], false, if◌then◌else◌, length, ltb, minus_one, negsuc, none, pos, some,
  suc, true, zero, ℕ, ℤ, ◌&&◌, ◌+◌, ◌==◌, ◌∷◌,
}
use cros.Common.Text.{starts_with}
use cros.Common.Decimal.{chars}
use cros.Mem.{Answers, Ptr, Run, done, fault, int, later, nil_ptr, read_buf, ◌>>=◌}

abbrev pub Text : Type 0
Text = List ℕ

-- XmlrpcParamType
pub data ParamType : Type 0 where
  unknown boolean integer double string array datetime binary struct : ParamType

-- The union `data`: `zeros` is what xmlrpcParamInit leaves; an array is NULL or a block for so many
-- elements, of which those of the list have been written; `shared` is a pointer to memory that
-- another parameter owns.
mutual
  pub data Content : Type 0 where
    zeros shared null_array : Content
    as_bool : ℕ → Content
    as_int : ℤ → Content
    as_double : ℕ → Content
    as_string : Option Text → Content
    as_array : ℕ → Params → Content

  -- `type`, `member_name`, `data`, `array_n_elem` and `array_max_elem`.
  pub data Param : Type 0 where
    param : ParamType → Ptr Text → Content → ℤ → ℤ → Param

  pub data Params : Type 0 where
    no_params : Params
    cons : Param → Params → Params

abbrev pub array_init_size : ℕ
array_init_size = 4

abbrev pub array_grow_rate : ℕ
array_grow_rate = 2

-- xmlrpcParamInit
unfoldable pub init : Param
init = param unknown nil_ptr zeros minus_one minus_one

-- A call that sets a parameter: its `int` result, the parameter and the answers left.
abbrev pub Setting : Type 0
Setting = Answers → Param → Run (ℤ × Param × Answers)

unfoldable pub set_unknown : Param → Param
set_unknown (param ty m c n mx) = param unknown m c n mx

-- `(val != 0) ? 1 : 0`
abbrev pub truth : ℤ → ℕ
truth (pos k) = if k == 0 then 0 else 1
truth (negsuc k) = 1

unfoldable pub set_bool : Param → ℤ → Param
set_bool (param ty m c n mx) v = param boolean m (as_bool (truth v)) n mx

unfoldable pub set_int : Param → ℤ → Param
set_int (param ty m c n mx) v = param integer m (as_int v) n mx

-- The bits of a double.
unfoldable pub set_double : Param → ℕ → Param
set_double (param ty m c n mx) v = param double m (as_double v) n mx

-- The character that xmlrpcParamSetStringN stores for the place where `rest` starts.
unfoldable pub unescape_at : ℕ → Text → ℕ
unescape_at c rest =
    if starts_with (chars "&lt;") rest
    then 60
    else if starts_with (chars "&gt;") rest
    then 62
    else if starts_with (chars "&amp;") rest
    then 38
    else if starts_with (chars "&apos;") rest
    then 39
    else if starts_with (chars "&quot;") rest
    then 34
    else c

-- Its loop: one character for every place.
unfoldable pub unescape : Text → Text
unescape [] = []
unescape (c ∷ cs) = unescape_at c (c ∷ cs) ∷ unescape cs

unfoldable pub set_string_n : Text → ℕ → Setting
set_string_n val n a (param ty m c k mx) = int (n + 1) >>= λ size. elim (a 0) [
  | true ↦ read_buf val n >>= λ text.
      done (pos 0, param string m (as_string (some (unescape text))) k mx, later a)
  | false ↦ done (minus_one, param string m (as_string none) k mx, later a)
]

unfoldable pub set_string : Text → Setting
set_string val a p = set_string_n val (length val) a p

unfoldable pub set_container : ParamType → Setting
set_container kind a (param ty m c n mx) = done (
    if a 0
    then (
      pos 0,
      param kind m (as_array array_init_size no_params) (pos 0) (pos array_init_size),
      later a,
    )
    else (minus_one, param kind m null_array (pos 0) (pos 0), later a))

unfoldable pub set_array : Setting
set_array a p = set_container array a p

unfoldable pub set_struct : Setting
set_struct a p = set_container struct a p

pub get_type : Param → ParamType
get_type (param ty m c n mx) = ty

-- The getters read the union by the asked type; another type is left undefined.
pub get_bool : Param → Run ℕ
get_bool (param ty m (as_bool b) n mx) = done (if b == 0 then 0 else 1)
get_bool (param ty m zeros n mx) = done 0
get_bool p = fault

pub get_int : Param → Run ℤ
get_int (param ty m (as_int v) n mx) = done v
get_int (param ty m zeros n mx) = done (pos 0)
get_int p = fault

pub get_double : Param → Run ℕ
get_double (param ty m (as_double v) n mx) = done v
get_double (param ty m zeros n mx) = done 0
get_double p = fault

pub get_string : Param → Run (Option Text)
get_string (param ty m (as_string t) n mx) = done t
get_string (param ty m zeros n mx) = done none
get_string p = fault

unfoldable pub is_container : ParamType → Bool
is_container array = true
is_container struct = true
is_container ty = false

pub array_get_size : Param → ℤ
array_get_size (param array m c n mx) = n
array_get_size p = minus_one

abbrev pub params_length : Params → ℕ
params_length no_params = 0
params_length (cons p ps) = suc (params_length ps)

abbrev pub snoc : Params → Param → Params
snoc no_params e = cons e no_params
snoc (cons p ps) e = cons p (snoc ps e)

-- The element at a place of the block; one that was never written is undefined.
unfoldable pub elem_at : Params → ℕ → Run Param
elem_at no_params i = fault
elem_at (cons p ps) zero = done p
elem_at (cons p ps) (suc i) = elem_at ps i

pub content_at : Content → ℕ → Run Param
content_at (as_array room ps) i = elem_at ps i
content_at c i = fault

abbrev pub below : ℕ → ℤ → Bool
below i (pos n) = ltb i n
below i (negsuc n) = false

-- xmlrpcParamArrayGetParamAt; `none` is NULL.
pub array_get_param_at : Param → ℤ → Run (Option Param)
array_get_param_at (param ty m c n mx) (negsuc k) = done none
array_get_param_at (param ty m c n mx) (pos i) =
    if is_container ty && below i n then (content_at c i >>= λ p. done (some p)) else done none
