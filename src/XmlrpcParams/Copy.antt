-- ===== src/XmlrpcParams/Copy.antt =====
-- xmlrpcParamRelease, xmlrpcParamFree, xmlrpcParamCopy, xmlrpcParamClone and xmlrpcParamNew.
use Prim.Unit.{}
use cros.Common.{
  Option, false, if◌then◌else◌, minus_one, negsuc, none, pos, some, suc, true, zero, ℕ, ℤ,
}
use cros.Mem.{Answers, Ptr, Run, dangling_ptr, done, fault, free, later, nil_ptr, owned, ◌>>=◌}
use cros.XmlrpcParams.{
  Content, Param, ParamType, Params, Text, array, as_array, as_string, binary, cons, datetime, init,
  no_params, null_array, param, shared, string, struct, unknown, zeros,
}

-- What the release of a text does to the union.
abbrev pub free_text : Content → Run Content
free_text (as_string t) = done (as_string none)
free_text zeros = done zeros
free_text c = fault

abbrev pub emptied : ParamType → Ptr Text → Content → Param
emptied ty m c = param ty m c (pos 0) (pos 0)

abbrev pub count : ℤ → ℕ
count (pos n) = n
count (negsuc k) = 0

-- xmlrpcParamRelease. The name is freed and its pointer kept. `shared` may not be freed: its owner
-- would be left with a pointer to freed memory.
unfoldable mutual
  pub release : Param → Run Param
  release (param string m c n mx) =
      free m >>= λ m'. free_text c >>= λ c'. done (param string m' c' n mx)
  release (param array m (as_array room ps) n mx) =
      free m >>= λ m'. release_elems (count n) ps >>= λ u. done (emptied array m' null_array)
  release (param struct m (as_array room ps) n mx) =
      free m >>= λ m'. release_elems (count n) ps >>= λ u. done (emptied struct m' null_array)
  release (param array m null_array n mx) = free m >>= λ m'. done (emptied array m' null_array)
  release (param struct m null_array n mx) = free m >>= λ m'. done (emptied struct m' null_array)
  release (param array m zeros n mx) = free m >>= λ m'. done (emptied array m' zeros)
  release (param struct m zeros n mx) = free m >>= λ m'. done (emptied struct m' zeros)
  release (param array m c n mx) = fault
  release (param struct m c n mx) = fault
  release (param ty m c n mx) = free m >>= λ m'. done (param ty m' c n mx)

  pub release_elems : ℕ → Params → Run (Unit {0})
  release_elems zero ps = done tt
  release_elems (suc n) no_params = fault
  release_elems (suc n) (cons p ps) = release p >>= λ p'. release_elems n ps

pub release_ptr : Option Param → Run (Unit {0})
release_ptr none = done tt
release_ptr (some p) = release p >>= λ p'. done tt

-- What memcpy of the struct leaves in the union: a pointer then is the source's.
abbrev pub alias : Content → Content
alias (as_string (some t)) = shared
alias (as_array room ps) = shared
alias c = c

-- The name of the copy, or that memory was lacking; strlen of freed memory is undefined.
unfoldable pub copy_name : Answers → Ptr Text → Run (Option (Ptr Text) × Answers)
copy_name a nil_ptr = done (some nil_ptr, a)
copy_name a (owned t) = done (if a 0 then (some (owned t), later a) else (none, later a))
copy_name a dangling_ptr = fault

-- What calloc leaves in the elements that are not copied.
abbrev pub zero_param : Param
zero_param = param unknown nil_ptr zeros (pos 0) (pos 0)

unfoldable pub zero_params : ℕ → Params
zero_params zero = no_params
zero_params (suc n) = cons zero_param (zero_params n)

-- A failed copy is released before -1 is returned.
unfoldable pub failed : Param → Answers → Run (ℤ × Param × Answers)
failed dest a = release dest >>= λ p. done (minus_one, p, a)

-- The copied array in its new block of n elements.
unfoldable pub finish :
    ParamType → Ptr Text → ℕ → ℤ → ℤ × Params × Answers → Run (ℤ × Param × Answers)
unfolding release failed
finish ty m n mx (pos r, ps, a) = done (pos 0, param ty m (as_array n ps) (pos n) mx, a)
finish ty m n mx (negsuc r, ps, a) = failed (param ty m (as_array n ps) (pos n) mx) a

-- xmlrpcParamCopy onto a destination whose old content is overwritten. In `copy_elems` n elements
-- are left to copy, and the result is the whole block.
unfoldable mutual
  pub copy : Answers → Param → Run (ℤ × Param × Answers)
  copy a (param ty m c n mx) = copy_name a m >>= λ r. elim (r.0) [
    | none ↦ done (minus_one, param ty nil_ptr (alias c) n mx, r.1)
    | some m' ↦ copy_content (r.1) ty m' c n mx
  ]

  pub copy_content : Answers → ParamType → Ptr Text → Content → ℤ → ℤ → Run (ℤ × Param × Answers)
  copy_content a string m (as_string (some t)) n mx = elim (a 0) [
    | true ↦ done (pos 0, param string m (as_string (some t)) n mx, later a)
    | false ↦ failed (param string m (as_string none) n mx) (later a)
  ]
  copy_content a string m c n mx = fault
  copy_content a array m (as_array room ps) (pos n) mx = elim (a 0) [
    | true ↦ copy_elems (later a) n ps >>= λ r. finish array m n mx r
    | false ↦ failed (param array m null_array (pos n) mx) (later a)
  ]
  copy_content a struct m (as_array room ps) (pos n) mx = elim (a 0) [
    | true ↦ copy_elems (later a) n ps >>= λ r. finish struct m n mx r
    | false ↦ failed (param struct m null_array (pos n) mx) (later a)
  ]
  copy_content a array m null_array (pos zero) mx = elim (a 0) [
    | true ↦ done (pos 0, param array m (as_array 0 no_params) (pos 0) mx, later a)
    | false ↦ failed (param array m null_array (pos 0) mx) (later a)
  ]
  copy_content a struct m null_array (pos zero) mx = elim (a 0) [
    | true ↦ done (pos 0, param struct m (as_array 0 no_params) (pos 0) mx, later a)
    | false ↦ failed (param struct m null_array (pos 0) mx) (later a)
  ]
  copy_content a array m c n mx = fault
  copy_content a struct m c n mx = fault
  copy_content a datetime m c n mx = failed (param datetime m (alias c) n mx) a
  copy_content a binary m c n mx = failed (param binary m (alias c) n mx) a
  copy_content a ty m c n mx = done (pos 0, param ty m (alias c) n mx, a)

  pub copy_elems : Answers → ℕ → Params → Run (ℤ × Params × Answers)
  copy_elems a zero ps = done (pos 0, no_params, a)
  copy_elems a (suc n) no_params = fault
  copy_elems a (suc n) (cons p ps) = copy a p >>= λ r. elim (r.0) [
    | pos ok ↦ copy_elems (r.2) n ps >>= λ rest. done (rest.0, cons (r.1) (rest.1), rest.2)
    | negsuc e ↦ done (negsuc e, cons (r.1) (zero_params n), r.2)
  ]

-- xmlrpcParamNew; `none` is NULL.
pub new_param : Answers → Option Param × Answers
new_param a = if a 0 then (some init, later a) else (none, later a)

-- xmlrpcParamClone: a copy that failed is freed without a second release.
unfoldable pub clone : Answers → Param → Run (Option Param × Answers)
unfolding copy
clone a source = elim (a 0) [
  | true ↦ copy (later a) source >>= λ r. elim (r.0) [
    | pos ok ↦ done (some (r.1), r.2)
    | negsuc e ↦ done (none, r.2)
  ]
  | false ↦ done (none, later a)
]
