-- ===== src/XmlrpcParams/Copies.antt =====
-- Copying and cloning parameters, and a push to a copy.
use cros.Common.{
  ap, arith, false, ltb, negsuc, none, pos, refl, some, suc, sym, zero, ℕ, ℤ, ◌<◌, ◌==◌, ◌∙◌, ◌≡◌,
}
use cros.Mem.{Answers, Ptr, Run, dangling_ptr, done, fault, nil_ptr, owned, plenty, ◌>>=◌}
use cros.XmlrpcParams.{
  Content, Param, ParamType, Params, Text, array, as_array, as_bool, as_double, as_int, as_string,
  binary, boolean, cons, datetime, double, init, integer, is_container, no_params, null_array,
  param, params_length, set_int, shared, string, struct, unknown, zeros,
}
use cros.XmlrpcParams.Copy.{alias, clone, copy, copy_content, copy_elems, copy_name, finish}
use cros.XmlrpcParams.Valid.{AreParams, IsContent, IsParam, IsScalar}
use cros.XmlrpcParams.Push.{array_grow, array_push_back_int, push_with, store_elem}

-- The same value in blocks that are exactly as large as they need to be; the counts are kept.
unfoldable mutual
  pub compact : Param → Param
  compact (param ty m c n mx) = param ty m (compact_content c) n mx

  pub compact_content : Content → Content
  compact_content (as_array room ps) = as_array (params_length ps) (compact_all ps)
  compact_content c = c

  pub compact_all : Params → Params
  compact_all no_params = no_params
  compact_all (cons p ps) = cons (compact p) (compact_all ps)

scalar_kept : (c : Content) → IsScalar c → (alias c ≡ c) × (compact_content c ≡ c)
unfolding compact_content
scalar_kept zeros h = (refl, refl)
scalar_kept (as_bool b) h = (refl, refl)
scalar_kept (as_int v) h = (refl, refl)
scalar_kept (as_double v) h = (refl, refl)
scalar_kept shared h = absurd h
scalar_kept null_array h = absurd h
scalar_kept (as_string t) h = absurd h
scalar_kept (as_array room ps) h = absurd h

-- What a copy that succeeds returns.
abbrev pub Copied : Param → Run (ℤ × Param × Answers) → Type 0
unfolding compact
Copied source r = r ≡ done (pos 0, compact source, plenty)

copy_scalar :
    (ty : ParamType) (m : Ptr Text) (c : Content) (n mx : ℤ)
    → IsScalar c
    → Path
        (Run (ℤ × Param × Answers))
        (done (pos 0, param ty m (alias c) n mx, plenty))
        (done (pos 0, param ty m (compact_content c) n mx, plenty))
copy_scalar ty m c n mx h =
    let s = scalar_kept c h in
    ap (λ (k : Content). done (pos 0, param ty m k n mx, plenty)) (s.0 ∙ sym (s.1))

mutual
  unfolding copy copy_name finish compact

  pub copy-compact : (p : Param) → IsParam p → copy plenty p ≡ done (pos 0, compact p, plenty)
  copy-compact (param ty nil_ptr c n mx) h = copy_content-compact ty nil_ptr c n mx (h.1)
  copy-compact (param ty (owned t) c n mx) h = copy_content-compact ty (owned t) c n mx (h.1)
  copy-compact (param ty dangling_ptr c n mx) h = absurd (h.0)

  copy_content-compact :
      (ty : ParamType) (m : Ptr Text) (c : Content) (n mx : ℤ)
      → IsContent ty c n mx
      → copy_content plenty ty m c n mx ≡ done (pos 0, param ty m (compact_content c) n mx, plenty)
  copy_content-compact unknown m c n mx h = copy_scalar unknown m c n mx h
  copy_content-compact boolean m c n mx h = copy_scalar boolean m c n mx h
  copy_content-compact integer m c n mx h = copy_scalar integer m c n mx h
  copy_content-compact double m c n mx h = copy_scalar double m c n mx h
  copy_content-compact string m (as_string (some t)) n mx h = refl
  copy_content-compact string m zeros n mx h = absurd h
  copy_content-compact string m shared n mx h = absurd h
  copy_content-compact string m null_array n mx h = absurd h
  copy_content-compact string m (as_bool b) n mx h = absurd h
  copy_content-compact string m (as_int v) n mx h = absurd h
  copy_content-compact string m (as_double v) n mx h = absurd h
  copy_content-compact string m (as_string none) n mx h = absurd h
  copy_content-compact string m (as_array room ps) n mx h = absurd h
  copy_content-compact array m (as_array room ps) (pos n) (pos mx) h =
      rw (copy_elems-compact n ps (h.0.0) (h.1), h.0.0) refl
  copy_content-compact array m (as_array room ps) (pos n) (negsuc k) h = absurd (h.0)
  copy_content-compact array m (as_array room ps) (negsuc k) mx h = absurd (h.0)
  copy_content-compact array m zeros n mx h = absurd h
  copy_content-compact array m shared n mx h = absurd h
  copy_content-compact array m null_array n mx h = absurd h
  copy_content-compact array m (as_bool b) n mx h = absurd h
  copy_content-compact array m (as_int v) n mx h = absurd h
  copy_content-compact array m (as_double v) n mx h = absurd h
  copy_content-compact array m (as_string t) n mx h = absurd h
  copy_content-compact struct m (as_array room ps) (pos n) (pos mx) h =
      rw (copy_elems-compact n ps (h.0.0) (h.1), h.0.0) refl
  copy_content-compact struct m (as_array room ps) (pos n) (negsuc k) h = absurd (h.0)
  copy_content-compact struct m (as_array room ps) (negsuc k) mx h = absurd (h.0)
  copy_content-compact struct m zeros n mx h = absurd h
  copy_content-compact struct m shared n mx h = absurd h
  copy_content-compact struct m null_array n mx h = absurd h
  copy_content-compact struct m (as_bool b) n mx h = absurd h
  copy_content-compact struct m (as_int v) n mx h = absurd h
  copy_content-compact struct m (as_double v) n mx h = absurd h
  copy_content-compact struct m (as_string t) n mx h = absurd h
  copy_content-compact datetime m c n mx h = absurd h
  copy_content-compact binary m c n mx h = absurd h

  copy_elems-compact :
      (n : ℕ) (ps : Params)
      → n ≡ params_length ps
      → AreParams ps
      → copy_elems plenty n ps ≡ done (pos 0, compact_all ps, plenty)
  copy_elems-compact zero no_params e h = refl
  copy_elems-compact zero (cons p ps) e h = absurd (omega arith)
  copy_elems-compact (suc n) no_params e h = absurd (omega arith)
  copy_elems-compact (suc n) (cons p ps) e h =
      rw (copy-compact p (h.0), copy_elems-compact n ps (omega arith) (h.1))

-- With memory for every request, xmlrpcParamCopy of a well-formed parameter returns 0 and an equal
-- parameter in which every array's block has room for its elements and no more, while
-- `array_max_elem` is still that of the source.
pub copy-plenty : (p : Param) → IsParam p → copy plenty p ≡ done (pos 0, compact p, plenty)
copy-plenty p h = copy-compact p h

-- With memory for every request, xmlrpcParamClone of a well-formed parameter gives the same copy.
pub clone-compact : (p : Param) → IsParam p → clone plenty p ≡ done (some (compact p), plenty)
unfolding clone compact
clone-compact (param ty m c n mx) h = rw (copy-compact (param ty m c n mx) h)

push_past_block :
    (m : Ptr Text) (ps : Params) (n mx : ℕ) (v : ℤ)
    → n ≡ params_length ps
    → n < mx
    → array_push_back_int v plenty
        (param array m (as_array (params_length ps) (compact_all ps)) (pos n) (pos mx))
      ≡ fault
unfolding array_push_back_int push_with array_grow store_elem is_container init set_int
push_past_block m ps n mx v e h =
    let full : (n == mx) ≡ false = ground arith in
    let past : ltb n (params_length ps) ≡ false = ground arith in rw (full, past)

-- With memory for every request, after xmlrpcParamCopy of a well-formed array that has room for
-- more elements, adding an integer to the copy writes past the end of the copy's block.
pub push-copy_faults :
    (m : Ptr Text) (ps : Params) (n room : ℕ) (v : ℤ)
    → IsParam (param array m (as_array room ps) (pos n) (pos room))
    → n < room
    → (copy plenty (param array m (as_array room ps) (pos n) (pos room)) >>= λ r.
        array_push_back_int v (r.2) (r.1))
      ≡ fault
unfolding compact
push-copy_faults m ps n room v h more =
    rw (copy-compact (param array m (as_array room ps) (pos n) (pos room)) h)
      (push_past_block m ps n room v (h.1.0.0) more)
