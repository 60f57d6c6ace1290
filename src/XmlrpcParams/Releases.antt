-- ===== src/XmlrpcParams/Releases.antt =====
-- xmlrpcParamRelease of well-formed parameters, and after a copy that failed.
use cros.Common.{arith, negsuc, none, not, pos, refl, some, suc, zero, ℕ, ℤ, ◌==◌, ◌≡◌}
use cros.Mem.{Answers, Ptr, dangling_ptr, done, fault, free, nil_ptr, owned}
use cros.XmlrpcParams.{
  Param, Params, Text, array, as_array, as_bool, as_double, as_int, as_string, binary, boolean,
  cons, datetime, double, integer, no_params, null_array, param, params_length, shared, string,
  struct, unknown, zeros,
}
use cros.XmlrpcParams.Copy.{copy, copy_name, failed, finish, release, release_elems}
use cros.XmlrpcParams.Valid.{AreParams, IsName, IsParam}

abbrev freed_name : Ptr Text → Ptr Text
freed_name nil_ptr = nil_ptr
freed_name p = dangling_ptr

-- What is left of a parameter: no text and no elements, and a name that dangles.
abbrev pub released : Param → Param
released (param string m c n mx) = param string (freed_name m) (as_string none) n mx
released (param array m c n mx) = param array (freed_name m) null_array (pos 0) (pos 0)
released (param struct m c n mx) = param struct (freed_name m) null_array (pos 0) (pos 0)
released (param ty m c n mx) = param ty (freed_name m) c n mx

free-freed : (m : Ptr Text) → IsName m → free m ≡ done (freed_name m)
free-freed nil_ptr h = refl
free-freed (owned t) h = refl
free-freed dangling_ptr h = absurd h

mutual
  unfolding release

  pub release-released : (p : Param) → IsParam p → release p ≡ done (released p)
  release-released (param unknown m c n mx) h = rw (free-freed m (h.0))
  release-released (param boolean m c n mx) h = rw (free-freed m (h.0))
  release-released (param integer m c n mx) h = rw (free-freed m (h.0))
  release-released (param double m c n mx) h = rw (free-freed m (h.0))
  release-released (param string m (as_string (some t)) n mx) h = rw (free-freed m (h.0))
  release-released (param string m zeros n mx) h = absurd (h.1)
  release-released (param string m shared n mx) h = absurd (h.1)
  release-released (param string m null_array n mx) h = absurd (h.1)
  release-released (param string m (as_bool b) n mx) h = absurd (h.1)
  release-released (param string m (as_int v) n mx) h = absurd (h.1)
  release-released (param string m (as_double v) n mx) h = absurd (h.1)
  release-released (param string m (as_string none) n mx) h = absurd (h.1)
  release-released (param string m (as_array room ps) n mx) h = absurd (h.1)
  release-released (param array m (as_array room ps) (pos n) (pos mx)) h =
      rw (free-freed m (h.0), release_elems-all n ps (h.1.0.0) (h.1.1))
  release-released (param array m (as_array room ps) (pos n) (negsuc k)) h = absurd (h.1.0)
  release-released (param array m (as_array room ps) (negsuc k) mx) h = absurd (h.1.0)
  release-released (param array m zeros n mx) h = absurd (h.1)
  release-released (param array m shared n mx) h = absurd (h.1)
  release-released (param array m null_array n mx) h = absurd (h.1)
  release-released (param array m (as_bool b) n mx) h = absurd (h.1)
  release-released (param array m (as_int v) n mx) h = absurd (h.1)
  release-released (param array m (as_double v) n mx) h = absurd (h.1)
  release-released (param array m (as_string t) n mx) h = absurd (h.1)
  release-released (param struct m (as_array room ps) (pos n) (pos mx)) h =
      rw (free-freed m (h.0), release_elems-all n ps (h.1.0.0) (h.1.1))
  release-released (param struct m (as_array room ps) (pos n) (negsuc k)) h = absurd (h.1.0)
  release-released (param struct m (as_array room ps) (negsuc k) mx) h = absurd (h.1.0)
  release-released (param struct m zeros n mx) h = absurd (h.1)
  release-released (param struct m shared n mx) h = absurd (h.1)
  release-released (param struct m null_array n mx) h = absurd (h.1)
  release-released (param struct m (as_bool b) n mx) h = absurd (h.1)
  release-released (param struct m (as_int v) n mx) h = absurd (h.1)
  release-released (param struct m (as_double v) n mx) h = absurd (h.1)
  release-released (param struct m (as_string t) n mx) h = absurd (h.1)
  release-released (param datetime m c n mx) h = absurd (h.1)
  release-released (param binary m c n mx) h = absurd (h.1)

  pub release_elems-all :
      (n : ℕ) (ps : Params) → n ≡ params_length ps → AreParams ps → release_elems n ps ≡ done tt
  release_elems-all zero ps e h = refl
  release_elems-all (suc n) no_params e h = absurd (omega arith)
  release_elems-all (suc n) (cons p ps) e h =
      rw (release-released p (h.0)) (release_elems-all n ps (omega arith) (h.1))

-- xmlrpcParamRelease of a well-formed parameter returns, so that no block is freed twice: it
-- leaves no text and no elements, and a name that dangles.
pub release-IsParam : (p : Param) → IsParam p → release p ≡ done (released p)
release-IsParam p h = release-released p h

-- The answers to the requests for the block of an array, for a name and for a text: no memory is
-- left for the text.
abbrev pub third_fails : Answers
third_fails n = not (n == 2)

-- xmlrpcParamCopy of a struct without a name, whose first member has a name and a text, where
-- the first two requests for memory are met and the third is not, has undefined behaviour: the
-- member's name is freed in the failed copy of the member and again in the release of the
-- struct.
pub copy-out_of_memory_faults :
    (room : ℕ) (name text : Text) (k l : ℤ) (ps : Params) (n : ℕ) (mx : ℤ)
    → copy third_fails (
        param struct nil_ptr
          (as_array room (cons (param string (owned name) (as_string (some text)) k l) ps))
          (pos (suc n))
          mx)
      ≡ fault
unfolding copy copy_name finish failed release
copy-out_of_memory_faults room name text k l ps n mx = refl
