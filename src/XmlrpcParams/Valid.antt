-- ===== src/XmlrpcParams/Valid.antt =====
-- Well-formed parameters: what the code may read, copy and release.
use cros.Common.{pos, some, ℕ, ℤ, ◌<◌, ◌≡◌, ◌≤◌}
use cros.Mem.{Ptr, dangling_ptr, nil_ptr, owned}
use cros.XmlrpcParams.{
  Content, Param, ParamType, Params, Text, array, as_array, as_bool, as_double, as_int, as_string,
  binary, cons, datetime, no_params, param, params_length, string, struct, zeros,
}

abbrev pub IsName : Ptr Text → Type 0
IsName nil_ptr = Unit {0}
IsName (owned t) = Unit {0}
IsName dangling_ptr = ⊥

-- No pointer.
abbrev pub IsScalar : Content → Type 0
IsScalar zeros = Unit {0}
IsScalar (as_bool b) = Unit {0}
IsScalar (as_int v) = Unit {0}
IsScalar (as_double v) = Unit {0}
IsScalar c = ⊥

-- A container's two counts are those of its block.
abbrev pub IsRoom : ℕ → ℕ → ℤ → ℤ → Type 0
IsRoom room len (pos n) (pos mx) = (n ≡ len) × (n ≤ room) × (mx ≡ room) × (0 < room)
IsRoom room len n mx = ⊥

-- The union holds what the type says.
abbrev mutual
  pub IsParam : Param → Type 0
  IsParam (param ty m c n mx) = IsName m × IsContent ty c n mx

  pub IsContent : ParamType → Content → ℤ → ℤ → Type 0
  IsContent string (as_string (some t)) n mx = Unit {0}
  IsContent string c n mx = ⊥
  IsContent array (as_array room ps) n mx = IsRoom room (params_length ps) n mx × AreParams ps
  IsContent array c n mx = ⊥
  IsContent struct (as_array room ps) n mx = IsRoom room (params_length ps) n mx × AreParams ps
  IsContent struct c n mx = ⊥
  IsContent datetime c n mx = ⊥
  IsContent binary c n mx = ⊥
  IsContent ty c n mx = IsScalar c

  pub AreParams : Params → Type 0
  AreParams no_params = Unit {0}
  AreParams (cons p ps) = IsParam p × AreParams ps
