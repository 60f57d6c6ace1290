-- ===== src/XmlrpcParams/Members.antt =====
-- Finding a member of a struct again.
use cros.Common.{
  ==_iff, [], arith, false, int_max, length, le→leb, minus_one, pos, refl, some, suc, take-all,
  true, ℕ, ℤ, ◌*◌, ◌+◌, ◌∷◌, ◌≡◌, ◌≤◌,
}
use cros.Common.Text.{same_text}
use cros.Mem.{Ptr, dangling_ptr, done, nil_ptr, owned, plenty}
use cros.Mem.Blocks.{read_buf_within}
use cros.XmlrpcParams.{
  Content, Param, ParamType, Params, Text, as_array, as_string, cons, init, is_container, no_params,
  param, params_length, set_string, set_string_n, snoc, string, struct, unescape,
}
use cros.XmlrpcParams.Push.{
  find_member, named, set_member_name, struct_get_param, struct_push_back_string,
}
use cros.XmlrpcParams.Valid.{IsParam}
use cros.XmlrpcParams.Pushes.{next_room, push_with-plenty}

same_text_refl : (t : Text) → same_text t t ≡ true
unfolding same_text
same_text_refl [] = refl
same_text_refl (c ∷ cs) = rw ((==_iff c c).1 refl) (same_text_refl cs)

abbrev pub IsOther : Text → Ptr Text → Type 0
IsOther name (owned t) = same_text t name ≡ false
IsOther name p = ⊥

-- All members have names, and none has this one.
abbrev pub Absent : Text → Params → Type 0
Absent name no_params = Unit {0}
Absent name (cons (param ty m c n mx) ps) = IsOther name m × Absent name ps

find_member-snoc :
    (name : Text) (ps : Params) (ty : ParamType) (c : Content) (k mx : ℤ)
    → Absent name ps
    → find_member (suc (params_length ps)) (snoc ps (param ty (owned name) c k mx)) name
      ≡ done (some (param ty (owned name) c k mx))
unfolding find_member
find_member-snoc name no_params ty c k mx h = rw (same_text_refl name)
find_member-snoc name (cons (param ty' (owned t) c' k' mx') ps) ty c k mx h =
    rw (h.0) (find_member-snoc name ps ty c k mx (h.1))
find_member-snoc name (cons (param ty' nil_ptr c' k' mx') ps) ty c k mx h = absurd (h.0)
find_member-snoc name (cons (param ty' dangling_ptr c' k' mx') ps) ty c k mx h = absurd (h.0)

named_string :
    (name val : Text)
    → length val + 1 ≤ int_max
    → named name (set_string val) plenty init
      ≡ done (
        pos 0,
        param string (owned name) (as_string (some (unescape val))) minus_one minus_one,
        plenty,
      )
unfolding named set_member_name set_string set_string_n init
named_string name val fits = rw (
  le→leb (length val + 1) int_max fits,
  read_buf_within val (length val) (omega arith),
  take-all (length val) val (omega arith),
)

-- With memory for every request, and sizes in the range of `int`,
-- xmlrpcParamStructPushBackString adds a member to a well-formed struct, and
-- xmlrpcParamStructGetParam finds it under its name if all other members have names and none
-- has that one.
pub get_param-push_back_string :
    (name val : Text) (m : Ptr Text) (ps : Params) (n room : ℕ)
    → IsParam (param struct m (as_array room ps) (pos n) (pos room))
    → 2 * room ≤ int_max
    → length val + 1 ≤ int_max
    → Absent name ps
    → (p' : Param) × (struct_push_back_string name val plenty
          (param struct m (as_array room ps) (pos n) (pos room))
        ≡ done (true, p', plenty))
      × (struct_get_param p' name
          ≡ done (
              some
                (param string (owned name) (as_string (some (unescape val))) minus_one minus_one)))
unfolding struct_push_back_string struct_get_param is_container
get_param-push_back_string name val m ps n room h fits short absent =
    let next : n + 1 ≡ suc (params_length ps) = omega (arith, h.1.0.0) in
    let e : Param =
      param string (owned name) (as_string (some (unescape val))) minus_one minus_one in
    (
      param struct m (as_array (next_room n room) (snoc ps e)) (pos (n + 1))
          (pos (next_room n room)),
      push_with-plenty (named name (set_string val)) (pos 0) e (named_string name val short) struct
          m ps n room refl (h.1.0) fits,
      rw next (
          find_member-snoc name ps string (as_string (some (unescape val))) minus_one minus_one
            absent),
    )
