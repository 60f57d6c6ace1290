-- ===== src/XmlrpcParams/Tests.antt =====
-- Runs of src/xmlrpc_params.c on small arrays and structs.
use cros.Common.{arith, minus_one, pos, refl, some, true, ◌≡◌}
use cros.Common.Decimal.{chars}
use cros.Common.Text.{same_text, starts_with}
use cros.Mem.{Answers, done, fault, nil_ptr, owned, plenty, ◌>>=◌}
use cros.XmlrpcParams.{
  Param, Params, array, as_array, as_int, as_string, cons, init, integer, is_container, no_params,
  param, set_int, string, struct, unescape, unescape_at,
}
use cros.XmlrpcParams.Push.{
  array_grow, array_push_back_int, at_once, push_with, store_elem, struct_get_param,
  struct_push_back_string,
}
use cros.XmlrpcParams.Copy.{clone, copy, release}
use cros.XmlrpcParams.Valid.{IsParam}
use cros.XmlrpcParams.Pushes.{Appended, Sets, push_with-Appended}
use cros.XmlrpcParams.Members.{get_param-push_back_string}
use cros.XmlrpcParams.Copies.{clone-compact, compact, copy-plenty, push-copy_faults}
use cros.XmlrpcParams.Releases.{copy-out_of_memory_faults, release-IsParam, released, third_fails}

abbrev five : Param
five = param integer nil_ptr (as_int (pos 5)) minus_one minus_one

-- An array that holds 5 in a block for four elements.
abbrev fives : Params
fives = cons five no_params

abbrev one_int : Param
one_int = param array nil_ptr (as_array 4 fives) (pos 1) (pos 4)

one_int-IsParam : IsParam one_int
one_int-IsParam = (tt, ((refl, omega arith, refl, omega arith), ((tt, tt), tt)))

-- A struct with one member, "a" = "x", in a block for four.
abbrev members : Params
members =
    cons (param string (owned (chars "a")) (as_string (some (chars "x"))) minus_one minus_one)
      no_params

abbrev one_member : Param
one_member = param struct nil_ptr (as_array 4 members) (pos 1) (pos 4)

one_member-IsParam : IsParam one_member
one_member-IsParam = (tt, ((refl, omega arith, refl, omega arith), ((tt, tt), tt)))

unescape_keeps_the_rest : unescape (chars "&lt;") ≡ chars "<lt;"
unfolding unescape unescape_at starts_with
unescape_keeps_the_rest = refl

push_six :
    array_push_back_int (pos 6) plenty one_int
    ≡ done (
      true,
      param array nil_ptr
          (as_array 4 (
            cons five
              (cons (param integer nil_ptr (as_int (pos 6)) minus_one minus_one) no_params)))
          (pos 2)
          (pos 4),
      plenty,
    )
unfolding array_push_back_int push_with array_grow store_elem init set_int is_container
push_six = refl

abbrev IsSix : Param → Type 0
IsSix e = e ≡ param integer nil_ptr (as_int (pos 6)) minus_one minus_one

set-IsSix : (b : Answers) → Sets IsSix (at_once (λ e. set_int e (pos 6)) b init)
unfolding set_int init
set-IsSix b = (pos 0, param integer nil_ptr (as_int (pos 6)) minus_one minus_one, b, refl, refl)

push_with-Appended_example :
    Appended IsSix array nil_ptr fives 1 4
      (push_with (at_once (λ e. set_int e (pos 6))) third_fails one_int)
push_with-Appended_example =
    push_with-Appended (at_once (λ e. set_int e (pos 6))) IsSix set-IsSix array nil_ptr fives 1
      third_fails 4 array-is_container (refl, omega arith, refl, omega arith) (omega arith)
  where
    array-is_container : is_container array ≡ true
    array-is_container = unfold is_container in refl

get_param-push_back_string_example :
    (p' : Param) × (struct_push_back_string (chars "b") (chars "y") plenty one_member
      ≡ done (true, p', plenty))
    × (struct_get_param p' (chars "b")
        ≡ done (
            some (
              param string
                (owned (chars "b"))
                (as_string (some (unescape (chars "y"))))
                minus_one
                minus_one)))
get_param-push_back_string_example =
    get_param-push_back_string (chars "b") (chars "y") nil_ptr members 1 4 one_member-IsParam
      (omega arith) (omega arith) (unfold same_text in (refl, tt))

copy-plenty_example : copy plenty one_member ≡ done (pos 0, compact one_member, plenty)
copy-plenty_example = copy-plenty one_member one_member-IsParam

clone-compact_example : clone plenty one_int ≡ done (some (compact one_int), plenty)
clone-compact_example = clone-compact one_int one_int-IsParam

push-copy_faults_example :
    (copy plenty one_int >>= λ r. array_push_back_int (pos 6) (r.2) (r.1)) ≡ fault
push-copy_faults_example = push-copy_faults nil_ptr fives 1 4 (pos 6) one_int-IsParam (omega arith)

release-IsParam_example : release one_member ≡ done (released one_member)
release-IsParam_example = release-IsParam one_member one_member-IsParam

copy-out_of_memory_faults_example : copy third_fails one_member ≡ fault
copy-out_of_memory_faults_example =
    copy-out_of_memory_faults 4 (chars "a") (chars "x") minus_one minus_one no_params 0 (pos 4)
