-- ===== src/XmlrpcXml/Places.antt =====
-- Where the parser puts what it has read: into the parameter itself, or behind the elements of an
-- array.
use cros.Common.{ap, arith, minus_one, pos, refl, suc, true, ℕ, ℤ, ◌+◌, ◌-◌, ◌∙◌, ◌≡◌, ◌≤◌}
use cros.Mem.{Answers, Ptr, done, nil_ptr, plenty}
use cros.XmlrpcParams.{
  Param, ParamType, Params, Setting, Text, array, as_array, cons, elem_at, init, is_container,
  no_params, param, params_length, set_string_n, snoc, unknown, zeros,
}
use cros.XmlrpcParams.Push.{array_push_back_string_n, at_once, push_with}
use cros.XmlrpcParams.Pushes.{length-snoc, push_with-plenty}
use cros.XmlrpcXml.Parse.{
  ParamContainerType, Parsed, container_array, container_none, container_struct, in_new, into_last,
  last_elem, put_last, set_last, store_text, store_value,
}
use cros.XmlrpcXml.Steps.{IsRoom-room_after, max_elems, room_after}

-- A parameter as xmlrpcParamInit leaves it, with a name.
abbrev pub blank : Ptr Text → Param
blank m = param unknown m zeros minus_one minus_one

-- With memory for every request, the three ways to store something in the destination p make
-- `result` of what the setter makes of a blank parameter.
pub record Places (container : ParamContainerType) (m : Ptr Text) (p : Param)
    (result : Param → Param) : Type 0 where
  pub values :
      (set : Param → Param) (k : Param → Answers → Parsed)
      → store_value container (at_once set) set p plenty k ≡ k (result (set (blank m))) plenty
  pub texts :
      (text : Text) (n : ℕ) (e : Param) (k : Param → Answers → Parsed)
      → set_string_n text n plenty (blank m) ≡ done (pos 0, e, plenty)
      → store_text container text n p plenty k ≡ k (result e) plenty
  pub news :
      (setter : Setting) (e : Param) (c : Text) (inner : Param → Answers → Parsed) (r : ℤ)
      (c' : Text) (e' : Param)
      → setter plenty (blank m) ≡ done (pos 0, e, plenty)
      → inner e plenty ≡ done (r, c', e', plenty)
      → in_new container setter c p plenty inner ≡ done (r, c', result e', plenty)

pub none-Places : (m : Ptr Text) → Places container_none m (blank m) (λ e. e)
none-Places m = record {
  values = λ set k. refl;
  texts = λ text n e k h. rw h refl;
  news = λ setter e c inner r c' e' h h'. rw h h';
}

pub struct-Places : (m : Ptr Text) → Places container_struct m (blank m) (λ e. e)
struct-Places m = record {
  values = λ set k. refl;
  texts = λ text n e k h. rw h refl;
  news = λ setter e c inner r c' e' h h'. rw h h';
}

-- An array or a struct with the elements qs, as pushing them one by one makes it.
abbrev pub holding : ParamType → Ptr Text → ℕ → Params → Param
holding ty m k qs = param ty m (as_array (room_after k) qs) (pos k) (pos (room_after k))

elem_at_last : (qs : Params) (e : Param) → elem_at (snoc qs e) (params_length qs) ≡ done e
unfolding elem_at
elem_at_last no_params e = refl
elem_at_last (cons q qs) e = elem_at_last qs e

elem_at-snoc :
    (qs : Params) (e : Param) → elem_at (snoc qs e) (params_length (snoc qs e) - 1) ≡ done e
elem_at-snoc qs e =
    let last : params_length (snoc qs e) - 1 ≡ params_length qs = omega (arith, length-snoc qs e) in
    rw last (elem_at_last qs e)

set_last-snoc : (qs : Params) (e e' : Param) → set_last (snoc qs e) e' ≡ snoc qs e'
unfolding set_last
set_last-snoc no_params e e' = refl
set_last-snoc (cons q no_params) e e' = refl
set_last-snoc (cons q (cons r qs)) e e' = ap (cons q) (set_last-snoc (cons r qs) e e')

pub into_last-snoc :
    (ty : ParamType) (m : Ptr Text) (k : ℕ) (qs : Params) (e e' : Param)
    (inner : Param → Answers → Parsed) (r : ℤ) (c : Text)
    → inner e plenty ≡ done (r, c, e', plenty)
    → into_last (holding ty m k (snoc qs e)) plenty inner
      ≡ done (r, c, holding ty m k (snoc qs e'), plenty)
unfolding into_last last_elem put_last
into_last-snoc ty m k qs e e' inner r c h =
    rw (into_last, elem_at-snoc qs e, h, set_last-snoc qs e e') refl

module _ (m : Ptr Text) (qs : Params) (k : ℕ) (e : k ≡ params_length qs)
    (small : k ≤ max_elems) where
  -- A push into a container of up to max_elems elements.
  pub pushes :
      (ty : ParamType) (setter : Setting) (v : Param)
      → is_container ty ≡ true
      → setter plenty init ≡ done (pos 0, v, plenty)
      → push_with setter plenty (holding ty m k qs)
        ≡ done (true, holding ty m (suc k) (snoc qs v), plenty)
  unfolding room_after
  pushes ty setter v kind h =
      let room = IsRoom-room_after qs k e small in
      let next : k + 1 ≡ suc k = omega arith in
      push_with-plenty setter (pos 0) v h ty m qs k (room_after k) kind (room.0) (room.1)
      ∙ rw next refl

  pub push-Places :
      Places container_array nil_ptr
        (holding array m k qs)
        (λ v. holding array m (suc k) (snoc qs v))
  unfolding init array_push_back_string_n is_container
  push-Places = record {
    values = λ set k'. rw (pushes array (at_once set) (set (blank nil_ptr)) refl refl) refl;
    texts = λ text n v k' h. rw (pushes array (set_string_n text n) v refl h) refl;
    news = λ setter v c inner r c' v' h h'.
        rw (pushes array setter v refl h) (into_last-snoc array m (suc k) qs v v' inner r c' h');
  }
