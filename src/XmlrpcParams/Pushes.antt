-- ===== src/XmlrpcParams/Pushes.antt =====
-- Adding elements to arrays and members to structs.
use cros.Common.{
  ==_iff, Bool, Bool-cases, arith, false, if◌then◌else◌, inl, inr, int_max, le→leb, lt→ltb, pos,
  refl, true, ℕ, ℤ, ◌*◌, ◌+◌, ◌<◌, ◌==◌, ◌≡◌, ◌≤◌, ◌⊎◌,
}
use cros.Mem.{Answers, Ptr, Run, done, later, plenty, ◌>>=◌}
use cros.XmlrpcParams.{
  Param, ParamType, Params, Setting, Text, as_array, cons, init, is_container, no_params, param,
  params_length, snoc,
}
use cros.XmlrpcParams.Push.{array_grow, push_with, regrow, store_elem}
use cros.XmlrpcParams.Valid.{AreParams, IsParam, IsRoom}

-- A setting that returns, with a parameter that has the property.
abbrev pub Sets : (Param → Type 0) → Run (ℤ × Param × Answers) → Type 0
Sets P r = (ret : ℤ) × (e : Param) × (b : Answers) × (r ≡ done (ret, e, b)) × P e

-- A push into a block with room for `room` elements: NULL and the container as it was, or one
-- element more, which has the property, and counts that are those of the block.
abbrev pub Appended :
    (Param → Type 0) → ParamType → Ptr Text → Params → ℕ → ℕ → Run (Bool × Param × Answers) → Type 0
Appended P ty m ps n room r =
    ((b : Answers) × (r ≡ done (false, param ty m (as_array room ps) (pos n) (pos room), b)))
    ⊎ ((e : Param) × (room' : ℕ) × (b : Answers) × (r
          ≡ done (true, param ty m (as_array room' (snoc ps e)) (pos (n + 1)) (pos room'), b))
        × P e
        × IsRoom room' (params_length (snoc ps e)) (pos (n + 1)) (pos room'))

pub length-snoc : (ps : Params) (e : Param) → params_length (snoc ps e) ≡ params_length ps + 1
length-snoc no_params e = refl
length-snoc (cons p ps) e = omega (arith, length-snoc ps e)

pub AreParams-snoc : (ps : Params) (e : Param) → AreParams ps → IsParam e → AreParams (snoc ps e)
AreParams-snoc no_params e h new = (new, tt)
AreParams-snoc (cons p ps) e h new = (h.0, AreParams-snoc ps e (h.1) new)

store_within :
    (ty : ParamType) (m : Ptr Text) (room : ℕ) (ps : Params) (n : ℕ) (mx : ℤ) (e : Param)
    → n < room
    → n ≡ params_length ps
    → store_elem (param ty m (as_array room ps) (pos n) mx) e
      ≡ done (param ty m (as_array room (snoc ps e)) (pos (n + 1)) mx)
unfolding store_elem
store_within ty m room ps n mx e inside same =
    rw (lt→ltb n room inside, (==_iff n (params_length ps)).1 same)

module _ (setter : Setting) (P : Param → Type 0) (sets : (b : Answers) → Sets P (setter b init))
    (ty : ParamType) (m : Ptr Text) (ps : Params) (n : ℕ) where
  -- Storing after the growth, if any.
  store-Appended :
      (old room : ℕ) (b : Answers)
      → n < room
      → n ≡ params_length ps
      → Appended P ty m ps n old (
          setter b init >>= λ r.
          store_elem (param ty m (as_array room ps) (pos n) (pos room)) (r.1) >>= λ p'.
          done (true, p', r.2))
  store-Appended old room b inside same =
      let (ret, e, b', returns, holds) = sets b in
      inr (
        e,
        room,
        b',
        rw (returns, store_within ty m room ps n (pos room) e inside same),
        holds,
        (omega (arith, length-snoc ps e, same), omega arith, refl, omega arith),
      )

  -- Each of the functions that add an element to an array or a member to a struct is a setter run by
  -- `push_with`. On a well-formed container whose doubled capacity fits in an `int` it returns NULL
  -- and leaves the container, or it returns the new element at the end, as the setter makes it, and
  -- both counts are right again; it never writes outside of the block.
  pub push_with-Appended :
      (a : Answers) (room : ℕ)
      → is_container ty ≡ true
      → IsRoom room (params_length ps) (pos n) (pos room)
      → 2 * room ≤ int_max
      → Appended P ty m ps n room
          (push_with setter a (param ty m (as_array room ps) (pos n) (pos room)))
  unfolding push_with array_grow regrow
  push_with-Appended a room kind h fits = elim (Bool-cases (n == room)) [
    | inl full ↦
        let e : n ≡ room = (==_iff n room).0 full in
        elim (Bool-cases (a 0)) [
          | inl yes_answer ↦
              rw (kind, full, le→leb (2 * room) int_max fits, yes_answer)
                (store-Appended room (2 * room) (later a) (omega (arith, h.3)) (h.0))
          | inr no_answer ↦
              rw (kind, full, le→leb (2 * room) int_max fits, no_answer) (inl (later a, refl))
        ]
    | inr more ↦ rw (kind, more) (store-Appended room room a (ground (arith, h.1)) (h.0))
  ]

-- The capacity after a push.
abbrev pub next_room : ℕ → ℕ → ℕ
next_room n room = if n == room then 2 * room else room

-- With memory for every request the push does not fail.
pub push_with-plenty :
    (setter : Setting) (ret : ℤ) (e : Param)
    → setter plenty init ≡ done (ret, e, plenty)
    → (ty : ParamType) (m : Ptr Text) (ps : Params) (n room : ℕ) → is_container ty ≡ true
    → IsRoom room (params_length ps) (pos n) (pos room)
    → 2 * room ≤ int_max
    → push_with setter plenty (param ty m (as_array room ps) (pos n) (pos room))
      ≡ done (
        true,
        param ty m (as_array (next_room n room) (snoc ps e)) (pos (n + 1)) (pos (next_room n room)),
        plenty,
      )
unfolding push_with array_grow regrow
push_with-plenty setter ret e returns ty m ps n room kind h fits = elim (Bool-cases (n == room)) [
  | inl full ↦
      let same : n ≡ room = (==_iff n room).0 full in
      let inside : n < 2 * room = omega (arith, h.3) in
      rw (
        kind,
        full,
        le→leb (2 * room) int_max fits,
        returns,
        store_within ty m (2 * room) ps n (pos (2 * room)) e inside (h.0),
      )
  | inr more ↦
      let inside : n < room = ground (arith, h.1) in
      rw (kind, more, returns, store_within ty m room ps n (pos room) e inside (h.0))
]
