-- ===== src/XmlrpcParamVector/Valid.antt =====
-- What a vector holds, and the operations on it.
use cros.Common.{
  ==_iff, Bool-cases, Option, ap, arith, false, if◌then◌else◌, inl, inr, int_max, le→leb,
  le→ltb_false, ltb, lt→ltb, minus_one, negsuc, none, pos, refl, some, suc, zero, ℕ, ℤ, ◌*◌, ◌+◌,
  ◌<◌, ◌==◌, ◌∙◌, ◌≡◌, ◌≤◌, ◌⊎◌,
}
use cros.Mem.{Answers, done, later, ◌>>=◌}
use cros.XmlrpcParams.{Param, Params, cons, elem_at, no_params, params_length, snoc}
use cros.XmlrpcParams.Pushes.{length-snoc}
use cros.XmlrpcParamVector.{
  ParamVector, Pushing, vector_at, vector_grow, vector_push_back, vector_release, vector_store,
}
use cros.XmlrpcParams.Valid.{AreParams}
use cros.XmlrpcParams.Releases.{release_elems-all}

abbrev pub VectorBlock : Option (ℕ × Params) → ℕ → Params → Type 0
VectorBlock none max ps = ps ≡ no_params
VectorBlock (some (room, qs)) max ps =
    (qs ≡ ps) × (max ≡ room) × (0 < room) × (params_length ps ≤ room)

-- The vector holds these parameters, and its counts are right.
pub record VectorHolds (v : ParamVector) (ps : Params) : Type 0 where
  pub size_eq : v.size ≡ params_length ps
  pub storage : VectorBlock v.block v.max ps

-- A push of e: the vector holds one parameter more and its size is returned, or -1 is returned and
-- the vector is as it was.
abbrev pub VectorPushed : ParamVector → Params → Param → Pushing → Type 0
VectorPushed v ps e r =
    ((b : Answers) × (r ≡ done (minus_one, v, b)))
    ⊎ ((v' : ParamVector) × (b : Answers) × (r ≡ done (pos (params_length ps + 1), v', b))
        × VectorHolds v' (snoc ps e))

module _ (ps : Params) (e : Param) (short : params_length ps + 1 ≤ int_max) where
  store-Pushed :
      (old : ParamVector) (size room : ℕ) (a : Answers)
      → size ≡ params_length ps
      → size < room
      → VectorPushed old ps e
          (vector_store (record { block = some (room, ps); size = size; max = room }) room ps e a)
  unfolding vector_store
  store-Pushed old size room a same inside =
      rw
        (
          lt→ltb size room inside,
          (==_iff size (params_length ps)).1 same,
          le→leb (size + 1) int_max (omega arith),
        )
        (inr (
          record { block = some (room, snoc ps e); size = size + 1; max = room },
          a,
          ap
              (λ (k : ℕ). done (
                pos (k + 1),
                record { block = some (room, snoc ps e); size = size + 1; max = room },
                a,
              ))
              same,
          record {
            size_eq = omega (arith, length-snoc ps e);
            storage = (refl, refl, omega arith, omega (arith, length-snoc ps e));
          },
        ))

  grow-Pushed :
      (size room : ℕ) (a : Answers)
      → size ≡ params_length ps
      → size ≤ room
      → 0 < room
      → 2 * room ≤ int_max
      → VectorPushed
          (record { block = some (room, ps); size = size; max = room })
          ps
          e
          (vector_grow 2 (record { block = some (room, ps); size = size; max = room }) room ps e a)
  unfolding vector_grow
  grow-Pushed size room a same inside one fits = elim (Bool-cases (size == room)) [
    | inl full ↦
        let eq : size ≡ room = (==_iff size room).0 full in
        let more : (size == 2 * room) ≡ false = ground arith in
        elim (Bool-cases (a 0)) [
          | inl yes_answer ↦
              rw (vector_grow, full, le→leb (2 * room) int_max fits, yes_answer, more)
                (store-Pushed (record { block = some (room, ps); size = size; max = room }) size
                  (2 * room) (later a) same (omega arith))
          | inr no_answer ↦
              rw (vector_grow, full, le→leb (2 * room) int_max fits, no_answer)
                (inl (later a, refl))
        ]
    | inr more ↦
        rw (vector_grow, more)
          (store-Pushed (record { block = some (room, ps); size = size; max = room }) size room a
            same (ground arith))
  ]

push_from :
    (blk : Option (ℕ × Params)) (size max : ℕ) (ps : Params) (e : Param) (a : Answers)
    → size ≡ params_length ps
    → VectorBlock blk max ps
    → params_length ps + 1 ≤ int_max
    → 2 * max ≤ int_max
    → VectorPushed
        (record { block = blk; size = size; max = max })
        ps
        e
        (vector_push_back a (record { block = blk; size = size; max = max }) (some e))
unfolding vector_push_back vector_grow vector_store
push_from none size max ps e a same h short fits = elim (Bool-cases (a 0)) [
  | inl yes_answer ↦
      rw (vector_push_back, yes_answer, h)
        (store-Pushed no_params e (omega arith) (record { block = none; size = size; max = max }) 0
          4 (later a) refl (omega arith))
  | inr no_answer ↦ rw (vector_push_back, no_answer) (inl (later a, refl))
]
push_from (some (room, qs)) size max ps e a same h short fits =
    rw (h.0, h.1)
      (grow-Pushed ps e short size room a same (omega (arith, h.3, same)) (h.2)
        (omega (arith, h.1)))

-- xmlrpcParamVectorPushBack of a parameter to a well-formed vector, where the size plus one and
-- twice the capacity are in the range of `int`, ends within its two rounds: it returns -1 and
-- leaves the vector, or it adds the parameter at the end and returns the new size.
pub vector_push_back-Pushed :
    (v : ParamVector) (ps : Params) (e : Param) (a : Answers)
    → VectorHolds v ps
    → params_length ps + 1 ≤ int_max
    → 2 * v.max ≤ int_max
    → VectorPushed v ps e (vector_push_back a v (some e))
vector_push_back-Pushed v ps e a h short fits =
    push_from v.block v.size v.max ps e a h.size_eq h.storage short fits

-- The parameter at a place, if there is one.
abbrev pub nth : Params → ℕ → Option Param
nth no_params i = none
nth (cons p ps) zero = some p
nth (cons p ps) (suc i) = nth ps i

ltb-suc : (i n : ℕ) → ltb (suc i) (suc n) ≡ ltb i n
ltb-suc i n = ground arith

elem_at-nth :
    (ps : Params) (i : ℕ)
    → (if ltb i (params_length ps) then (elem_at ps i >>= λ p. done (some p)) else done none)
      ≡ done (nth ps i)
unfolding elem_at
elem_at-nth no_params i = rw (le→ltb_false i 0 (omega arith)) refl
elem_at-nth (cons p ps) zero = rw (lt→ltb 0 (suc (params_length ps)) (omega arith)) refl
elem_at-nth (cons p ps) (suc i) = rw (ltb-suc i (params_length ps)) (elem_at-nth ps i)

at_from :
    (blk : Option (ℕ × Params)) (size max : ℕ) (ps : Params) (i : ℕ)
    → size ≡ params_length ps
    → VectorBlock blk max ps
    → vector_at (record { block = blk; size = size; max = max }) (pos i) ≡ done (nth ps i)
unfolding vector_at
at_from none size max ps i same h =
    let e : size ≡ 0 = same ∙ ap params_length h in rw (e, h, le→ltb_false i 0 (omega arith)) refl
at_from (some (room, qs)) size max ps i same h = rw (same, h.0) (elem_at-nth ps i)

abbrev pub at_index : Params → ℤ → Option Param
at_index ps (pos i) = nth ps i
at_index ps (negsuc k) = none

-- On a well-formed vector xmlrpcParamVectorAt gives the parameter at an index from 0 to size - 1 and
-- NULL for every other index, negative ones included; it never reads outside of the block.
pub vector_at_lem :
    (v : ParamVector) (ps : Params) (i : ℤ)
    → VectorHolds v ps
    → vector_at v i ≡ done (at_index ps i)
unfolding vector_at
vector_at_lem v ps (pos i) h = at_from v.block v.size v.max ps i h.size_eq h.storage
vector_at_lem v ps (negsuc k) h = refl

release_from :
    (blk : Option (ℕ × Params)) (size max : ℕ) (ps : Params)
    → size ≡ params_length ps
    → VectorBlock blk max ps
    → AreParams ps
    → (v' : ParamVector) × (vector_release (record { block = blk; size = size; max = max })
        ≡ done v')
      × VectorHolds v' no_params
      × (vector_release v' ≡ done v')
unfolding vector_release
release_from none size max ps same h ok = (
  record { block = none; size = size; max = max },
  refl,
  record { size_eq = same ∙ ap params_length h; storage = refl },
  refl,
)
release_from (some (room, qs)) size max ps same h ok = (
  record { block = none; size = 0; max = 0 },
  rw (h.0, release_elems-all size ps same ok),
  record { size_eq = refl; storage = refl },
  refl,
)

-- xmlrpcParamVectorRelease of a well-formed vector of well-formed parameters frees each of them and
-- leaves an empty well-formed vector; releasing that once more does nothing.
pub vector_release_lem :
    (v : ParamVector) (ps : Params)
    → VectorHolds v ps
    → AreParams ps
    → (v' : ParamVector) × (vector_release v ≡ done v')
      × VectorHolds v' no_params
      × (vector_release v' ≡ done v')
vector_release_lem v ps h ok = release_from v.block v.size v.max ps h.size_eq h.storage ok
