-- ===== src/DynBuffer/Grow.antt =====
-- The loop of dynBufferPushBackBuf that makes room.
use native.Mathlib.Nat.{pow-suc}
use cros.Common.{
  Bool, Bool-cases, List, ap, arith, false, if◌then◌else◌, inl, inr, length, ltb, ltb_false→le,
  mul_size, none, some, suc, true, zero, ℕ, ◌*◌, ◌^◌, ◌≡◌, ◌≤◌,
}
use cros.Mem.{Block, Heap, IsHeap, Run, done, max_object, realloc, resize}
use cros.Mem.Blocks.{BeginsWith, BeginsWith-resize, length-resize}
use cros.DynBuffer.{grow}

-- What the growth loop leaves: a block that still begins with the bytes.
pub record Grown (need : ℕ) (bytes : List ℕ) (r : Run (Bool × ℕ × Block)) : Type 0 where
  pub enough : Bool
  pub max' : ℕ
  pub blk' : Block
  pub returns : r ≡ done (enough, max', blk')
  pub capacity : length blk' ≡ max'
  pub positive : 1 ≤ max'
  pub small : max' ≤ max_object
  pub keeps : BeginsWith blk' bytes
  pub room : enough ≡ true → need ≤ max'

pub double_fuel : (m f : ℕ) → 2 ^ 63 ≤ m * 2 ^ suc f → 2 ^ 63 ≤ 2 * m * 2 ^ f
double_fuel m f h = omega (arith, ap (λ (t : ℕ). m * t) (pow-suc 2 f))

double_size : (m : ℕ) → m ≤ max_object → mul_size 2 m ≡ 2 * m
double_size m h = omega arith

module _ (heap : Heap) (valid : IsHeap heap) (need : ℕ) (bytes : List ℕ) where
  realloc_double :
      (max : ℕ) (blk : Block)
      → 1 ≤ max
      → max ≤ max_object
      → realloc heap blk (mul_size 2 max)
        ≡ (if heap (2 * max) then done (some (resize (2 * max) blk)) else done none)
  unfolding realloc
  realloc_double max blk one small = rw (double_size max small) (ground arith)

  module _ (fuel max : ℕ) (blk : Block) (one : 1 ≤ max) (small : max ≤ max_object) where
    pub grow_stops :
        ltb max need ≡ false → grow (suc fuel) heap need max blk ≡ done (true, max, blk)
    unfolding grow
    grow_stops fits = rw (fits, grow)

    grow_fails :
        ltb max need ≡ true
        → heap (2 * max) ≡ false
        → grow (suc fuel) heap need max blk ≡ done (false, max, blk)
    unfolding grow
    grow_fails more no_memory = rw (more, grow, realloc_double max blk one small, no_memory)

    pub grow_goes_on :
        ltb max need ≡ true
        → heap (2 * max) ≡ true
        → grow (suc fuel) heap need max blk ≡ grow fuel heap need (2 * max) (resize (2 * max) blk)
    unfolding grow
    grow_goes_on more got =
        rw (more, grow, realloc_double max blk one small, got, double_size max small)

  pub grow-Grown :
      (fuel max : ℕ) (blk : Block)
      → length blk ≡ max
      → 1 ≤ max
      → max ≤ max_object
      → 2 ^ 63 ≤ max * 2 ^ fuel
      → BeginsWith blk bytes
      → Grown need bytes (grow fuel heap need max blk)
  grow-Grown zero max blk len one small enough b = absurd (omega arith)
  grow-Grown (suc fuel) max blk len one small enough b = elim (Bool-cases (ltb max need)) [
    | inl more ↦ elim (Bool-cases (heap (2 * max))) [
      | inl got ↦ rw (grow_goes_on fuel max blk one small more got) (
          grow-Grown fuel (2 * max) (resize (2 * max) blk) (length-resize (2 * max) blk)
            (omega arith) (valid (2 * max) got) (double_fuel max fuel enough)
            (BeginsWith-resize (2 * max) (omega arith) b))
      | inr no_memory ↦ record {
        enough = false;
        max' = max;
        blk' = blk;
        returns = grow_fails fuel max blk one small more no_memory;
        capacity = len;
        positive = one;
        small = small;
        keeps = b;
        room = λ h. cc;
      }
    ]
    | inr fits ↦ record {
      enough = true;
      max' = max;
      blk' = blk;
      returns = grow_stops fuel max blk one small fits;
      capacity = len;
      positive = one;
      small = small;
      keeps = b;
      room = λ _. ltb_false→le max need fits;
    }
  ]
