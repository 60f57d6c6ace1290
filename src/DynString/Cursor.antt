-- ===== src/DynString/Cursor.antt =====
-- The cursor of a DynString, and releasing it.
use cros.Common.{
  Bool-cases, List, [], arith, drop, if◌then◌else◌, inl, inr, int_max, length, length-drop, ltb,
  min, negsuc, pos, refl, suc, ℕ, ℤ, ◌+◌, ◌-◌, ◌∙◌, ◌≡◌, ◌≤◌,
}
use cros.Mem.{Pointer, dangling, done, live, null}
use cros.DynString.{
  DynString, clamp_cursor, get_remaining_data_size, init, move_pose_indicator, moved_cursor,
  release, set_pose_indicator,
}
use cros.DynString.Push.{int_fits}
use cros.DynString.Valid.{Holds, Storage, init-Holds}

-- Where the cursor is put: the wanted place, or the nearer end of the content.
abbrev pub clamped : ℕ → ℤ → ℕ
clamped len (pos p) = min p len
clamped len (negsuc k) = 0

set_lem_at :
    (d : DynString) (chars : List ℕ) (p : ℤ)
    → Holds d chars
    → (Holds (clamp_cursor d p) chars) × ((clamp_cursor d p).pos_offset ≡ clamped d.len p)
unfolding clamp_cursor
set_lem_at d chars (pos p) h = elim (Bool-cases (ltb d.len p)) [
  | inl past ↦
      rw past
        (record { len_eq = h.len_eq; cursor = omega arith; storage = h.storage }, ground arith)
  | inr inside ↦
      rw inside
        (record { len_eq = h.len_eq; cursor = ground arith; storage = h.storage }, ground arith)
]
set_lem_at d chars (negsuc k) h =
    (record { len_eq = h.len_eq; cursor = omega arith; storage = h.storage }, refl)

-- dynStringSetPoseIndicator leaves the content, and puts the cursor at the given place or at the
-- nearer end of the content.
pub set_pose_indicator_lem :
    (d : DynString) (chars : List ℕ) (p : ℤ)
    → Holds d chars
    → (Holds (set_pose_indicator d p) chars)
      × ((set_pose_indicator d p).pos_offset ≡ clamped d.len p)
unfolding set_pose_indicator
set_pose_indicator_lem d chars p h = set_lem_at d chars p h

-- The cursor after a move by an offset: within the content, whatever the offset.
abbrev pub moved : ℕ → ℕ → ℤ → ℕ
moved len cur (pos o) = min (cur + o) len
moved len cur (negsuc k) = cur - suc k

-- The sum is an `int`.
abbrev pub SumFits : ℕ → ℤ → Type 0
SumFits cur (pos o) = cur + o ≤ int_max
SumFits cur (negsuc k) = Unit {0}

-- dynStringMovePoseIndicator on a well-formed string, where `pos_offset + offset` fits in an `int`:
-- it leaves the content and moves the cursor by the offset, stopping at the ends of the content.
pub move_pose_indicator_lem :
    (d : DynString) (chars : List ℕ) (offset : ℤ)
    → Holds d chars
    → SumFits d.pos_offset offset
    → (d' : DynString) × (move_pose_indicator d offset ≡ done d')
      × Holds d' chars
      × (d'.pos_offset ≡ moved d.len d.pos_offset offset)
unfolding move_pose_indicator moved_cursor
move_pose_indicator_lem d chars (pos o) h fits =
    let r = set_lem_at d chars (pos (d.pos_offset + o)) h in
    (clamp_cursor d (pos (d.pos_offset + o)), rw (int_fits (d.pos_offset + o) fits), r.0, r.1)
move_pose_indicator_lem d chars (negsuc k) h fits =
    let q : ℤ =
      if ltb k d.pos_offset then pos (d.pos_offset - suc k) else negsuc (k - d.pos_offset) in
    let r = set_lem_at d chars q h in (clamp_cursor d q, refl, r.0, r.1 ∙ back)
  where
    back :
        clamped d.len
          (if ltb k d.pos_offset then pos (d.pos_offset - suc k) else negsuc (k - d.pos_offset))
        ≡ d.pos_offset - suc k
    back = ground (arith, h.cursor)

-- On a well-formed string the remaining size is the number of characters from the cursor on.
pub get_remaining_data_size_lem :
    (d : DynString) (chars : List ℕ)
    → Holds d chars
    → get_remaining_data_size d ≡ pos (length (drop d.pos_offset chars))
unfolding get_remaining_data_size
get_remaining_data_size_lem d chars h =
    ground (arith, length-drop d.pos_offset chars, h.len_eq, h.cursor)

release_from :
    (len cur max : ℕ) (p : Pointer) (chars : List ℕ)
    → Storage p max chars
    → release (record { len = len; pos_offset = cur; max = max; block = p }) ≡ done init
unfolding release init
release_from len cur max null chars s = refl
release_from len cur max (live blk) chars s = refl
release_from len cur max dangling chars s = absurd s

-- dynStringRelease of a well-formed string gives the initial string, which is well formed again and
-- can be released once more: the pointer does not dangle.
pub release-init :
    (d : DynString) (chars : List ℕ)
    → Holds d chars
    → (release d ≡ done init) × Holds init [] × (release init ≡ done init)
unfolding init
release-init d chars h = (
  release_from d.len d.pos_offset d.max d.block chars h.storage,
  init-Holds,
  release_from 0 0 0 null [] init-Holds.storage,
)
