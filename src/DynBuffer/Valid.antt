-- ===== src/DynBuffer/Valid.antt =====
-- What a DynBuffer stands for: a list of bytes at the start of its block.
use cros.Common.{List, [], ap, arith, length, refl, ℕ, ◌≡◌, ◌≤◌}
use cros.Mem.{Pointer, dangling, live, max_object, null}
use cros.Mem.Blocks.{BeginsWith, BeginsWith-length}
use cros.DynBuffer.{DynBuffer, init}

-- Storage of the given capacity that begins with the bytes; NULL holds none.
abbrev pub Storage : Pointer → ℕ → List ℕ → Type 0
Storage null max bytes = (max ≡ 0) × (bytes ≡ [])
Storage (live blk) max bytes =
    (length blk ≡ max) × (1 ≤ max) × (max ≤ max_object) × BeginsWith blk bytes
Storage dangling max bytes = ⊥

-- The buffer is well formed and its content is these bytes.
pub record Holds (d : DynBuffer) (bytes : List ℕ) : Type 0 where
  pub size_eq : d.size ≡ length bytes
  pub storage : Storage d.block d.max bytes

-- The cursor lies within the content.
abbrev pub CursorInside : DynBuffer → Type 0
CursorInside d = d.pos_offset ≤ d.size

pub init-Holds : Holds init []
unfolding init
init-Holds = record { size_eq = refl; storage = (refl, refl) }

pub Storage-fits :
    (p : Pointer) (max : ℕ) (bytes : List ℕ) → Storage p max bytes → length bytes ≤ max
Storage-fits null max bytes s = omega (arith, ap length s.1)
Storage-fits (live blk) max bytes s = omega (arith, BeginsWith-length s.3)
Storage-fits dangling max bytes s = absurd s

pub Storage-small :
    (p : Pointer) (max : ℕ) (bytes : List ℕ) → Storage p max bytes → max ≤ max_object
Storage-small null max bytes s = omega arith
Storage-small (live blk) max bytes s = s.2
Storage-small dangling max bytes s = absurd s

pub Holds-small : (d : DynBuffer) (bytes : List ℕ) → Holds d bytes → length bytes ≤ max_object
Holds-small d bytes h =
    omega (
      arith,
      Storage-fits d.block d.max bytes h.storage,
      Storage-small d.block d.max bytes h.storage,
    )

pub init_offset : init.pos_offset ≡ 0
unfolding init
init_offset = refl
