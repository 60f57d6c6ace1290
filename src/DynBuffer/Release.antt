-- ===== src/DynBuffer/Release.antt =====
-- dynBufferRelease and dynBufferClear.
use cros.Mem.Blocks.{BeginsWith-nil}
use cros.Common.{List, [], ap, arith, length, refl, some, ℕ, ◌∙◌, ◌≡◌, ◌≤◌}
use cros.Mem.{Heap, Pointer, dangling, done, fault, live, null}
use cros.DynBuffer.{DynBuffer, clear, init, push_back_buf, push_bytes, release}
use cros.DynBuffer.Valid.{CursorInside, Holds, Storage}

-- After a release: the initial buffer if nothing was allocated; else one that faults when it is
-- released or appended to.
abbrev pub Released : Pointer → DynBuffer → Type 0
Released null d = d ≡ init
Released _ d =
    (release d ≡ fault)
    × ((heap : Heap) (buf : List ℕ) (n : ℕ) → push_back_buf heap d (some buf) n ≡ fault)

release_from :
    (size cur max : ℕ) (p : Pointer) (bytes : List ℕ)
    → Storage p max bytes
    → (d' : DynBuffer) × (release (record { size = size; pos_offset = cur; max = max; block = p })
        ≡ done d')
      × Released p d'
unfolding release init push_back_buf push_bytes
release_from size cur max null bytes s = (init, refl, refl)
release_from size cur max (live blk) bytes s = (
  record { size = 0; pos_offset = 0; max = 0; block = dangling },
  refl,
  (refl, λ heap buf n. refl),
)
release_from size cur max dangling bytes s = absurd s

-- Releasing a well-formed buffer returns. If it had no block the result is the initial buffer; if
-- it had one, a second release of the result and any append to it are undefined behaviour.
pub release_lem :
    (d : DynBuffer) (bytes : List ℕ)
    → Holds d bytes
    → (d' : DynBuffer) × (release d ≡ done d') × Released d.block d'
release_lem d bytes h = release_from d.size d.pos_offset d.max d.block bytes h.storage

clear_from :
    (size cur max : ℕ) (p : Pointer) (bytes : List ℕ)
    → Storage p max bytes
    → size ≡ length bytes
    → cur ≤ size
    → Holds (clear (record { size = size; pos_offset = cur; max = max; block = p })) []
      × ((clear (record { size = size; pos_offset = cur; max = max; block = p })).pos_offset ≡ 0)
unfolding clear
clear_from size cur max null bytes s e inside =
    (record { size_eq = e ∙ ap length s.1; storage = (s.0, refl) }, omega (arith, ap length s.1))
clear_from size cur max (live blk) bytes s e inside =
    (record { size_eq = refl; storage = (s.0, s.1, s.2, BeginsWith-nil blk) }, refl)
clear_from size cur max dangling bytes s e inside = absurd s

pub clear-Holds :
    (d : DynBuffer) (bytes : List ℕ)
    → Holds d bytes
    → CursorInside d
    → Holds (clear d) [] × ((clear d).pos_offset ≡ 0)
clear-Holds d bytes h inside =
    clear_from d.size d.pos_offset d.max d.block bytes h.storage h.size_eq inside

pub init-CursorInside : CursorInside init
unfolding init
init-CursorInside = omega arith
