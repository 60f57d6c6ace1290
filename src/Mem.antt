-- ===== src/Mem.antt =====
-- The C memory that dyn_buffer.c, dyn_string.c and the XMLRPC code use: blocks from malloc and
-- realloc, pointers to them, memcpy and memmove. Undefined behaviour is the outcome `fault`.
pub mod Blocks
use cros.Common.{
  Bool, List, Option, drop, if◌then◌else◌, int_max, leb, length, map, none, replicate, some, suc,
  take, true, ℕ, ◌++◌, ◌+◌, ◌-◌, ◌==◌, ◌^◌, ◌≡◌, ◌≤◌,
}

-- What a piece of code does: it returns, it meets undefined behaviour, or a loop that is run on
-- fuel has used it up.
pub data Run {ℓ} (A : Type ℓ) : Type ℓ where
  done : A → Run A
  fault no_fuel : Run A

infixl 5 ◌>>=◌
abbrev pub ◌>>=◌ {ℓ κ} : {A : Type ℓ} {B : Type κ} → Run A → (A → Run B) → Run B
done a >>= f = f a
fault >>= f = fault
no_fuel >>= f = no_fuel

-- A byte of a block; `none` is a byte that nothing has been stored in.
abbrev pub Cell : Type 0
Cell = Option ℕ

abbrev pub Block : Type 0
Block = List Cell

-- A pointer that a structure owns: NULL, to a live block, or to one that was freed.
pub data Pointer : Type 0 where
  null dangling : Pointer
  live : Block → Pointer

-- Whether the allocator has n bytes to give. A call of the program asks for several sizes, each
-- larger than the one before, so that every pattern of failures is a function of the size.
abbrev pub Heap : Type 0
Heap = ℕ → Bool

-- No object is larger than PTRDIFF_MAX: malloc and realloc return NULL above it.
abbrev pub max_object : ℕ
max_object = 2 ^ 63 - 1

abbrev pub IsHeap : Heap → Type 0
IsHeap heap = (n : ℕ) → heap n ≡ true → n ≤ max_object

unfoldable pub malloc : Heap → ℕ → Option Block
malloc heap n = if heap n then some (replicate n none) else none

-- The first bytes are kept.
unfoldable pub resize : ℕ → Block → Block
resize n blk = take n blk ++ replicate (n - length blk) none

-- `none` is NULL: the old block is still there. The C standard leaves a size of 0 undefined.
unfoldable pub realloc : Heap → Block → ℕ → Run (Option Block)
realloc heap blk n =
    if n == 0 then fault else if heap n then done (some (resize n blk)) else done none

unfoldable pub splice : ℕ → Block → Block → Block
splice i cells blk = take i blk ++ (cells ++ drop (i + length cells) blk)

-- memcpy of bytes to offset i of a block.
unfoldable pub write : Block → ℕ → List ℕ → Run Block
write blk i bytes =
    if leb (i + length bytes) (length blk) then done (splice i (map some bytes) blk) else fault

-- n bytes of a caller's buffer.
unfoldable pub read_buf : List ℕ → ℕ → Run (List ℕ)
read_buf buf n = if leb n (length buf) then done (take n buf) else fault

-- n cells at offset i of a block, for memcpy out of it and memmove within it.
unfoldable pub read : Block → ℕ → ℕ → Run Block
read blk i n = if leb (i + n) (length blk) then done (take n (drop i blk)) else fault

unfoldable pub write_cells : Block → ℕ → Block → Run Block
write_cells blk i cells =
    if leb (i + length cells) (length blk) then done (splice i cells blk) else fault

-- An `int` result: overflow is undefined.
abbrev pub int : ℕ → Run ℕ
int n = if leb n int_max then done n else fault

-- A pointer to a value that a structure owns.
pub data Ptr {ℓ} (A : Type ℓ) : Type ℓ where
  nil_ptr dangling_ptr : Ptr A
  owned : A → Ptr A

-- free: NULL is allowed, a pointer to freed memory is not. The pointer itself is not reset.
abbrev pub free {ℓ} : {A : Type ℓ} → Ptr A → Run (Ptr A)
free nil_ptr = done nil_ptr
free (owned a) = done dangling_ptr
free dangling_ptr = fault

-- Where a piece of code asks for memory more than once and in any order of sizes: whether each of
-- the requests to come is met, counted from 0.
abbrev pub Answers : Type 0
Answers = ℕ → Bool

abbrev pub later : Answers → Answers
later a = λ n. a (suc n)

-- Every request is met.
abbrev pub plenty : Answers
plenty = λ n. true
