-- ===== src/AudioBuffer.antt =====
-- src/audio_buffer.c: a ring of audio blocks over one array of bytes. A block's `data` pointer is the
-- offset in `storage` to which it points, so a block that was popped still shares the ring's bytes.
-- Each call holds the mutex; pointers are not NULL.
pub mod Invariant
pub mod Refine
pub mod Aliasing
use xiaozhi.Base.{
  ℕ, ◌+◌, ◌-◌, ◌*◌, ◌%◌, Bool, true, false, not, ◌||◌, List, [], ◌∷◌, Option, none, some, Status,
  ok, failed, ◌==◌, ltb, if◌then◌else◌, zero, suc, add_size, size_mod, length, get_or, set,
  replicate,
}
use xiaozhi.Base.Int.{ℤ, pos}
use xiaozhi.Base.Memory.{copy_at, slice}
use xiaozhi.Base.Strings.{Bytes}

pub record Block : Type 0 where
  pub data_at : ℕ
  pub len : ℕ
  pub sample_rate : ℤ

pub record AudioBuffer : Type 0 where
  pub blocks : List Block
  pub storage : Bytes
  pub capacity : ℕ
  pub block_capacity : ℕ
  pub head : ℕ
  pub tail : ℕ
  pub count : ℕ

-- A block as `calloc` leaves it.
abbrev pub zero_block : Block
zero_block = record { data_at = 0; len = 0; sample_rate = pos 0 }

-- The `for` loop of `audio_buffer_init`: `rounds` blocks, from the `i`-th on.
unfoldable pub place_blocks : ℕ → ℕ → ℕ → List Block
place_blocks zero i block_capacity = []
place_blocks (suc rounds) i block_capacity =
    record zero_block { data_at = i * block_capacity % size_mod }
    ∷ place_blocks rounds (i + 1) block_capacity

-- What the calls of `calloc` and the loop make.
abbrev pub fresh : ℕ → ℕ → AudioBuffer
fresh capacity block_capacity = record {
  blocks = place_blocks capacity 0 block_capacity;
  storage = replicate (capacity * block_capacity) 0;
  capacity = capacity;
  block_capacity = block_capacity;
  head = 0;
  tail = 0;
  count = 0;
}

-- `allocated` is whether both calls of `calloc` found the memory.
unfoldable pub init : ℕ → ℕ → Bool → Option AudioBuffer
init capacity block_capacity allocated =
    if capacity == 0 || block_capacity == 0 || not allocated
    then none
    else some (fresh capacity block_capacity)

abbrev pub block_at : AudioBuffer → ℕ → Block
block_at buffer i = get_or buffer.blocks i zero_block

-- The bytes to which a block points.
abbrev pub read : AudioBuffer → Block → Bytes
read buffer block = slice buffer.storage block.data_at block.len

-- The writes of `audio_buffer_push` behind its guards; `len` is the length of `bytes`.
unfoldable pub store : AudioBuffer → Bytes → ℤ → AudioBuffer
store buffer bytes sample_rate =
    let slot = block_at buffer buffer.tail in
    record buffer {
      storage = copy_at buffer.storage slot.data_at bytes;
      blocks =
          set buffer.blocks buffer.tail
            (record slot { len = length bytes; sample_rate = sample_rate });
      tail = add_size buffer.tail 1 % buffer.capacity;
      count = add_size buffer.count 1;
    }

unfoldable pub push : AudioBuffer → Bytes → ℤ → Status × AudioBuffer
push buffer bytes sample_rate =
    if ltb buffer.block_capacity (length bytes)
    then (failed, buffer)
    else if buffer.count == buffer.capacity
    then (failed, buffer)
    else (ok, store buffer bytes sample_rate)

-- The writes of `audio_buffer_pop` behind its guard.
unfoldable pub advance : AudioBuffer → AudioBuffer
advance buffer = record buffer {
  head = add_size buffer.head 1 % buffer.capacity;
  count = buffer.count - 1;
}

-- The block goes out by value, its bytes stay in the buffer; `none` is the return value 0.
unfoldable pub pop : AudioBuffer → Option Block × AudioBuffer
pop buffer =
    if buffer.count == 0
    then (none, buffer)
    else (some (block_at buffer buffer.head), advance buffer)

unfoldable pub size : AudioBuffer → ℕ
size buffer = buffer.count

-- What `memset` leaves.
abbrev pub zero_buffer : AudioBuffer
zero_buffer = record {
  blocks = [];
  storage = [];
  capacity = 0;
  block_capacity = 0;
  head = 0;
  tail = 0;
  count = 0;
}

unfoldable pub destroy : AudioBuffer → AudioBuffer
destroy buffer = zero_buffer
