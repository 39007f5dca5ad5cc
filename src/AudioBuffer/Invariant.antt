-- ===== src/AudioBuffer/Invariant.antt =====
-- The representation invariant of the audio ring: where each block's bytes lie.
use native.Mathlib.Decide.{ℕ_discrete}
use xiaozhi.Base.{
  ℕ, zero, suc, ◌+◌, ◌*◌, ◌%◌, ◌≤◌, ◌<◌, ◌≡◌, ◌≢◌, refl, ap, ◌∙◌, true, some, arith, length,
  length-set, length-replicate, get_or, set, get_or-set_self, get_or-set_ne, size_mod, add_size,
}
use xiaozhi.Base.Int.{ℤ}
use xiaozhi.Base.Memory.{length-copy_at}
use xiaozhi.Base.Strings.{Bytes}
use xiaozhi.Base.Window.{tail_push, tail_pop}
use xiaozhi.AudioBuffer.{
  AudioBuffer, Block, zero_block, place_blocks, fresh, init, block_at, store, push, advance, pop,
}

-- Block `i` points to the `i`-th part of the storage, and fits into it.
pub record Placed (b : AudioBuffer) (i : ℕ) : Type 0 where
  pub start : (block_at b i).data_at ≡ i * b.block_capacity
  pub fits : (block_at b i).len ≤ b.block_capacity

pub record IsValid (b : AudioBuffer) : Type 0 where
  pub block_count : length b.blocks ≡ b.capacity
  pub storage_size : length b.storage ≡ b.capacity * b.block_capacity
  pub small : b.capacity < size_mod
  pub head_in : b.head < b.capacity
  pub count_in : b.count ≤ b.capacity
  pub tail_at : b.tail ≡ (b.head + b.count) % b.capacity
  pub placed : (i : ℕ) → i < b.capacity → Placed b i

-- The parts of the storage lie apart.
pub part_end : (i cap size : ℕ) → i < cap → i * size + size ≤ cap * size
part_end i cap size h = grind arith

pub tail_in : {b : AudioBuffer} → IsValid b → b.tail < b.capacity
tail_in v = omega (arith, v.tail_at)

-- In a valid ring, for bytes no longer than a block, the `memcpy` of `audio_buffer_push` stays
-- inside the block's part of the storage, and inside the storage.
pub push_in_bounds :
    {b : AudioBuffer} (bytes : Bytes)
    → IsValid b
    → length bytes ≤ b.block_capacity
    → (b.tail < length b.blocks)
      × ((block_at b b.tail).data_at + length bytes ≤ b.tail * b.block_capacity + b.block_capacity)
      × ((block_at b b.tail).data_at + length bytes ≤ length b.storage)
push_in_bounds {b} bytes v h = omega (
  arith,
  tail_in v,
  (v.placed b.tail (tail_in v)).start,
  v.block_count,
  v.storage_size,
  part_end b.tail b.capacity b.block_capacity (tail_in v),
)

length-place_blocks : (n i size : ℕ) → length (place_blocks n i size) ≡ n
unfolding place_blocks
length-place_blocks zero i size = refl
length-place_blocks (suc n) i size = ap suc (length-place_blocks n (i + 1) size)

place_blocks_at :
    (n i size k : ℕ)
    → k < n
    → get_or (place_blocks n i size) k zero_block
      ≡ record zero_block { data_at = (i + k) * size % size_mod }
unfolding place_blocks
place_blocks_at zero i size k h = absurd (omega arith)
place_blocks_at (suc n) i size zero h =
    ap (λ m. record zero_block { data_at = m * size % size_mod }) (omega arith)
place_blocks_at (suc n) i size (suc k) h =
    place_blocks_at n (i + 1) size k (omega arith)
    ∙ ap (λ m. record zero_block { data_at = m * size % size_mod }) (omega arith)

fresh-IsValid :
    (capacity block_capacity : ℕ)
    → capacity ≢ 0
    → block_capacity ≢ 0
    → capacity * block_capacity < size_mod
    → IsValid (fresh capacity block_capacity)
fresh-IsValid capacity block_capacity nonzero room h = record {
  block_count = length-place_blocks capacity 0 block_capacity;
  storage_size = length-replicate (capacity * block_capacity) 0;
  small = grind arith;
  head_in = omega arith;
  count_in = omega arith;
  tail_at = omega arith;
  placed = λ i p.
      let e = place_blocks_at capacity 0 block_capacity i p in
      record {
        start =
            ap (λ (b : Block). b.data_at) e ∙ omega (arith, part_end i capacity block_capacity p);
        fits = omega (arith, ap (λ (b : Block). b.len) e);
      };
}

-- What `audio_buffer_init` makes is valid and empty; that the storage is below 2^64 bytes is what
-- `calloc` checks.
pub init-IsValid :
    (capacity block_capacity : ℕ) {b : AudioBuffer}
    → capacity * block_capacity < size_mod
    → init capacity block_capacity true ≡ some b
    → IsValid b × (b.count ≡ 0)
unfolding init
init-IsValid capacity block_capacity {b} h e =
    let same : fresh capacity block_capacity ≡ b = ground arith in
    rw (← same) (fresh-IsValid capacity block_capacity (ground arith) (ground arith) h, refl)

store-Placed :
    {b : AudioBuffer} (bytes : Bytes) (rate : ℤ)
    → IsValid b
    → length bytes ≤ b.block_capacity
    → (i : ℕ) → i < b.capacity
    → Placed (store b bytes rate) i
unfolding store
store-Placed {b} bytes rate v h i p =
    let slot = block_at b b.tail in
    let filled = record slot { len = length bytes; sample_rate = rate } in
    elim (ℕ_discrete b.tail i) [
      | yes here ↦
          let e : get_or (set b.blocks b.tail filled) i zero_block ≡ filled =
            rw (← here) (get_or-set_self b.blocks b.tail filled zero_block (omega arith)) in
          record {
            start =
                ap (λ (k : Block). k.data_at) e
                ∙ (v.placed b.tail (tail_in v)).start
                ∙ ap (λ k. k * b.block_capacity) here;
            fits = omega (arith, h, ap (λ (k : Block). k.len) e);
          }
      | no away ↦
          let e = get_or-set_ne b.blocks b.tail i filled zero_block away in
          record {
            start = ap (λ (k : Block). k.data_at) e ∙ (v.placed i p).start;
            fits = omega (arith, ap (λ (k : Block). k.len) e, (v.placed i p).fits);
          }
    ]

store_tail :
    {b : AudioBuffer}
    → IsValid b
    → b.count ≢ b.capacity
    → add_size b.tail 1 % b.capacity ≡ (b.head + add_size b.count 1) % b.capacity
store_tail {b} v room =
    let step : add_size b.count 1 ≡ b.count + 1 = omega (arith, v.count_in, v.small) in
    rw step
      (tail_push b.capacity b.head b.count b.tail v.small (omega (arith, v.head_in)) v.tail_at)

pub store-IsValid :
    {b : AudioBuffer} (bytes : Bytes) (rate : ℤ)
    → IsValid b
    → length bytes ≤ b.block_capacity
    → b.count ≢ b.capacity
    → IsValid (store b bytes rate)
unfolding store
store-IsValid {b} bytes rate v h room = record {
  block_count = length-set _ _ _ ∙ v.block_count;
  storage_size = length-copy_at _ _ _ (push_in_bounds bytes v h).2 ∙ v.storage_size;
  small = v.small;
  head_in = v.head_in;
  count_in = omega (arith, v.count_in, v.small);
  tail_at = store_tail v room;
  placed = λ i p. store-Placed bytes rate v h i p;
}

pub push-IsValid :
    {b : AudioBuffer} (bytes : Bytes) (rate : ℤ) → IsValid b → IsValid (push b bytes rate).1
unfolding push
push-IsValid {b} bytes rate v = ground (arith, store-IsValid bytes rate v)

pub advance-IsValid : {b : AudioBuffer} → IsValid b → b.count ≢ 0 → IsValid (advance b)
unfolding advance
advance-IsValid {b} v h = record {
  block_count = v.block_count;
  storage_size = v.storage_size;
  small = v.small;
  head_in = omega (arith, v.head_in);
  count_in = omega (arith, v.count_in);
  tail_at = tail_pop b.capacity b.head b.count b.tail v.small v.head_in h v.tail_at;
  placed = λ i p. record { start = (v.placed i p).start; fits = (v.placed i p).fits };
}

pub pop-IsValid : {b : AudioBuffer} → IsValid b → IsValid (pop b).1
unfolding pop
pop-IsValid {b} v = ground (arith, advance-IsValid v)
