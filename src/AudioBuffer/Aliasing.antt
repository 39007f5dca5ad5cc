-- ===== src/AudioBuffer/Aliasing.antt =====
-- How long the bytes of a popped block last: `audio_playback_thread` reads them after
-- `audio_buffer_pop` has given the block back to the ring.
use xiaozhi.Base.{
  ℕ, ◌+◌, ◌*◌, ◌%◌, ◌≤◌, ◌<◌, ◌≡◌, ◌≢◌, refl, sym, ap, ◌∙◌, List, [], ◌∷◌, some, ok, arith, length,
  take, add_size-eq_add,
}
use xiaozhi.Base.Int.{ℤ}
use xiaozhi.Base.Memory.{copy_at, slice, slice-copy_at_le}
use xiaozhi.Base.Strings.{Bytes}
use xiaozhi.Base.Window.{step-ne_start, round, round_trip}
use xiaozhi.AudioBuffer.Invariant.{IsValid, tail_in, push_in_bounds, push-IsValid, advance-IsValid}
use xiaozhi.AudioBuffer.Refine.{Chunk, read-store}
use xiaozhi.AudioBuffer.{AudioBuffer, Block, block_at, read, store, push, advance, pop}

-- Pushes by another thread.
unfoldable pub push_all : AudioBuffer → List Chunk → AudioBuffer
push_all b [] = b
push_all b ((bytes, rate) ∷ chunks) = push_all (push b bytes rate).1 chunks

-- Block `k` lies in the part just behind the head of `b`, as a popped block does.
record Behind (b : AudioBuffer) (i : ℕ) (k : Block) : Type 0 where
  part_in : i < b.capacity
  head_next : b.head ≡ (i + 1) % b.capacity
  start : k.data_at ≡ i * b.block_capacity
  fits : k.len ≤ b.block_capacity

head_block : {b : AudioBuffer} → IsValid b → Behind (advance b) b.head (block_at b b.head)
unfolding advance
head_block {b} v = record {
  part_in = v.head_in;
  head_next =
      ap (λ m. m % b.capacity) (add_size-eq_add b.head 1 (omega (arith, v.head_in, v.small)));
  start = (v.placed b.head v.head_in).start;
  fits = (v.placed b.head v.head_in).fits;
}

counted : (b : AudioBuffer) → b.count ≢ 0 → (advance b).count + 1 ≡ b.count
unfolding advance
counted b h = omega arith

-- Where the next push goes, from such a part.
tail_of :
    {b : AudioBuffer} {i : ℕ} {k : Block}
    → IsValid b
    → Behind b i k
    → b.tail ≡ (i + (b.count + 1)) % b.capacity
tail_of {b} {i} v h =
    v.tail_at ∙ ap (λ m. (m + b.count) % b.capacity) h.head_next ∙ round b.capacity i b.count

capacity-push :
    (b : AudioBuffer) (bytes : Bytes) (rate : ℤ) → (push b bytes rate).1.capacity ≡ b.capacity
unfolding push store
capacity-push b bytes rate = ground arith

capacity-advance : (b : AudioBuffer) → (advance b).capacity ≡ b.capacity
unfolding advance
capacity-advance b = refl

storage-advance : (b : AudioBuffer) → (advance b).storage ≡ b.storage
unfolding advance
storage-advance b = refl

pop-Behind :
    {b b' : AudioBuffer} {k : Block}
    → IsValid b
    → pop b ≡ (some k, b')
    → Behind b' b.head k
      × (b'.count + 1 ≡ b.count)
      × IsValid b'
      × (b'.capacity ≡ b.capacity)
      × (b'.storage ≡ b.storage)
unfolding pop
pop-Behind {b} {b'} {k} v e =
    let h : b.count ≢ 0 = ground arith in
    let same : block_at b b.head ≡ k = ground arith in
    let after : advance b ≡ b' = ground arith in
    rw (← same, ← after)
      (head_block v, counted b h, advance-IsValid v h, capacity-advance b, storage-advance b)

-- The next push does not reach the part behind the head while the ring has two free blocks,
tail-ne :
    {b : AudioBuffer} {i : ℕ} {k : Block}
    → IsValid b
    → Behind b i k
    → b.count + 1 < b.capacity
    → b.tail ≢ i
tail-ne {b} {i} v h room e =
    step-ne_start b.capacity i b.count h.part_in room (sym (sym e ∙ tail_of v h))

-- and goes to just that part when it has one.
tail-eq :
    {b : AudioBuffer} {i : ℕ} {k : Block}
    → IsValid b
    → Behind b i k
    → b.count + 1 ≡ b.capacity
    → b.tail ≡ i
tail-eq {b} {i} v h full = tail_of v h ∙ rw full (round_trip b.capacity i h.part_in)

push-Behind :
    {b : AudioBuffer} {i : ℕ} {k : Block} (bytes : Bytes) (rate : ℤ)
    → Behind b i k
    → Behind (push b bytes rate).1 i k
unfolding push store
push-Behind bytes rate h = ground arith

read-push :
    {b : AudioBuffer} {i : ℕ} {k : Block} (bytes : Bytes) (rate : ℤ)
    → IsValid b
    → Behind b i k
    → b.count + 1 < b.capacity
    → read (push b bytes rate).1 k ≡ read b k
unfolding push
read-push {b} {i} {k} bytes rate v h room =
    ground (arith, read-store bytes rate i k v, tail-ne v h room, h.start, h.fits)

count-push-le :
    (b : AudioBuffer) (bytes : Bytes) (rate : ℤ) → (push b bytes rate).1.count ≤ b.count + 1
unfolding push store
count-push-le b bytes rate = ground arith

read-push_all :
    (chunks : List Chunk) {b : AudioBuffer} {i : ℕ} {k : Block}
    → IsValid b
    → Behind b i k
    → b.count + length chunks < b.capacity
    → read (push_all b chunks) k ≡ read b k
unfolding push_all
read-push_all [] v h room = refl
read-push_all ((bytes, rate) ∷ chunks) {b} v h room =
    read-push_all chunks (push-IsValid bytes rate v) (push-Behind bytes rate h)
      (omega (arith, count-push-le b bytes rate, capacity-push b bytes rate))
    ∙ read-push bytes rate v h (omega arith)

-- The bytes of a block popped from a valid ring last while the blocks held before the pop and the
-- pushes that follow are together no more than the ring has blocks.
pub popped_lasts :
    {b b' : AudioBuffer} {k : Block} (chunks : List Chunk)
    → IsValid b
    → pop b ≡ (some k, b')
    → b.count + length chunks ≤ b.capacity
    → read (push_all b' chunks) k ≡ read b k
popped_lasts {b} {b'} {k} chunks v e room =
    let (behind, count, valid, cap, same) = pop-Behind v e in
    read-push_all chunks valid behind (omega arith)
    ∙ ap (λ (s : Bytes). slice s k.data_at k.len) same

read-store_part :
    {b : AudioBuffer} {i : ℕ} {k : Block} (bytes : Bytes) (rate : ℤ)
    → IsValid b
    → Behind b i k
    → b.count + 1 ≡ b.capacity
    → length bytes ≤ b.block_capacity
    → k.len ≤ length bytes
    → read (store b bytes rate) k ≡ take k.len bytes
unfolding store
read-store_part {b} {i} {k} bytes rate v h full fit le =
    let part : k.data_at ≡ (block_at b b.tail).data_at =
      h.start
      ∙ ap (λ m. m * b.block_capacity) (sym (tail-eq v h full))
      ∙ sym (v.placed b.tail (tail_in v)).start in
    ap (λ m. slice (copy_at b.storage (block_at b b.tail).data_at bytes) m k.len) part
    ∙ slice-copy_at_le b.storage (block_at b b.tail).data_at bytes k.len
        (push_in_bounds bytes v fit).2 le

-- Popped from a full valid ring, a block is written over by the next push: its pointer then reads
-- the start of the pushed bytes, if these are at least as many as its own.
pub popped_overwritten :
    {b b' b'' : AudioBuffer} {k : Block} (bytes : Bytes) (rate : ℤ)
    → IsValid b
    → b.count ≡ b.capacity
    → pop b ≡ (some k, b')
    → push b' bytes rate ≡ (ok, b'')
    → k.len ≤ length bytes
    → read b'' k ≡ take k.len bytes
unfolding push
popped_overwritten {b} {b'} {b''} {k} bytes rate v full e e' le =
    let (behind, count, valid, cap, same) = pop-Behind v e in
    let stored : store b' bytes rate ≡ b'' = ground arith in
    rw (← stored) (read-store_part bytes rate valid behind (omega arith) (ground arith) le)
