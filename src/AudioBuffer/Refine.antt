-- ===== src/AudioBuffer/Refine.antt =====
-- A valid audio ring behaves as the bounded queue of its blocks, each with the bytes it points to.
use native.Mathlib.Decide.{ℕ_discrete, dec_lt}
use mathlib.Core.Option
use xiaozhi.Base.{
  ℕ, suc, ◌+◌, ◌*◌, ◌≤◌, ◌<◌, ◌≡◌, ◌≢◌, ◌⊎◌, inl, inr, refl, sym, ap, ◌∙◌, List, [], ◌∷◌, ◌++◌,
  Option, none, some, failed, ltb, if◌then◌else◌, arith, length, get_or-set_self, get_or-set_ne,
  add_size,
}
use xiaozhi.Base.Int.{ℤ}
use xiaozhi.Base.Memory.{slice-copy_at, slice-copy_at_frame}
use xiaozhi.Base.Strings.{Bytes}
use xiaozhi.Base.Window.{window, length-window, window_split, window_push}
use xiaozhi.Fifo
use xiaozhi.Fifo.{Op, put, get, Reply, answered, received}
use xiaozhi.AudioBuffer.Invariant.{
  IsValid, tail_in, part_end, push_in_bounds, push-IsValid, advance-IsValid,
}
use xiaozhi.AudioBuffer.{AudioBuffer, Block, zero_block, block_at, read, store, push, advance, pop}

-- A block with the bytes that it points to.
abbrev pub Chunk : Type 0
Chunk = Bytes × ℤ

abbrev pub chunk : AudioBuffer → Block → Chunk
chunk b k = (read b k, k.sample_rate)

abbrev pub contents : AudioBuffer → List Chunk
contents b = window (λ i. chunk b (block_at b i)) b.capacity b.head b.count

pub length-contents : (b : AudioBuffer) → length (contents b) ≡ b.count
length-contents b = length-window (λ i. chunk b (block_at b i)) b.capacity b.head b.count

apart : (i j size : ℕ) → i ≢ j → (i * size + size ≤ j * size) ⊎ (j * size + size ≤ i * size)
apart i j size h = elim (dec_lt i j) [
  | yes p ↦ inl (part_end i j size p)
  | no p ↦ inr (part_end j i size (omega arith))
]

-- A push writes to the part of the block at `tail`, so what another part holds stays.
pub read-store :
    {b : AudioBuffer} (bytes : Bytes) (rate : ℤ) (i : ℕ) (k : Block)
    → IsValid b
    → length bytes ≤ b.block_capacity
    → i ≢ b.tail
    → k.data_at ≡ i * b.block_capacity
    → k.len ≤ b.block_capacity
    → read (store b bytes rate) k ≡ read b k
unfolding store
read-store {b} bytes rate i k v h ne start fits =
    slice-copy_at_frame b.storage (block_at b b.tail).data_at bytes k.data_at k.len
      (ground (arith, apart i b.tail b.block_capacity ne, (v.placed b.tail (tail_in v)).start))

store_new :
    {b : AudioBuffer} (bytes : Bytes) (rate : ℤ)
    → IsValid b
    → length bytes ≤ b.block_capacity
    → chunk (store b bytes rate) (block_at (store b bytes rate) b.tail) ≡ (bytes, rate)
unfolding store
store_new {b} bytes rate v h =
    let slot = block_at b b.tail in
    let filled = record slot { len = length bytes; sample_rate = rate } in
    ap (chunk (store b bytes rate))
      (get_or-set_self b.blocks b.tail filled zero_block (push_in_bounds bytes v h).0)
    ∙ ap (λ (x : Bytes). (x, rate))
        (slice-copy_at b.storage slot.data_at bytes (push_in_bounds bytes v h).2)

block_at-store_ne :
    (b : AudioBuffer) (bytes : Bytes) (rate : ℤ) (j : ℕ)
    → j ≢ b.tail
    → block_at (store b bytes rate) j ≡ block_at b j
unfolding store
block_at-store_ne b bytes rate j ne = get_or-set_ne b.blocks b.tail j _ zero_block (λ e. ne (sym e))

store_old :
    {b : AudioBuffer} (bytes : Bytes) (rate : ℤ)
    → IsValid b
    → length bytes ≤ b.block_capacity
    → (j : ℕ) → j < b.capacity
    → j ≢ b.tail
    → chunk (store b bytes rate) (block_at (store b bytes rate) j) ≡ chunk b (block_at b j)
store_old {b} bytes rate v h j p ne =
    ap (chunk (store b bytes rate)) (block_at-store_ne b bytes rate j ne)
    ∙ ap (λ (x : Bytes). (x, (block_at b j).sample_rate))
        (read-store bytes rate j (block_at b j) v h ne (v.placed j p).start (v.placed j p).fits)

-- The window after a push, with its count written as a successor.
contents-store :
    {b : AudioBuffer} (bytes : Bytes) (rate : ℤ)
    → IsValid b
    → b.count ≢ b.capacity
    → contents (store b bytes rate)
      ≡ window
          (λ i. chunk (store b bytes rate) (block_at (store b bytes rate) i))
          b.capacity
          b.head
          (suc b.count)
unfolding store
contents-store {b} bytes rate v room =
    let step : add_size b.count 1 ≡ suc b.count = omega (arith, v.count_in, v.small) in
    ap
      (window (λ i. chunk (store b bytes rate) (block_at (store b bytes rate) i)) b.capacity b.head)
      step

pub store_refines :
    {b : AudioBuffer} (bytes : Bytes) (rate : ℤ)
    → IsValid b
    → length bytes ≤ b.block_capacity
    → b.count ≢ b.capacity
    → contents (store b bytes rate) ≡ contents b ++ (bytes, rate) ∷ []
store_refines {b} bytes rate v h room =
    contents-store bytes rate v room
    ∙ window_push (λ i. chunk b (block_at b i))
        (λ i. chunk (store b bytes rate) (block_at (store b bytes rate) i)) b.capacity (bytes, rate)
        b.tail (store_new bytes rate v h) (store_old bytes rate v h) b.count b.head v.head_in
        (omega (arith, v.count_in)) v.tail_at

-- What a client gets that reads the popped block at once, as `xiaozhi_client_pop_binary_locked` does.
unfoldable pub pop_chunk : AudioBuffer → Option Chunk × AudioBuffer
pop_chunk b = let (k, b') = pop b in (Option.map (chunk b') k, b')

pop_chunk_empty : (b : AudioBuffer) → b.count ≡ 0 → pop_chunk b ≡ (none, b)
unfolding pop_chunk pop
pop_chunk_empty b h = ground arith

pop_chunk-some :
    (b : AudioBuffer)
    → b.count ≢ 0
    → pop_chunk b ≡ (some (chunk (advance b) (block_at b b.head)), advance b)
unfolding pop_chunk pop
pop_chunk-some b h = ground arith

pub advance_refines :
    {b : AudioBuffer}
    → IsValid b
    → b.count ≢ 0
    → contents b ≡ chunk (advance b) (block_at b b.head) ∷ contents (advance b)
unfolding advance
advance_refines {b} v h =
    let step : add_size b.head 1 ≡ b.head + 1 = omega (arith, v.head_in, v.small) in
    rw step (window_split (λ i. chunk b (block_at b i)) b.capacity b.head b.count h)

capacity-advance : (b : AudioBuffer) → (advance b).capacity ≡ b.capacity
unfolding advance
capacity-advance b = refl

pop_empty : (b : AudioBuffer) → b.count ≡ 0 → pop b ≡ (none, b)
unfolding pop
pop_empty b h = ground arith

pop-some : (b : AudioBuffer) → b.count ≢ 0 → pop b ≡ (some (block_at b b.head), advance b)
unfolding pop
pop-some b h = ground arith

-- A pop finds nothing, or takes the oldest block off.
pub pop_cases :
    {b : AudioBuffer}
    → IsValid b
    → ((contents b ≡ []) × (pop b ≡ (none, b)))
      ⊎ ((k : Block) × (b' : AudioBuffer) × (pop b ≡ (some k, b'))
          × (contents b ≡ chunk b' k ∷ contents b')
          × IsValid b')
pop_cases {b} v = elim (ℕ_discrete b.count 0) [
  | yes h ↦ inl (ap (window (λ i. chunk b (block_at b i)) b.capacity b.head) h, pop_empty b h)
  | no h ↦
      inr (block_at b b.head, advance b, pop-some b h, advance_refines v h, advance-IsValid v h)
]

pub pop_chunk_refines :
    {b : AudioBuffer}
    → IsValid b
    → let (k, b') = pop_chunk b in
      ((k, contents b') ≡ Fifo.pop (contents b)) × IsValid b' × (b'.capacity ≡ b.capacity)
unfolding Fifo.pop
pop_chunk_refines {b} v = elim (ℕ_discrete b.count 0) [
  | yes h ↦ rw (pop_chunk_empty b h) (rw h refl, v, refl)
  | no h ↦
      rw (pop_chunk-some b h) (rw (advance_refines v h), advance-IsValid v h, capacity-advance b)
]

-- A push of a block that fits is a push into the bounded queue; a larger one is refused and changes
-- nothing.
pub push_refines :
    {b : AudioBuffer} (bytes : Bytes) (rate : ℤ)
    → IsValid b
    → let (s, b') = push b bytes rate in
      (s, contents b') ≡ (
        if ltb b.block_capacity (length bytes)
        then (failed, contents b)
        else Fifo.push b.capacity (contents b) (bytes, rate))
unfolding push Fifo.push
push_refines {b} bytes rate v = ground (arith, store_refines bytes rate v, length-contents b)

-- The calls of a client in order, with what each returns.
unfoldable pub run : AudioBuffer → List (Op Chunk) → List (Reply Chunk)
run b [] = []
run b (put c ∷ ops) = let (s, b') = push b c.0 c.1 in answered s ∷ run b' ops
run b (get ∷ ops) = let (c, b') = pop_chunk b in received c ∷ run b' ops

-- The blocks that are pushed fit into the parts of the storage.
abbrev pub AllFit : ℕ → List (Op Chunk) → Type 0
AllFit size [] = Unit
AllFit size (put c ∷ ops) = (length c.0 ≤ size) × AllFit size ops
AllFit size (get ∷ ops) = AllFit size ops

push_fields :
    (b : AudioBuffer) (bytes : Bytes) (rate : ℤ)
    → let b' = (push b bytes rate).1 in
      (b'.capacity ≡ b.capacity) × (b'.block_capacity ≡ b.block_capacity)
unfolding push store
push_fields b bytes rate = ground arith

block_capacity-pop_chunk : (b : AudioBuffer) → (pop_chunk b).1.block_capacity ≡ b.block_capacity
unfolding pop_chunk pop advance
block_capacity-pop_chunk b = ground arith

push_fitting :
    {b : AudioBuffer} (bytes : Bytes) (rate : ℤ)
    → IsValid b
    → length bytes ≤ b.block_capacity
    → let (s, b') = push b bytes rate in
      (s, contents b') ≡ Fifo.push b.capacity (contents b) (bytes, rate)
push_fitting {b} bytes rate v h = ground (arith, push_refines bytes rate v)

-- No sequence of pushes that fit and of pops whose bytes are read at once tells a valid audio ring
-- from the bounded queue of its blocks.
pub audio_run_refines :
    (ops : List (Op Chunk)) {b : AudioBuffer}
    → IsValid b
    → AllFit b.block_capacity ops
    → run b ops ≡ Fifo.run b.capacity (contents b) ops
unfolding run Fifo.run
audio_run_refines [] v fit = refl
audio_run_refines (put (bytes, rate) ∷ ops) {b} v fit =
    let (cap, size) = push_fields b bytes rate in
    rw (
      audio_run_refines ops (push-IsValid bytes rate v) (rw size fit.1),
      ← push_fitting bytes rate v fit.0,
      cap,
    )
audio_run_refines (get ∷ ops) {b} v fit =
    let (same, valid, cap) = pop_chunk_refines v in
    rw (audio_run_refines ops valid (rw (block_capacity-pop_chunk b) fit), ← same, cap)
