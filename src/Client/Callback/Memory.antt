-- ===== src/Client/Callback/Memory.antt =====
-- The callback of libwebsockets keeps the client's arrays well formed.
use xiaozhi.AudioBuffer.{AudioBuffer}
use xiaozhi.AudioBuffer.Invariant as Blocks
use xiaozhi.Base.{
  ◌≡◌, ◌<◌, ◌≤◌, refl, ap, ◌∙◌, Bool, true, false, ◌&&◌, ◌==◌, Option, none, some, arith, length,
  Bool-cases, inl, inr,
}
use xiaozhi.Base.Int.{pos}
use xiaozhi.Base.Strings.{Bytes}
use xiaozhi.Client.Callback.{
  Env, Reason, established, receive, writeable, connection_error, closed, other, callback, Popped,
  frame, binary_popped, text_popped, pop_binary_locked, pop_frame, send, on_writeable, PoppedBinary,
  bytes, popped_binary, received,
}
use xiaozhi.Client.Calls.{queue_binary}
use xiaozhi.Client.Receive.{recv_size, feed_binary_fragment, receive_text, receive_binary}
use xiaozhi.Client.Receive.Whole.{receive_bounds}
use xiaozhi.Client.State.{Client}
use xiaozhi.Client.TextQueue
use xiaozhi.Client.TextQueue.{TextQueue}
use xiaozhi.Client.TextQueue.Capacity.{Bounded, pop-Bounded}

-- The parts of the client that are arrays.
pub record Buffers (texts : TextQueue) (blocks : AudioBuffer) (text binary : Bytes) : Type 0 where
  pub texts_bounded : Bounded texts
  pub blocks_valid : Blocks.IsValid blocks
  pub text_fits : length text < recv_size
  pub binary_fits : length binary ≤ recv_size

abbrev pub ClientSafe : Client → Type 0
ClientSafe c = Buffers c.pending_text c.pending_binary c.recv_text c.recv_binary

blocks-Buffers :
    {ts : TextQueue} {bs : AudioBuffer} {t b : Bytes} {bs' : AudioBuffer}
    → Blocks.IsValid bs'
    → Buffers ts bs t b
    → Buffers ts bs' t b
blocks-Buffers k v = record {
  texts_bounded = v.texts_bounded;
  blocks_valid = k;
  text_fits = v.text_fits;
  binary_fits = v.binary_fits;
}

pub queue_binary-ClientSafe :
    (c : Client) (packet : Bytes) → ClientSafe c → ClientSafe (queue_binary c packet).1
unfolding queue_binary
queue_binary-ClientSafe c packet v = elim (Bool-cases (length packet == 0)) [
  | inl e ↦ simp e v
  | inr e ↦ simp e (blocks-Buffers (Blocks.push-IsValid packet (pos 0) v.blocks_valid) v)
]

popped_binary-ClientSafe :
    (p : PoppedBinary) (c : Client) → ClientSafe c → ClientSafe (binary_popped (p, c)).1
unfolding binary_popped
popped_binary-ClientSafe PoppedBinary.nothing c v = v
popped_binary-ClientSafe PoppedBinary.no_memory c v = v
popped_binary-ClientSafe (bytes b) c v = v

text_popped-ClientSafe :
    (c : Client) (x : Option Bytes × TextQueue) (copy_made : Bool)
    → Bounded x.1
    → ClientSafe c
    → ClientSafe (text_popped c x copy_made).1
unfolding text_popped pop_binary_locked
text_popped-ClientSafe c (none, q) copy_made b v =
    popped_binary-ClientSafe (pop_binary_locked c copy_made).0 (pop_binary_locked c copy_made).1
      (blocks-Buffers (Blocks.pop-IsValid v.blocks_valid) v)
text_popped-ClientSafe c (some t, q) copy_made b v = record {
  texts_bounded = b;
  blocks_valid = v.blocks_valid;
  text_fits = v.text_fits;
  binary_fits = v.binary_fits;
}

send-ClientSafe :
    (p : Popped) (c : Client) (env : Env) → ClientSafe c → ClientSafe (send (p, c) env).client
unfolding send
send-ClientSafe Popped.nothing c env v = v
send-ClientSafe Popped.no_memory c env v = v
send-ClientSafe (frame f) c env v = elim (Bool-cases (env.frame_made && env.written)) [
  | inl e ↦ simp e v
  | inr e ↦ simp e v
]

text_keeps :
    (c : Client) (payload : Bytes) (is_final : Bool)
    → let d = (receive_text c payload is_final).0 in
      (d.pending_text ≡ c.pending_text)
      × (d.pending_binary ≡ c.pending_binary)
      × (d.recv_binary ≡ c.recv_binary)
unfolding receive_text
text_keeps c payload is_final = ground arith

binary_keeps :
    (c : Client) (payload : Bytes) (is_final : Bool)
    → let d = (receive_binary c payload is_final).0 in
      (d.pending_text ≡ c.pending_text)
      × (d.pending_binary ≡ c.pending_binary)
      × (d.recv_text ≡ c.recv_text)
unfolding receive_binary feed_binary_fragment
binary_keeps c payload is_final = ground arith

received-ClientSafe :
    (c : Client) (env : Env) (is_binary : Bool) (payload : Bytes) (is_final : Bool)
    → ClientSafe c
    → ClientSafe (callback c env (receive is_binary payload is_final)).client
unfolding callback received
received-ClientSafe c env false payload is_final v =
    let (a, b, d) = text_keeps c payload is_final in
    let bounds = receive_bounds c payload is_final v.text_fits v.binary_fits in
    rw (a, b, d)
      (record {
        texts_bounded = v.texts_bounded;
        blocks_valid = v.blocks_valid;
        text_fits = bounds.0;
        binary_fits = v.binary_fits;
      })
received-ClientSafe c env true payload is_final v =
    let (a, b, d) = binary_keeps c payload is_final in
    let bounds = receive_bounds c payload is_final v.text_fits v.binary_fits in
    rw (a, b, d)
      (record {
        texts_bounded = v.texts_bounded;
        blocks_valid = v.blocks_valid;
        text_fits = v.text_fits;
        binary_fits = bounds.1;
      })

-- Whatever libwebsockets reports, and whatever its calls return, the client's arrays stay well formed:
-- both rings are valid and neither receive buffer is overrun.
pub callback-ClientSafe :
    (c : Client) (env : Env) (reason : Reason)
    → ClientSafe c
    → ClientSafe (callback c env reason).client
unfolding callback on_writeable pop_frame
callback-ClientSafe c env established v = v
callback-ClientSafe c env (receive is_binary payload is_final) v =
    received-ClientSafe c env is_binary payload is_final v
callback-ClientSafe c env writeable v =
    send-ClientSafe (pop_frame c env.copy_made).0 (pop_frame c env.copy_made).1 env (
      text_popped-ClientSafe c (TextQueue.pop c.pending_text) env.copy_made
        (pop-Bounded v.texts_bounded) v)
callback-ClientSafe c env (connection_error message) v = v
callback-ClientSafe c env closed v = v
callback-ClientSafe c env other v = v

pop_frame-running : (c : Client) (copied : Bool) → (pop_frame c copied).1.running ≡ c.running
unfolding pop_frame text_popped pop_binary_locked binary_popped popped_binary
pop_frame-running c copied = ground arith

send-client : (p : Popped) (c : Client) (env : Env) → (send (p, c) env).client ≡ c
unfolding send
send-client p c env = ground arith

received-running :
    (c : Client) (env : Env) (is_binary : Bool) (payload : Bytes) (is_final : Bool)
    → (callback c env (receive is_binary payload is_final)).client.running ≡ c.running
unfolding callback received receive_text receive_binary feed_binary_fragment
received-running c env false payload is_final = ground arith
received-running c env true payload is_final = ground arith

pub callback-running :
    (c : Client) (env : Env) (reason : Reason) → (callback c env reason).client.running ≡ c.running
unfolding callback on_writeable received
callback-running c env established = refl
callback-running c env (receive is_binary payload is_final) =
    received-running c env is_binary payload is_final
callback-running c env writeable =
    ap (λ (d : Client). d.running)
      (send-client (pop_frame c env.copy_made).0 (pop_frame c env.copy_made).1 env)
    ∙ pop_frame-running c env.copy_made
callback-running c env (connection_error message) = refl
callback-running c env closed = refl
callback-running c env other = refl
