-- ===== src/Client/Callback/Order.antt =====
-- In what order the client sends what waits, and that it asks to be called until nothing waits.
use xiaozhi.AudioBuffer
use xiaozhi.AudioBuffer.Invariant
use xiaozhi.AudioBuffer.Refine
use xiaozhi.Base.{
  ℕ, zero, suc, ◌+◌, ◌≤◌, ◌<◌, ◌≡◌, ◌≢◌, ◌⊎◌, refl, sym, ap, ◌∙◌, Bool, true, false, inl, inr, List,
  [], ◌∷◌, ◌++◌, map, none, ok, arith, if◌then◌else◌, length, length-append, length-map,
  length-take, length-pos,
}
use xiaozhi.Client.Calls.{callback_on_writable}
use xiaozhi.Client.Callback.{
  Frame, text, binary, Output, write, signal, Env, Handled, Popped, frame, pop_binary_locked,
  pop_frame, more, on_writeable,
}
use xiaozhi.Client.State.{Client}
use xiaozhi.Client.TextQueue
use xiaozhi.Client.TextQueue.Refine as TextRefine

pub record IsValid (c : Client) : Type 0 where
  pub texts : TextRefine.IsValid c.pending_text
  pub blocks : AudioBuffer.Invariant.IsValid c.pending_binary

abbrev pub block_frame : AudioBuffer.Refine.Chunk → Frame
block_frame c = binary c.0

-- What waits to be sent: the texts, oldest first, and then the audio blocks, oldest first.
abbrev pub frames : Client → List Frame
frames c =
    map text (TextRefine.contents c.pending_text)
    ++ map block_frame (AudioBuffer.Refine.contents c.pending_binary)

record Popping (c : Client) : Type 0 where
  sent : Frame
  next : Client
  popped : pop_frame c true ≡ (frame sent, next)
  order : frames c ≡ sent ∷ frames next
  valid : IsValid next

pop_binary_cases :
    (c : Client)
    → IsValid c
    → TextRefine.contents c.pending_text ≡ []
    → TextQueue.pop c.pending_text ≡ (none, c.pending_text)
    → ((frames c ≡ []) × (pop_frame c true ≡ (Popped.nothing, c))) ⊎ Popping c
unfolding pop_frame pop_binary_locked
pop_binary_cases c v none_left e = elim (AudioBuffer.Refine.pop_cases v.blocks) [
  | inl (empty, p) ↦ inl (rw (none_left, empty), rw (e, p))
  | inr (k, b, p, order, valid) ↦ inr (record {
    sent = binary (AudioBuffer.read b k);
    next = record c { pending_binary = b };
    popped = rw (e, p);
    order = rw (none_left, order);
    valid = record { texts = v.texts; blocks = valid };
  })
]

pop_frame_cases :
    (c : Client)
    → IsValid c
    → ((frames c ≡ []) × (pop_frame c true ≡ (Popped.nothing, c))) ⊎ Popping c
unfolding pop_frame
pop_frame_cases c v = elim (TextRefine.text_pop_refines v.texts).1 [
  | inl (none_left, e) ↦ pop_binary_cases c v none_left e
  | inr (m, e, order) ↦ inr (record {
    sent = text m;
    next = record c { pending_text = (TextQueue.pop c.pending_text).1 };
    popped = rw e;
    order = rw order;
    valid = record { texts = (TextRefine.text_pop_refines v.texts).0; blocks = v.blocks };
  })
]

length-frames :
    (c : Client) → IsValid c → length (frames c) ≡ c.pending_text.count + c.pending_binary.count
length-frames c v =
    let texts = TextRefine.contents c.pending_text in
    let blocks = AudioBuffer.Refine.contents c.pending_binary in
    omega (
      arith,
      length-append (map text texts) (map block_frame blocks),
      length-map text texts,
      length-map block_frame blocks,
      AudioBuffer.Refine.length-contents c.pending_binary,
      length-take c.pending_text.count c.pending_text.items,
      v.texts.slots,
      v.texts.count_in,
    )

-- Another call is asked for exactly if something still waits.
abbrev asks : List Frame → List Output
asks [] = []
asks (f ∷ fs) = signal callback_on_writable ∷ []

more-asks : (c : Client) (fs : List Frame) → IsValid c → frames c ≡ fs → more c ≡ asks fs
unfolding more AudioBuffer.size
more-asks c [] v e = ground (arith, length-frames c v, ap length e)
more-asks c (f ∷ fs) v e = ground (arith, length-frames c v, ap length e)

-- A connection that takes every frame, with memory for each.
abbrev pub all_well : Env
all_well = record { copy_made = true; frame_made = true; written = true }

-- The callback does nothing as nothing waits, or sends the first frame that waits.
abbrev pub SendsFirst : Client → Handled → Type 0
SendsFirst c h =
    ((frames c ≡ []) × (h ≡ record { status = ok; client = c; outputs = [] }))
    ⊎ ((f : Frame) × (frames c ≡ f ∷ frames h.client)
        × (h.status ≡ ok)
        × (h.outputs ≡ write f ∷ asks (frames h.client)))

-- From valid queues, with no allocation and no write that fails, one LWS_CALLBACK_CLIENT_WRITEABLE
-- sends the oldest text, or the oldest audio block if no text waits, and asks to be called again
-- exactly if something is left; with nothing to send it does nothing. The queues stay valid.
pub on_writeable-SendsFirst :
    (c : Client)
    → IsValid c
    → SendsFirst c (on_writeable c all_well) × IsValid (on_writeable c all_well).client
unfolding on_writeable
on_writeable-SendsFirst c v = elim (pop_frame_cases c v) [
  | inl (empty, e) ↦ rw e (inl (empty, rw (more-asks c [] v empty)), v)
  | inr p ↦
      rw p.popped
        (inr (p.sent, p.order, refl, rw (more-asks p.next (frames p.next) p.valid refl)), p.valid)
]

-- The service loop: LWS_CALLBACK_CLIENT_WRITEABLE is made again as long as the call before asked for
-- it. The frames are those written, in order.
abbrev pub wrote : List Output → List Frame
wrote [] = []
wrote (write f ∷ outputs) = f ∷ wrote outputs
wrote (_ ∷ outputs) = wrote outputs

abbrev pub asked : List Output → Bool
asked [] = false
asked (signal s ∷ outputs) = true
asked (_ ∷ outputs) = asked outputs

unfoldable pub serve : ℕ → Client → List Frame × Client
serve zero c = ([], c)
serve (suc n) c =
    let h = on_writeable c all_well in
    let rest = serve n h.client in
    if asked h.outputs then (wrote h.outputs ++ rest.0, rest.1) else (wrote h.outputs, h.client)

abbrev pub Serves : Client → List Frame × Client → Type 0
Serves c r = (r.0 ≡ frames c) × (frames r.1 ≡ [])

-- After the first of several frames the service goes on, and after the last it stops.
serve_step :
    (n : ℕ) (c : Client) (f : Frame) (fs : List Frame)
    → let h = on_writeable c all_well in
      frames c ≡ f ∷ frames h.client
      → h.outputs ≡ write f ∷ asks (frames h.client)
      → frames h.client ≡ fs
      → ((fs ≢ []) → Serves h.client (serve n h.client))
      → Serves c (serve (suc n) c)
unfolding serve
serve_step n c f [] order outs e later =
    let outs' : (on_writeable c all_well).outputs ≡ write f ∷ [] =
      outs ∙ ap (λ fs. write f ∷ asks fs) e in
    rw outs' (sym (order ∙ ap (◌∷◌ f) e), e)
serve_step n c f (g ∷ gs) order outs e later =
    let outs' : (on_writeable c all_well).outputs ≡ write f ∷ signal callback_on_writable ∷ [] =
      outs ∙ ap (λ fs. write f ∷ asks fs) e in
    let (same, empty) = later (λ p. cc) in rw outs' (ap (◌∷◌ f) same ∙ sym order, empty)

serve_nothing :
    (n : ℕ) (c : Client)
    → frames c ≡ []
    → on_writeable c all_well ≡ record { status = ok; client = c; outputs = [] }
    → Serves c (serve (suc n) c)
unfolding serve
serve_nothing n c empty e = rw e (sym empty, empty)

-- From valid queues, with no call that fails, everything that waits is sent, the texts before the
-- audio and each in order, by write callbacks that ask for one another, one for each frame and at
-- least one; then nothing waits.
pub serve_all :
    (n : ℕ) (c : Client) → IsValid c → length (frames c) ≤ n → 0 < n → Serves c (serve n c)
serve_all zero c v h k = absurd (omega arith)
serve_all (suc n) c v h k = elim (on_writeable-SendsFirst c v).0 [
  | inl (empty, e) ↦ serve_nothing n c empty e
  | inr (f, order, good, outs) ↦
      let next = (on_writeable c all_well).client in
      serve_step n c f (frames next) order outs refl (λ some_left.
        serve_all n next (on_writeable-SendsFirst c v).1 (omega (arith, ap length order))
          (omega (arith, length-pos some_left, ap length order)))
]
