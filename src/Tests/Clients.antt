-- ===== src/Tests/Clients.antt =====
-- The websocket client.
use xiaozhi.AudioBuffer
use xiaozhi.AudioBuffer.Invariant
use xiaozhi.Base.{ℕ, zero, suc, ◌≡◌, ◌<◌, refl, true, [], ◌∷◌, replicate, arith, length-replicate}
use xiaozhi.Base.Strings.{codes}
use xiaozhi.Client.Callback.Order
use xiaozhi.Client.Callback.Order.{
  SendsFirst, Serves, all_well, frames, serve, on_writeable-SendsFirst, serve_all,
}
use xiaozhi.Client.Calls.{zero_client}
use xiaozhi.Client.Receive.Whole.{receive_texts, receive_texts_whole, receive_texts_tail}
use xiaozhi.Client.Receive.{recv_size, text_too_large}
use xiaozhi.Client.State.{Client, on_text, on_error}
use xiaozhi.Client.TextQueue
use xiaozhi.Client.TextQueue.Refine
use xiaozhi.Client.TextQueue.Refine.{Queued, contents, queue_refines, text_pop_refines}
use xiaozhi.Client.TextQueue.{TextQueue, new_capacity}

abbrev one_text : TextQueue
one_text = record { items = codes "hi" ∷ [] ∷ [] ∷ [] ∷ []; count = 1; capacity = 4 }

one_text-IsValid : Refine.IsValid one_text
one_text-IsValid = record { slots = refl; count_in = omega arith }

queue_refines_example :
    Refine.IsValid (TextQueue.queue one_text (codes "yo") true true).1
    × Queued
        (contents one_text)
        (codes "yo")
        true
        true
        (TextQueue.queue one_text (codes "yo") true true)
queue_refines_example = queue_refines (codes "yo") true true one_text-IsValid (omega arith)

abbrev partial : Client
partial = record zero_client { recv_text = codes "he"; recv_binary = codes "x"; running = true }

receive_texts_whole_example :
    receive_texts partial (codes "ll" ∷ []) (codes "o")
    ≡ (record partial { recv_text = [] }, on_text (codes "hello") ∷ [])
receive_texts_whole_example =
    receive_texts_whole (codes "ll" ∷ []) (codes "o") partial (omega arith)

receive_texts_tail_example :
    receive_texts zero_client (replicate recv_size b'a' ∷ codes "b" ∷ []) (codes "c")
    ≡ (record zero_client { recv_text = [] }, on_error text_too_large ∷ on_text (codes "bc") ∷ [])
receive_texts_tail_example =
    receive_texts_tail (replicate recv_size b'a') (codes "b" ∷ []) (codes "c") zero_client
      (omega (arith, length-replicate {A = ℕ} recv_size b'a')) (omega arith)

-- A client with a text and no audio to send.
abbrev waiting : Client
waiting = record zero_client {
  pending_text = one_text;
  pending_binary = record AudioBuffer.zero_buffer {
    blocks = AudioBuffer.zero_block ∷ [];
    storage = 0 ∷ [];
    capacity = 1;
    block_capacity = 1;
  };
}

waiting-Placed : (i : ℕ) → i < 1 → Invariant.Placed waiting.pending_binary i
waiting-Placed zero h = record { start = refl; fits = omega arith }
waiting-Placed (suc n) h = absurd (omega arith)

waiting-IsValid : Order.IsValid waiting
waiting-IsValid = record {
  texts = one_text-IsValid;
  blocks = record {
    block_count = refl;
    storage_size = refl;
    small = omega arith;
    head_in = omega arith;
    count_in = omega arith;
    tail_at = refl;
    placed = waiting-Placed;
  };
}

serve_all_example : Serves waiting (serve 1 waiting)
serve_all_example = serve_all 1 waiting waiting-IsValid (omega arith) (omega arith)
