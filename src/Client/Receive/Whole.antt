-- ===== src/Client/Receive/Whole.antt =====
-- Messages that arrive whole, and what becomes of those that do not fit.
use xiaozhi.Base.{
  ◌+◌, ◌≤◌, ◌<◌, ◌≡◌, ◌≢◌, Bool, true, false, List, [], ◌∷◌, ◌++◌, append_assoc, arith, length,
  length-append,
}
use xiaozhi.Base.Strings.{Bytes}
use xiaozhi.Client.Receive.{
  recv_size, feed_binary_fragment, receive_binary, receive_text, text_too_large,
}
use xiaozhi.Client.State.{Client, Callback, on_text, on_binary, on_error}

-- A message as its frames arrive: `fragments`, none of them the last, and then `final`.
unfoldable pub receive_texts : Client → List Bytes → Bytes → Client × List Callback
receive_texts client [] final = receive_text client final true
receive_texts client (f ∷ fragments) final =
    let (client', calls) = receive_text client f false in
    let (client'', calls') = receive_texts client' fragments final in (client'', calls ++ calls')

unfoldable pub receive_binaries : Client → List Bytes → Bytes → Client × List Callback
receive_binaries client [] final = receive_binary client final true
receive_binaries client (f ∷ fragments) final =
    let (client', calls) = receive_binary client f false in
    let (client'', calls') = receive_binaries client' fragments final in (client'', calls ++ calls')

abbrev pub joined : List Bytes → Bytes → Bytes
joined [] final = final
joined (f ∷ fragments) final = f ++ joined fragments final

-- A text whose frames fit into the buffer behind what is in it reaches the program in one call, with
-- the bytes that were in the buffer in front of it, and leaves the buffer empty.
pub receive_texts_whole :
    (fragments : List Bytes) (final : Bytes) (client : Client)
    → length client.recv_text + length (joined fragments final) < recv_size
    → receive_texts client fragments final ≡ (
      record client { recv_text = [] },
      on_text (client.recv_text ++ joined fragments final) ∷ [],
    )
unfolding receive_texts receive_text
receive_texts_whole [] final client h = ground arith
receive_texts_whole (f ∷ fragments) final client h = ground (
  arith,
  length-append f (joined fragments final),
  length-append client.recv_text f,
  append_assoc client.recv_text f (joined fragments final),
  receive_texts_whole fragments final (record client { recv_text = client.recv_text ++ f }),
)

abbrev pub AllNonempty : List Bytes → Bytes → Type 0
AllNonempty [] final = length final ≢ 0
AllNonempty (f ∷ fragments) final = (length f ≢ 0) × AllNonempty fragments final

-- A binary message whose frames are not empty and fit into the buffer behind what is in it reaches the
-- program in one call, with the bytes that were in the buffer in front of it, and leaves the buffer
-- empty.
pub receive_binaries_whole :
    (fragments : List Bytes) (final : Bytes) (client : Client)
    → AllNonempty fragments final
    → length client.recv_binary + length (joined fragments final) ≤ recv_size
    → receive_binaries client fragments final ≡ (
      record client { recv_binary = [] },
      on_binary (client.recv_binary ++ joined fragments final) ∷ [],
    )
unfolding receive_binaries receive_binary feed_binary_fragment
receive_binaries_whole [] final client some_byte h = ground arith
receive_binaries_whole (f ∷ fragments) final client some_byte h = ground (
  arith,
  length-append f (joined fragments final),
  length-append client.recv_binary f,
  append_assoc client.recv_binary f (joined fragments final),
  receive_binaries_whole fragments final (record client { recv_binary = client.recv_binary ++ f }),
)

-- If neither receive buffer holds more than its array before a frame, neither does after it.
pub receive_bounds :
    (client : Client) (payload : Bytes) (is_final : Bool)
    → length client.recv_text < recv_size
    → length client.recv_binary ≤ recv_size
    → (length (receive_text client payload is_final).0.recv_text < recv_size)
      × (length (receive_binary client payload is_final).0.recv_binary ≤ recv_size)
unfolding receive_text receive_binary feed_binary_fragment
receive_bounds client payload is_final h k =
    ground (arith, length-append client.recv_text payload, length-append client.recv_binary payload)

-- A text that does not fit is not dropped whole: if its first frame overflows the buffer, and
-- those after it fit, the program is told of an error, and the frames after it still reach the
-- program, as a text of their own.
pub receive_texts_tail :
    (big : Bytes) (fragments : List Bytes) (final : Bytes) (client : Client)
    → recv_size ≤ length client.recv_text + length big
    → length (joined fragments final) < recv_size
    → receive_texts client (big ∷ fragments) final ≡ (
      record client { recv_text = [] },
      on_error text_too_large ∷ on_text (joined fragments final) ∷ [],
    )
unfolding receive_texts receive_text
receive_texts_tail big fragments final client h k =
    ground (arith, receive_texts_whole fragments final (record client { recv_text = [] }))
