-- ===== src/MsgQueue.antt =====
-- src/msg_queue.c: a ring of messages of at most 255 bytes, in which a push into a full ring drops the
-- oldest message. Each call holds the mutex. The capacity is positive and fits an `int`, and
-- `msg_queue_pop` is given a buffer of at least one byte.
pub mod Refine
use xiaozhi.Base.{
  ℕ, ◌+◌, ◌-◌, ◌%◌, ◌^◌, Bool, true, false, not, ◌||◌, List, [], ◌∷◌, Option, none, some, ◌==◌, ltb,
  if◌then◌else◌, get_or, set, replicate, length,
}
use xiaozhi.Base.Strings.{Bytes, truncate}

pub record MsgQueue : Type 0 where
  pub buffer : List Bytes
  pub head : ℕ
  pub tail : ℕ
  pub count : ℕ
  pub capacity : ℕ

abbrev pub max_msg_len : ℕ
max_msg_len = 256

-- `allocated` is whether every `malloc` found memory, `mutex_made` whether the mutex could be made.
-- `malloc` leaves the slots undefined: here they are empty, and no call reads one before a push.
unfoldable pub init : ℕ → Bool → Bool → Option MsgQueue
init capacity allocated mutex_made =
    if not allocated || not mutex_made
    then none
    else some (record {
      buffer = replicate capacity [];
      head = 0;
      tail = 0;
      count = 0;
      capacity = capacity;
    })

-- `head = (head + 1) % capacity; count--;`
unfoldable pub advance : MsgQueue → MsgQueue
advance queue = record queue { head = (queue.head + 1) % queue.capacity; count = queue.count - 1 }

-- The writes behind the test for a full queue.
unfoldable pub store : MsgQueue → Bytes → MsgQueue
store queue msg = record queue {
  buffer = set queue.buffer queue.tail (truncate max_msg_len msg);
  tail = (queue.tail + 1) % queue.capacity;
  count = queue.count + 1;
}

unfoldable pub push : MsgQueue → Bytes → MsgQueue
push queue msg = store (if queue.count == queue.capacity then advance queue else queue) msg

-- The length that is returned, and what the caller's buffer `buf` of `buf_size` bytes then holds.
unfoldable pub pop : MsgQueue → Bytes → ℕ → (ℕ × Bytes) × MsgQueue
pop queue buf buf_size =
    if ltb 0 queue.count
    then (let msg = truncate buf_size (get_or queue.buffer queue.head []) in
        ((length msg, msg), advance queue))
    else ((0, buf), queue)

-- `msg_queue_destroy` frees the slots and the buffer; the numbers stay.
unfoldable pub destroy : MsgQueue → MsgQueue
destroy queue = record queue { buffer = [] }
