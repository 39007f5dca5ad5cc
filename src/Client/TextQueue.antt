-- ===== src/Client/TextQueue.antt =====
-- `xiaozhi_text_queue_t`, `ensure_text_capacity`, the append of `xiaozhi_client_queue_text` and
-- `xiaozhi_client_pop_text_locked`. The array is `items`, of `capacity` slots, of which `count` are
-- in use.
pub mod Capacity
pub mod Growth
pub mod Refine
use xiaozhi.Base.{
  ℕ, zero, suc, ◌+◌, ◌-◌, ◌*◌, ◌%◌, Bool, true, false, List, [], ◌∷◌, ◌++◌, Option, none, some,
  Status, ok, failed, ◌==◌, ltb, leb, if◌then◌else◌, size_mod, add_size, length, get_or, set,
  replicate,
}
use xiaozhi.Base.Memory.{copy_at, slice}
use xiaozhi.Base.Strings.{Bytes}

pub record TextQueue : Type 0 where
  pub items : List Bytes
  pub count : ℕ
  pub capacity : ℕ

abbrev pub empty : TextQueue
empty = record { items = []; count = 0; capacity = 0 }

-- `while (new_capacity < needed) new_capacity *= 2;` on fuel.
unfoldable pub double_up : ℕ → ℕ → ℕ → ℕ
double_up zero new_capacity needed = new_capacity
double_up (suc fuel) new_capacity needed =
    let rest = double_up fuel (new_capacity * 2 % size_mod) needed in
    if ltb new_capacity needed then rest else new_capacity

-- The capacity that the queue gets, with fuel enough for each doubling.
unfoldable pub new_capacity : TextQueue → ℕ → ℕ
unfolding double_up
new_capacity q needed =
    double_up needed (if q.capacity == 0 then 4 else q.capacity * 2 % size_mod) needed

-- What `realloc` makes of an array: the slots that are new are undefined, here empty.
abbrev pub enlarge : TextQueue → ℕ → TextQueue
enlarge q capacity = record q {
  items = q.items ++ replicate (capacity - q.capacity) [];
  capacity = capacity;
}

-- `memory` is whether `realloc` found it.
unfoldable pub ensure_capacity : TextQueue → ℕ → Bool → Status × TextQueue
ensure_capacity q needed memory =
    if leb needed q.capacity
    then (ok, q)
    else if memory
    then (ok, enlarge q (new_capacity q needed))
    else (failed, q)

-- `items[count++] = copy`
unfoldable pub append : TextQueue → Bytes → TextQueue
append q copy = record q { items = set q.items q.count copy; count = add_size q.count 1 }

-- From `strdup`, whose success is `copied`, on.
unfoldable pub queue_copy : TextQueue → Bytes → Bool → Status × TextQueue
queue_copy q payload copied = if copied then (ok, append q payload) else (failed, q)

after_ensure : Status × TextQueue → Bytes → Bool → Status × TextQueue
after_ensure (failed, q) payload copied = (failed, q)
after_ensure (ok, q) payload copied = queue_copy q payload copied

-- `xiaozhi_client_queue_text` up to the signal. Only the main loop calls it, so nothing is appended
-- between its two locked parts.
unfoldable pub queue : TextQueue → Bytes → Bool → Bool → Status × TextQueue
unfolding after_ensure
queue q payload memory copied =
    after_ensure (ensure_capacity q (add_size q.count 1) memory) payload copied

-- The `memmove` of `xiaozhi_client_pop_text_locked`.
unfoldable pub shift : TextQueue → TextQueue
shift q = record q {
  items = if ltb 1 q.count then copy_at q.items 0 (slice q.items 1 (q.count - 1)) else q.items;
  count = q.count - 1;
}

-- `none` is the return value 0.
unfoldable pub pop : TextQueue → Option Bytes × TextQueue
pop q = if q.count == 0 then (none, q) else (some (get_or q.items 0 []), shift q)

unfoldable pub peek : TextQueue → ℕ → Option Bytes
peek q index = if leb q.count index then none else some (get_or q.items index [])
