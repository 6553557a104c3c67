-- ===== src/Events.antt =====
-- The events of val/src/val_shemaphore.c: processors that send and wait for one event, interleaved
-- in any order. A processor is where it stands in its call; the loads and stores of the counter are
-- steps of their own. The spin lock is the one of platform/common/src/pal_spinlock.S. Cache
-- maintenance and the hints to sleep and to wake are left out: a waiting processor may look at the
-- counter at any time.
pub mod Balance
mod Tests
use ff_a_acs.Base.{ℕ, ◌+◌, ◌-◌, ◌%◌, ◌^◌, ◌≡◌, ◌≢◌, Bool, true, false, ◌==◌, if◌then◌else◌}

-- The event, and how many were sent and received, which no code reads.
pub record Event : Type 0 where
  pub cnt : ℕ
  pub lock : ℕ
  pub sent : ℕ
  pub received : ℕ

-- `val_init_event`
unfoldable pub init_event : Event
init_event = record { cnt = 0; lock = 0; sent = 0; received = 0 }

-- Where a processor stands: outside of any call, in `send_event_common`, or in
-- `val_wait_for_event`. A store carries the value that was loaded.
pub data Pc : Type 0 where
  idle : Pc
  send_lock : ℕ → Pc
  send_load : ℕ → Pc
  send_store : ℕ → ℕ → Pc
  send_unlock : Pc
  wait_poll : Pc
  wait_lock : Pc
  wait_check : Pc
  wait_store : ℕ → Pc
  wait_unlock : Bool → Pc

-- One step of one processor. `val_send_event` sends 1, the other two calls any number.
pub data Move : Event → Pc → Event → Pc → Type 0 where
  send : {e : Event} (inc : ℕ) → Move e idle e (send_lock inc)
  send_locked :
      {e : Event} {inc : ℕ}
      → e.lock ≡ 0
      → Move e (send_lock inc) (record e { lock = 1 }) (send_load inc)
  send_loaded : {e : Event} {inc : ℕ} → Move e (send_load inc) e (send_store inc e.cnt)
  send_stored :
      {e : Event} {inc v : ℕ}
      → Move e
          (send_store inc v)
          (record e { cnt = (v + inc) % 2 ^ 32; sent = e.sent + inc })
          send_unlock
  send_unlocked : {e : Event} → Move e send_unlock (record e { lock = 0 }) idle
  wait : {e : Event} → Move e idle e wait_poll
  nothing : {e : Event} → e.cnt ≡ 0 → Move e wait_poll e wait_poll
  something : {e : Event} → e.cnt ≢ 0 → Move e wait_poll e wait_lock
  wait_locked : {e : Event} → e.lock ≡ 0 → Move e wait_lock (record e { lock = 1 }) wait_check
  stolen : {e : Event} → e.cnt ≡ 0 → Move e wait_check e (wait_unlock false)
  present : {e : Event} → e.cnt ≢ 0 → Move e wait_check e (wait_store e.cnt)
  wait_stored :
      {e : Event} {v : ℕ}
      → Move e
          (wait_store v)
          (record e { cnt = v - 1; received = e.received + 1 })
          (wait_unlock true)
  wait_unlocked :
      {e : Event} {done : Bool}
      → Move e (wait_unlock done) (record e { lock = 0 }) (if done then idle else wait_poll)

pub record System : Type 0 where
  pub event : Event
  pub pc : ℕ → Pc

unfoldable pub set_pc : (ℕ → Pc) → ℕ → Pc → ℕ → Pc
set_pc pc i p j = if j == i then p else pc j

-- One step of processor `i`.
pub data Step (i : ℕ) (s : System) : System → Type 0 where
  step :
      {e : Event} {p : Pc}
      → Move s.event (s.pc i) e p
      → Step i s (record { event = e; pc = set_pc s.pc i p })

unfoldable pub quiet : System
quiet = record { event = init_event; pc = λ i. idle }

-- Every state that processors reach from an event just initialised.
pub data Reach : System → Type 0 where
  start : Reach quiet
  later : {i : ℕ} {s t : System} → Reach s → Step i s t → Reach t
