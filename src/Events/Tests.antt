-- ===== src/Events/Tests.antt =====
-- Two processors over one event, and the theorem at a state that they reach.
use ff_a_acs.Base.{refl}
use ff_a_acs.Events.{
  Event, idle, send_lock, send_load, send_store, send_unlock, wait_poll, send, send_locked,
  send_loaded, send_stored, wait, System, set_pc, step, quiet, init_event, Reach, start, later,
}
use ff_a_acs.Events.Balance.{IsSound, Reach-IsSound}

-- The event while processor 1 holds the lock, and behind its store.
abbrev held : Event
held = record { cnt = 0; lock = 1; sent = 0; received = 0 }

abbrev stored : Event
stored = record { cnt = 2; lock = 1; sent = 2; received = 0 }

-- Processor 0 waits; processor 1 sends two events and has not given back the lock.
abbrev waiting : System
waiting = record { event = init_event; pc = set_pc (λ i. idle) 0 wait_poll }

abbrev asking : System
asking = record { event = init_event; pc = set_pc waiting.pc 1 (send_lock 2) }

abbrev locking : System
locking = record { event = held; pc = set_pc asking.pc 1 (send_load 2) }

abbrev loading : System
loading = record { event = held; pc = set_pc locking.pc 1 (send_store 2 0) }

abbrev storing : System
storing = record { event = stored; pc = set_pc loading.pc 1 send_unlock }

storing-Reach : Reach storing
unfolding quiet init_event set_pc
storing-Reach =
    later {i = 1} {s = loading}
      (later {i = 1} {s = locking}
        (later {i = 1} {s = asking}
          (later {i = 1} {s = waiting} (later {i = 0} {s = quiet} start (step wait))
            (step (send 2)))
          (step (send_locked refl)))
        (step send_loaded))
      (step send_stored)

Reach-IsSound_example : IsSound storing
Reach-IsSound_example = Reach-IsSound storing-Reach
