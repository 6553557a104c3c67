-- ===== src/Tpm/Valid.antt =====
-- The bookkeeping invariant of the TPM service: which of the globals can be set together.
use ff_a_acs.Base.{Bool-cases, inl, inr, ℕ, ◌+◌, ◌≤◌, ◌<◌, ◌≡◌, true, arith}
use ff_a_acs.Ffa.{Args, sender_id, receiver_id}
use ff_a_acs.Tpm.Mmio.{Memory}
use ff_a_acs.Tpm.State.{Platform, u32, Service, init}
use ff_a_acs.Tpm.Service.{
  apply_locality_request, start_locality_request, signal_notification, start_command,
  complete_pending_command,
}
use ff_a_acs.Tpm.Signal.{defer_locality-sent, defer_locality-refused_eq}
use ff_a_acs.Tpm.Handler.{
  save_locality_request, may_defer, save_command, drop_command, defer_locality_request,
  defer_command, start_locality, start_command_request, handle_start, handle_register,
  handle_unregister, handle_finish, finish_pending, handle_request, feature_info,
}

-- A notification is outstanding exactly while one request, of one kind, is saved, and only for a
-- registered client; all localities are in range, all ids fit their C types.
pub record IsValid {W : Type 0} (s : Service W) : Type 0 where
  pub registered_bit : s.registered ≤ 1
  pub owned : s.outstanding ≤ s.registered
  pub saved : s.outstanding ≡ s.pending_locality_valid + s.pending_command_valid
  pub active_in : s.active_locality ≤ 5
  pub locality_in : s.pending_locality ≤ 4
  pub command_in : s.pending_command_locality ≤ 4
  pub client_fits : s.client < 65536
  pub service_fits : s.service < 65536
  pub id_in : s.id ≤ 255

-- The globals that the execution of a command leaves alone.
pub record SameControl {W : Type 0} (s t : Service W) : Type 0 where
  pub registered : t.registered ≡ s.registered
  pub outstanding : t.outstanding ≡ s.outstanding
  pub pending_locality_valid : t.pending_locality_valid ≡ s.pending_locality_valid
  pub pending_command_valid : t.pending_command_valid ≡ s.pending_command_valid
  pub active_locality : t.active_locality ≡ s.active_locality
  pub pending_locality : t.pending_locality ≡ s.pending_locality
  pub pending_command_locality : t.pending_command_locality ≡ s.pending_command_locality
  pub client : t.client ≡ s.client
  pub service : t.service ≡ s.service
  pub id : t.id ≡ s.id
  pub pending_locality_ctrl : t.pending_locality_ctrl ≡ s.pending_locality_ctrl
  pub pending_command_size : t.pending_command_size ≡ s.pending_command_size
  pub pending_cmd : t.pending_cmd ≡ s.pending_cmd

module _ {W : Type 0} where
  SameControl-IsValid : {s t : Service W} → SameControl s t → IsValid s → IsValid t
  SameControl-IsValid c v = omega arith

  pub apply-IsValid :
      {s : Service W} (l ctrl : ℕ) → l ≤ 4 → IsValid s → IsValid (apply_locality_request s l ctrl)
  unfolding apply_locality_request
  apply-IsValid l ctrl h v = ground arith

  start_locality-IsValid :
      {s : Service W} (l : ℕ) → l ≤ 4 → IsValid s → IsValid (start_locality_request s l)
  unfolding start_locality_request
  start_locality-IsValid l h v = ground arith

module _ {W : Type 0} (p : Platform W) where
  pub start_command-SameControl :
      (s : Service W) (l : ℕ) → SameControl s (start_command p s l).state
  unfolding start_command
  start_command-SameControl s l = ground arith

  complete-SameControl :
      (s : Service W) (l n : ℕ) → SameControl s (complete_pending_command p s l n).state
  unfolding complete_pending_command
  complete-SameControl s l n = ground arith

  defer_locality-IsValid :
      {s : Service W} (l sender receiver : ℕ)
      → l ≤ 4
      → may_defer s sender receiver ≡ true
      → IsValid s
      → IsValid (defer_locality_request p s l sender receiver)
  unfolding may_defer save_locality_request
  defer_locality-IsValid {s} l sender receiver h d v =
      elim (Bool-cases (signal_notification p (save_locality_request s l) sender receiver).0) [
        | inl sent ↦
            let (w, e) = defer_locality-sent p s l sender receiver sent in rw e (ground arith)
        | inr refused ↦
            let (w, e) = defer_locality-refused_eq p s l sender receiver refused in
            let t = record (save_locality_request s l) { world = w; pending_locality_valid = 0 } in
            let u = apply-IsValid {s = t} l t.pending_locality_ctrl h (ground arith) in
            rw e (omega arith)
      ]

  defer_command-IsValid :
      {s : Service W} (l sender receiver : ℕ)
      → l ≤ 4
      → may_defer s sender receiver ≡ true
      → IsValid s
      → IsValid (defer_command p s l sender receiver).state
  unfolding defer_command signal_notification may_defer
  defer_command-IsValid {s} l sender receiver h d v =
      let dropped = drop_command (signal_notification p (save_command s l) sender receiver).1 in
      ground (arith, start_command-SameControl dropped l)

  handle_start-IsValid :
      {s : Service W} (a : Args) (sender receiver : ℕ)
      → IsValid s
      → IsValid (handle_start p s a sender receiver).state
  unfolding handle_start start_locality start_command_request
  handle_start-IsValid {s} a sender receiver v = ground (
    arith,
    start_locality-IsValid {s = s} (u32 a.arg6),
    defer_locality-IsValid {s = s} (u32 a.arg6) sender receiver,
    defer_command-IsValid {s = s} (u32 a.arg6) sender receiver,
    start_command-SameControl s (u32 a.arg6),
  )

  handle_register-IsValid :
      {s : Service W} (a : Args) (sender receiver : ℕ)
      → sender < 65536
      → receiver < 65536
      → IsValid s
      → IsValid (handle_register p s a sender receiver).state
  unfolding handle_register
  handle_register-IsValid a sender receiver hs hr v = ground arith

  handle_unregister-IsValid :
      {s : Service W} (sender : ℕ) → IsValid s → IsValid (handle_unregister p s sender).state
  unfolding handle_unregister
  handle_unregister-IsValid sender v = ground arith

  handle_finish-IsValid :
      {s : Service W} (sender : ℕ) → IsValid s → IsValid (handle_finish p s sender).state
  unfolding handle_finish finish_pending apply_locality_request
  handle_finish-IsValid {s} sender v =
      ground (arith, complete-SameControl s s.pending_command_locality s.pending_command_size)

  -- Every request, whatever it asks and whoever sends it, keeps the invariant.
  pub handle_request-IsValid :
      (s : Service W) (a : Args) → IsValid s → IsValid (handle_request p s a).1
  unfolding handle_request feature_info
  handle_request-IsValid s a v =
      let sender = sender_id a.arg1 in
      let receiver = receiver_id a.arg1 in
      ground (
        arith,
        handle_start-IsValid a sender receiver v,
        handle_register-IsValid a sender receiver (omega arith) (omega arith) v,
        handle_unregister-IsValid sender v,
        handle_finish-IsValid sender v,
      )

-- The initial state satisfies the invariant.
pub init-IsValid : {W : Type 0} (w : W) (m : Memory) → IsValid (init w m)
unfolding init
init-IsValid w m = omega arith
