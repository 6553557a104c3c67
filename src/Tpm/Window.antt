-- ===== src/Tpm/Window.antt =====
-- What the service writes to the CRB window, and what it leaves alone.
use ff_a_acs.Base.{◌∙◌, ℕ, zero, suc, ◌+◌, ◌*◌, ◌%◌, ◌≡◌, ◌≤◌, ◌<◌, ◌⊎◌, arith, refl, List, [], ◌∷◌}
use mathlib.Core.Path.{ap₂}
use ff_a_acs.Ffa.{Args, sender_id, receiver_id}
use ff_a_acs.Tpm.Mmio.{
  Memory, read32, write32, write8, crb_base, locality_size, loc_sts, loc_ctrl, ctrl_start,
  data_buffer, data_buffer_size, copy_from_mmio, copy_to_mmio, be32_read,
}
use ff_a_acs.Tpm.Mmio.Frame.{write32_other, copy_to_mmio_other, read32-write32}
use ff_a_acs.Tpm.State.{Platform, Service, crb_ok, crb_inv_crb_ctrl_data, u32}
use ff_a_acs.Tpm.Service.{
  Ran, signal_notification, apply_locality_request, start_locality_request, publish,
  complete_pending_command, start_command, execute_own_buffer, execute_other_buffer,
}
use ff_a_acs.Tpm.Handler.{
  save_locality_request, defer_locality_request, handle_finish, finish_pending, handle_start,
  start_locality, start_command_request, feature_info, drop_command, defer_command, save_command,
  handle_register, handle_unregister, handle_request,
}
use ff_a_acs.Tpm.Valid.{IsValid}
use ff_a_acs.Tpm.Grants.{execute_own-Executes, execute_other-Executes}

-- An address outside the pages of the five localities.
abbrev pub Outside : ℕ → Type 0
Outside b = (b < crb_base) ⊎ (crb_base + 5 * locality_size ≤ b)

module _ {W : Type 0} (b : ℕ) (out : Outside b) where
  apply_outside :
      (s : Service W) (l ctrl : ℕ) → l ≤ 4 → (apply_locality_request s l ctrl).mmio b ≡ s.mmio b
  unfolding apply_locality_request
  apply_outside s l ctrl h =
      ground (arith, write32_other s.mmio (loc_sts l) 0 b, write32_other s.mmio (loc_sts l) 1 b)

  start_locality_outside :
      (s : Service W) (l : ℕ) → l ≤ 4 → (start_locality_request s l).mmio b ≡ s.mmio b
  unfolding start_locality_request
  start_locality_outside s l h =
      let s' = record s { mmio = write32 s.mmio (loc_ctrl l) 0 } in
      ground (
        arith,
        apply_outside s' l (read32 s.mmio (loc_ctrl l)),
        write32_other s.mmio (loc_ctrl l) 0 b,
      )

  publish_outside :
      (r : Ran W) (l : ℕ) → l ≤ 4 → r.value ≤ 0x400 → (publish r l).state.mmio b ≡ r.state.mmio b
  unfolding publish
  publish_outside r l h fits =
      let filled = copy_to_mmio r.state.mmio (data_buffer l) r.state.rsp r.value in
      ground (
        arith,
        write32_other filled (ctrl_start l) 0 b,
        copy_to_mmio_other r.state.mmio (data_buffer l) r.state.rsp r.value b,
      )

module _ {W : Type 0} (p : Platform W) (b : ℕ) (out : Outside b) where
  start_command_outside :
      (s : Service W) (l : ℕ) → l ≤ 4 → (start_command p s l).state.mmio b ≡ s.mmio b
  unfolding start_command
  start_command_outside s l h =
      let cmd = copy_from_mmio s.mmio (data_buffer l) data_buffer_size in
      let s' = record s { cmd = cmd } in
      let r = execute_own_buffer p s' (be32_read cmd 2) in
      ground (arith, execute_own-Executes p s' (be32_read cmd 2), publish_outside b out r l)

  complete_outside :
      (s : Service W) (l n : ℕ) → l ≤ 4 → (complete_pending_command p s l n).state.mmio b ≡ s.mmio b
  unfolding complete_pending_command
  complete_outside s l n h =
      let r = execute_other_buffer p s s.pending_cmd n in
      ground (arith, execute_other-Executes p s s.pending_cmd n, publish_outside b out r l)

  defer_locality_outside :
      (s : Service W) (l sender receiver : ℕ)
      → l ≤ 4
      → (defer_locality_request p s l sender receiver).mmio b ≡ s.mmio b
  unfolding defer_locality_request signal_notification
  defer_locality_outside s l sender receiver h =
      let s' = (signal_notification p (save_locality_request s l) sender receiver).1 in
      ground (
        arith,
        write32_other s.mmio (loc_ctrl l) 0 b,
        apply_outside b out (record s' { pending_locality_valid = 0 }) l s'.pending_locality_ctrl,
      )

  defer_command_outside :
      (s : Service W) (l sender receiver : ℕ)
      → l ≤ 4
      → (defer_command p s l sender receiver).state.mmio b ≡ s.mmio b
  unfolding defer_command signal_notification
  defer_command_outside s l sender receiver h =
      let s' = drop_command (signal_notification p (save_command s l) sender receiver).1 in
      ground (arith, start_command_outside s' l)

  handle_start_outside :
      (s : Service W) (a : Args) (sender receiver : ℕ)
      → (handle_start p s a sender receiver).state.mmio b ≡ s.mmio b
  unfolding handle_start start_locality start_command_request
  handle_start_outside s a sender receiver = ground (
    arith,
    start_locality_outside b out s (u32 a.arg6),
    defer_locality_outside s (u32 a.arg6) sender receiver,
    defer_command_outside s (u32 a.arg6) sender receiver,
    start_command_outside s (u32 a.arg6),
  )

  handle_finish_outside :
      (s : Service W) (sender : ℕ) → IsValid s → (handle_finish p s sender).state.mmio b ≡ s.mmio b
  unfolding handle_finish finish_pending
  handle_finish_outside s sender v = ground (
    arith,
    apply_outside b out s s.pending_locality s.pending_locality_ctrl,
    complete_outside s s.pending_command_locality s.pending_command_size,
  )

  handle_register_outside :
      (s : Service W) (a : Args) (sender receiver : ℕ)
      → (handle_register p s a sender receiver).state.mmio b ≡ s.mmio b
  unfolding handle_register
  handle_register_outside s a sender receiver = ground arith

  handle_unregister_outside :
      (s : Service W) (sender : ℕ) → (handle_unregister p s sender).state.mmio b ≡ s.mmio b
  unfolding handle_unregister
  handle_unregister_outside s sender = ground arith

  -- A request writes no byte outside the pages of the five localities, whatever it asks: from a
  -- valid state, every other address holds what it held.
  pub handle_request_outside :
      (s : Service W) (a : Args) → IsValid s → (handle_request p s a).1.mmio b ≡ s.mmio b
  unfolding handle_request feature_info
  handle_request_outside s a v =
      let sender = sender_id a.arg1 in
      let receiver = receiver_id a.arg1 in
      ground (
        arith,
        handle_start_outside s a sender receiver,
        handle_register_outside s a sender receiver,
        handle_unregister_outside s sender,
        handle_finish_outside s sender v,
      )

-- The first `n` bytes of a buffer, with 0 past its end.
abbrev pub first_bytes : List ℕ → ℕ → List ℕ
first_bytes xs zero = []
first_bytes [] (suc n) = 0 ∷ first_bytes [] n
first_bytes (x ∷ xs) (suc n) = x % 256 ∷ first_bytes xs n

pub copy_from-copy_to_first :
    (m : Memory) (dst : ℕ) (src : List ℕ) (n : ℕ)
    → copy_from_mmio (copy_to_mmio m dst src n) dst n ≡ first_bytes src n
unfolding copy_from_mmio copy_to_mmio
copy_from-copy_to_first m dst src zero = refl
copy_from-copy_to_first m dst [] (suc n) =
    ap₂ ◌∷◌ (ground (arith, copy_to_mmio_other (write8 m dst 0) (dst + 1) [] n dst))
      (copy_from-copy_to_first (write8 m dst 0) (dst + 1) [] n)
copy_from-copy_to_first m dst (x ∷ src) (suc n) =
    ap₂ ◌∷◌ (ground (arith, copy_to_mmio_other (write8 m dst x) (dst + 1) src n dst))
      (copy_from-copy_to_first (write8 m dst x) (dst + 1) src n)

copy_from-write32 :
    (m : Memory) (a v src n : ℕ)
    → a + 4 ≤ src
    → copy_from_mmio (write32 m a v) src n ≡ copy_from_mmio m src n
unfolding copy_from_mmio
copy_from-write32 m a v src zero h = refl
copy_from-write32 m a v src (suc n) h =
    ap₂ ◌∷◌ (ground (arith, write32_other m a v src))
      (copy_from-write32 m a v (src + 1) n (omega arith))

publish-ok :
    {W : Type 0} (r : Ran W) (l : ℕ)
    → r.status ≡ crb_ok
    → let t = (publish r l).state in
      (copy_from_mmio t.mmio (data_buffer l) r.value ≡ first_bytes t.rsp r.value)
      × (read32 t.mmio (ctrl_start l) ≡ 0)
unfolding publish
publish-ok r l e =
    let filled = copy_to_mmio r.state.mmio (data_buffer l) r.state.rsp r.value in
    rw e (
      copy_from-write32 filled (ctrl_start l) 0 (data_buffer l) r.value (omega arith)
          ∙ copy_from-copy_to_first r.state.mmio (data_buffer l) r.state.rsp r.value,
      read32-write32 filled (ctrl_start l) 0 (omega arith),
    )

module _ {W : Type 0} (p : Platform W) where
  -- The holder of a locality that has set its start bit: if the command runs, the data buffer
  -- holds the response, as many bytes as are handed back and at most 1024, and the start bit is
  -- cleared; if it fails, no byte of memory changes and no size is handed back.
  start_command_lem :
      (s : Service W) (l : ℕ)
      → s.active_locality ≡ l
      → read32 s.mmio (loc_sts l) % 2 ≡ 1
      → read32 s.mmio (ctrl_start l) % 2 ≡ 1
      → let r = start_command p s l in
        ((r.status ≡ crb_ok)
          × (r.value ≤ 0x400)
          × (copy_from_mmio r.state.mmio (data_buffer l) r.value ≡ first_bytes r.state.rsp r.value)
          × (read32 r.state.mmio (ctrl_start l) ≡ 0))
        ⊎ ((r.status ≡ crb_inv_crb_ctrl_data) × (r.value ≡ 0) × (r.state.mmio ≡ s.mmio))
  unfolding start_command
  start_command_lem s l active sts ctrl =
      let cmd = copy_from_mmio s.mmio (data_buffer l) data_buffer_size in
      let s' = record s { cmd = cmd } in
      let r = execute_own_buffer p s' (be32_read cmd 2) in
      ground (arith, execute_own-Executes p s' (be32_read cmd 2), publish-ok r l)
