-- ===== src/Tpm/Grants.antt =====
-- Who holds a locality: how each operation moves the grant bits of the CRB window against
-- `g_tpm_active_locality`.
use ff_a_acs.Base.{◌≢◌, ℕ, ◌%◌, ◌≤◌, ◌≡◌, ◌⊎◌, arith, List, inl, inr}
use native.Mathlib.Decide.{ℕ_discrete}
use ff_a_acs.Ffa.{Args, sender_id, receiver_id}
use ff_a_acs.Tpm.Mmio.{
  Memory, read32, write32, loc_sts, loc_ctrl, ctrl_start, data_buffer, copy_to_mmio,
  data_buffer_size, copy_from_mmio, be32_read,
}
use ff_a_acs.Tpm.Mmio.Frame.{Apart, read32-write32, read32-write32_other, read32-copy_to_mmio}
use ff_a_acs.Tpm.State.{Platform, u32, Service}
use ff_a_acs.Tpm.Service.{
  Ran, apply_locality_request, execute_own_buffer, execute_other_buffer, publish,
  start_locality_request, signal_notification, start_command, complete_pending_command,
}
use ff_a_acs.Tpm.Handler.{
  save_locality_request, save_command, drop_command, defer_locality_request, defer_command,
  start_locality, start_command_request, handle_start, handle_register, handle_unregister,
  handle_finish, finish_pending, handle_request, feature_info,
}
use ff_a_acs.Tpm.Valid.{IsValid}

abbrev pub granted : Memory → ℕ → ℕ
granted m l = read32 m (loc_sts l) % 2

-- Locality `l` is granted only if it is the active one.
abbrev pub GrantedTo : {W : Type 0} → Service W → ℕ → Type 0
GrantedTo s l = granted s.mmio l ≡ 1 → s.active_locality ≡ l

sts-Apart : (k l : ℕ) → k ≢ l → Apart (loc_sts k) (loc_sts l) 4
sts-Apart k l h = omega arith

-- A write of the grant register of `l`.
granted-write :
    (m : Memory) (l v k : ℕ)
    → v ≤ 1
    → ((k ≡ l) × (granted (write32 m (loc_sts l) v) k ≡ v))
      ⊎ ((k ≢ l) × (granted (write32 m (loc_sts l) v) k ≡ granted m k))
granted-write m l v k h = elim (ℕ_discrete k l) [
  | yes e ↦ inl (e, rw e (ground (arith, read32-write32 m (loc_sts l) v (omega arith))))
  | no n ↦ inr (n, rw (read32-write32_other m (loc_sts l) v (loc_sts k) (sts-Apart k l n)))
]

granted-write_ctrl : (m : Memory) (l v k : ℕ) → granted (write32 m (loc_ctrl l) v) k ≡ granted m k
granted-write_ctrl m l v k = rw (read32-write32_other m (loc_ctrl l) v (loc_sts k) (omega arith))

module _ {W : Type 0} where
  apply-GrantedTo :
      (s : Service W) (l ctrl k : ℕ)
      → l ≤ 4
      → k ≤ 4
      → GrantedTo s k
      → GrantedTo (apply_locality_request s l ctrl) k
  unfolding apply_locality_request
  apply-GrantedTo s l ctrl k hl hk g =
      ground (arith, granted-write s.mmio l 0 k, granted-write s.mmio l 1 k)

  granted-publish :
      (r : Ran W) (l k : ℕ)
      → r.value ≤ 0x400
      → granted ((publish r l).state.mmio) k ≡ granted r.state.mmio k
  unfolding publish
  granted-publish r l k h =
      let filled = copy_to_mmio r.state.mmio (data_buffer l) r.state.rsp r.value in
      ground (
        arith,
        read32-write32_other filled (ctrl_start l) 0 (loc_sts k) (omega arith),
        read32-copy_to_mmio r.state.mmio (data_buffer l) r.state.rsp r.value (loc_sts k)
            (omega arith),
      )

module _ {W : Type 0} (p : Platform W) where
  -- A response that is handed back fits the data buffer, and the window is not touched.
  pub record Executes (s : Service W) (r : Ran W) : Type 0 where
    pub window : r.state.mmio ≡ s.mmio
    pub active : r.state.active_locality ≡ s.active_locality
    pub fits : r.value ≤ 0x400

  pub execute_own-Executes : (s : Service W) (n : ℕ) → Executes s (execute_own_buffer p s n)
  unfolding execute_own_buffer
  execute_own-Executes s n = ground arith

  pub execute_other-Executes :
      (s : Service W) (buf : List ℕ) (n : ℕ) → Executes s (execute_other_buffer p s buf n)
  unfolding execute_other_buffer
  execute_other-Executes s buf n = ground arith

  publish_active :
      (r : Ran W) (l : ℕ) → (publish r l).state.active_locality ≡ r.state.active_locality
  unfolding publish
  publish_active r l = ground arith

  start_command-GrantedTo :
      (s : Service W) (l k : ℕ) → GrantedTo s k → GrantedTo (start_command p s l).state k
  unfolding start_command
  start_command-GrantedTo s l k g =
      let cmd = copy_from_mmio s.mmio (data_buffer l) data_buffer_size in
      let s' = record s { cmd = cmd } in
      let n = be32_read cmd 2 in
      let r = execute_own_buffer p s' n in
      ground (arith, execute_own-Executes s' n, publish_active r l, granted-publish r l k)

  complete-GrantedTo :
      (s : Service W) (l n k : ℕ)
      → GrantedTo s k
      → GrantedTo (complete_pending_command p s l n).state k
  unfolding complete_pending_command
  complete-GrantedTo s l n k g =
      let r = execute_other_buffer p s s.pending_cmd n in
      ground
        (arith, execute_other-Executes s s.pending_cmd n, publish_active r l, granted-publish r l k)

  defer_locality-GrantedTo :
      (s : Service W) (l sender receiver k : ℕ)
      → l ≤ 4
      → k ≤ 4
      → GrantedTo s k
      → GrantedTo (defer_locality_request p s l sender receiver) k
  unfolding defer_locality_request signal_notification
  defer_locality-GrantedTo s l sender receiver k hl hk g =
      let s' = (signal_notification p (save_locality_request s l) sender receiver).1 in
      ground (
        arith,
        granted-write_ctrl s.mmio l 0 k,
        apply-GrantedTo (record s' { pending_locality_valid = 0 }) l s'.pending_locality_ctrl k hl
            hk,
      )

  start_locality-GrantedTo :
      (s : Service W) (l k : ℕ)
      → l ≤ 4
      → k ≤ 4
      → GrantedTo s k
      → GrantedTo (start_locality_request s l) k
  unfolding start_locality_request
  start_locality-GrantedTo s l k hl hk g =
      let s' = record s { mmio = write32 s.mmio (loc_ctrl l) 0 } in
      apply-GrantedTo s' l (read32 s.mmio (loc_ctrl l)) k hl hk
        (ground (arith, granted-write_ctrl s.mmio l 0 k))

  defer_command-GrantedTo :
      (s : Service W) (l sender receiver k : ℕ)
      → GrantedTo s k
      → GrantedTo (defer_command p s l sender receiver).state k
  unfolding defer_command signal_notification
  defer_command-GrantedTo s l sender receiver k g =
      let s' = drop_command (signal_notification p (save_command s l) sender receiver).1 in
      ground (arith, start_command-GrantedTo s' l k)

  handle_start-GrantedTo :
      (s : Service W) (a : Args) (sender receiver k : ℕ)
      → k ≤ 4
      → GrantedTo s k
      → GrantedTo (handle_start p s a sender receiver).state k
  unfolding handle_start start_locality start_command_request
  handle_start-GrantedTo s a sender receiver k hk g = ground (
    arith,
    start_locality-GrantedTo s (u32 a.arg6) k,
    defer_locality-GrantedTo s (u32 a.arg6) sender receiver k,
    defer_command-GrantedTo s (u32 a.arg6) sender receiver k,
    start_command-GrantedTo s (u32 a.arg6) k,
  )

  handle_finish-GrantedTo :
      (s : Service W) (sender k : ℕ)
      → k ≤ 4
      → IsValid s
      → GrantedTo s k
      → GrantedTo (handle_finish p s sender).state k
  unfolding handle_finish finish_pending
  handle_finish-GrantedTo s sender k hk v g = ground (
    arith,
    apply-GrantedTo s s.pending_locality s.pending_locality_ctrl k,
    complete-GrantedTo s s.pending_command_locality s.pending_command_size k,
  )

  pub handle_request-GrantedTo :
      (s : Service W) (a : Args) (k : ℕ)
      → k ≤ 4
      → IsValid s
      → GrantedTo s k
      → GrantedTo (handle_request p s a).1 k
  unfolding handle_request feature_info handle_register handle_unregister
  handle_request-GrantedTo s a k hk v g = ground (
    arith,
    handle_start-GrantedTo s a (sender_id a.arg1) (receiver_id a.arg1) k,
    handle_finish-GrantedTo s (sender_id a.arg1) k,
  )
