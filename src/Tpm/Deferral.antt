-- ===== src/Tpm/Deferral.antt =====
-- Deferred requests against immediate ones.
use ff_a_acs.Base.{refl, ◌∙◌, ℕ, ◌≡◌, true, false, arith}
use ff_a_acs.Tpm.Mmio.{read32, write32, loc_ctrl, Memory}
use ff_a_acs.Tpm.State.{Platform, Service, crb_ok}
use ff_a_acs.Tpm.Service.{
  notif_supported, failed, apply_locality_request, signal_notification, apply_locality_request,
  start_locality_request, complete_pending_command,
}
use ff_a_acs.Tpm.Handler.{
  may_defer, save_locality_request, defer_locality_request, handle_finish, finish_pending,
  finish_locality, defer_command, save_command,
}
use ff_a_acs.Tpm.Signal.{defer_locality-sent, defer_locality-refused_eq}
use ff_a_acs.Tpm.Valid.{IsValid}

-- Two states with the same window and the same active locality.
abbrev pub SameLocality : {W : Type 0} → Service W → Service W → Type 0
SameLocality s t = (s.mmio ≡ t.mmio) × (s.active_locality ≡ t.active_locality)

module _ {W : Type 0} where
  -- A locality request looks at the window and the active locality alone.
  apply-SameLocality :
      (s t : Service W) (l ctrl : ℕ)
      → SameLocality s t
      → SameLocality (apply_locality_request s l ctrl) (apply_locality_request t l ctrl)
  unfolding apply_locality_request
  apply-SameLocality s t l ctrl (m, a) = rw (m, a) (ground arith)

  apply-outstanding :
      (s : Service W) (l ctrl : ℕ) → (apply_locality_request s l ctrl).outstanding ≡ s.outstanding
  unfolding apply_locality_request
  apply-outstanding s l ctrl = ground arith

  apply-pending :
      (s : Service W) (l ctrl : ℕ)
      → (apply_locality_request s l ctrl).pending_locality_valid ≡ s.pending_locality_valid
  unfolding apply_locality_request
  apply-pending s l ctrl = ground arith

module _ {W : Type 0} (p : Platform W) where
  -- finish_notified behind a locality request that was saved and signalled.
  finish-saved :
      (s : Service W) (l sender receiver : ℕ) (w : W)
      → IsValid s
      → may_defer s sender receiver ≡ true
      → notif_supported p ≡ true
      → let d = record (save_locality_request s l) { world = w; outstanding = 1 } in
        handle_finish p d sender ≡ failed crb_ok (record (finish_locality d) { outstanding = 0 })
  unfolding handle_finish finish_pending may_defer save_locality_request
  finish-saved s l sender receiver w v d sup = ground arith

  finished-SameLocality :
      (s : Service W) (l : ℕ) (w : W)
      → SameLocality
          (finish_locality (record (save_locality_request s l) { world = w; outstanding = 1 }))
          (start_locality_request s l)
  unfolding finish_locality save_locality_request start_locality_request
  finished-SameLocality s l w =
      let d = record (save_locality_request s l) { world = w; outstanding = 1 } in
      let t = record s { mmio = write32 s.mmio (loc_ctrl l) 0 } in
      apply-SameLocality d t l (read32 s.mmio (loc_ctrl l)) (refl, refl)

  refused-SameLocality :
      (s : Service W) (l : ℕ) (w : W)
      → let saved = save_locality_request s l in
        SameLocality
          (apply_locality_request
            (record saved { world = w; pending_locality_valid = 0 })
            l
            saved.pending_locality_ctrl)
          (start_locality_request s l)
  unfolding save_locality_request start_locality_request
  refused-SameLocality s l w =
      let d = record (save_locality_request s l) { world = w; pending_locality_valid = 0 } in
      let t = record s { mmio = write32 s.mmio (loc_ctrl l) 0 } in
      apply-SameLocality d t l (read32 s.mmio (loc_ctrl l)) (refl, refl)

  outstanding_of_may_defer : (s : Service W) (c v : ℕ) → may_defer s c v ≡ true → s.outstanding ≡ 0
  unfolding may_defer
  outstanding_of_may_defer s c v h = ground arith

  supported_of_sent :
      (s : Service W) (c v : ℕ) → (signal_notification p s c v).0 ≡ true → notif_supported p ≡ true
  unfolding signal_notification
  supported_of_sent s c v h = ground arith

  -- The service accepts a locality request of its registered client for later and the signal goes
  -- out: the window is as before but for the cleared control word, the active locality is
  -- unchanged, and the client's finish_notified then succeeds with exactly the window and the
  -- active locality that an immediate request gives, and nothing outstanding.
  pub finish-defer_locality :
      (s : Service W) (l sender receiver : ℕ)
      → IsValid s
      → may_defer s sender receiver ≡ true
      → (signal_notification p (save_locality_request s l) sender receiver).0 ≡ true
      → let d = defer_locality_request p s l sender receiver in
        let r = handle_finish p d sender in
        (d.mmio ≡ (save_locality_request s l).mmio)
        × (d.active_locality ≡ s.active_locality)
        × (d.outstanding ≡ 1)
        × (r.status ≡ crb_ok)
        × SameLocality r.state (start_locality_request s l)
        × (r.state.outstanding ≡ 0)
  unfolding save_locality_request
  finish-defer_locality s l sender receiver v d sent =
      let (w, e) = defer_locality-sent p s l sender receiver sent in
      let fin =
        finish-saved s l sender receiver w v d
          (supported_of_sent (save_locality_request s l) sender receiver sent) in
      rw e (refl, refl, refl, rw fin, rw fin (finished-SameLocality s l w), rw fin)

  -- Where the signal is refused, the request takes effect at once: the window and the active
  -- locality are those of an immediate request, and nothing is saved or outstanding.
  pub defer_locality-refused :
      (s : Service W) (l sender receiver : ℕ)
      → IsValid s
      → may_defer s sender receiver ≡ true
      → (signal_notification p (save_locality_request s l) sender receiver).0 ≡ false
      → let d = defer_locality_request p s l sender receiver in
        SameLocality d (start_locality_request s l)
        × (d.outstanding ≡ 0)
        × (d.pending_locality_valid ≡ 0)
        × (d.pending_locality_ctrl ≡ 0)
  unfolding save_locality_request
  defer_locality-refused s l sender receiver v d refused =
      let (w, e) = defer_locality-refused_eq p s l sender receiver refused in
      let t = record (save_locality_request s l) { world = w; pending_locality_valid = 0 } in
      rw e (
        refused-SameLocality s l w,
        apply-outstanding t l t.pending_locality_ctrl
            ∙ outstanding_of_may_defer s sender receiver d,
        apply-pending t l t.pending_locality_ctrl,
        refl,
      )

  -- A command that was accepted for later runs on the bytes saved then: whatever is written to the
  -- window before finish_notified, it hands back the same status, size and response code, and
  -- leaves the same response and the same outside world.
  pub finish-defer_command :
      (s : Service W) (l sender receiver : ℕ) (m : Memory)
      → IsValid s
      → may_defer s sender receiver ≡ true
      → (signal_notification p (save_command s l) sender receiver).0 ≡ true
      → let d = (defer_command p s l sender receiver).state in
        let r = handle_finish p d sender in
        let r' = handle_finish p (record d { mmio = m }) sender in
        (r'.status ≡ r.status)
        × (r'.value ≡ r.value)
        × (r'.rc ≡ r.rc)
        × (r'.state.rsp ≡ r.state.rsp)
        × (r'.state.world ≡ r.state.world)
  unfolding defer_command signal_notification handle_finish finish_pending may_defer
      complete_pending_command
  finish-defer_command s l sender receiver m v d sent = ground arith
