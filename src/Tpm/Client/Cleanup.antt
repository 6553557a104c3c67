-- ===== src/Tpm/Client/Cleanup.antt =====
-- `val_tpm_notification_cleanup`, a function for each resource that it gives back.
use ff_a_acs.Base.{ℕ, ◌≡◌, ◌≢◌, ◌⊎◌, ◌!=◌, if◌then◌else◌, arith}
use ff_a_acs.Ffa.Session.{val_success, val_error}
use ff_a_acs.Tpm.State.{crb_ok}
use ff_a_acs.Tpm.Client.{Host}
use ff_a_acs.Tpm.Client.Notify.{
  Context, Did, disable_enabled_sri, notification_unregister, notification_unbind, bitmap_destroy,
}

-- `if (status != VAL_SUCCESS) cleanup_status = status;`
unfoldable pub worse : ℕ → ℕ → ℕ
worse cleanup_status status = if status != val_success then status else cleanup_status

module _ {W : Type 0} (h : Host W) where
  unfoldable pub cleanup_sri : W → Context → Did W
  cleanup_sri w c =
      let (c', w') = disable_enabled_sri h w c in
      record { status = val_success; ctx = c'; world = w' }

  unfoldable pub cleanup_registration : Did W → Did W
  unfolding worse
  cleanup_registration d =
      if d.ctx.registered != 0
      then (let r = notification_unregister h (d.world) (d.ctx) crb_ok in
          record r { status = worse (d.status) (r.status) })
      else d

  unfoldable pub cleanup_binding : Did W → Did W
  unfolding worse
  cleanup_binding d =
      if d.ctx.bound != 0
      then (let r = notification_unbind h (d.world) (d.ctx) in
          record r { status = worse (d.status) (r.status) })
      else d

  unfoldable pub cleanup_bitmap : Did W → Did W
  unfolding worse
  cleanup_bitmap d =
      if d.ctx.bitmap_created != 0
      then (let (status, w') = bitmap_destroy h (d.world) (d.ctx.client_id) in
          record {
            status = worse (d.status) status;
            ctx = record (d.ctx) { bitmap_created = 0 };
            world = w';
          })
      else d

  unfoldable pub cleanup_handler : Did W → Did W
  cleanup_handler d =
      if d.ctx.sri_registered != 0
      then (let (failed, w') = h.irq_unregister (d.world) (d.ctx.sri_id) in
          record {
            status = if failed then val_error else d.status;
            ctx = record (d.ctx) { sri_registered = 0 };
            world = w';
          })
      else d

  unfoldable pub notification_cleanup : W → Context → Did W
  notification_cleanup w c =
      cleanup_handler (cleanup_bitmap (cleanup_binding (cleanup_registration (cleanup_sri w c))))

  pub disable_enabled_sri_off :
      (w : W) (c : Context) → (disable_enabled_sri h w c).0.sri_enabled ≡ 0
  unfolding disable_enabled_sri
  disable_enabled_sri_off w c = ground arith

  -- The steps behind the disabling of the interrupt leave it disabled.
  pub cleanup_registration-sri :
      (d : Did W) → (cleanup_registration d).ctx.sri_enabled ≡ d.ctx.sri_enabled
  unfolding cleanup_registration notification_unregister
  cleanup_registration-sri d = ground arith

  pub cleanup_binding-sri : (d : Did W) → (cleanup_binding d).ctx.sri_enabled ≡ d.ctx.sri_enabled
  unfolding cleanup_binding notification_unbind
  cleanup_binding-sri d = ground arith

  cleanup_registration-status :
      (d : Did W)
      → (cleanup_registration d).status ≡ val_success
      → (d.status ≡ val_success) × ((cleanup_registration d).ctx.registered ≡ 0)
  unfolding cleanup_registration notification_unregister
  cleanup_registration-status d e = ground arith

  cleanup_binding-status :
      (d : Did W)
      → (cleanup_binding d).status ≡ val_success
      → (d.status ≡ val_success)
        × ((cleanup_binding d).ctx.bound ≡ 0)
        × ((cleanup_binding d).ctx.registered ≡ d.ctx.registered)
  unfolding cleanup_binding notification_unbind
  cleanup_binding-status d e = ground arith

  cleanup_bitmap_lem :
      (d : Did W)
      → ((cleanup_bitmap d).ctx ≡ record (d.ctx) { bitmap_created = 0 })
        × ((cleanup_bitmap d).status ≡ val_success → d.status ≡ val_success)
  unfolding cleanup_bitmap
  cleanup_bitmap_lem d = ground arith

  pub cleanup_handler_lem :
      (d : Did W)
      → ((cleanup_handler d).ctx ≡ record (d.ctx) { sri_registered = 0 })
        × ((cleanup_handler d).status ≡ val_success → d.status ≡ val_success)
  unfolding cleanup_handler
  cleanup_handler_lem d = ground arith

  -- Cleaning up, whatever the firmware and the service answer, leaves the interrupt disabled, its
  -- handler counted as unregistered and the bitmap as destroyed; where it reports success, the
  -- client is moreover neither registered nor bound.
  pub notification_cleanup_flags :
      (w : W) (c : Context)
      → let r = notification_cleanup w c in
        (r.ctx.sri_enabled ≡ 0)
        × (r.ctx.sri_registered ≡ 0)
        × (r.ctx.bitmap_created ≡ 0)
        × ((r.status ≢ val_success) ⊎ ((r.ctx.registered ≡ 0) × (r.ctx.bound ≡ 0)))
  unfolding notification_cleanup cleanup_sri
  notification_cleanup_flags w c =
      let d = cleanup_sri w c in
      let d1 = cleanup_registration d in
      let d2 = cleanup_binding d1 in
      let d3 = cleanup_bitmap d2 in
      ground (
        arith,
        disable_enabled_sri_off w c,
        cleanup_registration-sri d,
        cleanup_binding-sri d1,
        cleanup_registration-status d,
        cleanup_binding-status d1,
        cleanup_bitmap_lem d2,
        cleanup_handler_lem d3,
      )
