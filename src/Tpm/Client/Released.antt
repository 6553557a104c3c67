-- ===== src/Tpm/Client/Released.antt =====
-- What `val_tpm_notification_cleanup` of val/src/val_tpm_crb_common_abi.c gives back, step by step.
use ff_a_acs.Base.{
  ℕ, ◌/◌, ◌%◌, ◌^◌, ◌<◌, ◌≡◌, ◌≢◌, ◌⊎◌, refl, sym, ◌∙◌, true, false, ◌==◌, ◌!=◌, arith, inl, inr,
  Bool-cases, ==→eq,
}
use ff_a_acs.Ffa.{Args, zero_args, endpoints, error_32}
use ff_a_acs.Ffa.Call.{call_32, ffa_smccc, low_words}
use ff_a_acs.Ffa.Notifications.{ffa_notification_bitmap_destroy}
use ff_a_acs.Ffa.Session.{val_success, status_of}
use ff_a_acs.Tpm.Client.{Host}
use ff_a_acs.Tpm.Client.Notify.{
  Context, Did, disable_enabled_sri, disable_sri, notification_unregister, notification_unbind,
  bitmap_destroy,
}
use ff_a_acs.Tpm.Client.Cleanup.{
  worse, cleanup_sri, cleanup_registration, cleanup_binding, cleanup_bitmap, cleanup_handler,
  notification_cleanup, notification_cleanup_flags, disable_enabled_sri_off,
  cleanup_registration-sri, cleanup_binding-sri, cleanup_handler_lem,
}
use ff_a_acs.Tpm.Client.Holdings.{
  Holdings, Keeps, Counts, Counted, Small, Named, disable-Counts, unregister-Counts, unbind-Counts,
}

module _ {W : Type 0} (h : Host W) (v : Holdings W) (keeps : Keeps h v) where
  unlike : (x y : ℕ) → (x == y) ≡ false → x ≢ y
  unlike x y e = ground (arith, e)

  nonzero : (x : ℕ) → (x != 0) ≡ true → x ≢ 0
  nonzero x e = ground (arith, e)

  registration-Counted : (d : Did W) → Counted v d → Counted v (cleanup_registration h d)
  unfolding cleanup_registration
  registration-Counted d k = elim (Bool-cases (d.ctx.registered != 0)) [
    | inl e ↦
        rw (cleanup_registration, e)
          (unregister-Counts h v keeps d.world d.ctx (nonzero d.ctx.registered e) k)
    | inr e ↦ rw (cleanup_registration, e) k
  ]

  registration-Named : (d : Did W) → Named (cleanup_registration h d).ctx d.ctx
  unfolding cleanup_registration notification_unregister
  registration-Named d = ground arith

  binding-Counted : (d : Did W) → Small d.ctx → Counted v d → Counted v (cleanup_binding h d)
  unfolding cleanup_binding
  binding-Counted d s k = elim (Bool-cases (d.ctx.bound != 0)) [
    | inl e ↦
        rw (cleanup_binding, e) (unbind-Counts h v keeps d.world d.ctx s (nonzero d.ctx.bound e) k)
    | inr e ↦ rw (cleanup_binding, e) k
  ]

  binding-Named : (d : Did W) → Named (cleanup_binding h d).ctx d.ctx
  unfolding cleanup_binding notification_unbind
  binding-Named d = ground arith

  destroy_frame : Context → Args
  unfolding low_words
  destroy_frame c = record (low_words (record zero_args { arg1 = c.client_id })) {
    fid = 0x8400007e;
  }

  destroyed :
      (w : W) (c : Context)
      → Small c
      → ((h.conduit w (destroy_frame c)).0.fid == error_32) ≡ false
      → v.bitmap (h.conduit w (destroy_frame c)).1 c.client_id ≡ false
  unfolding destroy_frame low_words
  destroyed w c small e =
      let p : c.client_id % 2 ^ 32 ≡ c.client_id = omega (arith, small.0) in
      let r = h.conduit w (destroy_frame c) in
      sym (λ i. v.bitmap r.1 (p i)) ∙ keeps.destroys w (destroy_frame c) refl (ground (arith, e))

  bitmap_out :
      (d : Did W)
      → (d.ctx.bitmap_created != 0) ≡ true
      → (cleanup_bitmap h d).status ≡ val_success
      → ((h.conduit d.world (destroy_frame d.ctx)).0.fid == error_32) ≡ false
  unfolding cleanup_bitmap bitmap_destroy status_of worse destroy_frame low_words
      ffa_notification_bitmap_destroy call_32 ffa_smccc
  bitmap_out d e ok = ground (arith, e, ok)

  bitmap-Counted :
      (d : Did W)
      → Small d.ctx
      → Counted v d
      → (cleanup_bitmap h d).status ≡ val_success
      → Counted v (cleanup_bitmap h d)
  unfolding cleanup_bitmap bitmap_destroy destroy_frame low_words ffa_notification_bitmap_destroy
      call_32 ffa_smccc
  bitmap-Counted d s k ok = elim (Bool-cases (d.ctx.bitmap_created != 0)) [
    | inl e ↦
        let f = destroy_frame d.ctx in
        rw (cleanup_bitmap, e)
          (record {
            enabled = λ z. keeps.call_enabled d.world f d.ctx.sri_id ∙ k.enabled z;
            handled = λ z. keeps.call_handled d.world f d.ctx.sri_id ∙ k.handled z;
            bitmap = λ z. destroyed d.world d.ctx s (bitmap_out d e ok);
            bound = λ z. keeps.call_bound d.world f _ _ _ (omega arith) (k.bound z);
            registered = λ z. keeps.call_registered d.world f _ (omega arith) (k.registered z);
          })
    | inr e ↦ rw (cleanup_bitmap, e) k
  ]

  handler_out :
      (d : Did W)
      → (d.ctx.sri_registered != 0) ≡ true
      → (cleanup_handler h d).status ≡ val_success
      → (h.irq_unregister d.world d.ctx.sri_id).0 ≡ false
  unfolding cleanup_handler
  handler_out d e ok = ground (arith, e, ok)

  handler-Counted :
      (d : Did W)
      → Counted v d
      → (cleanup_handler h d).status ≡ val_success
      → Counted v (cleanup_handler h d)
  unfolding cleanup_handler
  handler-Counted d k ok = elim (Bool-cases (d.ctx.sri_registered != 0)) [
    | inl e ↦
        rw (cleanup_handler, e)
          (record {
            enabled = λ z. keeps.unregister_enabled d.world d.ctx.sri_id d.ctx.sri_id ∙ k.enabled z;
            handled = λ z. keeps.unregisters_handler d.world d.ctx.sri_id (handler_out d e ok);
            bitmap = λ z. keeps.unregister_bitmap d.world d.ctx.sri_id _ ∙ k.bitmap z;
            bound = λ z. keeps.unregister_bound d.world d.ctx.sri_id _ _ _ ∙ k.bound z;
            registered = λ z. keeps.unregister_registered d.world d.ctx.sri_id _ ∙ k.registered z;
          })
    | inr e ↦ rw (cleanup_handler, e) k
  ]

  bitmap-Named : (d : Did W) → Named (cleanup_bitmap h d).ctx d.ctx
  unfolding cleanup_bitmap
  bitmap-Named d = ground arith

  handler-Named : (d : Did W) → Named (cleanup_handler h d).ctx d.ctx
  unfolding cleanup_handler
  handler-Named d = ground arith

  disable-Named : (w : W) (c : Context) → Named (disable_enabled_sri h w c).0 c
  unfolding disable_enabled_sri disable_sri
  disable-Named w c = ground arith

  bitmap_enabled :
      (d : Did W) (i : ℕ) → v.enabled (cleanup_bitmap h d).world i ≡ v.enabled d.world i
  unfolding cleanup_bitmap bitmap_destroy ffa_notification_bitmap_destroy call_32 ffa_smccc
  bitmap_enabled d i = elim (Bool-cases (d.ctx.bitmap_created != 0)) [
    | inl e ↦ rw (cleanup_bitmap, e) (keeps.call_enabled d.world _ i)
    | inr e ↦ rw (cleanup_bitmap, e) refl
  ]

  handler_enabled :
      (d : Did W) (i : ℕ) → v.enabled (cleanup_handler h d).world i ≡ v.enabled d.world i
  unfolding cleanup_handler
  handler_enabled d i = elim (Bool-cases (d.ctx.sri_registered != 0)) [
    | inl e ↦ rw (cleanup_handler, e) (keeps.unregister_enabled d.world d.ctx.sri_id i)
    | inr e ↦ rw (cleanup_handler, e) refl
  ]

  -- Nothing of what the context is about is held any more.
  abbrev pub Released : Context → W → Type 0
  Released c w =
      (v.handled w c.sri_id ≡ false)
      × (v.bitmap w c.client_id ≡ false)
      × (v.bound w (endpoints c.tpm_sp_id c.client_id) (c.bitmap % 2 ^ 32)
            (c.bitmap / 2 ^ 32 % 2 ^ 32)
          ≡ false)
      × (v.registered w (endpoints c.client_id c.tpm_sp_id) ≡ false)

  abbrev Clear : Context → Type 0
  Clear c = (c.sri_registered ≡ 0) × (c.bitmap_created ≡ 0) × (c.registered ≡ 0) × (c.bound ≡ 0)

  released : (c c' : Context) (w : W) → Counts v c' w → Named c' c → Clear c' → Released c w
  released c c' w k (id, sp, bits, sri) (h0, b0, r0, n0) = (
    sym (λ i. v.handled w (sri i)) ∙ k.handled h0,
    sym (λ i. v.bitmap w (id i)) ∙ k.bitmap b0,
    sym (λ i. v.bound w (endpoints (sp i) (id i)) (bits i % 2 ^ 32) (bits i / 2 ^ 32 % 2 ^ 32))
        ∙ k.bound n0,
    sym (λ i. v.registered w (endpoints (id i) (sp i))) ∙ k.registered r0,
  )

  module _ (w : W) (c : Context) (small : Small c) (counts : Counts v c w) where
    abbrev d0 : Did W
    d0 = cleanup_sri h w c

    abbrev d1 : Did W
    d1 = cleanup_registration h d0

    abbrev d2 : Did W
    d2 = cleanup_binding h d1

    abbrev d3 : Did W
    d3 = cleanup_bitmap h d2

    named : Named d2.ctx c
    unfolding cleanup_sri
    named = omega (arith, binding-Named d1, registration-Named d0, disable-Named w c)

    small1 : Small d1.ctx
    unfolding cleanup_sri
    small1 = omega (arith, small, registration-Named d0, disable-Named w c)

    counted : Counted v d2
    unfolding cleanup_sri
    counted =
        binding-Counted d1 small1 (registration-Counted d0 (disable-Counts h v keeps w c counts))

    off : d2.ctx.sri_enabled ≡ 0
    unfolding cleanup_sri
    off = cleanup_binding-sri h d1 ∙ cleanup_registration-sri h d0 ∙ disable_enabled_sri_off h w c

    disabled : v.enabled (cleanup_handler h d3).world c.sri_id ≡ false
    disabled =
        handler_enabled d3 c.sri_id
        ∙ bitmap_enabled d2 c.sri_id
        ∙ sym (λ i. v.enabled d2.world (named.3 i))
        ∙ counted.enabled off

    given_back :
        (cleanup_handler h d3).status ≡ val_success
        → Clear (cleanup_handler h d3).ctx
        → Released c (cleanup_handler h d3).world
    given_back ok clear =
        released c (cleanup_handler h d3).ctx (cleanup_handler h d3).world
          (handler-Counted d3
            (bitmap-Counted d2 (omega (arith, small, named)) counted
              ((cleanup_handler_lem h d3).1 ok))
            ok)
          (omega (arith, handler-Named d3, bitmap-Named d2, named)) clear

  -- With ids of 16 bits, a context that counts all that the client holds, and an interrupt controller and
  -- firmware on which each call does its own thing only: after cleaning up, whatever is answered, the
  -- interrupt is disabled, and the context says disabled, unregistered and destroyed of the interrupt,
  -- its handler and the bitmap. Where success is reported, the handler is taken out, the bitmap is
  -- destroyed, the notification is unbound and the client unregistered, and the context says so.
  pub notification_cleanup_lem :
      (w : W) (c : Context)
      → c.client_id < 65536
      → c.tpm_sp_id < 65536
      → Counts v c w
      → let r = notification_cleanup h w c in
        (v.enabled r.world c.sri_id ≡ false)
        × (r.ctx.sri_enabled ≡ 0)
        × (r.ctx.sri_registered ≡ 0)
        × (r.ctx.bitmap_created ≡ 0)
        × ((r.status ≢ val_success)
            ⊎ ((r.ctx.registered ≡ 0) × (r.ctx.bound ≡ 0) × Released c r.world))
  unfolding notification_cleanup
  notification_cleanup_lem w c l m k =
      let (e, n, b, f) = notification_cleanup_flags h w c in
      (
        disabled w c (l, m) k,
        e,
        n,
        b,
        elim f [
          | inl failed ↦ inl failed
          | inr (g, o) ↦ elim (Bool-cases ((notification_cleanup h w c).status == val_success)) [
            | inr bad ↦ inl (unlike _ _ bad)
            | inl ok ↦ inr (g, o, given_back w c (l, m) k (==→eq _ _ ok) (n, b, g, o))
          ]
        ],
      )
