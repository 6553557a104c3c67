-- ===== src/Tpm/Client/Holdings.antt =====
-- What clients of the TPM service hold with the firmware and the interrupt controller, and what the calls
-- of val/src/val_tpm_crb_common_abi.c that give something back make of it. The frames are those of the FF-A specification, in its own numbers.
use ff_a_acs.Base.{
  ℕ, ◌/◌, ◌%◌, ◌^◌, ◌<◌, ◌≡◌, ◌≢◌, refl, sym, ◌∙◌, Bool, true, false, ◌==◌, ◌!=◌, arith, inl, inr,
  Bool-cases, replicate,
}
use ff_a_acs.Ffa.{Args, endpoints, error_32}
use ff_a_acs.Ffa.Call.{call_32, call_64, ffa_smccc, low_words}
use ff_a_acs.Ffa.Messages.{ffa_msg_send_direct_req, ffa_msg_send_direct_req_64}
use ff_a_acs.Ffa.Notifications.{ffa_notification_unbind}
use ff_a_acs.Ffa.Session.{val_success}
use ff_a_acs.Tpm.State.{crb_ok, unregister_notification}
use ff_a_acs.Tpm.Client.{Host, send_and_expect, send_abi, request_frame, expect}
use ff_a_acs.Tpm.Client.Notify.{
  Context, Did, disable_enabled_sri, disable_sri, notification_unregister, notification_unbind,
  binding_frame,
}

-- What the world holds for a client: whether an interrupt is enabled and has a handler, whether a client
-- has a bitmap, what is bound by the words of the frame, and whether a pair of ids is registered.
pub record Holdings (W : Type 0) : Type 0 where
  pub enabled : W → ℕ → Bool
  pub handled : W → ℕ → Bool
  pub bitmap : W → ℕ → Bool
  pub bound : W → (ids low high : ℕ) → Bool
  pub registered : W → ℕ → Bool

-- The interrupt calls do their own thing only, and so does each frame: FFA_NOTIFICATION_BITMAP_DESTROY
-- and FFA_NOTIFICATION_UNBIND where no error comes back, and a direct request that unregisters where the
-- service answers CRB_OK. Only the opposite calls give a client something.
pub record Keeps {W : Type 0} (h : Host W) (v : Holdings W) : Type 0 where
  pub disables : (w : W) (i : ℕ) → v.enabled (h.irq_disable w i) i ≡ false
  pub disable_handled : (w : W) (i j : ℕ) → v.handled (h.irq_disable w i) j ≡ v.handled w j
  pub disable_bitmap : (w : W) (i j : ℕ) → v.bitmap (h.irq_disable w i) j ≡ v.bitmap w j
  pub disable_bound : (w : W) (i j k l : ℕ) → v.bound (h.irq_disable w i) j k l ≡ v.bound w j k l
  pub disable_registered : (w : W) (i j : ℕ) → v.registered (h.irq_disable w i) j ≡ v.registered w j
  pub unregisters_handler :
      (w : W) (i : ℕ)
      → (h.irq_unregister w i).0 ≡ false
      → v.handled (h.irq_unregister w i).1 i ≡ false
  pub unregister_enabled : (w : W) (i j : ℕ) → v.enabled (h.irq_unregister w i).1 j ≡ v.enabled w j
  pub unregister_bitmap : (w : W) (i j : ℕ) → v.bitmap (h.irq_unregister w i).1 j ≡ v.bitmap w j
  pub unregister_bound :
      (w : W) (i j k l : ℕ) → v.bound (h.irq_unregister w i).1 j k l ≡ v.bound w j k l
  pub unregister_registered :
      (w : W) (i j : ℕ) → v.registered (h.irq_unregister w i).1 j ≡ v.registered w j
  pub call_enabled : (w : W) (f : Args) (j : ℕ) → v.enabled (h.conduit w f).1 j ≡ v.enabled w j
  pub call_handled : (w : W) (f : Args) (j : ℕ) → v.handled (h.conduit w f).1 j ≡ v.handled w j
  pub destroys :
      (w : W) (f : Args)
      → f.fid ≡ 0x8400007e
      → (h.conduit w f).0.fid ≢ 0x84000060
      → v.bitmap (h.conduit w f).1 f.arg1 ≡ false
  pub call_bitmap :
      (w : W) (f : Args) (j : ℕ)
      → f.fid ≢ 0x8400007d
      → v.bitmap w j ≡ false
      → v.bitmap (h.conduit w f).1 j ≡ false
  pub unbinds :
      (w : W) (f : Args)
      → f.fid ≡ 0x84000080
      → (h.conduit w f).0.fid ≢ 0x84000060
      → v.bound (h.conduit w f).1 f.arg1 f.arg3 f.arg4 ≡ false
  pub call_bound :
      (w : W) (f : Args) (j k l : ℕ)
      → f.fid ≢ 0x8400007f
      → v.bound w j k l ≡ false
      → v.bound (h.conduit w f).1 j k l ≡ false
  pub unregisters :
      (w : W) (f : Args)
      → f.fid ≡ 0xc400006f
      → f.arg4 ≡ unregister_notification
      → (h.conduit w f).0.fid ≡ 0xc4000070
      → (h.conduit w f).0.arg4 % 2 ^ 32 ≡ crb_ok
      → v.registered (h.conduit w f).1 f.arg1 ≡ false
  pub call_registered :
      (w : W) (f : Args) (j : ℕ)
      → f.fid ≢ 0xc400006f
      → v.registered w j ≡ false
      → v.registered (h.conduit w f).1 j ≡ false

-- The context counts everything that the client still holds.
pub record Counts {W : Type 0} (v : Holdings W) (c : Context) (w : W) : Type 0 where
  pub enabled : c.sri_enabled ≡ 0 → v.enabled w c.sri_id ≡ false
  pub handled : c.sri_registered ≡ 0 → v.handled w c.sri_id ≡ false
  pub bitmap : c.bitmap_created ≡ 0 → v.bitmap w c.client_id ≡ false
  pub bound :
      c.bound ≡ 0
      → v.bound w
          (endpoints c.tpm_sp_id c.client_id)
          (c.bitmap % 2 ^ 32)
          (c.bitmap / 2 ^ 32 % 2 ^ 32)
        ≡ false
  pub registered : c.registered ≡ 0 → v.registered w (endpoints c.client_id c.tpm_sp_id) ≡ false

abbrev pub Counted : {W : Type 0} → Holdings W → Did W → Type 0
Counted v d = Counts v d.ctx d.world

-- The ids of the context fit their fields.
abbrev pub Small : Context → Type 0
Small c = (c.client_id < 65536) × (c.tpm_sp_id < 65536)

-- The two contexts are about the same client and interrupt.
abbrev pub Named : Context → Context → Type 0
Named c c' =
    (c.client_id ≡ c'.client_id)
    × (c.tpm_sp_id ≡ c'.tpm_sp_id)
    × (c.bitmap ≡ c'.bitmap)
    × (c.sri_id ≡ c'.sri_id)

module _ {W : Type 0} (h : Host W) (v : Holdings W) (keeps : Keeps h v) where
  pub disable-Counts :
      (w : W) (c : Context)
      → Counts v c w
      → Counts v (disable_enabled_sri h w c).0 (disable_enabled_sri h w c).1
  unfolding disable_enabled_sri disable_sri
  disable-Counts w c k = elim (Bool-cases (c.sri_enabled != 0)) [
    | inl e ↦ rw e (record {
      enabled = λ z. keeps.disables w c.sri_id;
      handled = λ z. keeps.disable_handled w c.sri_id c.sri_id ∙ k.handled z;
      bitmap = λ z. keeps.disable_bitmap w c.sri_id c.client_id ∙ k.bitmap z;
      bound = λ z. keeps.disable_bound w c.sri_id _ _ _ ∙ k.bound z;
      registered = λ z. keeps.disable_registered w c.sri_id _ ∙ k.registered z;
    })
    | inr e ↦ rw e k
  ]

  unregister_frame : Context → Args
  unregister_frame c =
      record (request_frame c.client_id c.tpm_sp_id unregister_notification 0 0 0) {
        fid = 0xc400006f;
        ext_args = replicate 10 0;
      }

  expected :
      (r : Args)
      → (expect r crb_ok == val_success) ≡ true
      → (r.fid ≡ 0xc4000070) × (r.arg4 % 2 ^ 32 ≡ crb_ok)
  unfolding expect
  expected r e = ground (arith, e)

  pub unregister-Counts :
      (w : W) (c : Context)
      → c.registered ≢ 0
      → Counts v c w
      → Counted v (notification_unregister h w c crb_ok)
  unfolding notification_unregister send_and_expect send_abi request_frame
      ffa_msg_send_direct_req_64 ffa_msg_send_direct_req call_64 ffa_smccc unregister_frame
  unregister-Counts w c held k =
      let f = unregister_frame c in
      let r = h.conduit w f in
      elim (Bool-cases (expect r.0 crb_ok == val_success)) [
        | inl e ↦ rw e (record {
          enabled = λ z. keeps.call_enabled w f c.sri_id ∙ k.enabled z;
          handled = λ z. keeps.call_handled w f c.sri_id ∙ k.handled z;
          bitmap = λ z. keeps.call_bitmap w f c.client_id (omega arith) (k.bitmap z);
          bound = λ z. keeps.call_bound w f _ _ _ (omega arith) (k.bound z);
          registered = λ z. keeps.unregisters w f refl refl (expected r.0 e).0 (expected r.0 e).1;
        })
        | inr e ↦ rw e (record {
          enabled = λ z. keeps.call_enabled w f c.sri_id ∙ k.enabled z;
          handled = λ z. keeps.call_handled w f c.sri_id ∙ k.handled z;
          bitmap = λ z. keeps.call_bitmap w f c.client_id (omega arith) (k.bitmap z);
          bound = λ z. keeps.call_bound w f _ _ _ (omega arith) (k.bound z);
          registered = λ z. absurd (held z);
        })
      ]

  unbind_frame : Context → Args
  unfolding low_words binding_frame
  unbind_frame c = record (low_words (binding_frame c)) { fid = 0x84000080 }

  unbind_words :
      (c : Context)
      → Small c
      → ((unbind_frame c).arg1 ≡ endpoints c.tpm_sp_id c.client_id)
        × ((unbind_frame c).arg3 ≡ c.bitmap % 2 ^ 32)
        × ((unbind_frame c).arg4 ≡ c.bitmap / 2 ^ 32 % 2 ^ 32)
  unfolding unbind_frame low_words binding_frame
  unbind_words c small = (omega (arith, small.0, small.1), omega arith, omega arith)

  unbound :
      (w : W) (c : Context)
      → Small c
      → ((h.conduit w (unbind_frame c)).0.fid == error_32) ≡ false
      → v.bound
          (h.conduit w (unbind_frame c)).1
          (endpoints c.tpm_sp_id c.client_id)
          (c.bitmap % 2 ^ 32)
          (c.bitmap / 2 ^ 32 % 2 ^ 32)
        ≡ false
  unfolding unbind_frame
  unbound w c small e =
      let (p, q, s) = unbind_words c small in
      let r = h.conduit w (unbind_frame c) in
      sym (λ i. v.bound r.1 (p i) (q i) (s i))
      ∙ keeps.unbinds w (unbind_frame c) refl (ground (arith, e))

  pub unbind-Counts :
      (w : W) (c : Context)
      → Small c
      → c.bound ≢ 0
      → Counts v c w
      → Counted v (notification_unbind h w c)
  unfolding notification_unbind ffa_notification_unbind call_32 ffa_smccc binding_frame unbind_frame
      low_words
  unbind-Counts w c small held k =
      let f = unbind_frame c in
      let r = h.conduit w f in
      elim (Bool-cases (r.0.fid == error_32)) [
        | inl e ↦ rw e (record {
          enabled = λ z. keeps.call_enabled w f c.sri_id ∙ k.enabled z;
          handled = λ z. keeps.call_handled w f c.sri_id ∙ k.handled z;
          bitmap = λ z. keeps.call_bitmap w f c.client_id (omega arith) (k.bitmap z);
          bound = λ z. absurd (held z);
          registered = λ z. keeps.call_registered w f _ (omega arith) (k.registered z);
        })
        | inr e ↦ rw e (record {
          enabled = λ z. keeps.call_enabled w f c.sri_id ∙ k.enabled z;
          handled = λ z. keeps.call_handled w f c.sri_id ∙ k.handled z;
          bitmap = λ z. keeps.call_bitmap w f c.client_id (omega arith) (k.bitmap z);
          bound = λ z. unbound w c small e;
          registered = λ z. keeps.call_registered w f _ (omega arith) (k.registered z);
        })
      ]
