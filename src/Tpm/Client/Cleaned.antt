-- ===== src/Tpm/Client/Cleaned.antt =====
-- A client that cleans up on a board with one interrupt, one bitmap, one binding and one registration.
use ff_a_acs.Base.{◌≡◌, ◌≢◌, ◌⊎◌, Bool, true, false, ◌==◌, if◌then◌else◌, refl, arith}
use ff_a_acs.Ffa.{Args, zero_args}
use ff_a_acs.Ffa.Session.{val_success}
use ff_a_acs.Tpm.State.{crb_ok}
use ff_a_acs.Tpm.Client.{Host}
use ff_a_acs.Tpm.Client.Notify.{Context, fresh_context}
use ff_a_acs.Tpm.Client.Cleanup.{notification_cleanup}
use ff_a_acs.Tpm.Client.Holdings.{Holdings, Keeps, Counts}
use ff_a_acs.Tpm.Client.Released.{Released, notification_cleanup_lem}

record Held : Type 0 where
  enabled : Bool
  handled : Bool
  bitmap : Bool
  bound : Bool
  registered : Bool

abbrev firmware : Held → Args → Args × Held
firmware s a =
    if a.fid == 0x8400007e
    then (zero_args, record s { bitmap = false })
    else if a.fid == 0x84000080
    then (zero_args, record s { bound = false })
    else if a.fid == 0xc400006f
    then (record zero_args { fid = 0xc4000070; arg4 = crb_ok }, record s { registered = false })
    else (zero_args, s)

abbrev board : Host Held
board = record {
  conduit = firmware;
  mmio = λ s a. 0;
  set_mmio = λ s m. s;
  irq_register = λ s n. (false, s);
  irq_unregister = λ s n. (false, record s { handled = false });
  irq_enable = λ s n k. record s { enabled = true };
  irq_disable = λ s n. record s { enabled = false };
  sri_seen = λ s. 0;
  set_sri_seen = λ s n. s;
  skip_check = 2;
}

abbrev view : Holdings Held
view = record {
  enabled = λ s i. s.enabled;
  handled = λ s i. s.handled;
  bitmap = λ s i. s.bitmap;
  bound = λ s i j k. s.bound;
  registered = λ s i. s.registered;
}

call_kept :
    (s : Held) (a : Args)
    → ((firmware s a).1.enabled ≡ s.enabled) × ((firmware s a).1.handled ≡ s.handled)
call_kept s a = ground arith

given_back :
    (s : Held) (a : Args)
    → (s.bitmap ≡ false → (firmware s a).1.bitmap ≡ false)
      × (s.bound ≡ false → (firmware s a).1.bound ≡ false)
      × (s.registered ≡ false → (firmware s a).1.registered ≡ false)
      × (a.fid ≡ 0x8400007e → (firmware s a).1.bitmap ≡ false)
      × (a.fid ≡ 0x84000080 → (firmware s a).1.bound ≡ false)
      × (a.fid ≡ 0xc400006f → (firmware s a).1.registered ≡ false)
given_back s a = (
  λ e. ground (arith, e),
  λ e. ground (arith, e),
  λ e. ground (arith, e),
  λ e. ground (arith, e),
  λ e. ground (arith, e),
  λ e. ground (arith, e),
)

board-Keeps : Keeps board view
board-Keeps = record {
  disables = λ w i. refl;
  disable_handled = λ w i j. refl;
  disable_bitmap = λ w i j. refl;
  disable_bound = λ w i j k l. refl;
  disable_registered = λ w i j. refl;
  unregisters_handler = λ w i e. refl;
  unregister_enabled = λ w i j. refl;
  unregister_bitmap = λ w i j. refl;
  unregister_bound = λ w i j k l. refl;
  unregister_registered = λ w i j. refl;
  call_enabled = λ w f j. (call_kept w f).0;
  call_handled = λ w f j. (call_kept w f).1;
  destroys = λ w f e n. (given_back w f).3 e;
  call_bitmap = λ w f j n e. (given_back w f).0 e;
  unbinds = λ w f e n. (given_back w f).4 e;
  call_bound = λ w f j k l n e. (given_back w f).1 e;
  unregisters = λ w f e g n o. (given_back w f).5 e;
  call_registered = λ w f j n e. (given_back w f).2 e;
}

-- The context of a client that is registered, bound and has its bitmap and interrupt set up.
abbrev in_use : Context
in_use = record (fresh_context 3 0x8001) {
  bitmap_created = 1;
  bound = 1;
  registered = 1;
  sri_id = 8;
  sri_registered = 1;
  sri_enabled = 1;
}

abbrev all_held : Held
all_held = record { enabled = true; handled = true; bitmap = true; bound = true; registered = true }

in_use-Counts : Counts view in_use all_held
in_use-Counts = record {
  enabled = λ z. absurd (omega (arith, z));
  handled = λ z. absurd (omega (arith, z));
  bitmap = λ z. absurd (omega (arith, z));
  bound = λ z. absurd (omega (arith, z));
  registered = λ z. absurd (omega (arith, z));
}

notification_cleanup_lem_example :
    let r = notification_cleanup board all_held in_use in
    (r.world.enabled ≡ false)
    × (r.ctx.sri_enabled ≡ 0)
    × (r.ctx.sri_registered ≡ 0)
    × (r.ctx.bitmap_created ≡ 0)
    × ((r.status ≢ val_success)
        ⊎ ((r.ctx.registered ≡ 0)
            × (r.ctx.bound ≡ 0)
            × Released board view board-Keeps in_use r.world))
notification_cleanup_lem_example =
    notification_cleanup_lem board view board-Keeps all_held in_use (omega arith) (omega arith)
      in_use-Counts
