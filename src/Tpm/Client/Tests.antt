-- ===== src/Tpm/Client/Tests.antt =====
-- Runs of the TPM client, and its theorems at them.
use ff_a_acs.Base.{ℕ, ◌+◌, ◌≡◌, true, false, refl, arith, [], ◌∷◌, some, if◌then◌else◌}
use ff_a_acs.Ffa.{Args, zero_args}
use ff_a_acs.Ffa.Session.{val_success}
use ff_a_acs.Tpm.Mmio.{Memory, read32, loc_sts, loc_ctrl, be32_read}
use ff_a_acs.Tpm.State.{Platform, Service, null, init, crb_ok, no_locality}
use ff_a_acs.Tpm.Service.{notif_supported}
use ff_a_acs.Tpm.Handler.{handle_request, is_request, may_defer}
use ff_a_acs.Tpm.Client.{
  Host, relinquish_locality, prepare_get_capability, validate_response_header,
}
use ff_a_acs.Tpm.Client.Notify.{Context, fresh_context, notification_register}
use ff_a_acs.Tpm.Client.Relay.{Delivers, registered_by, register-delivered, relinquish-delivered}

-- A TPM without answers behind an endpoint that receives notifications.
abbrev silent : Platform ℕ
silent = record {
  execute = λ w n c. (record { status = 1; size = 0; response = null }, w + 1);
  notification_set = λ w a. (0, w + 1);
  ep_properties = 8;
  delay_sri = true;
  wide_shift = λ n. 0;
}

-- Firmware that delivers the TPM requests and answers all others by a frame of zeros.
abbrev delivery : Service ℕ → Args → Args × Service ℕ
delivery s a = if is_request a then handle_request silent s a else (zero_args, s)

abbrev board : Host (Service ℕ)
board = record {
  conduit = delivery;
  mmio = λ s. s.mmio;
  set_mmio = λ s m. record s { mmio = m };
  irq_register = λ s n. (false, s);
  irq_unregister = λ s n. (false, s);
  irq_enable = λ s n k. s;
  irq_disable = λ s n. s;
  sri_seen = λ s. 0;
  set_sri_seen = λ s n. s;
  skip_check = 2;
}

delivery-request :
    (s : Service ℕ) (a : Args) → is_request a ≡ true → delivery s a ≡ handle_request silent s a
delivery-request s a e = rw e refl

abbrev board-Delivers : Delivers board silent
board-Delivers = record { deliver = delivery-request; window = λ s. refl; store = λ s m. refl }

abbrev blank : Memory
blank = λ _. 0

abbrev context : Context
context = fresh_context 3 0x8001

-- The holder of locality 2.
abbrev holding : Service ℕ
holding = record (init 0 blank) { active_locality = 2 }

register-delivered_example :
    notification_register board (init 0 blank) context 0 0 1 crb_ok ≡ record {
      status = val_success;
      ctx = record context { registered = 1 };
      world = registered_by (init 0 blank) 3 0x8001 1;
    }
unfolding notif_supported init
register-delivered_example =
    register-delivered board silent board-Delivers (init 0 blank) context 0 0 1 (omega arith)
      (omega arith)

relinquish-delivered_example :
    let (status, t) = relinquish_locality board holding 3 0x8001 2 in
    (status ≡ val_success)
    × (t.active_locality ≡ no_locality)
    × (read32 t.mmio (loc_sts 2) ≡ 0)
    × (read32 t.mmio (loc_ctrl 2) ≡ 0)
unfolding may_defer init
relinquish-delivered_example =
    relinquish-delivered board silent board-Delivers holding 3 0x8001 2 (omega arith) (omega arith)
      (omega arith) refl

-- A command of 22 bytes and its length field, and a response header of ten bytes.
prepared_size : be32_read (prepare_get_capability 22) 2 ≡ 22
unfolding prepare_get_capability be32_read
prepared_size = refl

response_header :
    validate_response_header (some (0x80 ∷ 1 ∷ 0 ∷ 0 ∷ 0 ∷ 10 ∷ 0 ∷ 0 ∷ 1 ∷ 0x43 ∷ [])) 64
    ≡ some (10, 0x143)
unfolding validate_response_header be32_read
response_header = refl
