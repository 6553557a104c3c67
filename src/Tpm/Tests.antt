-- ===== src/Tpm/Tests.antt =====
-- Runs of the TPM service, and its theorems at them.
use ff_a_acs.Base.{
  ℕ, ◌+◌, ◌≤◌, ◌≡◌, inl, ◌==◌, if◌then◌else◌, true, refl, arith, List, [], ◌∷◌, ◌&&◌, leb,
}
use ff_a_acs.Ffa.{Args, zero_args, endpoints, error_32, direct_req_32, direct_req_64}
use ff_a_acs.Tpm.Mmio.{Memory, write32, read32, loc_sts, loc_ctrl, ctrl_start}
use ff_a_acs.Tpm.State.{
  Platform, Service, init, elsewhere, crb_ok, start, register_notification, finish_notified,
}
use ff_a_acs.Tpm.Service.{signal_notification, start_locality_request, notif_supported}
use ff_a_acs.Tpm.Handler.{
  handle_request, may_defer, save_locality_request, handle_register, defer_locality_request,
  handle_finish, is_request, handle_start, start_locality,
}
use ff_a_acs.Tpm.Valid.{IsValid}
use ff_a_acs.Tpm.Grants.{granted}
use ff_a_acs.Tpm.Exclusive.{Reach, here, next, request, Reach-IsValid, one_locality}
use ff_a_acs.Tpm.Deferral.{SameLocality, finish-defer_locality}
use ff_a_acs.Tpm.Rights.{Untouched, handle_register_lem, handle_request-foreign}
use ff_a_acs.Tpm.Window.{handle_request_outside}

-- A response of 12 bytes with code 0x143, and a firmware that accepts every signal; the world
-- counts the calls.
abbrev response : List ℕ
response = 0x80 ∷ 1 ∷ 0 ∷ 0 ∷ 0 ∷ 12 ∷ 0 ∷ 0 ∷ 1 ∷ 0x43 ∷ 7 ∷ 8 ∷ []

abbrev quiet : Platform ℕ
quiet = record {
  execute = λ w n c. (record { status = 0; size = 12; response = elsewhere response }, w + 1);
  notification_set = λ w a. (0, w + 1);
  ep_properties = 8;
  delay_sri = true;
  wide_shift = λ n. 0;
}

-- The same with a firmware that refuses every signal.
abbrev refusing : Platform ℕ
refusing = record {
  execute = λ w n c. (record { status = 0; size = 12; response = elsewhere response }, w + 1);
  notification_set = λ w a. (error_32, w + 1);
  ep_properties = 8;
  delay_sri = true;
  wide_shift = λ n. 0;
}

abbrev blank : Memory
blank = λ _. 0

-- A request of endpoint 3 to endpoint 0x8001 and one of endpoint 4.
abbrev call : ℕ → ℕ → ℕ → Args
call f x y = record zero_args {
  fid = direct_req_64;
  arg1 = endpoints 3 0x8001;
  arg4 = f;
  arg5 = x;
  arg6 = y;
}

abbrev foreign_call : ℕ → ℕ → ℕ → Args
foreign_call f x y = record zero_args {
  fid = direct_req_32;
  arg1 = endpoints 4 0x8001;
  arg4 = f;
  arg5 = x;
  arg6 = y;
}

-- A service with a registered client, the holder of locality 2 or of none, over the memory `m`.
abbrev registered : Memory → ℕ → Service ℕ
registered m l = record (init 0 m) {
  client = 3;
  service = 0x8001;
  id = 5;
  registered = 1;
  active_locality = l;
}

registered-IsValid : (m : Memory) → IsValid (registered m 5)
unfolding init
registered-IsValid m = omega arith

-- Locality 2 asks for access.
abbrev asking : Memory
asking = write32 blank (loc_ctrl 2) 1

-- Locality 2 is granted and its start bit is set.
abbrev started : Memory
started = write32 (write32 blank (loc_sts 2) 1) (ctrl_start 2) 1

granted_after_request :
    granted ((handle_request quiet (init 0 asking) (call start 1 2)).1.mmio) 2 ≡ 1
unfolding handle_request handle_start start_locality may_defer start_locality_request init read32
    write32
granted_after_request = refl

is_request_example : is_request (call start 1 2) ≡ true
unfolding is_request
is_request_example = refl

blank_clear : (k : ℕ) → k ≤ 4 → granted blank k ≡ 0
unfolding read32
blank_clear k h = refl

asking_clear : (k : ℕ) → k ≤ 4 → granted asking k ≡ 0
unfolding read32 write32
asking_clear k h = ground arith

run : Reach quiet (init 0 asking) (handle_request quiet (init 0 asking) (call start 1 2)).1
run = next here (request (init 0 asking) (call start 1 2))

Reach-IsValid_example : IsValid (handle_request quiet (init 0 asking) (call start 1 2)).1
Reach-IsValid_example = Reach-IsValid quiet 0 asking run

one_locality_example : ◌≡◌ {A = ℕ} 2 2
one_locality_example =
    one_locality quiet 0 asking asking_clear run 2 2 (omega arith) (omega arith)
      granted_after_request granted_after_request

finish-defer_locality_example :
    let s = registered asking 5 in
    let d = defer_locality_request quiet s 2 3 0x8001 in
    let r = handle_finish quiet d 3 in
    (d.mmio ≡ (save_locality_request s 2).mmio)
    × (d.active_locality ≡ s.active_locality)
    × (d.outstanding ≡ 1)
    × (r.status ≡ crb_ok)
    × SameLocality r.state (start_locality_request s 2)
    × (r.state.outstanding ≡ 0)
unfolding may_defer signal_notification save_locality_request notif_supported init
finish-defer_locality_example =
    finish-defer_locality quiet (registered asking 5) 2 3 0x8001 (registered-IsValid asking) refl
      refl

handle_register_lem_example :
    let s : Service ℕ = init 0 blank in
    let a = call register_notification 0 5 in
    let r = handle_register quiet s a 3 0x8001 in
    let accepts =
      notif_supported quiet && ((s.registered == 0) && ((a.arg5 == 0) && leb a.arg6 255)) in
    ((r.status == crb_ok) ≡ accepts)
    × (r.state ≡ (
        if accepts
        then record s { client = 3; service = 0x8001; id = a.arg6; registered = 1; outstanding = 0 }
        else s))
handle_register_lem_example =
    handle_register_lem quiet (init 0 blank) (call register_notification 0 5) 3 0x8001

-- Id 200 is accepted, though the notification bitmap has 64 bits.
register_200 :
    (handle_register quiet (init 0 blank) (call register_notification 0 200) 3 0x8001).status
    ≡ crb_ok
unfolding handle_register notif_supported init
register_200 = refl

handle_request-foreign_example :
    Untouched
      (registered asking 5)
      (handle_request quiet (registered asking 5) (foreign_call finish_notified 0 0)).1
unfolding init
handle_request-foreign_example =
    handle_request-foreign quiet (registered asking 5) (foreign_call finish_notified 0 0)
      (omega arith) (omega arith)

handle_request_outside_example :
    (handle_request quiet (registered asking 5) (call start 1 2)).1.mmio 7 ≡ asking 7
unfolding init
handle_request_outside_example =
    handle_request_outside quiet 7 (inl (omega arith)) (registered asking 5) (call start 1 2)
      (registered-IsValid asking)
