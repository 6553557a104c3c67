-- ===== src/Tpm/Client/Relay.antt =====
-- The client and the service together: where the firmware delivers the client's direct requests to
-- the service of val/src/val_tpm_crb_service.c and brings its answers back.
use ff_a_acs.Base.{
  ℕ, ◌*◌, ◌+◌, ◌/◌, ◌%◌, ◌<◌, ◌≤◌, ◌≡◌, ◌==◌, ◌!=◌, ◌&&◌, leb, ltb, true, false, if◌then◌else◌,
  arith, refl, ◌∙◌,
}
use ff_a_acs.Ffa.{Args, direct_req_64, sender_id, receiver_id, endpoints}
use ff_a_acs.Ffa.Session.{val_success, val_error}
use ff_a_acs.Ffa.Messages.{ffa_msg_send_direct_req_64}
use ff_a_acs.Tpm.Mmio.{Memory, read32, write32, loc_ctrl, loc_sts, locality_max}
use ff_a_acs.Tpm.Mmio.Frame.{read32-write32, read32-write32_other}
use ff_a_acs.Tpm.State.{Platform, Service, crb_ok, u32, no_locality, register_notification, start}
use ff_a_acs.Tpm.Service.{failed, apply_locality_request, notif_supported, start_locality_request}
use ff_a_acs.Tpm.Handler.{
  handle_start, start_locality, handle_request, handle_register, dispatch, is_request, may_defer,
}
use ff_a_acs.Tpm.Client.{Host, request_frame, send_abi, send_and_expect, relinquish_locality}
use ff_a_acs.Tpm.Client.Notify.{Context, notification_register}

-- A direct request with a function id of the TPM service reaches it, and its answer comes back;
-- the client and the service see the same CRB window.
pub record Delivers {V : Type 0} (h : Host (Service V)) (p : Platform V) : Type 0 where
  pub deliver :
      (s : Service V) (a : Args) → is_request a ≡ true → h.conduit s a ≡ handle_request p s a
  pub window : (s : Service V) → h.mmio s ≡ s.mmio
  pub store : (s : Service V) (m : Memory) → h.set_mmio s m ≡ record s { mmio = m }

is_request-frame :
    (sender tpm_sp f arg0 arg1 arg2 : ℕ)
    → u32 f / 65536 ≡ 0x0f00
    → is_request (record (request_frame sender tpm_sp f arg0 arg1 arg2) { fid = direct_req_64 })
      ≡ true
unfolding is_request request_frame
is_request-frame sender tpm_sp f arg0 arg1 arg2 e = rw e refl

-- The request as the service sees it.
unfoldable relayed : ℕ → ℕ → ℕ → ℕ → ℕ → ℕ → Args
relayed sender tpm_sp f arg0 arg1 arg2 = record (request_frame sender tpm_sp f arg0 arg1 arg2) {
  fid = direct_req_64;
}

-- The state that a registration leaves.
unfoldable pub registered_by : {V : Type 0} → Service V → ℕ → ℕ → ℕ → Service V
registered_by s sender receiver id = record s {
  client = sender;
  service = receiver;
  id = id;
  registered = 1;
  outstanding = 0;
}

ltb-not : (a b : ℕ) → b ≤ a → ltb a b ≡ false
ltb-not a b e = ground arith

endpoints-sender : (a b : ℕ) → a < 65536 → b < 65536 → sender_id (endpoints a b) ≡ a
endpoints-sender a b ha hb = omega arith

endpoints-receiver : (a b : ℕ) → b < 65536 → receiver_id (endpoints a b) ≡ b
endpoints-receiver a b hb = omega arith

module _ {V : Type 0} (h : Host (Service V)) (p : Platform V) (d : Delivers h p) where
  send_abi-deliver :
      (s : Service V) (sender tpm_sp f arg0 arg1 arg2 : ℕ)
      → u32 f / 65536 ≡ 0x0f00
      → let a = record (request_frame sender tpm_sp f arg0 arg1 arg2) { fid = direct_req_64 } in
        send_abi h s sender tpm_sp f arg0 arg1 arg2 ≡ handle_request p s a
  unfolding send_abi ffa_msg_send_direct_req_64 request_frame
  send_abi-deliver s sender tpm_sp f arg0 arg1 arg2 e =
      let a = record (request_frame sender tpm_sp f arg0 arg1 arg2) { fid = direct_req_64 } in
      d.deliver s a (is_request-frame sender tpm_sp f arg0 arg1 arg2 e)

  -- The check of the status on what the service does with the request.
  send_and_expect-deliver :
      (s : Service V) (sender tpm_sp f arg0 arg1 arg2 expected : ℕ)
      → u32 f / 65536 ≡ 0x0f00
      → let r = dispatch p s (relayed sender tpm_sp f arg0 arg1 arg2) in
        send_and_expect h s sender tpm_sp f arg0 arg1 arg2 expected
        ≡ (if u32 r.status != expected then val_error else val_success, r.state)
  unfolding send_and_expect handle_request relayed
  send_and_expect-deliver s sender tpm_sp f arg0 arg1 arg2 expected e =
      rw (send_abi-deliver s sender tpm_sp f arg0 arg1 arg2 e) refl

  handle_register-outcome :
      (s : Service V) (a : Args) (sender receiver : ℕ)
      → let r = handle_register p s a sender receiver in
        ◌≡◌ {A = ℕ × Service V}
          (if u32 r.status != crb_ok then val_error else val_success, r.state)
          (if notif_supported p && ((s.registered == 0) && ((a.arg5 == 0) && leb a.arg6 255))
            then (val_success, registered_by s sender receiver a.arg6)
            else (val_error, s))
  unfolding handle_register registered_by
  handle_register-outcome s a sender receiver = ground arith

  dispatch-register :
      (s : Service V) (sender tpm_sp arg0 arg1 : ℕ)
      → sender < 65536
      → tpm_sp < 65536
      → let a = relayed sender tpm_sp register_notification arg0 arg1 0 in
        dispatch p s a ≡ handle_register p s a sender tpm_sp
  unfolding dispatch relayed request_frame
  dispatch-register s sender tpm_sp arg0 arg1 hs ht =
      rw (endpoints-sender sender tpm_sp hs ht, endpoints-receiver sender tpm_sp ht) refl

  register-outcome :
      (s : Service V) (sender tpm_sp arg0 arg1 : ℕ)
      → sender < 65536
      → tpm_sp < 65536
      → send_and_expect h s sender tpm_sp register_notification arg0 arg1 0 crb_ok ≡ (
          if notif_supported p && ((s.registered == 0) && ((arg0 == 0) && leb arg1 255))
          then (val_success, registered_by s sender tpm_sp arg1)
          else (val_error, s))
  unfolding relayed request_frame
  register-outcome s sender tpm_sp arg0 arg1 hs ht =
      send_and_expect-deliver s sender tpm_sp register_notification arg0 arg1 0 crb_ok refl
      ∙ rw (dispatch-register s sender tpm_sp arg0 arg1 hs ht) (
          handle_register-outcome s (relayed sender tpm_sp register_notification arg0 arg1 0) sender
            tpm_sp)

  -- A client that registers through the firmware is told that it succeeded exactly if the service
  -- accepts: it supports notifications, none is registered, the type and the vCPU are 0 and the id
  -- is at most 255. Then both sides say registered, the service for this client; otherwise neither
  -- the context nor the service changes. The ids are 16 bits wide.
  pub register-delivered :
      (s : Service V) (c : Context) (notification_type vcpu_id notification_id : ℕ)
      → c.client_id < 65536
      → c.tpm_sp_id < 65536
      → let accepts =
          notif_supported p
          && ((s.registered == 0)
              && ((u32 (notification_type * 65536) + vcpu_id == 0) && leb notification_id 255)) in
        notification_register h s c notification_type vcpu_id notification_id crb_ok ≡ (
          if accepts
          then record {
            status = val_success;
            ctx = record c { registered = 1 };
            world = registered_by s (c.client_id) (c.tpm_sp_id) notification_id;
          }
          else record { status = val_error; ctx = c; world = s })
  unfolding notification_register
  register-delivered s c t v n hc ht =
      let arg0 = u32 (t * 65536) + v % 65536 in
      rw (register-outcome s (c.client_id) (c.tpm_sp_id) arg0 n hc ht) (ground arith)

  handle_start-locality :
      (s : Service V) (a : Args) (sender receiver : ℕ)
      → a.arg5 ≡ 1
      → a.arg6 ≤ 4
      → may_defer s sender receiver ≡ false
      → handle_start p s a sender receiver ≡ failed crb_ok (start_locality_request s a.arg6)
  unfolding handle_start start_locality
  handle_start-locality s a sender receiver h5 h6 hd = ground arith

  dispatch-start :
      (s : Service V) (sender tpm_sp arg0 arg1 : ℕ)
      → sender < 65536
      → tpm_sp < 65536
      → let a = relayed sender tpm_sp start arg0 arg1 0 in
        dispatch p s a ≡ handle_start p s a sender tpm_sp
  unfolding dispatch relayed request_frame
  dispatch-start s sender tpm_sp arg0 arg1 hs ht =
      rw (endpoints-sender sender tpm_sp hs ht, endpoints-receiver sender tpm_sp ht) refl

  start-outcome :
      (s : Service V) (sender tpm_sp l : ℕ)
      → sender < 65536
      → tpm_sp < 65536
      → l ≤ 4
      → may_defer s sender tpm_sp ≡ false
      → send_and_expect h s sender tpm_sp start 1 l 0 crb_ok
        ≡ (val_success, start_locality_request s l)
  unfolding relayed request_frame
  start-outcome s sender tpm_sp l hs ht hl hd =
      send_and_expect-deliver s sender tpm_sp start 1 l 0 crb_ok refl
      ∙ rw
          (
            dispatch-start s sender tpm_sp 1 l hs ht,
            handle_start-locality s (relayed sender tpm_sp start 1 l 0) sender tpm_sp refl hl hd,
          )
          refl

  relinquish-outcome :
      (s : Service V) (sender tpm_sp l : ℕ)
      → sender < 65536
      → tpm_sp < 65536
      → l ≤ 4
      → may_defer s sender tpm_sp ≡ false
      → relinquish_locality h s sender tpm_sp l ≡ (
        val_success,
        start_locality_request (record s { mmio = write32 s.mmio (loc_ctrl l) 2 }) l,
      )
  unfolding relinquish_locality may_defer
  relinquish-outcome s sender tpm_sp l hs ht hl hd =
      let s' = record s { mmio = write32 s.mmio (loc_ctrl l) 2 } in
      rw
        (
          ltb-not locality_max l hl,
          d.window s,
          d.store s (write32 s.mmio (loc_ctrl l) 2),
          start-outcome s' sender tpm_sp l hs ht hl hd,
        )
        refl

  start_locality_request-relinquish :
      (s : Service V) (m : Memory) (l : ℕ)
      → l ≤ 4
      → let t = start_locality_request (record s { mmio = write32 m (loc_ctrl l) 2 }) l in
        (t.active_locality ≡ (if s.active_locality == l then no_locality else s.active_locality))
        × (read32 t.mmio (loc_sts l) ≡ 0)
        × (read32 t.mmio (loc_ctrl l) ≡ 0)
  unfolding start_locality_request apply_locality_request
  start_locality_request-relinquish s m l hl =
      let m1 = write32 m (loc_ctrl l) 2 in
      let m2 = write32 m1 (loc_ctrl l) 0 in
      ground (
        arith,
        read32-write32 m (loc_ctrl l) 2,
        read32-write32 m1 (loc_ctrl l) 0,
        read32-write32 m2 (loc_sts l) 0,
        read32-write32_other m2 (loc_sts l) 0 (loc_ctrl l),
      )

  -- A locality that the client relinquishes, while no deferral is due, is no longer active if it
  -- was, and its status and control registers read 0; the client is told that it succeeded.
  pub relinquish-delivered :
      (s : Service V) (sender tpm_sp l : ℕ)
      → sender < 65536
      → tpm_sp < 65536
      → l ≤ 4
      → may_defer s sender tpm_sp ≡ false
      → let (status, t) = relinquish_locality h s sender tpm_sp l in
        (status ≡ val_success)
        × (t.active_locality ≡ (if s.active_locality == l then no_locality else s.active_locality))
        × (read32 t.mmio (loc_sts l) ≡ 0)
        × (read32 t.mmio (loc_ctrl l) ≡ 0)
  relinquish-delivered s sender tpm_sp l hs ht hl hd =
      rw (relinquish-outcome s sender tpm_sp l hs ht hl hd)
        (omega (arith, start_locality_request-relinquish s s.mmio l hl))
