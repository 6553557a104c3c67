-- ===== src/Tpm/Client/Notify.antt =====
-- The notifications of the TPM client: the context `val_tpm_notification_context_t` and the
-- operations on it. The callers pass the address of a variable, so that `ctx` is not NULL.
use ff_a_acs.Base.{
  ℕ, ◌*◌, ◌+◌, ◌/◌, ◌%◌, ◌^◌, ◌==◌, ◌!=◌, ◌&&◌, if◌then◌else◌, bit_and, Option, none, some,
}
use ff_a_acs.Ffa.{Args, zero_args, error_32, endpoints}
use ff_a_acs.Ffa.Setup.{ffa_features}
use ff_a_acs.Ffa.Session.{val_success, val_error, status_of, get_curr_endpoint_id}
use ff_a_acs.Ffa.Notifications.{
  ffa_notification_bitmap_create, ffa_notification_bitmap_destroy, ffa_notification_bind,
  ffa_notification_unbind, ffa_notification_get,
}
use ff_a_acs.Tpm.State.{u32, crb_ok, register_notification, unregister_notification}
use ff_a_acs.Tpm.Client.{Host, send_and_expect}

pub record Context : Type 0 where
  pub client_id : ℕ
  pub tpm_sp_id : ℕ
  pub bitmap : ℕ
  pub bitmap_created : ℕ
  pub bound : ℕ
  pub registered : ℕ
  pub sri_id : ℕ
  pub sri_registered : ℕ
  pub sri_enabled : ℕ

-- A status, the context and the rest of the world.
pub record Did (W : Type 0) : Type 0 where
  pub status : ℕ
  pub ctx : Context
  pub world : W

-- FFA_ERROR_NOT_SUPPORTED and FFA_ERROR_NODATA.
abbrev pub error_not_supported : ℕ
error_not_supported = 0xffffffff

abbrev pub error_nodata : ℕ
error_nodata = 0xfffffff7

-- `val_memset(ctx, 0, sizeof(*ctx))` and VAL_TPM_NOTIFICATION_BITMAP.
abbrev pub fresh_context : ℕ → ℕ → Context
fresh_context client_id tpm_sp_id = record {
  client_id = client_id;
  tpm_sp_id = tpm_sp_id;
  bitmap = 2;
  bitmap_created = 0;
  bound = 0;
  registered = 0;
  sri_id = 0;
  sri_registered = 0;
  sri_enabled = 0;
}

-- The frame that binds or unbinds the bitmap of the context.
unfoldable pub binding_frame : Context → Args
binding_frame c = record zero_args {
  arg1 = endpoints (c.tpm_sp_id) (c.client_id);
  arg3 = c.bitmap % 2 ^ 32;
  arg4 = c.bitmap / 2 ^ 32 % 2 ^ 32;
}

-- What creating and binding make of the answer.
unfoldable pub setup_status : ℕ → Args → ℕ
setup_status skip_check payload =
    if payload.fid == error_32
    then if u32 payload.arg2 == error_not_supported then skip_check else val_error
    else val_success

-- FFA_NOTIFICATIONS_BITMAP of the two words of the answer.
unfoldable pub pending_bitmap : Args → ℕ
pending_bitmap payload = u32 payload.arg2 + 2 ^ 32 * u32 payload.arg3

unfoldable pub pending_status : Args → ℕ → ℕ → ℕ
unfolding pending_bitmap
pending_status payload bitmap expected_present =
    if payload.fid == error_32
    then if (expected_present == 0) && (u32 payload.arg2 == error_nodata)
      then val_success
      else val_error
    else if expected_present == 1
    then if bit_and (pending_bitmap payload) bitmap == 0 then val_error else val_success
    else if bit_and (pending_bitmap payload) bitmap != 0
    then val_error
    else val_success

module _ {W : Type 0} (h : Host W) where
  -- The interrupt handler.
  unfoldable pub sri_irq_handler : W → ℕ × W
  sri_irq_handler w = (0, h.set_sri_seen w 1)

  unfoldable pub create_bitmap : W → Context → Did W
  unfolding setup_status
  create_bitmap w c =
      let frame = record zero_args { arg1 = c.client_id; arg2 = 1 } in
      let (payload, w') = ffa_notification_bitmap_create (h.conduit) w frame in
      record {
        status = setup_status (h.skip_check) payload;
        ctx = if payload.fid == error_32 then c else record c { bitmap_created = 1 };
        world = w';
      }

  unfoldable pub bitmap_destroy : W → ℕ → ℕ × W
  unfolding status_of
  bitmap_destroy w client_id =
      let frame = record zero_args { arg1 = client_id } in
      let (payload, w') = ffa_notification_bitmap_destroy (h.conduit) w frame in
      (status_of payload, w')

  unfoldable pub notification_bind : W → Context → Did W
  unfolding setup_status binding_frame
  notification_bind w c =
      let (payload, w') = ffa_notification_bind (h.conduit) w (binding_frame c) in
      record {
        status = setup_status (h.skip_check) payload;
        ctx = if payload.fid == error_32 then c else record c { bound = 1 };
        world = w';
      }

  unfoldable pub notification_unbind : W → Context → Did W
  unfolding status_of binding_frame
  notification_unbind w c =
      let (payload, w') = ffa_notification_unbind (h.conduit) w (binding_frame c) in
      record {
        status = status_of payload;
        ctx = if payload.fid == error_32 then c else record c { bound = 0 };
        world = w';
      }

  -- The feature call's answer carries the number of the schedule receiver interrupt.
  unfoldable pub setup_interrupt : W → Context → Did W
  setup_interrupt w c =
      let (payload, w') = ffa_features (h.conduit) w (record zero_args { arg1 = 2 }) in
      if payload.fid == error_32
      then record { status = h.skip_check; ctx = c; world = w' }
      else let c' = record c { sri_id = u32 payload.arg2 } in
        let (failed, w'') = h.irq_register w' (c'.sri_id) in
        if failed then record { status = val_error; ctx = c'; world = w'' } else record {
          status = val_success;
          ctx = record c' { sri_registered = 1 };
          world = h.set_sri_seen w'' 0;
        }

  -- The two ids; the endpoint table is never NULL. `none` is VAL_PANIC.
  unfoldable pub get_endpoint_ids : W → ℕ → Option (ℕ × ℕ) × W
  get_endpoint_ids w tpm_sp =
      let (id, w') = get_curr_endpoint_id (h.conduit) w in
      (elim id [ none ↦ none | some client_id ↦ some (client_id, tpm_sp) ], w')

  unfoldable pub notification_init : W → ℕ → Option Context × W
  unfolding get_endpoint_ids
  notification_init w tpm_sp =
      let (ids, w') = get_endpoint_ids w tpm_sp in
      (
        elim ids [
          | none ↦ none
          | some (client_id, tpm_sp_id) ↦ some (fresh_context client_id tpm_sp_id)
        ],
        w',
      )

  unfoldable pub prepare_interrupt : W → Context → Did W
  prepare_interrupt w c =
      if c.sri_registered == 0 then record { status = val_error; ctx = c; world = w } else record {
        status = val_success;
        ctx = record c { sri_enabled = 1 };
        world = h.irq_enable (h.set_sri_seen w 0) (c.sri_id) 0xa;
      }

  unfoldable pub disable_sri : W → Context → Context × W
  disable_sri w c = (record c { sri_enabled = 0 }, h.irq_disable w (c.sri_id))

  unfoldable pub disable_enabled_sri : W → Context → Context × W
  unfolding disable_sri
  disable_enabled_sri w c = if c.sri_enabled != 0 then disable_sri w c else (c, w)

  unfoldable pub complete_interrupt : W → Context → Did W
  unfolding disable_sri disable_enabled_sri
  complete_interrupt w c =
      if c.sri_registered == 0
      then record { status = val_error; ctx = c; world = w }
      else if h.sri_seen w == 0
      then (let (c', w') = disable_enabled_sri w c in
          record { status = val_error; ctx = c'; world = w' })
      else let (c', w') = disable_sri w c in record { status = val_success; ctx = c'; world = w' }

  unfoldable pub notification_register : W → Context → ℕ → ℕ → ℕ → ℕ → Did W
  notification_register w c notification_type vcpu_id notification_id expected =
      if vcpu_id / 65536 * 65536 != 0
      then record { status = val_error; ctx = c; world = w }
      else let arg0 = u32 (notification_type * 65536) + vcpu_id % 65536 in
        let (status, w') =
          send_and_expect h w (c.client_id) (c.tpm_sp_id) register_notification arg0 notification_id
            0 expected in
        record {
          status = status;
          ctx =
              (if (status == val_success) && (expected == crb_ok)
                then record c { registered = 1 }
                else c);
          world = w';
        }

  unfoldable pub notification_unregister : W → Context → ℕ → Did W
  notification_unregister w c expected =
      let (status, w') =
        send_and_expect h w (c.client_id) (c.tpm_sp_id) unregister_notification 0 0 0 expected in
      record {
        status = status;
        ctx =
            (if (status == val_success) && (expected == crb_ok)
              then record c { registered = 0 }
              else c);
        world = w';
      }

  unfoldable pub check_pending_notification : W → Context → ℕ → ℕ × W
  unfolding pending_status
  check_pending_notification w c expected_present =
      let frame = record zero_args { arg1 = c.client_id; arg2 = 1 } in
      let (payload, w') = ffa_notification_get (h.conduit) w frame in
      (pending_status payload (c.bitmap) expected_present, w')
