-- ===== src/Dispatch/Remote.antt =====
-- The non-volatile memory of SP1 as the other endpoints see it: `val_nvmem_write` and
-- `val_nvmem_read` of val/src/val_framework.c through the loop of `val_wait_for_test_fn_req`.
use ff_a_acs.Base.{ℕ, ◌%◌, ◌^◌, ◌<◌, ◌≤◌, ◌+◌, ◌≡◌, true, false, refl, arith, ◌∙◌, some}
use ff_a_acs.Ffa.{Args, direct_req_32, direct_resp_32, receiver_id, endpoints}
use ff_a_acs.Nvm.{Driver, Caller, request, nvmem_write, nvmem_read, nvm_check_bounds}
use ff_a_acs.Dispatch.Serve.{
  Node, answer, answer_frame, serve_round, serve_write, serve_read, nvm_write_service,
  nvm_read_service,
}

-- The caller is another endpoint than SP1; what SP1's loop answers is what a direct request gives
-- whose receiver is SP1.
pub record Reaches {W : Type 0} (p : Driver W) (c : Caller) (n : Node W) : Type 0 where
  pub elsewhere : c.is_sp1 ≡ false
  pub here : n.caller.is_sp1 ≡ true
  pub write_service : c.nvm_write_service ≡ nvm_write_service
  pub read_service : c.nvm_read_service ≡ nvm_read_service
  pub id16 : c.sp1_id < 65536
  pub relay :
      (a f : Args) (w t : W)
      → receiver_id a.arg1 ≡ c.sp1_id
      → serve_round n (record a { fid = direct_req_32 }) w ≡ answer f t
      → p.send_direct_req a w ≡ (f, t)

bounds_allowed :
    (nvm_size offset word : ℕ)
    → offset + 4 ≤ nvm_size
    → nvm_size < 2 ^ 32
    → nvm_check_bounds nvm_size offset (some word) 4 ≡ 0
unfolding nvm_check_bounds
bounds_allowed nvm_size offset word h b = ground arith

low_word : (x : ℕ) → x < 2 ^ 32 → x % 2 ^ 32 ≡ x
low_word x h = omega arith

module _ {W : Type 0} (n : Node W) (offset : ℕ) (h : offset + 4 ≤ n.nvm_size)
    (b : n.nvm_size < 2 ^ 32) (here : n.caller.is_sp1 ≡ true) where
  local_write :
      (word : ℕ) (w t : W)
      → n.driver.nvm_write offset word w ≡ (0, t)
      → nvmem_write (n.driver) (n.caller) (n.nvm_size) offset (some word) 4 w ≡ (0, t)
  unfolding nvmem_write
  local_write word w t e =
      rw (nvmem_write, bounds_allowed (n.nvm_size) offset word h b, here, e) refl

  local_read :
      (old word : ℕ) (w t : W)
      → n.driver.nvm_read offset w ≡ (0, word, t)
      → nvmem_read (n.driver) (n.caller) (n.nvm_size) offset (some old) 4 w ≡ (0, some word, t)
  unfolding nvmem_read
  local_read old word w t e =
      rw (nvmem_read, bounds_allowed (n.nvm_size) offset old h b, here, e) refl

  serve_write_lem :
      (a : Args) (word : ℕ) (w t : W)
      → a.arg4 ≡ offset
      → a.arg5 ≡ 4
      → a.arg6 ≡ word
      → word < 2 ^ 32
      → n.driver.nvm_write offset word w ≡ (0, t)
      → serve_write n a w ≡ answer (answer_frame a 0) t
  unfolding serve_write
  serve_write_lem a word w t h4 h5 h6 small e =
      rw (h4, h5, h6, low_word offset (omega arith), low_word word small, local_write word w t e)
        refl

  serve_read_lem :
      (a : Args) (word : ℕ) (w t : W)
      → a.arg4 ≡ offset
      → a.arg5 ≡ 4
      → n.driver.nvm_read offset w ≡ (0, word, t)
      → serve_read n a w ≡ answer (answer_frame a word) t
  unfolding serve_read
  serve_read_lem a word w t h4 h5 e =
      rw (h4, h5, low_word offset (omega arith), local_read 0 word w t e) refl

received : (from to : ℕ) → to < 65536 → receiver_id (endpoints from to) ≡ to
received from to l = omega (arith, l)

-- The request as it comes in at SP1.
unfoldable delivered : Args → Args
delivered a = record a { fid = direct_req_32 }

module _ {W : Type 0} (p : Driver W) (c : Caller) (n : Node W) (reach : Reaches p c n) where
  serve_round-write :
      (offset word : ℕ) (w : W)
      → let a = delivered (request p c (n.nvm_size) (c.nvm_write_service) offset 4 word) in
        serve_round n a w ≡ serve_write n a w
  unfolding serve_round delivered
  serve_round-write offset word w = rw (reach.write_service) refl

  serve_round-read :
      (offset : ℕ) (w : W)
      → let a = delivered (request p c (n.nvm_size) (c.nvm_read_service) offset 4 0) in
        serve_round n a w ≡ serve_read n a w
  unfolding serve_round delivered
  serve_round-read offset w = rw (reach.read_service) refl

  remote_write :
      (offset word : ℕ) (f : Args) (w t : W)
      → nvm_check_bounds (n.nvm_size) offset (some word) 4 ≡ 0
      → p.send_direct_req (request p c (n.nvm_size) (c.nvm_write_service) offset 4 word) w ≡ (f, t)
      → f.fid ≡ direct_resp_32
      → nvmem_write p c (n.nvm_size) offset (some word) 4 w ≡ (0, t)
  unfolding nvmem_write
  remote_write offset word f w t ok e ef = rw (nvmem_write, ok, reach.elsewhere, e, ef) refl

  remote_read :
      (offset old word : ℕ) (f : Args) (w t : W)
      → nvm_check_bounds (n.nvm_size) offset (some old) 4 ≡ 0
      → p.send_direct_req (request p c (n.nvm_size) (c.nvm_read_service) offset 4 0) w ≡ (f, t)
      → f.fid ≡ direct_resp_32
      → f.arg3 % 2 ^ 32 ≡ word
      → nvmem_read p c (n.nvm_size) offset (some old) 4 w ≡ (0, some word, t)
  unfolding nvmem_read
  remote_read offset old word f w t ok e ef e3 =
      rw (nvmem_read, ok, reach.elsewhere, e, ef, e3) refl

  -- A word that another endpoint writes to SP1's memory and reads back there comes back, with no
  -- error on either way, where SP1's driver writes and reads it.
  pub remote_read-remote_write :
      (offset word : ℕ) (w t u : W)
      → offset + 4 ≤ n.nvm_size
      → n.nvm_size < 2 ^ 32
      → word < 2 ^ 32
      → n.driver.nvm_write offset word w ≡ (0, t)
      → n.driver.nvm_read offset t ≡ (0, word, u)
      → (nvmem_write p c (n.nvm_size) offset (some word) 4 w ≡ (0, t))
        × (nvmem_read p c (n.nvm_size) offset (some 0) 4 t ≡ (0, some word, u))
  unfolding answer_frame delivered
  remote_read-remote_write offset word w t u h b small ew er =
      let aw = delivered (request p c (n.nvm_size) (c.nvm_write_service) offset 4 word) in
      let ar = delivered (request p c (n.nvm_size) (c.nvm_read_service) offset 4 0) in
      (
        remote_write offset word (answer_frame aw 0) w t
            (bounds_allowed (n.nvm_size) offset word h b)
            (reach.relay (request p c (n.nvm_size) (c.nvm_write_service) offset 4 word)
              (answer_frame aw 0) w t (received c.endpoint_id c.sp1_id reach.id16)
              (serve_round-write offset word w
                ∙ serve_write_lem n offset h b (reach.here) aw word w t refl refl refl small ew))
            refl,
        remote_read offset 0 word (answer_frame ar word) t u
            (bounds_allowed (n.nvm_size) offset 0 h b)
            (reach.relay (request p c (n.nvm_size) (c.nvm_read_service) offset 4 0)
              (answer_frame ar word) t u (received c.endpoint_id c.sp1_id reach.id16)
              (serve_round-read offset t
                ∙ serve_read_lem n offset h b (reach.here) ar word t u refl refl er))
            refl (low_word word small),
      )
