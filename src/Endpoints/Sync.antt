-- ===== src/Endpoints/Sync.antt =====
-- How the dispatcher hands the endpoint table to the other endpoints: `val_send_sync_ep_info` and
-- `val_sync_ep_info_service` of val/src/val_framework.c. An entry is eight 32-bit words, as
-- `val_endpoint_info_t` is laid out in little-endian memory, and travels in two frames.
use ff_a_acs.Base.{
  ℕ, zero, suc, ◌+◌, ◌*◌, ◌/◌, ◌%◌, ◌^◌, ◌||◌, Option, none, some, List, [], ◌∷◌, length, get_or,
  leb, ◌==◌, if◌then◌else◌,
}
use ff_a_acs.Ffa.{Args, zero_args, error_32, endpoints}
use ff_a_acs.Ffa.Messages.{ffa_msg_send_direct_req_32, ffa_msg_send_direct_resp_32}
use ff_a_acs.Endpoints.{Endpoint, no_endpoint, get_endpoint_id}

-- Half of the words of an entry, as a frame carries them.
pub record Half : Type 0 where
  pub w0 : ℕ
  pub w1 : ℕ
  pub w2 : ℕ
  pub w3 : ℕ

-- The status byte has `is_valid` below `is_secure`.
unfoldable pub first_half : Endpoint → Half
first_half e = record {
  w0 =
      get_or e.name 0 0
      + 256 * get_or e.name 1 0
      + 65536 * get_or e.name 2 0
      + 16777216 * get_or e.name 3 0;
  w1 = get_or e.name 4 0 + 256 * (e.is_valid + 16 * e.is_secure) + 65536 * e.id;
  w2 = e.tg0 + 256 * e.el_info + 65536 * e.ec_count;
  w3 = e.ep_properties;
}

unfoldable pub second_half : Endpoint → Half
second_half e = record {
  w0 = get_or e.uuid 0 0;
  w1 = get_or e.uuid 1 0;
  w2 = get_or e.uuid 2 0;
  w3 = get_or e.uuid 3 0;
}

unfoldable pub entry_of : (a b : Half) → Endpoint
entry_of a b = record {
  name =
      a.w0 % 256 ∷ a.w0 / 256 % 256 ∷ a.w0 / 65536 % 256 ∷ a.w0 / 16777216 % 256 ∷ a.w1 % 256 ∷ [];
  is_valid = a.w1 / 256 % 16;
  is_secure = a.w1 / 4096 % 16;
  id = a.w1 / 65536 % 65536;
  tg0 = a.w2 % 256;
  el_info = a.w2 / 256 % 256;
  ec_count = a.w2 / 65536 % 65536;
  ep_properties = a.w3;
  uuid = b.w0 ∷ b.w1 ∷ b.w2 ∷ b.w3 ∷ [];
}

abbrev pub ep_info_sync_service : ℕ
ep_info_sync_service = 0xffee

-- A frame that carries half of entry `j` to the endpoint `id`.
unfoldable pub sync_frame : (sender id j : ℕ) → Half → Args
sync_frame sender id j h = record zero_args {
  arg1 = endpoints sender id;
  arg3 = j * 65536 % 2 ^ 32 + ep_info_sync_service;
  arg4 = h.w0;
  arg5 = h.w1;
  arg6 = h.w2;
  arg7 = h.w3;
}

module _ {W : Type 0} (conduit : W → Args → Args × W) where
  -- Both are sent before either answer is looked at; `none` is a panic.
  unfoldable pub send_entry : (sender id j : ℕ) → Endpoint → W → Option W
  unfolding sync_frame first_half second_half
  send_entry sender id j e w =
      let (r1, w1) = ffa_msg_send_direct_req_32 conduit w (sync_frame sender id j (first_half e)) in
      let (r2, w2) =
        ffa_msg_send_direct_req_32 conduit w1 (sync_frame sender id j (second_half e)) in
      if (r1.fid == error_32) || (r2.fid == error_32) then none else some w2

  -- `n` entries from `j` on.
  unfoldable pub send_entries : List Endpoint → (sender id : ℕ) → (n j : ℕ) → W → Option W
  unfolding send_entry
  send_entries table sender id zero j w = some w
  send_entries table sender id (suc n) j w =
      elim (send_entry sender id j (get_or table j no_endpoint) w) [
        | none ↦ none
        | some w' ↦ send_entries table sender id n (j + 1) w'
      ]

  -- The `n` endpoints from entry `i` on; the ones that are not present are passed over.
  unfoldable pub send_to : List Endpoint → (sender s_ep_count : ℕ) → (n i : ℕ) → W → Option W
  unfolding send_entries
  send_to table sender s_ep_count zero i w = some w
  send_to table sender s_ep_count (suc n) i w =
      let e = get_or table i no_endpoint in
      elim (if e.is_valid == 0
        then some w
        else send_entries table sender e.id (s_ep_count + 1) 1 w) [
          | none ↦ none
          | some w' ↦ send_to table sender s_ep_count n (i + 1) w'
        ]

  -- `vm1` is the index of the dispatcher's entry. The size of an entry is the words' of this model.
  unfoldable pub send_sync_ep_info : List Endpoint → (vm1 s_ep_count : ℕ) → W → Option W
  unfolding send_to get_endpoint_id
  send_sync_ep_info table vm1 s_ep_count w =
      send_to table (get_endpoint_id table vm1) s_ep_count s_ep_count 1 w

-- An index past the table, which the code does not check, is an access outside of it.
pub data Synced (W : Type 0) : Type 0 where
  synced : List Endpoint → W → Synced W
  panic overrun : W → Synced W

unfoldable pub put_entry : List Endpoint → ℕ → Endpoint → List Endpoint
put_entry [] i e = []
put_entry (x ∷ xs) zero e = e ∷ xs
put_entry (x ∷ xs) (suc i) e = x ∷ put_entry xs i e

-- The half of an entry that a frame brings, in 32-bit words.
unfoldable pub half_of : Args → Half
half_of a = record {
  w0 = a.arg4 % 2 ^ 32;
  w1 = a.arg5 % 2 ^ 32;
  w2 = a.arg6 % 2 ^ 32;
  w3 = a.arg7 % 2 ^ 32;
}

module _ {W : Type 0} (conduit : W → Args → Args × W) where
  unfoldable pub sync_ep_info_service : List Endpoint → Args → W → Synced W
  unfolding entry_of put_entry half_of
  sync_ep_info_service table a w =
      let i = a.arg3 % 2 ^ 32 / 65536 in
      let answer = record zero_args {
        arg1 = endpoints (a.arg1 % 65536) (a.arg1 / 65536 % 65536);
      } in
      let (payload, w') = ffa_msg_send_direct_resp_32 conduit w answer in
      if payload.fid == error_32
      then panic w'
      else if leb (length table) i
      then overrun w'
      else synced (put_entry table i (entry_of (half_of a) (half_of payload))) w'
