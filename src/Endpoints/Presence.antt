-- ===== src/Endpoints/Presence.antt =====
-- Which endpoints are there: `val_ep_info_relayer_sync` of val/src/val_framework.c and the parser of
-- partition descriptors of val/src/val_ffa_helpers.c. The heap and the RX buffer are an argument.
use ff_a_acs.Base.{
  ℕ, zero, suc, ◌+◌, ◌*◌, ◌%◌, ◌^◌, Bool, true, false, not, ◌&&◌, ◌||◌, Option, none, some, List,
  [], ◌∷◌, get_or, ◌==◌, ◌!=◌, if◌then◌else◌,
}
use ff_a_acs.Base.Bytes.{Bytes, copy_bytes, fill_bytes}
use ff_a_acs.Ffa.{Args, zero_args, error_32}
use ff_a_acs.Ffa.Setup.{ffa_partition_info_get}
use ff_a_acs.Ffa.Session.{rxtx_map_64, rxtx_unmap, rx_release}
use ff_a_acs.Endpoints.{Endpoint}

-- `sizeof(ffa_partition_info_t)`
abbrev pub info_size : ℕ
info_size = 48

-- The loop of `val_ffa_partition_descriptor_info_parser` for `n` descriptors from the one that stands
-- at `src` in the RX buffer and goes to `dest`.
unfoldable pub parse_from : Bytes → (rx : Bytes) → (desc_size n dest src : ℕ) → Bytes
parse_from out rx desc_size zero dest src = out
parse_from out rx desc_size (suc n) dest src =
    parse_from (copy_bytes (fill_bytes out dest 0 info_size) dest rx src desc_size) rx desc_size n
      (dest + info_size) (src + desc_size)

unfoldable pub parse_descriptors : Bytes → (rx : Bytes) → (desc_size count : ℕ) → Bytes
parse_descriptors out rx desc_size count = parse_from out rx desc_size count 0 0

-- The fields of `ffa_partition_info_t` that the code reads.
pub record Partition : Type 0 where
  pub id : ℕ
  pub exec_context : ℕ
  pub properties : ℕ
  pub uuid : List ℕ

unfoldable pub half_at : Bytes → ℕ → ℕ
half_at m a = m a + 256 * m (a + 1)

unfoldable pub word_at : Bytes → ℕ → ℕ
word_at m a = m a + 256 * m (a + 1) + 65536 * m (a + 2) + 16777216 * m (a + 3)

unfoldable pub partition_at : Bytes → ℕ → Partition
partition_at m a = record {
  id = half_at m a;
  exec_context = half_at m (a + 2);
  properties = word_at m (a + 4);
  uuid = word_at m (a + 8) ∷ word_at m (a + 12) ∷ word_at m (a + 16) ∷ word_at m (a + 20) ∷ [];
}

-- The first of `n` descriptors from `a` on that passes the test.
unfoldable pub find_partition : (Partition → Bool) → Bytes → (n a : ℕ) → Option Partition
find_partition test m zero a = none
find_partition test m (suc n) a =
    let rest = find_partition test m n (a + info_size) in
    if test (partition_at m a) then some (partition_at m a) else rest

unfoldable pub uuid_is_nil : List ℕ → Bool
uuid_is_nil u =
    (get_or u 0 0 == 0) && ((get_or u 1 0 == 0) && ((get_or u 2 0 == 0) && (get_or u 3 0 == 0)))

unfoldable pub uuid_matches : List ℕ → List ℕ → Bool
uuid_matches u v =
    (get_or u 0 0 == get_or v 0 0)
    && ((get_or u 1 0 == get_or v 1 0)
        && ((get_or u 2 0 == get_or v 2 0) && (get_or u 3 0 == get_or v 3 0)))

-- One entry against the descriptors: with the TPM by the UUID, and else by the id.
unfoldable pub update_presence : (with_tpm : Bool) → Bytes → (count : ℕ) → Endpoint → Endpoint
update_presence true m count e =
    elim (find_partition (λ p. not (uuid_is_nil e.uuid) && uuid_matches e.uuid p.uuid) m count 0) [
      | none ↦ record e { is_valid = 0 }
      | some p ↦ record e { is_valid = 0xf; id = p.id; ec_count = p.exec_context }
    ]
update_presence false m count e = elim (find_partition (λ p. e.id == p.id) m count 0) [
  | none ↦ record e { is_valid = 0 }
  | some p ↦ record e { is_valid = 0xf }
]

-- The loop over the `n` entries of the table behind the first one.
unfoldable pub update_entries : (Endpoint → Endpoint) → ℕ → List Endpoint → List Endpoint
update_entries f zero es = es
update_entries f (suc n) [] = []
update_entries f (suc n) (e ∷ es) = f e ∷ update_entries f n es

unfoldable pub update_table :
    (with_tpm : Bool) → (s_ep_count : ℕ) → Bytes → ℕ → List Endpoint → List Endpoint
update_table with_tpm s_ep_count m count [] = []
update_table with_tpm s_ep_count m count (e ∷ es) =
    e ∷ update_entries (update_presence with_tpm m count) s_ep_count es

-- The calls of the heap, each with the address 0 for NULL, the bytes at an address, and how bytes are
-- stored at one.
pub record Buffers (W : Type 0) : Type 0 where
  pub aligned_alloc : (alignment size : ℕ) → W → ℕ × W
  pub malloc : ℕ → W → ℕ × W
  pub free : ℕ → W → ℕ × W
  pub bytes_at : W → ℕ → Bytes
  pub store : W → ℕ → Bytes → W

-- The nil UUID, and FFA_PARTITION_INFO_FLAG_RETDESC of platform/common/inc/pal_endpoint_info.h.
unfoldable pub nil_uuid_frame : Args
nil_uuid_frame = record zero_args { arg5 = 0 }

module _ {W : Type 0} (conduit : W → Args → Args × W) (heap : Buffers W) where
  -- The second buffer is freed only where the first was.
  unfoldable pub free_memory : (rx tx : ℕ) → W → W
  free_memory rx tx w =
      let (failed, w1) = heap.free rx w in if failed != 0 then w1 else (heap.free tx w1).1

  unfoldable pub unmap_and_free : (rx tx : ℕ) → W → W
  unmap_and_free rx tx w = free_memory rx tx (rxtx_unmap conduit w).1

  unfoldable pub release_and_free : (rx tx : ℕ) → W → W
  release_and_free rx tx w = unmap_and_free rx tx (rx_release conduit w).1

  -- What follows the answer of `FFA_PARTITION_INFO_GET`. The array is written before the size of a
  -- descriptor is looked at.
  unfoldable pub use_descriptors :
      (with_tpm : Bool) → (s_ep_count rx tx : ℕ) → List Endpoint → Args → W → List Endpoint × W
  use_descriptors with_tpm s_ep_count rx tx table payload w =
      let count = payload.arg2 % 2 ^ 32 in
      let size = payload.arg3 % 2 ^ 32 in
      let (info, w1) = heap.malloc (count * info_size) w in
      let parsed = parse_descriptors (heap.bytes_at w1 info) (heap.bytes_at w1 rx) size count in
      let w2 = heap.store w1 info parsed in
      if (size == 8) || ((size == 24) || (size == 48))
      then (update_table with_tpm s_ep_count parsed count table, release_and_free rx tx w2)
      else (table, release_and_free rx tx w2)

  unfoldable pub relayer_sync :
      (with_tpm : Bool) → (s_ep_count : ℕ) → List Endpoint → W → List Endpoint × W
  relayer_sync with_tpm s_ep_count table w =
      let (tx, w1) = heap.aligned_alloc 4096 4096 w in
      let (rx, w2) = heap.aligned_alloc 4096 4096 w1 in
      let (failed, w3) = rxtx_map_64 conduit w2 tx rx 1 in
      let (payload, w4) = ffa_partition_info_get conduit w3 nil_uuid_frame in
      if (rx == 0) || (tx == 0)
      then (table, free_memory rx tx w2)
      else if failed != 0
      then (table, free_memory rx tx w3)
      else if payload.fid == error_32
      then (table, release_and_free rx tx w4)
      else use_descriptors with_tpm s_ep_count rx tx table payload w4
