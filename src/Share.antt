-- ===== src/Share.antt =====
-- The memory sharing descriptors of val/src/val_ffa_helpers.c, in the build for FF-A 1.2 and later:
-- `val_ffa_memory_region_init`, `val_ffa_memory_retrieve_request_init` and what they call. The
-- receivers of a region are kept by their index, the constituents behind the composite descriptor as
-- the list of those that were copied.
mod Laws
mod Tests
use ff_a_acs.Base.{
  ℕ, zero, suc, ◌+◌, ◌-◌, ◌*◌, ◌/◌, ◌%◌, ◌^◌, Bool, true, false, List, [], ◌∷◌, ltb, ◌==◌,
  if◌then◌else◌, take, length,
}

-- struct ffa_memory_access
pub record Access : Type 0 where
  pub receiver : ℕ
  pub permissions : ℕ
  pub flags : ℕ
  pub composite_offset : ℕ
  pub impdef0 : ℕ
  pub impdef1 : ℕ
  pub reserved : ℕ

-- struct ffa_memory_region
pub record MemoryRegion : Type 0 where
  pub sender : ℕ
  pub attributes : ℕ
  pub flags : ℕ
  pub handle : ℕ
  pub tag : ℕ
  pub access_desc_size : ℕ
  pub receiver_count : ℕ
  pub receivers_offset : ℕ
  pub receivers : ℕ → Access

-- struct ffa_memory_region_constituent
pub record Constituent : Type 0 where
  pub address : ℕ
  pub page_count : ℕ

-- struct ffa_composite_memory_region
pub record Composite : Type 0 where
  pub page_count : ℕ
  pub constituent_count : ℕ
  pub constituents : List Constituent

-- mem_region_init_t, less the region that it points to and the two lengths that are results.
pub record RegionInit : Type 0 where
  pub max_size : ℕ
  pub sender : ℕ
  pub receiver : ℕ
  pub tag : ℕ
  pub flags : ℕ
  pub impdef0 : ℕ
  pub impdef1 : ℕ
  pub data_access : ℕ
  pub instruction_access : ℕ
  pub mem_type : ℕ
  pub cacheability : ℕ
  pub shareability : ℕ
  pub multi_share : Bool
  pub receiver_count : ℕ
  pub receivers : ℕ → Access

abbrev pub region_size : ℕ
region_size = 48

abbrev pub access_size : ℕ
access_size = 32

abbrev pub composite_size : ℕ
composite_size = 16

abbrev pub constituent_size : ℕ
constituent_size = 16

-- `ffa_set_<name>_attr`, for the two bits from `offset` on.
unfoldable pub set_attr : (attr offset perm : ℕ) → ℕ
set_attr attr offset perm =
    (attr + 2 ^ offset * (perm % 4) - 2 ^ offset * (attr / 2 ^ offset % 4)) % 256

unfoldable pub permissions_of : RegionInit → ℕ
unfolding set_attr
permissions_of i = set_attr (set_attr 0 0 i.data_access) 2 i.instruction_access

unfoldable pub attributes_of : RegionInit → ℕ
unfolding set_attr
attributes_of i = set_attr (set_attr (set_attr 0 4 i.mem_type) 2 i.cacheability) 0 i.shareability

-- One receiver's descriptor; its composite offset stays.
abbrev pub set_receiver :
    (ℕ → Access) → (k receiver permissions flags impdef0 impdef1 : ℕ) → ℕ → Access
set_receiver rs k receiver permissions flags impdef0 impdef1 x =
    if x == k
    then record (rs k) {
      receiver = receiver;
      permissions = permissions;
      flags = flags;
      impdef0 = impdef0;
      impdef1 = impdef1;
      reserved = 0;
    }
    else rs x

-- `ffa_memory_region_init_header` and `ffa_memory_region_retrieve_init_header`.
unfoldable pub init_header :
    RegionInit → (attributes handle permissions : ℕ) → MemoryRegion → MemoryRegion
init_header i attributes handle permissions m =
    let common = record m {
      sender = i.sender;
      attributes = attributes;
      receivers_offset = 0x30;
      access_desc_size = access_size;
      flags = i.flags;
      handle = handle;
      tag = i.tag;
    } in
    if i.multi_share then common else record common {
      receiver_count = 1;
      receivers = set_receiver m.receivers 0 i.receiver permissions 0 i.impdef0 i.impdef1;
    }

-- The loop over the receivers of a shared region, for those with an index under `n`.
unfoldable pub copy_receivers : ℕ → RegionInit → (permissions : ℕ) → (ℕ → Access) → ℕ → Access
copy_receivers zero i permissions rs = rs
copy_receivers (suc n) i permissions rs =
    let a = i.receivers n in
    set_receiver (copy_receivers n i permissions rs) n a.receiver permissions a.flags a.impdef0
      a.impdef1

-- The loop that writes the composite offset of the receivers with an index under `n`.
unfoldable pub set_offsets : ℕ → (offset : ℕ) → (ℕ → Access) → ℕ → Access
set_offsets n offset rs x = if ltb x n then record (rs x) { composite_offset = offset } else rs x

unfoldable pub describe : RegionInit → (handle : ℕ) → MemoryRegion → MemoryRegion
unfolding permissions_of attributes_of init_header copy_receivers
describe i handle m =
    let m1 = init_header i (attributes_of i) handle (permissions_of i) m in
    if i.multi_share
    then record m1 {
      receiver_count = i.receiver_count;
      receivers = copy_receivers i.receiver_count i (permissions_of i) m1.receivers;
    }
    else m1

-- The sum over the constituents, on 32 bits.
unfoldable pub total_pages : ℕ → List Constituent → ℕ
total_pages n [] = n
total_pages n (c ∷ cs) = total_pages ((n + c.page_count) % 2 ^ 32) cs

-- What `val_ffa_memory_region_init` writes and returns.
pub record Described : Type 0 where
  pub region : MemoryRegion
  pub composite : Composite
  pub total_length : ℕ
  pub fragment_length : ℕ
  pub remaining : ℕ

-- The region with the composite offsets written.
unfoldable pub place_composite : RegionInit → MemoryRegion → MemoryRegion
unfolding set_offsets
place_composite i m = record m {
  receivers =
      if i.multi_share
      then set_offsets i.receiver_count ((region_size + m.receiver_count * access_size) % 2 ^ 32)
          m.receivers
      else set_offsets 1 (region_size + access_size) m.receivers;
}

unfoldable pub constituents_offset : MemoryRegion → ℕ
constituents_offset m = ((m.receivers 0).composite_offset + composite_size) % 2 ^ 32

unfoldable pub count_to_copy : (max_size start count : ℕ) → ℕ
count_to_copy max_size start count =
    let room = (max_size + 2 ^ 64 - start) % 2 ^ 64 / constituent_size % 2 ^ 32 in
    if ltb room count then room else count

unfoldable pub memory_region_init : RegionInit → List Constituent → MemoryRegion → Described
unfolding describe place_composite constituents_offset count_to_copy total_pages
memory_region_init i cs m =
    let count = length cs in
    let m1 = place_composite i (describe i 0 m) in
    let start = constituents_offset m1 in
    let copied = count_to_copy i.max_size start count in
    record {
      region = m1;
      composite = record {
        page_count = total_pages 0 cs;
        constituent_count = count;
        constituents = take copied cs;
      };
      total_length = (start + count * constituent_size) % 2 ^ 32;
      fragment_length = (start + copied * constituent_size) % 2 ^ 32;
      remaining = count - copied;
    }

-- `val_ffa_memory_retrieve_request_init`: the region, and the size of the message.
unfoldable pub retrieve_request_init : RegionInit → (handle : ℕ) → MemoryRegion → MemoryRegion × ℕ
unfolding describe
retrieve_request_init i handle m =
    let m1 = describe i handle m in
    let n = if i.multi_share then i.receiver_count else 1 in
    let m2 = record m1 {
      receivers = λ x.
          if ltb x n
          then record (m1.receivers x) { composite_offset = 0; reserved = 0 }
          else m1.receivers x;
    } in
    (m2, (region_size + m2.receiver_count * access_size) % 2 ^ 32)
