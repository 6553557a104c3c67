-- ===== src/Share/Laws.antt =====
-- The lengths that val/src/val_ffa_helpers.c computes for a memory sharing message.
use ff_a_acs.Base.{
  ℕ, zero, suc, ◌+◌, ◌*◌, ◌^◌, ◌≡◌, ◌≤◌, ◌<◌, refl, arith, List, [], ◌∷◌, if◌then◌else◌, take,
  length, inl, inr, Bool-cases,
}
use ff_a_acs.Share.{
  RegionInit, MemoryRegion, Constituent, Described, memory_region_init, describe, set_offsets,
  place_composite, constituents_offset, count_to_copy, init_header, retrieve_request_init,
}

-- The receivers that the message has.
abbrev pub receivers_of : RegionInit → ℕ
receivers_of i = if i.multi_share then i.receiver_count else 1

-- Where the constituents start.
abbrev pub start_of : RegionInit → ℕ
start_of i = 48 + receivers_of i * 32 + 16

describe_count :
    (i : RegionInit) (handle : ℕ) (m : MemoryRegion)
    → (describe i handle m).receiver_count ≡ receivers_of i
unfolding describe init_header
describe_count i handle m = elim (Bool-cases i.multi_share) [
  | inl e ↦ rw (describe, e) refl
  | inr e ↦ rw (describe, init_header, e) refl
]

constituents_offset_lem :
    (i : RegionInit) (m : MemoryRegion)
    → m.receiver_count ≡ receivers_of i
    → 1 ≤ receivers_of i
    → receivers_of i ≤ 2
    → constituents_offset (place_composite i m) ≡ start_of i
unfolding constituents_offset place_composite set_offsets
constituents_offset_lem i m e l u = elim (Bool-cases i.multi_share) [
  | inl b ↦ ground (arith, b)
  | inr b ↦ ground (arith, b)
]

count_to_copy_fits :
    (max_size start count : ℕ)
    → start ≤ max_size
    → max_size < 2 ^ 32
    → (count_to_copy max_size start count ≤ count)
      × (start + count_to_copy max_size start count * 16 ≤ max_size)
      × ((start + count * 16 ≤ max_size) → count_to_copy max_size start count ≡ count)
unfolding count_to_copy
count_to_copy_fits max_size start count l u = (ground arith, ground arith, ground arith)

length-take : {A : Type 0} (n : ℕ) (xs : List A) → n ≤ length xs → length (take n xs) ≡ n
length-take zero xs l = refl
length-take (suc n) [] l = absurd (omega arith)
length-take (suc n) (x ∷ xs) l = omega (arith, length-take n xs)

-- How a message of `i` with `count` constituents is laid out: the fragment fits the buffer, what is
-- left out makes up the total, and nothing is left out where the total fits.
unfoldable pub Layout : RegionInit → (count : ℕ) → Described → Type 0
Layout i count d =
    (d.total_length ≡ start_of i + 16 * count)
    × (d.fragment_length + 16 * d.remaining ≡ d.total_length)
    × (d.fragment_length ≤ i.max_size)
    × (length d.composite.constituents + d.remaining ≡ count)
    × ((d.total_length ≤ i.max_size) → d.remaining ≡ 0)

-- For one or two receivers, a buffer of less than 4 GB that holds at least the descriptors, and fewer
-- than 2^20 constituents, the message is laid out as described.
pub memory_region_init-Layout :
    (i : RegionInit) (cs : List Constituent) (m : MemoryRegion)
    → 1 ≤ receivers_of i
    → receivers_of i ≤ 2
    → start_of i ≤ i.max_size
    → i.max_size < 2 ^ 32
    → length cs < 2 ^ 20
    → Layout i (length cs) (memory_region_init i cs m)
unfolding Layout memory_region_init
memory_region_init-Layout i cs m l u room s c =
    let st = constituents_offset_lem i (describe i 0 m) (describe_count i 0 m) l u in
    let (le, fits, all) = count_to_copy_fits i.max_size (start_of i) (length cs) room s in
    rw (memory_region_init, st)
      (
        omega arith,
        omega (arith, le),
        omega (arith, fits),
        omega (arith, le, length-take (count_to_copy i.max_size (start_of i) (length cs)) cs le),
        λ t. omega (arith, all (omega (arith, t))),
      )

count_to_copy_wraps :
    (max_size start count : ℕ)
    → max_size < start
    → start ≤ 128
    → count < 2 ^ 20
    → count_to_copy max_size start count ≡ count
unfolding count_to_copy
count_to_copy_wraps max_size start count l u c = ground arith

-- Where the buffer is too small for the descriptors of one or two receivers, the room for constituents
-- wraps around: with fewer than 2^20 constituents all are written, and the fragment is longer than the
-- buffer.
memory_region_init_overruns :
    (i : RegionInit) (cs : List Constituent) (m : MemoryRegion)
    → 1 ≤ receivers_of i
    → receivers_of i ≤ 2
    → i.max_size < start_of i
    → length cs < 2 ^ 20
    → ((memory_region_init i cs m).remaining ≡ 0)
      × (i.max_size < (memory_region_init i cs m).fragment_length)
unfolding memory_region_init
memory_region_init_overruns i cs m l u small c =
    let st = constituents_offset_lem i (describe i 0 m) (describe_count i 0 m) l u in
    let all = count_to_copy_wraps i.max_size (start_of i) (length cs) small (omega arith) c in
    rw (memory_region_init, st, all) (omega arith, omega arith)

-- A retrieve request for at most two receivers is as long as its header and a descriptor for each.
pub retrieve_request_init_length :
    (i : RegionInit) (handle : ℕ) (m : MemoryRegion)
    → receivers_of i ≤ 2
    → (retrieve_request_init i handle m).1 ≡ 48 + 32 * receivers_of i
unfolding retrieve_request_init
retrieve_request_init_length i handle m u =
    rw (retrieve_request_init, describe_count i handle m) (omega arith)
