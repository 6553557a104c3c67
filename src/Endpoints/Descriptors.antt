-- ===== src/Endpoints/Descriptors.antt =====
-- The descriptors that the parser of Endpoints/Presence leaves, and the entries that they mark.
use ff_a_acs.Base.{
  ℕ, zero, suc, ◌+◌, ◌*◌, ◌≤◌, ◌<◌, ◌≡◌, ◌≢◌, ◌⊎◌, refl, sym, ap, ◌∙◌, arith, Bool, true, false,
  none, some, inl, inr, ◌==◌, Bool-cases, ==→eq,
}
use ff_a_acs.Base.Bytes.{
  Bytes, copy_bytes, fill_bytes, copy_bytes_inside, copy_bytes_outside, fill_bytes_outside,
}
use ff_a_acs.Endpoints.{Endpoint}
use ff_a_acs.Endpoints.Presence.{
  parse_from, parse_descriptors, Partition, half_at, partition_at, find_partition, update_presence,
}

-- What the parser leaves in front of its destination stays.
parse_from_below :
    (out rx : Bytes) (size n dest src x : ℕ)
    → size ≤ 48
    → x < dest
    → parse_from out rx size n dest src x ≡ out x
unfolding parse_from
parse_from_below out rx size zero dest src x h l = refl
parse_from_below out rx size (suc n) dest src x h l =
    parse_from_below (copy_bytes (fill_bytes out dest 0 48) dest rx src size) rx size n (dest + 48)
      (src + size) x h (omega (arith, l))
    ∙ copy_bytes_outside (fill_bytes out dest 0 48) dest rx src size x (inl l)
    ∙ fill_bytes_outside out dest 0 48 x (inl l)

-- The place of descriptor `k` in the RX buffer.
unfoldable pub place_of : (size src k : ℕ) → ℕ
place_of size src zero = src
place_of size src (suc k) = place_of size (src + size) k

parsed_byte :
    (out rx : Bytes) (size n dest src k x : ℕ)
    → size ≤ 48
    → k < n
    → x < size
    → parse_from out rx size n dest src (dest + 48 * k + x) ≡ rx (place_of size src k + x)
unfolding parse_from place_of
parsed_byte out rx size zero dest src k x h l m = absurd (omega (arith, l))
parsed_byte out rx size (suc n) dest src zero x h l m =
    parse_from_below (copy_bytes (fill_bytes out dest 0 48) dest rx src size) rx size n (dest + 48)
      (src + size) (dest + 48 * 0 + x) h (omega (arith, m))
    ∙ ap (copy_bytes (fill_bytes out dest 0 48) dest rx src size) (omega arith)
    ∙ copy_bytes_inside (fill_bytes out dest 0 48) dest rx src size x m
parsed_byte out rx size (suc n) dest src (suc k) x h l m =
    let next = copy_bytes (fill_bytes out dest 0 48) dest rx src size in
    ap (parse_from next rx size n (dest + 48) (src + size)) (omega arith)
    ∙ parsed_byte next rx size n (dest + 48) (src + size) k x h (omega (arith, l)) m

-- What the search makes of `n` descriptors from `a` on.
abbrev Searched : (Partition → Bool) → Bytes → (n a : ℕ) → Type 0
Searched test m n a =
    ((find_partition test m n a ≡ none)
      × ((k : ℕ) → k < n → test (partition_at m (a + 48 * k)) ≡ false))
    ⊎ ((p : Partition) × (k : ℕ) × (find_partition test m n a ≡ some p)
        × (k < n)
        × (test (partition_at m (a + 48 * k)) ≡ true))

at_first :
    (test : Partition → Bool) (m : Bytes) (a : ℕ)
    → test (partition_at m (a + 48 * 0)) ≡ test (partition_at m a)
at_first test m a = ap (λ b. test (partition_at m b)) (omega arith)

at_next :
    (test : Partition → Bool) (m : Bytes) (a k : ℕ)
    → test (partition_at m (a + 48 * suc k)) ≡ test (partition_at m (a + 48 + 48 * k))
at_next test m a k = ap (λ b. test (partition_at m b)) (omega arith)

searched : (test : Partition → Bool) (m : Bytes) (n a : ℕ) → Searched test m n a
unfolding find_partition
searched test m zero a = inl (refl, λ k l. absurd (omega (arith, l)))
searched test m (suc n) a = elim (Bool-cases (test (partition_at m a))) [
  | inl e ↦
      inr (partition_at m a, 0, rw (find_partition, e) refl, omega arith, at_first test m a ∙ e)
  | inr e ↦ elim (searched test m n (a + 48)) [
    | inl (gone, others) ↦ inl (rw (find_partition, e) gone, none_of e others)
    | inr (p, k, found, l, t) ↦
        inr (p, suc k, rw (find_partition, e) found, omega (arith, l), at_next test m a k ∙ t)
  ]
]
  where
    none_of :
        test (partition_at m a) ≡ false
        → ((k : ℕ) → k < n → test (partition_at m (a + 48 + 48 * k)) ≡ false)
        → (k : ℕ) → k < suc n
        → test (partition_at m (a + 48 * k)) ≡ false
    none_of e others zero l = at_first test m a ∙ e
    none_of e others (suc k) l = at_next test m a k ∙ others k (omega (arith, l))

parsed_at :
    (out rx : Bytes) (size count k x : ℕ)
    → size ≤ 48
    → k < count
    → x < size
    → (y z : ℕ) → y ≡ 0 + 48 * k + x
    → z ≡ place_of size 0 k + x
    → parse_from out rx size count 0 0 y ≡ rx z
parsed_at out rx size count k x h l m y z e f =
    ap (parse_from out rx size count 0 0) e
    ∙ parsed_byte out rx size count 0 0 k x h l m
    ∙ ap rx (sym f)

-- The id of a descriptor of the RX buffer is the one of the parsed descriptor.
parsed_id :
    (out rx : Bytes) (size count k : ℕ)
    → 2 ≤ size
    → size ≤ 48
    → k < count
    → (partition_at (parse_descriptors out rx size count) (0 + 48 * k)).id
      ≡ half_at rx (place_of size 0 k)
unfolding partition_at half_at parse_descriptors
parsed_id out rx size count k two h l =
    let low = parsed_at out rx size count k 0 h l (omega (arith, two)) in
    let high = parsed_at out rx size count k 1 h l (omega (arith, two)) in
    omega (
      arith,
      low (0 + 48 * k) (place_of size 0 k) (omega arith) (omega arith),
      high (0 + 48 * k + 1) (place_of size 0 k + 1) refl refl,
    )

-- An entry of the table after the update, in the build without the TPM: it is marked as present where
-- one of the descriptors of the RX buffer has its id, as not present where none has, and the rest of
-- it stays.
pub update_presence-parsed :
    (out rx : Bytes) (size count : ℕ) (e : Endpoint)
    → 2 ≤ size
    → size ≤ 48
    → ((k : ℕ) × (k < count)
        × (half_at rx (place_of size 0 k) ≡ e.id)
        × (update_presence false (parse_descriptors out rx size count) count e
            ≡ record e { is_valid = 15 }))
      ⊎ (((k : ℕ) → k < count → half_at rx (place_of size 0 k) ≢ e.id)
          × (update_presence false (parse_descriptors out rx size count) count e
              ≡ record e { is_valid = 0 }))
unfolding update_presence
update_presence-parsed out rx size count e two h =
    let m = parse_descriptors out rx size count in
    elim (searched (λ p. e.id == p.id) m count 0) [
      | inl (gone, others) ↦ inr (
        λ k l same.
            let id = parsed_id out rx size count k two h l in ground (arith, others k l, id, same),
        rw (update_presence, gone) refl,
      )
      | inr (p, k, found, l, t) ↦
          let id = parsed_id out rx size count k two h l in
          inl (k, l, sym id ∙ sym (==→eq _ _ t), rw (update_presence, found) refl)
    ]
