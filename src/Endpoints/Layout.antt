-- ===== src/Endpoints/Layout.antt =====
-- The words of an entry of the endpoint table, Endpoints/Sync, and the way back from them.
use ff_a_acs.Base.{
  ℕ, zero, suc, ◌+◌, ◌*◌, ◌/◌, ◌%◌, ◌^◌, ◌<◌, ◌≡◌, refl, arith, List, [], ◌∷◌, length, get_or, All,
}
use ff_a_acs.Endpoints.{Endpoint}
use ff_a_acs.Endpoints.Sync.{Half, first_half, second_half, entry_of, sync_frame, half_of}

-- The fields of an entry have their widths.
pub record IsEntry (e : Endpoint) : Type 0 where
  pub name_length : length e.name ≡ 5
  pub name_bytes : All (λ b. b < 256) e.name
  pub valid_bits : e.is_valid < 16
  pub secure_bits : e.is_secure < 16
  pub id_bits : e.id < 65536
  pub tg0_bits : e.tg0 < 256
  pub el_info_bits : e.el_info < 256
  pub ec_count_bits : e.ec_count < 65536
  pub properties_bits : e.ep_properties < 2 ^ 32
  pub uuid_length : length e.uuid ≡ 4
  pub uuid_bits : All (λ w. w < 2 ^ 32) e.uuid

name_back :
    (xs : List ℕ) (k j : ℕ)
    → length xs ≡ 5
    → All (λ b. b < 256) xs
    → let w =
        get_or xs 0 0 + 256 * get_or xs 1 0 + 65536 * get_or xs 2 0 + 16777216 * get_or xs 3 0 in
      let v = get_or xs 4 0 + 256 * k + 65536 * j in
      (w % 256 ∷ w / 256 % 256 ∷ w / 65536 % 256 ∷ w / 16777216 % 256 ∷ v % 256 ∷ []) ≡ xs
name_back (a ∷ b ∷ c ∷ d ∷ e ∷ []) k j h l = ground (arith, l)
name_back _ k j h l = absurd (omega (arith, h))

uuid_back :
    (xs : List ℕ)
    → length xs ≡ 4
    → (get_or xs 0 0 ∷ get_or xs 1 0 ∷ get_or xs 2 0 ∷ get_or xs 3 0 ∷ []) ≡ xs
uuid_back (a ∷ b ∷ c ∷ d ∷ []) h = refl
uuid_back _ h = absurd (omega (arith, h))

bytes_within : (n : ℕ) (xs : List ℕ) (k : ℕ) → 0 < n → All (λ b. b < n) xs → get_or xs k 0 < n
bytes_within n [] k z h = z
bytes_within n (x ∷ xs) zero z h = h.0
bytes_within n (x ∷ xs) (suc k) z h = bytes_within n xs k z h.1

-- An entry is what its two halves say.
pub entry_of-halves : (e : Endpoint) → IsEntry e → entry_of (first_half e) (second_half e) ≡ e
unfolding entry_of first_half second_half
entry_of-halves e v = λ i. record {
  name = name_back e.name (e.is_valid + 16 * e.is_secure) e.id v.name_length v.name_bytes i;
  is_valid = valid i;
  is_secure = secure i;
  id = id i;
  tg0 = tg0 i;
  el_info = el i;
  ec_count = ec i;
  ep_properties = e.ep_properties;
  uuid = uuid_back e.uuid v.uuid_length i;
}
  where
    last : get_or e.name 4 0 < 256
    last = bytes_within 256 e.name 4 (omega arith) v.name_bytes

    valid :
        (get_or e.name 4 0 + 256 * (e.is_valid + 16 * e.is_secure) + 65536 * e.id) / 256 % 16
        ≡ e.is_valid
    valid = omega (arith, last)

    secure :
        (get_or e.name 4 0 + 256 * (e.is_valid + 16 * e.is_secure) + 65536 * e.id) / 4096 % 16
        ≡ e.is_secure
    secure = omega (arith, last)

    id :
        (get_or e.name 4 0 + 256 * (e.is_valid + 16 * e.is_secure) + 65536 * e.id) / 65536 % 65536
        ≡ e.id
    id = omega (arith, last)

    tg0 : (e.tg0 + 256 * e.el_info + 65536 * e.ec_count) % 256 ≡ e.tg0
    tg0 = omega arith

    el : (e.tg0 + 256 * e.el_info + 65536 * e.ec_count) / 256 % 256 ≡ e.el_info
    el = omega arith

    ec : (e.tg0 + 256 * e.el_info + 65536 * e.ec_count) / 65536 % 65536 ≡ e.ec_count
    ec = omega arith

-- A half whose words have 32 bits arrives as it was sent.
pub half_of-sync_frame :
    (sender id j : ℕ) (h : Half)
    → h.w0 < 2 ^ 32
    → h.w1 < 2 ^ 32
    → h.w2 < 2 ^ 32
    → h.w3 < 2 ^ 32
    → half_of (sync_frame sender id j h) ≡ h
unfolding half_of sync_frame
half_of-sync_frame sender id j h l0 l1 l2 l3 =
    λ i. record { w0 = low h.w0 l0 i; w1 = low h.w1 l1 i; w2 = low h.w2 l2 i; w3 = low h.w3 l3 i }
  where
    low : (x : ℕ) → x < 2 ^ 32 → x % 2 ^ 32 ≡ x
    low x l = omega arith

-- An entry arrives as it was sent.
pub entry_arrives :
    (sender id j : ℕ) (e : Endpoint)
    → IsEntry e
    → entry_of
        (half_of (sync_frame sender id j (first_half e)))
        (half_of (sync_frame sender id j (second_half e)))
      ≡ e
unfolding first_half second_half
entry_arrives sender id j e v =
    rw
      (
        half_of-sync_frame sender id j (first_half e) (omega (arith, n 0, n 1, n 2, n 3))
            (omega (arith, n 4)) (omega arith) (omega arith),
        half_of-sync_frame sender id j (second_half e) (u 0) (u 1) (u 2) (u 3),
      )
      (entry_of-halves e v)
  where
    n : (k : ℕ) → get_or e.name k 0 < 256
    n k = bytes_within 256 e.name k (omega arith) v.name_bytes

    u : (k : ℕ) → get_or e.uuid k 0 < 2 ^ 32
    u k = bytes_within (2 ^ 32) e.uuid k (omega arith) v.uuid_bits
