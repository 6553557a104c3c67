-- ===== src/Endpoints/Tests.antt =====
-- Lookups in a table of three entries, and its hand-over to another endpoint.
use ff_a_acs.Base.{
  ℕ, ◌<◌, ◌≡◌, ◌≢◌, ◌⊎◌, refl, arith, ◌==◌, false, none, some, List, [], ◌∷◌, if◌then◌else◌,
}
use ff_a_acs.Endpoints.{
  Endpoint, no_endpoint, get_endpoint_id, get_endpoint_logical_id, get_secure_partition_count,
}
use ff_a_acs.Base.Bytes.{Bytes}
use ff_a_acs.Ffa.{Args, zero_args, error_32, direct_resp_32}
use ff_a_acs.Endpoints.Sync.{synced, panic, overrun}
use ff_a_acs.Endpoints.Relay.{service_run}
use ff_a_acs.Endpoints.Presence.{half_at, parse_descriptors, update_presence}
use ff_a_acs.Endpoints.Descriptors.{place_of, update_presence-parsed}

abbrev table : List Endpoint
table =
    no_endpoint
    ∷ record no_endpoint { id = 0x8001; is_valid = 1; is_secure = 1 }
    ∷ record no_endpoint { id = 1; is_valid = 1 }
    ∷ []

id_of_two : get_endpoint_id table 2 ≡ 1
unfolding get_endpoint_id
id_of_two = refl

id_past_the_end : get_endpoint_id table 3 ≡ 0
unfolding get_endpoint_id
id_past_the_end = refl

logical_id_of_sp : get_endpoint_logical_id table 0x8001 ≡ some 1
unfolding get_endpoint_logical_id
logical_id_of_sp = refl

unknown_id : get_endpoint_logical_id table 7 ≡ none
unfolding get_endpoint_logical_id
unknown_id = refl

one_secure : get_secure_partition_count table ≡ 1
unfolding get_secure_partition_count
one_secure = refl

-- A receiver that keeps the first request of a pair and runs the service on both.
data Receiver : Type 0 where
  waiting : List Endpoint → Receiver
  half_way : List Endpoint → Args → Receiver

abbrev answer : Args
answer = record zero_args { fid = direct_resp_32 }

abbrev refusal : Args
refusal = record zero_args { fid = error_32 }

unfoldable entries : Receiver → List Endpoint
entries (waiting t) = t
entries (half_way t a) = t

unfoldable Waits : Receiver → Type 0
Waits (waiting t) = Unit
Waits (half_way t a) = ⊥

unfoldable receive : Receiver → Args → Args × Receiver
receive (waiting t) a = (answer, half_way t a)
receive (half_way t a) b = elim (service_run t a b) [
  | synced t' _ ↦ (answer, waiting t')
  | panic _ ↦ (refusal, waiting t)
  | overrun _ ↦ (refusal, waiting t)
]

abbrev sp : Endpoint
sp = record no_endpoint {
  name = 83 ∷ 80 ∷ 49 ∷ 0 ∷ 0 ∷ [];
  id = 0x8001;
  is_valid = 15;
  is_secure = 15;
  uuid = 1 ∷ 2 ∷ 3 ∷ 4 ∷ [];
}

abbrev mine : List Endpoint
mine = no_endpoint ∷ sp ∷ sp ∷ []

-- Two descriptors of 24 bytes, of the endpoints 0x8001 and 0x8002.
abbrev rx : Bytes
rx x =
    if x == 0
    then 1
    else if x == 1
    then 0x80
    else if x == 24
    then 2
    else if x == 25
    then 0x80
    else 0

update_presence-parsed_example :
    ((k : ℕ) × (k < 2)
      × (half_at rx (place_of 24 0 k) ≡ 0x8002)
      × (update_presence false
            (parse_descriptors (λ _. 7) rx 24 2)
            2
            (record no_endpoint { id = 0x8002 })
          ≡ record no_endpoint { id = 0x8002; is_valid = 15 }))
    ⊎ (((k : ℕ) → k < 2 → half_at rx (place_of 24 0 k) ≢ 0x8002)
        × (update_presence false
              (parse_descriptors (λ _. 7) rx 24 2)
              2
              (record no_endpoint { id = 0x8002 })
            ≡ record no_endpoint { id = 0x8002; is_valid = 0 }))
update_presence-parsed_example =
    update_presence-parsed (λ _. 7) rx 24 2 (record no_endpoint { id = 0x8002 }) (omega arith)
      (omega arith)
