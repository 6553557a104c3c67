-- ===== src/Endpoints/Relay.antt =====
-- The hand-over of the endpoint table, both sides of Endpoints/Sync put together.
use ff_a_acs.Base.{ℕ, ◌<◌, ◌≡◌, ◌≢◌, refl, List}
use ff_a_acs.Ffa.{Args, error_32, direct_req_32, receiver_id}
use ff_a_acs.Ffa.Messages.{ffa_msg_send_direct_req_32}
use ff_a_acs.Ffa.Messages.{ffa_msg_send_direct_req}
use ff_a_acs.Ffa.Call.{call_64, ffa_smccc}
use ff_a_acs.Endpoints.{Endpoint}
use ff_a_acs.Endpoints.Sync.{
  first_half, second_half, sync_frame, Synced, synced, sync_ep_info_service,
}

-- The frame as the firmware hands it to the receiver.
unfoldable pub delivered : Args → Args
delivered a = record a { fid = direct_req_32 }

-- The receiver's side of a pair of requests: the first starts the service, which sends its answer
-- and gets the second for it.
unfoldable pub service_run : List Endpoint → (first second : Args) → Synced (Unit {0})
service_run table first second = sync_ep_info_service (λ w a. (second, w)) table first tt

is_request : (f : Args) → (delivered f).fid ≡ direct_req_32
unfolding delivered
is_request f = refl

-- The firmware and the receiver `id` behind it: between the pairs of requests the receiver waits; a
-- pair of requests to it on which its service ends well is answered, and leaves its table as the
-- service does. Of requests to other receivers nothing is said.
pub record Delivers {W : Type 0} (conduit : W → Args → Args × W) (table : W → List Endpoint)
    (waits : W → Type 0) (id : ℕ) : Type 0 where
  pub id16 : id < 65536
  pub pair :
      (w : W) (a b : Args) (t : List Endpoint)
      → waits w
      → a.fid ≡ direct_req_32
      → b.fid ≡ direct_req_32
      → receiver_id a.arg1 ≡ id
      → receiver_id b.arg1 ≡ id
      → service_run (table w) a b ≡ synced t tt
      → ((conduit w a).0.fid ≢ error_32)
        × ((conduit (conduit w a).1 b).0.fid ≢ error_32)
        × (table (conduit (conduit w a).1 b).1 ≡ t)
        × waits (conduit (conduit w a).1 b).1

module _ {W : Type 0} (conduit : W → Args → Args × W) (table : W → List Endpoint)
    (waits : W → Type 0) (id : ℕ) (firmware : Delivers conduit table waits id) where
  sent :
      (w : W) (sender to j : ℕ) (e : Endpoint)
      → (ffa_msg_send_direct_req_32 conduit w (sync_frame sender to j (first_half e))
          ≡ conduit w (delivered (sync_frame sender to j (first_half e))))
        × (ffa_msg_send_direct_req_32 conduit w (sync_frame sender to j (second_half e))
            ≡ conduit w (delivered (sync_frame sender to j (second_half e))))
  unfolding delivered sync_frame ffa_msg_send_direct_req_32 ffa_msg_send_direct_req call_64
      ffa_smccc
  sent w sender to j e = (refl, refl)
