-- ===== src/Tpm/Exclusive.antt =====
-- The service among its clients: requests of any endpoint, interleaved with the clients' writes to
-- the CRB window, but for its grant registers, and with whatever the rest of the world does.
use ff_a_acs.Base.{ℕ, ◌+◌, ◌≤◌, ◌<◌, ◌≡◌, ◌⊎◌, arith}
use ff_a_acs.Ffa.{Args}
use ff_a_acs.Tpm.Mmio.{Memory, write8, loc_sts}
use ff_a_acs.Tpm.Mmio.Frame.{read32_same}
use ff_a_acs.Tpm.State.{Platform, Service, init}
use ff_a_acs.Tpm.Handler.{handle_request}
use ff_a_acs.Tpm.Valid.{IsValid, handle_request-IsValid, init-IsValid}
use ff_a_acs.Tpm.Grants.{granted, GrantedTo, handle_request-GrantedTo}

-- The window is ordinary memory, and nothing in the code keeps a client from the grant registers. They
-- are the service's to write: the steps are those of clients whose writes spare them.
abbrev pub Spares : ℕ → Type 0
Spares b = (k : ℕ) → k ≤ 4 → (b < loc_sts k) ⊎ (loc_sts k + 4 ≤ b)

module _ {W : Type 0} (p : Platform W) where
  pub data Step : Service W → Service W → Type 0 where
    request : (s : Service W) (a : Args) → Step s (handle_request p s a).1
    client_write :
        (s : Service W) (b v : ℕ) → Spares b → Step s (record s { mmio = write8 s.mmio b v })
    elsewhere : (s : Service W) (w : W) → Step s (record s { world = w })

  pub data Reach (s : Service W) : Service W → Type 0 where
    here : Reach s s
    next : {t u : Service W} → Reach s t → Step t u → Reach s u

  Step-IsValid : {s t : Service W} → Step s t → IsValid s → IsValid t
  Step-IsValid (request s a) v = handle_request-IsValid p s a v
  Step-IsValid (client_write s b x out) v = omega arith
  Step-IsValid (elsewhere s w) v = omega arith

  -- In every state that is reached from the initial one, whatever memory it starts with, a
  -- notification is outstanding exactly while one request of one kind is saved, and only for a
  -- registered client, and all localities and ids are in range.
  pub Reach-IsValid : (w : W) (m : Memory) {s : Service W} → Reach (init w m) s → IsValid s
  Reach-IsValid w m here = init-IsValid w m
  Reach-IsValid w m (next r st) = Step-IsValid st (Reach-IsValid w m r)

  client_write-granted :
      (m : Memory) (b v k : ℕ) → k ≤ 4 → Spares b → granted (write8 m b v) k ≡ granted m k
  unfolding write8
  client_write-granted m b v k h out =
      let same = read32_same m (write8 m b v) (loc_sts k) in
      rw (
        same (ground (arith, out k h)) (ground (arith, out k h)) (ground (arith, out k h))
          (ground (arith, out k h)))

  Step-GrantedTo :
      {s t : Service W} → Step s t → (k : ℕ) → k ≤ 4 → IsValid s → GrantedTo s k → GrantedTo t k
  Step-GrantedTo (request s a) k h v g = handle_request-GrantedTo p s a k h v g
  Step-GrantedTo (client_write s b x out) k h v g =
      ground (arith, client_write-granted s.mmio b x k h out)
  Step-GrantedTo (elsewhere s w) k h v g = g

  Reach-GrantedTo :
      (w : W) (m : Memory) {s : Service W}
      → ((k : ℕ) → k ≤ 4 → granted m k ≡ 0)
      → Reach (init w m) s
      → (k : ℕ) → k ≤ 4
      → GrantedTo s k
  unfolding init
  Reach-GrantedTo w m clear here k h g = absurd (omega (arith, clear k h))
  Reach-GrantedTo w m clear (next r st) k h g =
      Step-GrantedTo st k h (Reach-IsValid w m r) (Reach-GrantedTo w m clear r k h) g

  -- From a window with no grant bit set, by requests, outside events and client writes that spare the
  -- five registers with the grant bits, two localities are never granted together: in every state that
  -- is reached so, two localities whose grant bits are set are the same one.
  pub one_locality :
      (w : W) (m : Memory) {s : Service W}
      → ((k : ℕ) → k ≤ 4 → granted m k ≡ 0)
      → Reach (init w m) s
      → (j k : ℕ) → j ≤ 4
      → k ≤ 4
      → granted s.mmio j ≡ 1
      → granted s.mmio k ≡ 1
      → j ≡ k
  one_locality w m clear r j k hj hk gj gk =
      omega (arith, Reach-GrantedTo w m clear r j hj gj, Reach-GrantedTo w m clear r k hk gk)
