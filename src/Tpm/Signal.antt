-- ===== src/Tpm/Signal.antt =====
-- What a signal leaves behind, sent or refused, and the locality request that waits for it.
use ff_a_acs.Base.{ℕ, ◌≡◌, true, false, arith}
use ff_a_acs.Tpm.State.{Platform, Service}
use ff_a_acs.Tpm.Service.{signal_notification, apply_locality_request}
use ff_a_acs.Tpm.Handler.{save_locality_request, defer_locality_request}

module _ {W : Type 0} (p : Platform W) where
  signal-sent :
      (s : Service W) (c v : ℕ)
      → (signal_notification p s c v).0 ≡ true
      → (w : W) × (signal_notification p s c v ≡ (true, record s { world = w; outstanding = 1 }))
  unfolding signal_notification
  signal-sent s c v h = ((signal_notification p s c v).1.world, ground arith)

  signal-refused :
      (s : Service W) (c v : ℕ)
      → (signal_notification p s c v).0 ≡ false
      → (w : W) × (signal_notification p s c v ≡ (false, record s { world = w }))
  unfolding signal_notification
  signal-refused s c v h = ((signal_notification p s c v).1.world, ground arith)

  module _ (s : Service W) (l c v : ℕ) where
    abbrev saved : Service W
    saved = save_locality_request s l

    pub defer_locality-sent :
        (signal_notification p saved c v).0 ≡ true
        → (w : W) × (defer_locality_request p s l c v ≡ record saved { world = w; outstanding = 1 })
    unfolding defer_locality_request
    defer_locality-sent h = let (w, e) = signal-sent saved c v h in (w, rw e)

    pub defer_locality-refused_eq :
        (signal_notification p saved c v).0 ≡ false
        → (w : W) × (defer_locality_request p s l c v
            ≡ record (apply_locality_request
                (record saved { world = w; pending_locality_valid = 0 })
                l
                saved.pending_locality_ctrl) { pending_locality_ctrl = 0 })
    unfolding defer_locality_request
    defer_locality-refused_eq h = let (w, e) = signal-refused saved c v h in (w, rw e)
