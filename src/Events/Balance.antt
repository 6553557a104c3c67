-- ===== src/Events/Balance.antt =====
-- No event is lost and none is received twice, in any interleaving.
use ff_a_acs.Base.{
  ℕ, ◌+◌, ◌%◌, ◌^◌, ◌≡◌, ◌≢◌, ◌⊎◌, inl, inr, Bool, true, false, ◌==◌, arith, refl, Bool-cases,
}
use ff_a_acs.Events.{
  Event, Pc, idle, send_lock, send_load, send_store, send_unlock, wait_poll, wait_lock, wait_check,
  wait_store, wait_unlock, Move, send, send_locked, send_loaded, send_stored, send_unlocked, wait,
  nothing, something, wait_locked, stolen, present, wait_stored, wait_unlocked, System, set_pc,
  step, quiet, init_event, Reach, start, later,
}

-- Between taking the lock and giving it back.
abbrev pub inside : Pc → Bool
inside (send_load inc) = true
inside (send_store inc v) = true
inside send_unlock = true
inside wait_check = true
inside (wait_store v) = true
inside (wait_unlock done) = true
inside _ = false

-- The value that was loaded is still the counter.
abbrev pub Agrees : Event → Pc → Type 0
Agrees e (send_store inc v) = v ≡ e.cnt
Agrees e (wait_store v) = (v ≡ e.cnt) × (v ≢ 0)
Agrees e _ = Unit

abbrev pub Balanced : Event → Type 0
Balanced e = (e.cnt + e.received) % 2 ^ 32 ≡ e.sent % 2 ^ 32

pub record IsSound (s : System) : Type 0 where
  pub exclusive : (i j : ℕ) → inside (s.pc i) ≡ true → inside (s.pc j) ≡ true → i ≡ j
  pub locked : (i : ℕ) → inside (s.pc i) ≡ true → s.event.lock ≡ 1
  pub agrees : (i : ℕ) → Agrees s.event (s.pc i)
  pub balanced : Balanced s.event

-- What a step does to the lock and to the counter.
abbrev Kind : Event → Pc → Event → Pc → Type 0
Kind e p f q =
    ((inside p ≡ false) × (inside q ≡ true) × (e.lock ≡ 0) × (f.lock ≡ 1) × (f.cnt ≡ e.cnt))
    ⊎ ((inside p ≡ true) × (inside q ≡ true) × (f.lock ≡ e.lock))
    ⊎ ((inside p ≡ true) × (inside q ≡ false) × (f.cnt ≡ e.cnt))
    ⊎ ((inside p ≡ false) × (inside q ≡ false) × (f.lock ≡ e.lock) × (f.cnt ≡ e.cnt))

Move-Kind : {e f : Event} {p q : Pc} → Move e p f q → Kind e p f q
Move-Kind (send inc) = ground arith
Move-Kind (send_locked h) = ground arith
Move-Kind send_loaded = ground arith
Move-Kind send_stored = ground arith
Move-Kind send_unlocked = ground arith
Move-Kind wait = ground arith
Move-Kind (nothing h) = ground arith
Move-Kind (something h) = ground arith
Move-Kind (wait_locked h) = ground arith
Move-Kind (stolen h) = ground arith
Move-Kind (present h) = ground arith
Move-Kind wait_stored = ground arith
Move-Kind (wait_unlocked {done = true}) = ground arith
Move-Kind (wait_unlocked {done = false}) = ground arith

-- The processor that steps still agrees with the counter, and keeps the balance.
Move-Balanced :
    {e f : Event} {p q : Pc} → Move e p f q → Agrees e p → Balanced e → Agrees f q × Balanced f
Move-Balanced (send inc) a b = (tt, b)
Move-Balanced (send_locked h) a b = (tt, b)
Move-Balanced send_loaded a b = (refl, b)
Move-Balanced send_stored a b = (tt, omega arith)
Move-Balanced send_unlocked a b = (tt, b)
Move-Balanced wait a b = (tt, b)
Move-Balanced (nothing h) a b = (tt, b)
Move-Balanced (something h) a b = (tt, b)
Move-Balanced (wait_locked h) a b = (tt, b)
Move-Balanced (stolen h) a b = (tt, b)
Move-Balanced (present h) a b = ((refl, h), b)
Move-Balanced wait_stored a b = (tt, ground arith)
Move-Balanced (wait_unlocked {done = true}) a b = (tt, b)
Move-Balanced (wait_unlocked {done = false}) a b = (tt, b)

Agrees-same : (e f : Event) (p : Pc) → f.cnt ≡ e.cnt → Agrees e p → Agrees f p
Agrees-same e f idle h a = tt
Agrees-same e f (send_lock inc) h a = tt
Agrees-same e f (send_load inc) h a = tt
Agrees-same e f (send_store inc v) h a = omega arith
Agrees-same e f send_unlock h a = tt
Agrees-same e f wait_poll h a = tt
Agrees-same e f wait_lock h a = tt
Agrees-same e f wait_check h a = tt
Agrees-same e f (wait_store v) h a = omega arith
Agrees-same e f (wait_unlock done) h a = tt

Agrees-outside : (f : Event) (p : Pc) → inside p ≡ false → Agrees f p
Agrees-outside f idle h = tt
Agrees-outside f (send_lock inc) h = tt
Agrees-outside f (send_load inc) h = tt
Agrees-outside f (send_store inc v) h = ground arith
Agrees-outside f send_unlock h = tt
Agrees-outside f wait_poll h = tt
Agrees-outside f wait_lock h = tt
Agrees-outside f wait_check h = tt
Agrees-outside f (wait_store v) h = ground arith
Agrees-outside f (wait_unlock done) h = tt

set_pc-same : (pc : ℕ → Pc) (k : ℕ) (q : Pc) (i : ℕ) → (i == k) ≡ true → set_pc pc k q i ≡ q
unfolding set_pc
set_pc-same pc k q i h = rw h refl

set_pc-other : (pc : ℕ → Pc) (k : ℕ) (q : Pc) (i : ℕ) → (i == k) ≡ false → set_pc pc k q i ≡ pc i
unfolding set_pc
set_pc-other pc k q i h = rw h refl

-- One step of processor `k` from a sound state.
module _ {s : System} {f : Event} {q : Pc} (k : ℕ) (v : IsSound s)
    (m : Move s.event (s.pc k) f q) where
  locked_after : (i : ℕ) → inside (set_pc s.pc k q i) ≡ true → f.lock ≡ 1
  unfolding set_pc
  locked_after i h = ground (arith, Move-Kind m, v.locked i, v.locked k, v.exclusive i k)

  exclusive_after :
      (i j : ℕ) → inside (set_pc s.pc k q i) ≡ true → inside (set_pc s.pc k q j) ≡ true → i ≡ j
  unfolding set_pc
  exclusive_after i j hi hj = ground (
    arith,
    Move-Kind m,
    v.locked i,
    v.locked j,
    v.locked k,
    v.exclusive i j,
    v.exclusive i k,
    v.exclusive k j,
  )

  outside_of : (i : ℕ) → (i == k) ≡ false → inside (s.pc k) ≡ true → inside (s.pc i) ≡ false
  outside_of i n hk = elim (Bool-cases (inside (s.pc i))) [
    | inl hi ↦ ground (arith, v.exclusive i k hi hk)
    | inr hi ↦ hi
  ]

  keeps-Agrees : (i : ℕ) → (i == k) ≡ false → Agrees f (s.pc i)
  keeps-Agrees i n = elim (Move-Kind m) [
    | inl (_, _, _, _, same) ↦ Agrees-same s.event f (s.pc i) same (v.agrees i)
    | inr (inl (hk, _, _)) ↦ Agrees-outside f (s.pc i) (outside_of i n hk)
    | inr (inr (inl (_, _, same))) ↦ Agrees-same s.event f (s.pc i) same (v.agrees i)
    | inr (inr (inr (_, _, _, same))) ↦ Agrees-same s.event f (s.pc i) same (v.agrees i)
  ]

  Move-IsSound : IsSound (record { event = f; pc = set_pc s.pc k q })
  Move-IsSound =
      let (a, b) = Move-Balanced m (v.agrees k) v.balanced in
      record {
        exclusive = exclusive_after;
        locked = locked_after;
        agrees = λ i. elim (Bool-cases (i == k)) [
          | inl e ↦ rw (set_pc-same s.pc k q i e) a
          | inr e ↦ rw (set_pc-other s.pc k q i e) (keeps-Agrees i e)
        ];
        balanced = b;
      }

quiet-IsSound : IsSound quiet
unfolding quiet init_event
quiet-IsSound = record {
  exclusive = λ i j h. ground arith;
  locked = λ i h. ground arith;
  agrees = λ i. tt;
  balanced = refl;
}

-- In every reachable state at most one processor is inside the lock, and modulo 2^32 the counter
-- and the events received make up the events sent.
pub Reach-IsSound : {s : System} → Reach s → IsSound s
Reach-IsSound start = quiet-IsSound
Reach-IsSound (later {i = i} r (step m)) = Move-IsSound i (Reach-IsSound r) m
