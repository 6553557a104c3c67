-- ===== src/Malloc/Fields.antt =====
-- What the writes of header fields change.
use ff_a_acs.Base.{ℕ, ◌≡◌, ◌≢◌, arith}
use ff_a_acs.Malloc.{
  Block, Store, write, set_free, set_magic, set_size, set_next, set_prev, set_prev_if,
}

module _ (m : Store) (a : ℕ) where
  pub write_self : (b : Block) → write m a b a ≡ b
  unfolding write
  write_self b = ground arith

  pub write_ne : (b : Block) (x : ℕ) → x ≢ a → write m a b x ≡ m x
  unfolding write
  write_ne b x h = ground arith

  pub set_free_self : (v : ℕ) → set_free m a v a ≡ record (m a) { free = v }
  unfolding set_free
  set_free_self v = ground arith

  pub set_free_ne : (v x : ℕ) → x ≢ a → set_free m a v x ≡ m x
  unfolding set_free
  set_free_ne v x h = ground arith

  pub set_magic_self : (v : ℕ) → set_magic m a v a ≡ record (m a) { magic = v }
  unfolding set_magic
  set_magic_self v = ground arith

  pub set_magic_ne : (v x : ℕ) → x ≢ a → set_magic m a v x ≡ m x
  unfolding set_magic
  set_magic_ne v x h = ground arith

  pub set_size_self : (v : ℕ) → set_size m a v a ≡ record (m a) { size = v }
  unfolding set_size
  set_size_self v = ground arith

  pub set_size_ne : (v x : ℕ) → x ≢ a → set_size m a v x ≡ m x
  unfolding set_size
  set_size_ne v x h = ground arith

  pub set_next_self : (v : ℕ) → set_next m a v a ≡ record (m a) { next = v }
  unfolding set_next
  set_next_self v = ground arith

  pub set_next_ne : (v x : ℕ) → x ≢ a → set_next m a v x ≡ m x
  unfolding set_next
  set_next_ne v x h = ground arith

  pub set_prev_self : (v : ℕ) → set_prev m a v a ≡ record (m a) { prev = v }
  unfolding set_prev
  set_prev_self v = ground arith

  pub set_prev_ne : (v x : ℕ) → x ≢ a → set_prev m a v x ≡ m x
  unfolding set_prev
  set_prev_ne v x h = ground arith

  pub set_prev_if_self : (v : ℕ) → a ≢ 0 → set_prev_if m a v a ≡ record (m a) { prev = v }
  unfolding set_prev_if
  set_prev_if_self v h = ground arith

  pub set_prev_if_ne : (v x : ℕ) → x ≢ a → set_prev_if m a v x ≡ m x
  unfolding set_prev_if
  set_prev_if_ne v x h = ground arith
