-- ===== src/Recover/Image/Laws.antt =====
-- The loads of `Recover.Image` inside and outside of the mapping.
use cs.Prelude.{
  ℕ, zero, suc, ◌+◌, ◌-◌, ◌%◌, ◌≤◌, ◌<◌, ◌≡◌, refl, none, some, arith, ap, length, take, min,
}
use cs.Recover.Image.{Image, byte_at, load_byte, load_bytes, load_int, slice, int_at}

-- What `mmap` promises: whole pages at a page boundary, none of them at address 0.
pub record IsMapping (m : Image) : Type 0 where
  pub above : 4096 ≤ m.base
  pub aligned : m.base % 4096 ≡ 0
  pub whole : (m.size + m.slack) % 4096 ≡ 0
  pub partial : m.slack < 4096

module _ (m : Image) where
  load_byte-some : (o : ℕ) → o < m.size + m.slack → load_byte m (m.base + o) ≡ some (byte_at m o)
  unfolding load_byte
  load_byte-some o h = let e : m.base + o - m.base ≡ o = omega arith in rw e (ground arith)

  load_byte-none : (o : ℕ) → m.size + m.slack ≤ o → load_byte m (m.base + o) ≡ none
  unfolding load_byte
  load_byte-none o h = ground arith

  load_byte_at :
      (a o : ℕ) → a ≡ m.base + o → o < m.size + m.slack → load_byte m a ≡ some (byte_at m o)
  load_byte_at a o e h = rw e (load_byte-some o h)

  -- An `int` load inside of the mapping.
  pub load_int-some :
      (o : ℕ) → o + 4 ≤ m.size + m.slack → load_int m (m.base + o) ≡ some (int_at m o)
  unfolding load_int int_at
  load_int-some o h = rw (
    load_int,
    load_byte-some o (omega arith),
    load_byte_at (m.base + o + 1) (o + 1) (omega arith) (omega arith),
    load_byte_at (m.base + o + 2) (o + 2) (omega arith) (omega arith),
    load_byte_at (m.base + o + 3) (o + 3) (omega arith) (omega arith),
  )

  -- An `int` load behind the mapping.
  pub load_int-none : (o : ℕ) → m.size + m.slack ≤ o → load_int m (m.base + o) ≡ none
  unfolding load_int
  load_int-none o h = rw (load_int, load_byte-none o h)

  pub load_bytes-slice :
      (n a o : ℕ)
      → a ≡ m.base + o
      → o + n ≤ m.size + m.slack
      → load_bytes m a n ≡ some (slice m o n)
  unfolding load_bytes slice
  load_bytes-slice zero a o e h = refl
  load_bytes-slice (suc n) a o e h = rw (
    load_bytes,
    load_byte_at a o e (omega arith),
    load_bytes-slice n (a + 1) (o + 1) (omega arith) (omega arith),
  )

  pub length-slice : (o n : ℕ) → length (slice m o n) ≡ n
  unfolding slice
  length-slice o zero = refl
  length-slice o (suc n) = ap suc (length-slice (o + 1) n)

  pub take-slice : (k o n : ℕ) → take k (slice m o n) ≡ slice m o (min k n)
  unfolding slice
  take-slice zero o n = let e : min 0 n ≡ 0 = omega arith in rw e
  take-slice (suc k) o zero = let e : min (suc k) 0 ≡ 0 = omega arith in rw e
  take-slice (suc k) o (suc n) =
      let e : min (suc k) (suc n) ≡ suc (min k n) = omega arith in rw (e, take-slice k (o + 1) n)
