-- ===== src/Recover/Image.antt =====
-- The memory-mapped data file of Asmt_6/recover.c: bytes at addresses, and the `int`s they form.
pub mod Laws
use cs.Prelude.{
  ℕ, zero, suc, ◌+◌, ◌-◌, ◌*◌, ◌/◌, ◌^◌, ◌≤◌, ◌<◌, ◌≡◌, refl, Option, none, some, List, [], ◌∷◌,
  arith, ltb, leb, ◌&&◌, if◌then◌else◌, ℤ, to_int,
}

-- `base` is what `mmap` returned, `size` is `st_size`, `content` the bytes of the file by offset.
-- The system fills the last page behind the file with `slack` zero bytes.
pub record Image : Type 0 where
  pub base : ℕ
  pub size : ℕ
  pub slack : ℕ
  pub content : ℕ → ℕ

abbrev pub block_size : ℕ
block_size = 1024

-- `sizeof (int)`
abbrev pub int_size : ℕ
int_size = 4

-- `data_file_map_end`: one past the last byte of the file.
abbrev pub map_end : Image → ℕ
map_end m = m.base + m.size

-- `max_block_number`
abbrev pub max_block_number : Image → ℕ
max_block_number m = m.size / block_size

-- The byte at an offset into the mapping, the zero filling of the last page included.
unfoldable pub byte_at : Image → ℕ → ℕ
byte_at m i = if ltb i m.size then m.content i else 0

-- `none` is a fault: the address is not mapped.
unfoldable pub load_byte : Image → ℕ → Option ℕ
load_byte m a =
    if leb m.base a && ltb a (m.base + m.size + m.slack)
    then some (byte_at m (a - m.base))
    else none

-- Loads in sequence: the first fault ends them.
infixl 5 ◌>>=◌
abbrev pub ◌>>=◌ {ℓ κ} : {A : Type ℓ} {B : Type κ} → Option A → (A → Option B) → Option B
none >>= f = none
some a >>= f = f a

-- The `memcpy` of `n` bytes from address `a`.
unfoldable pub load_bytes : Image → ℕ → ℕ → Option (List ℕ)
load_bytes m a zero = some []
load_bytes m a (suc n) = do b ← load_byte m a; bs ← load_bytes m (a + 1) n; some (b ∷ bs)

-- A little-endian `int` from its four bytes.
abbrev pub word : ℕ → ℕ → ℕ → ℕ → ℤ
word a b c d = to_int (a + 256 * b + 65536 * c + 16777216 * d)

-- The bytes of an `int` array as its elements.
unfoldable pub words : List ℕ → List ℤ
words (a ∷ b ∷ c ∷ d ∷ bs) = word a b c d ∷ words bs
words _ = []

-- The value of an `int *` that points at address `a`.
unfoldable pub load_int : Image → ℕ → Option ℤ
load_int m a = do
  b0 ← load_byte m a
  b1 ← load_byte m (a + 1)
  b2 ← load_byte m (a + 2)
  b3 ← load_byte m (a + 3)
  some (word b0 b1 b2 b3)

-- `n` bytes from an offset, with no regard to the end of the mapping.
unfoldable pub slice : Image → ℕ → ℕ → List ℕ
slice m i zero = []
slice m i (suc n) = byte_at m i ∷ slice m (i + 1) n

-- The `int` at an offset.
unfoldable pub int_at : Image → ℕ → ℤ
int_at m i = word (byte_at m i) (byte_at m (i + 1)) (byte_at m (i + 2)) (byte_at m (i + 3))
