-- ===== src/Prodcon/Filled.antt =====
-- What the buffer of Asmt_5/prodcon holds and shows: the items up to `pos`.
use cs.Prelude.{
  ◌+ℤ◌, ◌-ℤ◌, ℕ, zero, suc, ◌+◌, ◌≤◌, ◌<◌, ◌≡◌, refl, ap, ◌∙◌, some, ℤ, pos, pos-sub, pos-add,
  arith, ltb, if◌then◌else◌,
}
use cs.Exec.{done, fault}
use cs.Prodcon.{
  Screen, print_char, print_spaces, draw_empty_buffer, Buffer, access, taken_off, put_on,
  remove_item, insert_item,
}

-- `k` items 'A', at the places 1 to `k`, drawn from the first column on.
pub record Filled (b : Buffer) (k : ℕ) : Type 0 where
  pub at_count : b.at_pos ≡ pos k
  pub stored : (i : ℕ) → 1 ≤ i → i ≤ k → b.buffer i ≡ some b'A'
  pub cursor_at : b.screen.cursor ≡ k
  pub drawn : (i : ℕ) → i < k → b.screen.shown i ≡ b'A'
  pub blank : (i : ℕ) → k ≤ i → i < b.bufferlen → b.screen.shown i ≡ b' '

cursor-print_spaces : (n : ℕ) (s : Screen) → (print_spaces n s).cursor ≡ s.cursor + n
cursor-print_spaces zero s = omega arith
cursor-print_spaces (suc n) s = omega (arith, cursor-print_spaces n (print_char b' ' s))

shown-print_spaces :
    (n : ℕ) (s : Screen) (i : ℕ)
    → (print_spaces n s).shown i
      ≡ (if ltb i s.cursor then s.shown i else if ltb i (s.cursor + n) then b' ' else s.shown i)
shown-print_spaces zero s i = ground arith
shown-print_spaces (suc n) s i = ground (arith, shown-print_spaces n (print_char b' ' s) i)

pub draw_empty_buffer-blank :
    (n : ℕ) (row : ℕ → ℕ) (i : ℕ)
    → i < n
    → (draw_empty_buffer n (record { shown = row; cursor = 0 })).shown i ≡ b' '
unfolding draw_empty_buffer
draw_empty_buffer-blank n row i below =
    ground (arith, shown-print_spaces n (record { shown = row; cursor = 0 }) i)

pub draw_empty_buffer-cursor :
    (n : ℕ) (row : ℕ → ℕ) → (draw_empty_buffer n (record { shown = row; cursor = 0 })).cursor ≡ 0
unfolding draw_empty_buffer
draw_empty_buffer-cursor n row =
    omega (arith, cursor-print_spaces n (record { shown = row; cursor = 0 }))

-- An access at a place of the buffer.
access-inside {ℓ} :
    {A : Type ℓ} (b : Buffer) (z : ℤ) (i : ℕ) (f : ℕ → A)
    → z ≡ pos i
    → access b z f ≡ (if ltb i b.bufferlen then done (f i) else fault)
access-inside b z i f e = ap (λ z. access b z f) e

module _ (b : Buffer) (k : ℕ) (filled : Filled b k) where
  next : b.at_pos +ℤ pos 1 ≡ pos (k + 1)
  next = ap (λ z. z +ℤ pos 1) filled.at_count ∙ pos-add k 1

  pub insert_item-inside :
      k + 1 < b.bufferlen
      → (b' : Buffer) × (insert_item b'A' b ≡ done b')
        × (b'.bufferlen ≡ b.bufferlen)
        × Filled b' (k + 1)
  unfolding insert_item
  insert_item-inside room = (
    put_on b'A' b (k + 1),
    access-inside b (b.at_pos +ℤ pos 1) (k + 1) (put_on b'A' b) next ∙ ground arith,
    refl,
    record {
      at_count = next;
      stored = λ i low high. ground (arith, filled.stored i low);
      cursor_at = omega (arith, filled.cursor_at);
      drawn = λ i below. ground (arith, filled.drawn i, filled.cursor_at);
      blank = λ i low below. ground (arith, filled.blank i, filled.cursor_at);
    },
  )

  -- The place behind the last one.
  pub insert_item-outside : b.bufferlen ≤ k + 1 → insert_item b'A' b ≡ fault
  unfolding insert_item
  insert_item-outside full = access-inside b (b.at_pos +ℤ pos 1) (k + 1) _ next ∙ ground arith

-- The last item is read, and drawn over.
pub remove_item-last :
    (b : Buffer) (k : ℕ)
    → Filled b (suc k)
    → suc k < b.bufferlen
    → (b' : Buffer) × (remove_item b ≡ done (some b'A', b'))
      × (b'.bufferlen ≡ b.bufferlen)
      × Filled b' k
unfolding remove_item
remove_item-last b k filled room = (
  taken_off b,
  access-inside b b.at_pos (suc k) _ filled.at_count
      ∙ ground (arith, filled.stored (suc k) (omega arith) (omega arith)),
  refl,
  record {
    at_count =
        ap (λ z. z -ℤ pos 1) filled.at_count
        ∙ pos-sub {a = suc k} {b = 1} (omega arith)
        ∙ ap pos (omega arith);
    stored = λ i low high. filled.stored i low (omega arith);
    cursor_at = ground (arith, filled.cursor_at);
    drawn = λ i below. ground (arith, filled.drawn i, filled.cursor_at);
    blank = λ i low below. ground (arith, filled.blank i, filled.cursor_at);
  },
)
