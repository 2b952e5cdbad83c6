-- ===== src/Prodcon.antt =====
-- The buffer of Asmt_5/prodcon/prodcon_sem.cpp and prodcon_cv.cpp, and how it is drawn.
pub mod Sem
pub mod Cv
pub mod Filled
use cs.Prelude.{
  ℕ, zero, suc, ◌+◌, ◌-◌, Option, none, some, ℤ, pos, negsuc, ◌+ℤ◌, ◌-ℤ◌, ltb, if◌then◌else◌, put,
}
use cs.Exec.{Exec, done, fault}

-- The terminal's row from the buffer's first column on, and the cursor's column in it.
pub record Screen : Type 0 where
  pub shown : ℕ → ℕ
  pub cursor : ℕ

-- Print one character.
abbrev pub print_char : ℕ → Screen → Screen
print_char c s = record { shown = put s.shown s.cursor c; cursor = s.cursor + 1 }

-- The escape sequence `\E[nD`.
abbrev pub move_back : ℕ → Screen → Screen
move_back n s = record s { cursor = s.cursor - n }

-- The loop of `DrawEmptyBuffer`.
abbrev pub print_spaces : ℕ → Screen → Screen
print_spaces zero s = s
print_spaces (suc n) s = print_spaces n (print_char b' ' s)

unfoldable pub draw_empty_buffer : ℕ → Screen → Screen
draw_empty_buffer bufferlen s = move_back bufferlen (print_spaces bufferlen s)

-- The globals `bufferlen`, `buffer`, `pos`, and the terminal. A place of the buffer is `none` before the
-- first write to it.
pub record Buffer : Type 0 where
  pub bufferlen : ℕ
  pub buffer : ℕ → Option ℕ
  pub at_pos : ℤ
  pub screen : Screen

-- `buffer[i]` as an access: outside of the `bufferlen` bytes it is a fault.
abbrev pub access {ℓ} : {A : Type ℓ} → Buffer → ℤ → (ℕ → A) → Exec A
access b (pos i) f = if ltb i b.bufferlen then done (f i) else fault
access b (negsuc i) f = fault

-- The place at `pos` is given up, and the character drawn last is drawn over.
abbrev pub taken_off : Buffer → Buffer
taken_off b = record b {
  at_pos = b.at_pos -ℤ pos 1;
  screen = move_back 1 (print_char b' ' (move_back 1 b.screen));
}

-- `RemoveItem` between the lock and the unlock of `mutex`.
unfoldable pub remove_item : Buffer → Exec (Option ℕ × Buffer)
remove_item b = access b b.at_pos (λ i. (b.buffer i, taken_off b))

-- `item` is written to place `i`, the next one, and drawn.
abbrev pub put_on : ℕ → Buffer → ℕ → Buffer
put_on item b i = record b {
  buffer = put b.buffer i (some item);
  at_pos = b.at_pos +ℤ pos 1;
  screen = print_char item b.screen;
}

-- `InsertItem` between the lock and the unlock of `mutex`.
unfoldable pub insert_item : ℕ → Buffer → Exec Buffer
insert_item item b = access b (b.at_pos +ℤ pos 1) (put_on item b)
