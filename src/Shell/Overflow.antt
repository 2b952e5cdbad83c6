-- ===== src/Shell/Overflow.antt =====
-- Lines of Asmt_2/shell.c that go wrong: the end of the input, and a long line after a longer one.
use native.Mathlib.Decide.{ℕ_discrete}
use cs.Prelude.{
  ℕ, zero, suc, ◌+◌, ◌-◌, ◌^◌, ◌%◌, ◌≤◌, ◌<◌, ◌≡◌, refl, ◌∙◌, Bool, true, false, Option, none, some,
  List, [], ◌∷◌, ◌++◌, ◌==◌, ltb, length, length-append, length-set, length-take, length-replicate,
  set, take, replicate, All, arith,
}
use cs.Exec.{done, fault, out_of_fuel, ◌>>=◌}
use cs.Shell.{Cells, Input, base_size, getchar, make_room, read_loop, reset_input}
use cs.Shell.Reading.{Inside, buffer_of, read_loop-step}

-- Behind a full buffer whose size is thought to be larger.
read_loop-behind :
    (can_grow : ℕ → Bool) (fuel in_char pos size : ℕ) (cells : Cells) (line rest : List ℕ)
    → Inside in_char
    → All Inside line
    → pos ≤ length cells
    → length cells < size
    → size < 2 ^ 32
    → length cells < pos + length line
    → length line ≤ fuel
    → read_loop can_grow fuel in_char pos (buffer_of cells size) (line ++ rest) ≡ fault
unfolding read_loop make_room
read_loop-behind can_grow fuel in_char pos size cells [] rest inside all at larger small long
      enough =
    absurd (omega arith)
read_loop-behind can_grow zero in_char pos size cells (c ∷ line) rest inside all at larger small
      long enough =
    absurd (omega arith)
read_loop-behind can_grow (suc fuel) in_char pos size cells (c ∷ line) rest inside all at larger
      small long enough =
    let spare : (pos == size) ≡ false = ground arith in
    elim (ℕ_discrete pos (length cells)) [
      | yes full ↦
          let behind : ltb pos (length cells) ≡ false = ground (arith, full) in
          rw (read_loop, inside, make_room, spare, behind) refl
      | no other ↦
          let fits : ltb pos (length cells) ≡ true = ground (arith, other) in
          let cells' = set cells pos (some c) in
          let same : length cells' ≡ length cells = length-set cells pos (some c) in
          read_loop-step can_grow fuel in_char pos (buffer_of cells size) cells' c (line ++ rest)
            inside spare (omega arith) (rw fits refl)
          ∙ read_loop-behind can_grow fuel c (pos + 1) size cells' line rest all.0 all.1
              (omega (arith, other, same)) (omega (arith, same)) small (omega (arith, same))
              (omega arith)
    ]

-- If a line has made buf_size larger than 80, and realloc grants the 80 bytes of the next buffer,
-- then a next line of more than 80 characters is written behind the end of that buffer.
pub reset_input-overflow :
    (can_grow : ℕ → Bool) (b : Input) (line rest : List ℕ)
    → can_grow base_size ≡ true
    → base_size < b.buf_size
    → b.buf_size < 2 ^ 32
    → All Inside line
    → base_size < length line
    → (do
      b ← reset_input can_grow b
      read_loop can_grow (suc (length (line ++ rest))) 0 0 b (line ++ rest))
      ≡ fault
unfolding reset_input
reset_input-overflow can_grow b line rest granted larger small all long =
    rw (reset_input, granted)
      (read_loop-behind can_grow (suc (length (line ++ rest))) 0 0 b.buf_size
        (replicate base_size (some 0)) line rest refl all (omega arith)
        (omega (arith, length-replicate {A = Option ℕ} base_size (some 0))) small
        (omega (arith, length-replicate {A = Option ℕ} base_size (some 0)))
        (omega (arith, length-append line rest)))

-- The next character of a text without the end of a line.
getchar-Inside :
    (text : List ℕ) → All Inside text → Inside (getchar text).0 × All Inside (getchar text).1
getchar-Inside [] all = (refl, tt)
getchar-Inside (c ∷ text) all = (all.0, all.1)

-- Room for one more character.
make_room-granted :
    (can_grow : ℕ → Bool) (pos : ℕ) (b : Input)
    → ((size : ℕ) → can_grow size ≡ true)
    → length b.cells ≡ b.buf_size
    → pos ≤ b.buf_size
    → b.buf_size ≤ pos + 80
    → pos + 120 < 2 ^ 32
    → (b' : Input) × (make_room can_grow pos b ≡ done b')
      × (length b'.cells ≡ b'.buf_size)
      × (pos < b'.buf_size)
      × (b'.buf_size ≤ pos + 80)
unfolding make_room
make_room-granted can_grow pos b granted size at near small = elim (ℕ_discrete pos b.buf_size) [
  | yes full ↦
      let on : (pos == b.buf_size) ≡ true = ground (arith, full) in
      let n = (b.buf_size + 40) % 2 ^ 32 in
      let grown : n ≡ b.buf_size + 40 = omega (arith, near, small) in
      let more = take n b.cells ++ replicate (n - length b.cells) none in
      (
        buffer_of more n,
        rw (make_room, on, granted n) refl,
        omega (
          arith,
          length-append (take n b.cells) (replicate (n - length b.cells) none),
          length-take n b.cells,
          length-replicate {A = Option ℕ} (n - length b.cells) none,
          grown,
          size,
        ),
        omega (arith, grown, full),
        omega (arith, grown, full),
      )
  | no other ↦
      let off : (pos == b.buf_size) ≡ false = ground (arith, other) in
      (b, rw (make_room, off) refl, size, omega (arith, other), near)
]

-- If realloc grants every size, and what is left of the input has no end of a line, then the loop
-- that reads a line does not end: after any number of rounds below 2 ^ 32 - 120 less the place it
-- stands at it still reads, if the buffer has buf_size bytes and that is not less than the place,
-- nor more than 80 larger.
pub read_loop-endless :
    (can_grow : ℕ → Bool) (fuel in_char pos : ℕ) (b : Input) (text : List ℕ)
    → ((size : ℕ) → can_grow size ≡ true)
    → Inside in_char
    → All Inside text
    → length b.cells ≡ b.buf_size
    → pos ≤ b.buf_size
    → b.buf_size ≤ pos + 80
    → pos + fuel + 120 < 2 ^ 32
    → read_loop can_grow fuel in_char pos b text ≡ out_of_fuel
unfolding read_loop
read_loop-endless can_grow zero in_char pos b text granted inside all size at near small =
    rw (read_loop, inside) refl
read_loop-endless can_grow (suc fuel) in_char pos b text granted inside all size at near small =
    let (b', room, size', fits, near') =
      make_room-granted can_grow pos b granted size at near (omega arith) in
    let c = (getchar text).0 in
    let (inside', all') = getchar-Inside text all in
    let stored : ltb pos (length b'.cells) ≡ true = ground (arith, size', fits) in
    let cells = set b'.cells pos (some c) in
    let next : (pos + 1) % 2 ^ 32 ≡ pos + 1 = omega (arith, small) in
    rw (read_loop, inside, room, stored, next)
      (read_loop-endless can_grow fuel c (pos + 1) (buffer_of cells b'.buf_size) (getchar text).1
        granted inside' all' (length-set b'.cells pos (some c) ∙ size') (omega arith) (omega arith)
        (omega arith))
