-- ===== src/Recover/Search.antt =====
-- `find_inode` of Asmt_6/recover.c: the scan for an owner and a group.
pub mod Laws
use cs.Prelude.{
  ℕ, zero, suc, ◌+◌, ◌-◌, ◌*◌, ◌/◌, ◌≤◌, ◌<◌, ◌≡◌, none, some, leb, if◌then◌else◌, ℤ, eqb_ℤ,
}
use cs.Recover.Image.{Image, int_size, load_int, int_at}

-- A returned pointer, `NULL`, a read outside of the mapping, or fuel that ran out.
pub data Found : Type 0 where
  found : ℕ → Found
  not_found : Found
  segv : Found
  no_fuel : Found

module _ (m : Image) (end_ptr : ℕ) (uid gid : ℤ) where
  -- The body of the `while` loop, with what follows if the word does not fit. `search_ptr[1]` is
  -- read only if `search_ptr[0]` fits.
  unfoldable pub try_word : ℕ → Found → Found
  try_word search_ptr rest = elim (load_int m search_ptr) [
    | none ↦ segv
    | some x ↦
        if eqb_ℤ x uid
        then elim (load_int m (search_ptr + int_size)) [
          | none ↦ segv
          | some y ↦ if eqb_ℤ y gid then found (search_ptr - 2 * int_size) else rest
        ]
        else rest
  ]

  -- The `while` loop.
  unfoldable pub find_loop : ℕ → ℕ → Found
  find_loop zero search_ptr = no_fuel
  find_loop (suc fuel) search_ptr =
      let rest = find_loop fuel (search_ptr + int_size) in
      if leb search_ptr (end_ptr - int_size) then try_word search_ptr rest else not_found

-- A round for each word, and one for the test that ends the loop.
abbrev pub find_fuel : ℕ → ℕ → ℕ
find_fuel start_ptr end_ptr = (end_ptr - start_ptr) / int_size + 1

unfoldable pub find_inode : Image → ℕ → ℕ → ℤ → ℤ → Found
find_inode m start_ptr end_ptr uid gid =
    find_loop m end_ptr uid gid (find_fuel start_ptr end_ptr) start_ptr

-- The words number `i` and `i + 1` of the image are the owner and the group.
abbrev pub Hit : Image → ℤ → ℤ → ℕ → Type 0
Hit m uid gid i = (int_at m (4 * i) ≡ uid) × (int_at m (4 * i + 4) ≡ gid)
