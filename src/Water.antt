-- ===== src/Water.antt =====
-- The atoms of Asmt_5/h2o/h2o_sem.cpp: how many threads stand before which call.
pub mod Balance
mod Examples
use cs.Prelude.{ℕ, zero, suc, ◌+◌, ◌%◌, ◌≡◌, Bool, true, false, ◌==◌, if◌then◌else◌}

-- The semaphores, `num_h`, the threads by the call that they make next, and how many have printed `Water`.
-- `h_first` and `h_second` are the two kinds of H.
pub record Atoms : Type 0 where
  pub num_h : ℕ
  pub o_avail : ℕ
  pub h2_avail : ℕ
  pub h_both_avail : ℕ
  pub h_first_waits : ℕ
  pub h_first_prints : ℕ
  pub h_second_waits : ℕ
  pub h_second_posts_h2 : ℕ
  pub h_second_posts_both : ℕ
  pub h_second_prints : ℕ
  pub o_posts : ℕ
  pub o_waits : ℕ
  pub o_prints : ℕ
  pub water_first : ℕ
  pub water_second : ℕ
  pub water_o : ℕ
  pub created_o : ℕ

-- `H` up to its first call on a semaphore: an even `num_h` makes a first H.
unfoldable pub create_h : Atoms → Atoms
create_h s =
    if s.num_h % 2 == 0
    then record s { num_h = suc s.num_h; h_first_waits = suc s.h_first_waits }
    else record s { num_h = suc s.num_h; h_second_waits = suc s.h_second_waits }

-- `O` up to its first call on a semaphore.
unfoldable pub create_o : Atoms → Atoms
create_o s = record s { created_o = suc s.created_o; o_posts = suc s.o_posts }

-- `CreateAtom`; `rand` decides.
unfoldable pub create_atom : Bool → Atoms → Atoms
create_atom is_h s = if is_h then create_h s else create_o s

-- The next call of a thread; `n` threads of its kind stand there besides.
pub data Moves (s : Atoms) : Atoms → Type 0 where
  first_waits :
      {n k : ℕ}
      → s.h_first_waits ≡ suc n
      → s.h2_avail ≡ suc k
      → Moves s
          (record s { h_first_waits = n; h2_avail = k; h_first_prints = suc s.h_first_prints })
  first_prints :
      {n : ℕ}
      → s.h_first_prints ≡ suc n
      → Moves s (record s { h_first_prints = n; water_first = suc s.water_first })
  second_waits :
      {n k : ℕ}
      → s.h_second_waits ≡ suc n
      → s.o_avail ≡ suc k
      → Moves s (record s {
        h_second_waits = n;
        o_avail = k;
        h_second_posts_h2 = suc s.h_second_posts_h2;
      })
  second_posts_h2 :
      {n : ℕ}
      → s.h_second_posts_h2 ≡ suc n
      → Moves s (record s {
        h_second_posts_h2 = n;
        h2_avail = suc s.h2_avail;
        h_second_posts_both = suc s.h_second_posts_both;
      })
  second_posts_both :
      {n : ℕ}
      → s.h_second_posts_both ≡ suc n
      → Moves s (record s {
        h_second_posts_both = n;
        h_both_avail = suc s.h_both_avail;
        h_second_prints = suc s.h_second_prints;
      })
  second_prints :
      {n : ℕ}
      → s.h_second_prints ≡ suc n
      → Moves s (record s { h_second_prints = n; water_second = suc s.water_second })
  posts_o :
      {n : ℕ}
      → s.o_posts ≡ suc n
      → Moves s (record s { o_posts = n; o_avail = suc s.o_avail; o_waits = suc s.o_waits })
  waits_o :
      {n k : ℕ}
      → s.o_waits ≡ suc n
      → s.h_both_avail ≡ suc k
      → Moves s (record s { o_waits = n; h_both_avail = k; o_prints = suc s.o_prints })
  prints_o :
      {n : ℕ} → s.o_prints ≡ suc n → Moves s (record s { o_prints = n; water_o = suc s.water_o })

pub data Step (s : Atoms) : Atoms → Type 0 where
  creates : (is_h : Bool) → Step s (create_atom is_h s)
  moves : {s' : Atoms} → Moves s s' → Step s s'

-- `main` before it creates an atom.
abbrev pub no_atoms : Atoms
no_atoms = record {
  num_h = 0;
  o_avail = 0;
  h2_avail = 0;
  h_both_avail = 0;
  h_first_waits = 0;
  h_first_prints = 0;
  h_second_waits = 0;
  h_second_posts_h2 = 0;
  h_second_posts_both = 0;
  h_second_prints = 0;
  o_posts = 0;
  o_waits = 0;
  o_prints = 0;
  water_first = 0;
  water_second = 0;
  water_o = 0;
  created_o = 0;
}

pub data Reachable : Atoms → Type 0 where
  starts : Reachable no_atoms
  steps : {s s' : Atoms} → Reachable s → Step s s' → Reachable s'
