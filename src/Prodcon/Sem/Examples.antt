-- ===== src/Prodcon/Sem/Examples.antt =====
-- A run of Asmt_5/prodcon/prodcon_sem.cpp with a buffer of two places: one item, which the consumer is
-- about to read.
use cs.Prelude.{ℕ, refl, some, none, ◌+ℤ◌, arith}
use cs.Exec.{Exec, fault}
use cs.Prodcon.{put_on, insert_item}
use cs.Prodcon.Filled.{Filled}
use cs.Prodcon.Sem.{
  waits_to_write, locks_to_write, inserts, unlocks_written, posts_read, locks_to_read, removes,
  the_producer, the_consumer, Shop, produce, consume, Step, produces, consumes, opened, Reachable,
  starts, steps,
}
use cs.Prodcon.Sem.Progress.{Reachable-moves}
use cs.Prodcon.Sem.Overrun.{overrun}

abbrev empty_row : ℕ → ℕ
empty_row column = b' '

abbrev first : Shop
first = opened 2 empty_row

abbrev claimed_one : Shop
claimed_one = record first { producer = locks_to_write; can_write = 1 }

abbrev inside_one : Shop
inside_one = record claimed_one { producer = inserts; mutex = some the_producer }

abbrev stored_one : Shop
stored_one = record inside_one { producer = unlocks_written; items = put_on b'A' first.items 1 }

abbrev announced : Shop
announced = record stored_one { producer = waits_to_write; mutex = none; can_read = 1 }

abbrev reading : Shop
reading = record announced { consumer = removes; can_read = 0; mutex = some the_consumer }

announced-Reachable : Reachable 2 empty_row announced
unfolding produce insert_item ◌+ℤ◌
announced-Reachable =
    steps {s = record stored_one { producer = posts_read; mutex = none }}
      (steps {s = stored_one}
        (steps {s = inside_one}
          (steps {s = claimed_one} (steps {s = first} starts (produces refl)) (produces refl))
          (produces refl))
        (produces refl))
      (produces refl)

reading-Reachable : Reachable 2 empty_row reading
unfolding consume
reading-Reachable =
    steps {s = record announced { consumer = locks_to_read; can_read = 0 }}
      (steps announced-Reachable (consumes refl)) (consumes refl)

Reachable-moves_example : (r : Exec Shop) × Step reading r
Reachable-moves_example = Reachable-moves 2 empty_row reading (omega arith) reading-Reachable

overrun_example : (s : Shop) × Reachable 2 empty_row s × Step s fault
overrun_example = overrun 2 empty_row (omega arith)
