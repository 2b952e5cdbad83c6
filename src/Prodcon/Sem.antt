-- ===== src/Prodcon/Sem.antt =====
-- The threads of Asmt_5/prodcon/prodcon_sem.cpp, one step at a time.
pub mod Stocked
pub mod Moves
pub mod Bounds
pub mod Progress
pub mod Overrun
mod Examples
use cs.Prelude.{ℕ, zero, suc, ◌≡◌, Option, none, some, pos}
use cs.Exec.{Exec, done, ◌>>=◌}
use cs.Prodcon.{draw_empty_buffer, Buffer, remove_item, insert_item}

-- Before the call that the name says.
pub data Producer : Type 0 where
  waits_to_write : Producer
  locks_to_write : Producer
  inserts : Producer
  unlocks_written : Producer
  posts_read : Producer

pub data Consumer : Type 0 where
  waits_to_read : Consumer
  locks_to_read : Consumer
  removes : Consumer
  unlocks_taken : Consumer
  posts_write : Consumer

pub data Worker : Type 0 where
  the_producer : Worker
  the_consumer : Worker

pub record Shop : Type 0 where
  pub producer : Producer
  pub consumer : Consumer
  pub can_read : ℕ
  pub can_write : ℕ
  pub mutex : Option Worker
  pub items : Buffer

-- `ProducerStart`: the next call; `none` while it has to wait.
unfoldable pub produce : Producer → Shop → Option (Exec Shop)
produce waits_to_write s = elim s.can_write [
  | zero ↦ none
  | suc n ↦ some (done (record s { producer = locks_to_write; can_write = n }))
]
produce locks_to_write s = elim s.mutex [
  | none ↦ some (done (record s { producer = inserts; mutex = some the_producer }))
  | some w ↦ none
]
produce inserts s =
    some
      (do b ← insert_item b'A' s.items; done (record s { producer = unlocks_written; items = b }))
produce unlocks_written s = some (done (record s { producer = posts_read; mutex = none }))
produce posts_read s =
    some (done (record s { producer = waits_to_write; can_read = suc s.can_read }))

-- `ConsumerStart`
unfoldable pub consume : Consumer → Shop → Option (Exec Shop)
consume waits_to_read s = elim s.can_read [
  | zero ↦ none
  | suc n ↦ some (done (record s { consumer = locks_to_read; can_read = n }))
]
consume locks_to_read s = elim s.mutex [
  | none ↦ some (done (record s { consumer = removes; mutex = some the_consumer }))
  | some w ↦ none
]
consume removes s =
    some
      (do (item, b) ← remove_item s.items; done (record s { consumer = unlocks_taken; items = b }))
consume unlocks_taken s = some (done (record s { consumer = posts_write; mutex = none }))
consume posts_write s =
    some (done (record s { consumer = waits_to_read; can_write = suc s.can_write }))

pub data Step (s : Shop) (r : Exec Shop) : Type 0 where
  produces : produce s.producer s ≡ some r → Step s r
  consumes : consume s.consumer s ≡ some r → Step s r

-- `main` up to the creation of the threads, on a terminal that shows `row`.
abbrev pub opened : ℕ → (ℕ → ℕ) → Shop
opened bufferlen row = record {
  producer = waits_to_write;
  consumer = waits_to_read;
  can_read = 0;
  can_write = bufferlen;
  mutex = none;
  items = record {
    bufferlen = bufferlen;
    buffer = λ i. none;
    at_pos = pos 0;
    screen = draw_empty_buffer bufferlen (record { shown = row; cursor = 0 });
  };
}

pub data Reachable (bufferlen : ℕ) (row : ℕ → ℕ) : Shop → Type 0 where
  starts : Reachable bufferlen row (opened bufferlen row)
  steps : {s s' : Shop} → Reachable bufferlen row s → Step s (done s') → Reachable bufferlen row s'
