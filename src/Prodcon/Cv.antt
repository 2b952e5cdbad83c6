-- ===== src/Prodcon/Cv.antt =====
-- The threads of Asmt_5/prodcon/prodcon_cv.cpp, one call at a time.
pub mod Exclusion
pub mod Deadlock
mod Examples
use cs.Prelude.{ℕ, zero, suc, ◌≡◌, Bool, true, false, Option, none, some, pos, ltb_ℤ, if◌then◌else◌}
use cs.Exec.{Exec, done, ◌>>=◌}
use cs.Prodcon.{Buffer, draw_empty_buffer, remove_item, insert_item}

pub data Worker : Type 0 where
  a_producer : Worker
  a_consumer : Worker

-- Where a thread stands in its loop: before the call that the name says. `locks`, `unlocks` are about
-- `mutex`, `locks_item` and `unlocks_item` as well, in `InsertItem` or `RemoveItem`; `signal` and `wait`
-- are the parts with the condition variables.
pub data Place : Type 0 where
  locks : Place
  checks : Place
  locks_signal : Place
  signals : Place
  unlocks_signal : Place
  unlocks : Place
  locks_wait : Place
  waits : Place
  asleep : Place
  woken : Place
  unlocks_wait : Place
  locks_item : Place
  moves_item : Place
  unlocks_item : Place

-- How many threads of a kind stand at each place.
pub record Counts : Type 0 where
  pub at_locks : ℕ
  pub at_checks : ℕ
  pub at_locks_signal : ℕ
  pub at_signals : ℕ
  pub at_unlocks_signal : ℕ
  pub at_unlocks : ℕ
  pub at_locks_wait : ℕ
  pub at_waits : ℕ
  pub at_asleep : ℕ
  pub at_woken : ℕ
  pub at_unlocks_wait : ℕ
  pub at_locks_item : ℕ
  pub at_moves_item : ℕ
  pub at_unlocks_item : ℕ

abbrev pub count_at : Place → Counts → ℕ
count_at locks c = c.at_locks
count_at checks c = c.at_checks
count_at locks_signal c = c.at_locks_signal
count_at signals c = c.at_signals
count_at unlocks_signal c = c.at_unlocks_signal
count_at unlocks c = c.at_unlocks
count_at locks_wait c = c.at_locks_wait
count_at waits c = c.at_waits
count_at asleep c = c.at_asleep
count_at woken c = c.at_woken
count_at unlocks_wait c = c.at_unlocks_wait
count_at locks_item c = c.at_locks_item
count_at moves_item c = c.at_moves_item
count_at unlocks_item c = c.at_unlocks_item

abbrev pub put_count : Place → ℕ → Counts → Counts
put_count locks n c = record c { at_locks = n }
put_count checks n c = record c { at_checks = n }
put_count locks_signal n c = record c { at_locks_signal = n }
put_count signals n c = record c { at_signals = n }
put_count unlocks_signal n c = record c { at_unlocks_signal = n }
put_count unlocks n c = record c { at_unlocks = n }
put_count locks_wait n c = record c { at_locks_wait = n }
put_count waits n c = record c { at_waits = n }
put_count asleep n c = record c { at_asleep = n }
put_count woken n c = record c { at_woken = n }
put_count unlocks_wait n c = record c { at_unlocks_wait = n }
put_count locks_item n c = record c { at_locks_item = n }
put_count moves_item n c = record c { at_moves_item = n }
put_count unlocks_item n c = record c { at_unlocks_item = n }

-- The three mutexes are held or free.
pub record Market : Type 0 where
  pub producers : Counts
  pub consumers : Counts
  pub mutex : Bool
  pub can_read_mutex : Bool
  pub can_write_mutex : Bool
  pub items : Buffer

abbrev pub threads : Worker → Market → Counts
threads a_producer s = s.producers
threads a_consumer s = s.consumers

abbrev pub with_threads : Worker → Counts → Market → Market
with_threads a_producer c s = record s { producers = c }
with_threads a_consumer c s = record s { consumers = c }

abbrev pub other : Worker → Worker
other a_producer = a_consumer
other a_consumer = a_producer

-- The mutex of the condition variable that a thread signals, and that it waits for.
abbrev pub signal_held : Worker → Market → Bool
signal_held a_producer s = s.can_read_mutex
signal_held a_consumer s = s.can_write_mutex

abbrev pub with_signal : Worker → Bool → Market → Market
with_signal a_producer b s = record s { can_read_mutex = b }
with_signal a_consumer b s = record s { can_write_mutex = b }

-- `pos > 0`, and `pos < bufferlen`.
abbrev pub can_signal : Worker → Market → Bool
can_signal a_producer s = ltb_ℤ (pos 0) s.items.at_pos
can_signal a_consumer s = ltb_ℤ s.items.at_pos (pos s.items.bufferlen)

-- `InsertItem ('A')`, or `RemoveItem`, under the lock.
abbrev pub handle_item : Worker → Market → Exec Market
handle_item a_producer s = do b ← insert_item b'A' s.items; done (record s { items = b })
handle_item a_consumer s = do (item, b) ← remove_item s.items; done (record s { items = b })

-- One thread that waits for the condition variable wakes up, if there is one.
abbrev pub wake_first : ℕ → Counts → Counts
wake_first zero c = c
wake_first (suc n) c = record c { at_asleep = n; at_woken = suc c.at_woken }

abbrev pub wake_one : Worker → Market → Market
wake_one w s = with_threads w (wake_first (threads w s).at_asleep (threads w s)) s

-- The lock of a mutex that is held has to wait.
abbrev pub if_free : Bool → Place → Market → Option (Exec (Place × Market))
if_free true to s = none
if_free false to s = some (done (to, s))

-- `ProducerStart` and `ConsumerStart`: the next call of a thread, and where it stands then; `none` while it
-- has to wait.
unfoldable pub call : Worker → Place → Market → Option (Exec (Place × Market))
call w locks s = if_free s.mutex checks (record s { mutex = true })
call w checks s = some (done (if can_signal w s then locks_signal else unlocks, s))
call w locks_signal s = if_free (signal_held w s) signals (with_signal w true s)
call w signals s = some (done (unlocks_signal, wake_one (other w) s))
call w unlocks_signal s = some (done (unlocks, with_signal w false s))
call w unlocks s = some (done (locks_wait, record s { mutex = false }))
call w locks_wait s = if_free (signal_held (other w) s) waits (with_signal (other w) true s)
call w waits s = some (done (asleep, with_signal (other w) false s))
call w asleep s = none
call w woken s = if_free (signal_held (other w) s) unlocks_wait (with_signal (other w) true s)
call w unlocks_wait s = some (done (locks_item, with_signal (other w) false s))
call w locks_item s = if_free s.mutex moves_item (record s { mutex = true })
call w moves_item s = some (do s ← handle_item w s; done (unlocks_item, s))
call w unlocks_item s = some (done (locks, record s { mutex = false }))

-- One thread of a kind less at a place, where `n` are left, or one more.
abbrev pub leave : Worker → Place → ℕ → Market → Market
leave w from n s = with_threads w (put_count from n (threads w s)) s

abbrev pub enter : Worker → Place → Market → Market
enter w to s = with_threads w (put_count to (suc (count_at to (threads w s))) (threads w s)) s

abbrev pub arrive : Worker → Exec (Place × Market) → Exec Market
arrive w r = do (to, s) ← r; done (enter w to s)

-- A step of a thread, or one that wakes up without a signal.
pub data Step (s : Market) (r : Exec Market) : Type 0 where
  acts :
      (w : Worker) (from : Place) (n : ℕ) (called : Exec (Place × Market))
      → count_at from (threads w s) ≡ suc n
      → call w from (leave w from n s) ≡ some called
      → arrive w called ≡ r
      → Step s r
  wakes :
      (w : Worker) (n : ℕ)
      → (threads w s).at_asleep ≡ suc n
      → done (enter w woken (leave w asleep n s)) ≡ r
      → Step s r

abbrev pub all_at_locks : ℕ → Counts
all_at_locks n = record {
  at_locks = n;
  at_checks = 0;
  at_locks_signal = 0;
  at_signals = 0;
  at_unlocks_signal = 0;
  at_unlocks = 0;
  at_locks_wait = 0;
  at_waits = 0;
  at_asleep = 0;
  at_woken = 0;
  at_unlocks_wait = 0;
  at_locks_item = 0;
  at_moves_item = 0;
  at_unlocks_item = 0;
}

-- `main` up to the creation of `bufferlen` threads of each kind, on a terminal that shows `row`.
abbrev pub opened : ℕ → (ℕ → ℕ) → Market
opened bufferlen row = record {
  producers = all_at_locks bufferlen;
  consumers = all_at_locks bufferlen;
  mutex = false;
  can_read_mutex = false;
  can_write_mutex = false;
  items = record {
    bufferlen = bufferlen;
    buffer = λ i. none;
    at_pos = pos 0;
    screen = draw_empty_buffer bufferlen (record { shown = row; cursor = 0 });
  };
}

pub data Reachable (bufferlen : ℕ) (row : ℕ → ℕ) : Market → Type 0 where
  starts : Reachable bufferlen row (opened bufferlen row)
  steps :
      {s s' : Market} → Reachable bufferlen row s → Step s (done s') → Reachable bufferlen row s'
