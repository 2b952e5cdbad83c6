-- ===== src/Prodcon/Sem/Bounds.antt =====
-- Where `pos` of Asmt_5/prodcon/prodcon_sem.cpp is, and what the consumer reads.
use cs.Prelude.{ℕ, suc, ◌<◌, ◌≡◌, ap, some, zero, arith}
use cs.Exec.{done}
use cs.Prodcon.{Buffer, remove_item}
use cs.Prodcon.Filled.{Filled, remove_item-last}
use cs.Prodcon.Sem.{Shop, removes, Reachable}
use cs.Prodcon.Sem.Stocked.{wanted}
use cs.Prodcon.Sem.Moves.{Reachable-Stocked}

-- In every state that the steps of prodcon_sem.cpp lead to, if the consumer is about to remove an
-- item then RemoveItem reads a place of the buffer that holds the item that the producer writes,
-- and leaves a buffer that holds and shows the items before it.
pub remove_item-written :
    (n : ℕ) (row : ℕ → ℕ) (s : Shop)
    → Reachable n row s
    → s.consumer ≡ removes
    → (k : ℕ) × (b : Buffer) × (remove_item s.items ≡ done (some b'A', b)) × Filled b k
remove_item-written n row s path at =
    let stocked = Reachable-Stocked n row s path in
    let some_item : 0 < stocked.count = omega (arith, stocked.reads, ap wanted at) in
    last stocked.count stocked.filled some_item
      (omega (arith, stocked.in_bounds some_item, stocked.capacity))
  where
    last :
        (k : ℕ)
        → Filled s.items k
        → 0 < k
        → k < s.items.bufferlen
        → (k : ℕ) × (b : Buffer) × (remove_item s.items ≡ done (some b'A', b)) × Filled b k
    last zero filled h room = absurd (omega arith)
    last (suc k) filled h room =
        let (b, run, size, kept) = remove_item-last s.items k filled room in (k, b, run, kept)
