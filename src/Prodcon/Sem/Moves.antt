-- ===== src/Prodcon/Sem/Moves.antt =====
-- Every step of Asmt_5/prodcon/prodcon_sem.cpp keeps the semaphores' counts.
use cs.Prelude.{
  ℕ, zero, suc, ◌+◌, ◌<◌, ◌≡◌, refl, sym, ap, ◌∙◌, subst, true, false, Option, none, some, arith,
  Bool-cases, inl, inr,
}
use cs.Exec.{done, bind-done, done_injective}
use cs.Prodcon.{remove_item, insert_item}
use cs.Prodcon.Filled.{
  Filled, insert_item-inside, remove_item-last, draw_empty_buffer-blank, draw_empty_buffer-cursor,
}
use cs.Prodcon.Sem.{
  Producer, waits_to_write, locks_to_write, inserts, unlocks_written, posts_read, Consumer,
  waits_to_read, locks_to_read, removes, unlocks_taken, posts_write, Worker, the_producer,
  the_consumer, Shop, produce, consume, produces, consumes, opened, Reachable, starts, steps,
}
use cs.Prodcon.Sem.Stocked.{
  claimed, written, wanted, emptied, producer_inside, consumer_inside, holder, Stocked,
  some_injective, passes, locks, insert_item-room, holder-apart,
}

pred_of : (k : ℕ) → 0 < k → (m : ℕ) × (k ≡ suc m)
pred_of zero h = absurd (omega arith)
pred_of (suc m) h = (m, refl)

module _ (n : ℕ) (s : Shop) (stocked : Stocked n s) where
  -- A step that leaves the buffer alone.
  keeps :
      (p : Producer) (c : Consumer) (r w : ℕ) (m : Option Worker)
      → r + written p + wanted c ≡ stocked.count
      → w + claimed p + emptied c + stocked.count ≡ n
      → m ≡ holder (producer_inside p) (consumer_inside c)
      → (producer_inside p ≡ true → consumer_inside c ≡ false)
      → Stocked n (record s { producer = p; consumer = c; can_read = r; can_write = w; mutex = m })
  keeps p c r w m reads writes held apart = record {
    count = stocked.count;
    filled = stocked.filled;
    capacity = stocked.capacity;
    in_bounds = stocked.in_bounds;
    reads = reads;
    writes = writes;
    held = held;
    apart = apart;
  }

  produce-Stocked :
      (p : Producer) (s' : Shop) → s.producer ≡ p → produce p s ≡ some (done s') → Stocked n s'
  unfolding produce
  produce-Stocked waits_to_write s' at run =
      let (m, e, r) = passes s.can_write _ _ run in
      subst (Stocked n) (done_injective r) (
        keeps locks_to_write s.consumer s.can_read m s.mutex
          (omega (arith, stocked.reads, ap written at))
          (omega (arith, stocked.writes, ap claimed at, e))
          (stocked.held ∙ ap (λ b. holder b (consumer_inside s.consumer)) (ap producer_inside at))
          (λ h. absurd (ground (arith, h))))
  produce-Stocked locks_to_write s' at run =
      let (free, r) = locks s.mutex _ _ run in
      let (_, clear) = holder-apart _ _ (sym stocked.held ∙ free) in
      subst (Stocked n) (done_injective r) (
        keeps inserts s.consumer s.can_read s.can_write (some the_producer)
          (omega (arith, stocked.reads, ap written at))
          (omega (arith, stocked.writes, ap claimed at)) (refl) (λ h. clear))
  produce-Stocked inserts s' at run =
      let (b, e, r) = bind-done (insert_item b'A' s.items) _ s' (some_injective run) in
      let room = insert_item-room s.items b stocked.count stocked.filled e in
      let (b', e', size, filled) = insert_item-inside s.items stocked.count stocked.filled room in
      let same : b' ≡ b = done_injective (sym e' ∙ e) in
      subst (Stocked n) (done_injective r) (record {
        count = stocked.count + 1;
        filled = subst (λ b. Filled b (stocked.count + 1)) same filled;
        capacity = ap (λ b. b.bufferlen) (sym same) ∙ size ∙ stocked.capacity;
        in_bounds = λ h. omega (arith, room, stocked.capacity);
        reads = omega (arith, stocked.reads, ap written at);
        writes = omega (arith, stocked.writes, ap claimed at);
        held =
            stocked.held ∙ ap (λ b. holder b (consumer_inside s.consumer)) (ap producer_inside at);
        apart = λ h. stocked.apart (ap producer_inside at);
      })
  produce-Stocked unlocks_written s' at run =
      subst (Stocked n) (done_injective (some_injective run)) (
        keeps posts_read s.consumer s.can_read s.can_write none
          (omega (arith, stocked.reads, ap written at))
          (omega (arith, stocked.writes, ap claimed at))
          (sym (ap (holder false) (stocked.apart (ap producer_inside at))))
          (λ h. absurd (ground (arith, h))))
  produce-Stocked posts_read s' at run = subst (Stocked n) (done_injective (some_injective run)) (
      keeps waits_to_write s.consumer (suc s.can_read) s.can_write s.mutex
        (omega (arith, stocked.reads, ap written at)) (omega (arith, stocked.writes, ap claimed at))
        (stocked.held ∙ ap (λ b. holder b (consumer_inside s.consumer)) (ap producer_inside at))
        (λ h. absurd (ground (arith, h))))

  consume-Stocked :
      (c : Consumer) (s' : Shop) → s.consumer ≡ c → consume c s ≡ some (done s') → Stocked n s'
  unfolding consume
  consume-Stocked waits_to_read s' at run =
      let (m, e, r) = passes s.can_read _ _ run in
      subst (Stocked n) (done_injective r) (
        keeps s.producer locks_to_read m s.can_write s.mutex
          (omega (arith, stocked.reads, ap wanted at, e))
          (omega (arith, stocked.writes, ap emptied at))
          (stocked.held ∙ ap (holder (producer_inside s.producer)) (ap consumer_inside at))
          (λ h. refl))
  consume-Stocked locks_to_read s' at run =
      let (free, r) = locks s.mutex _ _ run in
      let (clear, _) = holder-apart _ _ (sym stocked.held ∙ free) in
      subst (Stocked n) (done_injective r) (
        keeps s.producer removes s.can_read s.can_write (some the_consumer)
          (omega (arith, stocked.reads, ap wanted at))
          (omega (arith, stocked.writes, ap emptied at)) (ap (λ b. holder b true) (sym clear))
          (λ h. absurd (ground (arith, h, clear))))
  consume-Stocked removes s' at run =
      let (k, e) = pred_of stocked.count (omega (arith, stocked.reads, ap wanted at)) in
      let filled = subst (Filled s.items) e stocked.filled in
      let room : suc k < s.items.bufferlen =
        omega (arith, e, stocked.in_bounds (omega (arith, e)), stocked.capacity) in
      let (b', e', size, kept) = remove_item-last s.items k filled room in
      let (x, e'', r) = bind-done (remove_item s.items) _ s' (some_injective run) in
      let same : b' ≡ x.1 = ap (λ x. x.1) (done_injective (sym e' ∙ e'')) in
      subst (Stocked n) (done_injective r) (record {
        count = k;
        filled = subst (λ b. Filled b k) same kept;
        capacity = ap (λ b. b.bufferlen) (sym same) ∙ size ∙ stocked.capacity;
        in_bounds = λ h. omega (arith, room, stocked.capacity);
        reads = omega (arith, stocked.reads, ap wanted at, e);
        writes = omega (arith, stocked.writes, ap emptied at, e);
        held = stocked.held ∙ ap (holder (producer_inside s.producer)) (ap consumer_inside at);
        apart = λ h. absurd (ground (arith, stocked.apart h, ap consumer_inside at));
      })
  consume-Stocked unlocks_taken s' at run =
      subst (Stocked n) (done_injective (some_injective run)) (
        keeps s.producer posts_write s.can_read s.can_write none
          (omega (arith, stocked.reads, ap wanted at))
          (omega (arith, stocked.writes, ap emptied at)) (sym (ap (λ b. holder b false) outside))
          (λ h. refl))
    where
      outside : producer_inside s.producer ≡ false
      outside = elim (Bool-cases (producer_inside s.producer)) [
        | inl h ↦ absurd (ground (arith, stocked.apart h, ap consumer_inside at))
        | inr h ↦ h
      ]
  consume-Stocked posts_write s' at run = subst (Stocked n) (done_injective (some_injective run)) (
      keeps s.producer waits_to_read s.can_read (suc s.can_write) s.mutex
        (omega (arith, stocked.reads, ap wanted at)) (omega (arith, stocked.writes, ap emptied at))
        (stocked.held ∙ ap (holder (producer_inside s.producer)) (ap consumer_inside at))
        (λ h. refl))

pub opened-Filled : (n : ℕ) (row : ℕ → ℕ) → Filled (opened n row).items 0
opened-Filled n row = record {
  at_count = refl;
  stored = λ i low high. absurd (omega arith);
  cursor_at = draw_empty_buffer-cursor n row;
  drawn = λ i below. absurd (omega arith);
  blank = λ i low below. draw_empty_buffer-blank n row i below;
}

opened-Stocked : (n : ℕ) (row : ℕ → ℕ) → Stocked n (opened n row)
opened-Stocked n row = record {
  count = 0;
  filled = opened-Filled n row;
  capacity = refl;
  in_bounds = λ h. absurd (omega arith);
  reads = refl;
  writes = omega arith;
  held = refl;
  apart = λ h. refl;
}

pub Reachable-Stocked : (n : ℕ) (row : ℕ → ℕ) (s : Shop) → Reachable n row s → Stocked n s
Reachable-Stocked n row s starts = opened-Stocked n row
Reachable-Stocked n row s (steps {s = before} path (produces run)) =
    produce-Stocked n before (Reachable-Stocked n row before path) before.producer s refl run
Reachable-Stocked n row s (steps {s = before} path (consumes run)) =
    consume-Stocked n before (Reachable-Stocked n row before path) before.consumer s refl run
