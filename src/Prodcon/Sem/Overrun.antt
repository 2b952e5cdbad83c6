-- ===== src/Prodcon/Sem/Overrun.antt =====
-- The last write of Asmt_5/prodcon/prodcon_sem.cpp: the producer fills the buffer from place 1 on.
use cs.Prelude.{ℕ, zero, suc, ◌+◌, ◌-◌, ◌<◌, ◌≡◌, refl, ap, ◌∙◌, subst, none, some, arith}
use cs.Exec.{Exec, done, fault, ◌>>=◌}
use cs.Prodcon.{Buffer, insert_item}
use cs.Prodcon.Filled.{Filled, insert_item-inside, insert_item-outside}
use cs.Prodcon.Sem.{
  waits_to_write, locks_to_write, inserts, unlocks_written, posts_read, waits_to_read, the_producer,
  Shop, produce, Step, produces, opened, Reachable, starts, steps,
}
use cs.Prodcon.Sem.Moves.{opened-Filled}

-- The consumer has not run, and the producer has put `r` items into the buffer.
abbrev idle : ℕ → ℕ → Buffer → Shop
idle w r b = record {
  producer = waits_to_write;
  consumer = waits_to_read;
  can_read = r;
  can_write = w;
  mutex = none;
  items = b;
}

abbrev claims : ℕ → ℕ → Buffer → Shop
claims w r b = record (idle w r b) { producer = inserts; mutex = some the_producer }

abbrev stores : Shop → Buffer → Exec Shop
stores s b = done (record s { producer = unlocks_written; items = b })

module _ (n : ℕ) (row : ℕ → ℕ) where
  -- The producer gets to the write.
  enters :
      (w r : ℕ) (b : Buffer) → Reachable n row (idle (suc w) r b) → Reachable n row (claims w r b)
  unfolding produce
  enters w r b path =
      steps (steps {s' = record (idle w r b) { producer = locks_to_write }} path (produces refl))
        (produces refl)

  -- A round of the producer's loop.
  round :
      (w r : ℕ) (b b' : Buffer)
      → insert_item b'A' b ≡ done b'
      → Reachable n row (idle (suc w) r b)
      → Reachable n row (idle w (suc r) b')
  unfolding produce
  round w r b b' run path =
      let s = claims w r b in
      let s' = record s { producer = unlocks_written; items = b' } in
      steps
        (steps {s' = record (idle w r b') { producer = posts_read }}
          (steps {s' = s'} (enters w r b path) (produces (ap (λ x. some (x >>= stores s)) run)))
          (produces refl))
        (produces refl)

  fills :
      (k w : ℕ)
      → k + suc w ≡ n
      → (b : Buffer) × Filled b k × (b.bufferlen ≡ n) × Reachable n row (idle (suc w) k b)
  fills zero w e =
      let all : n ≡ suc w = omega (arith, e) in
      (
        (opened n row).items,
        opened-Filled n row,
        refl,
        subst (λ m. Reachable n row (idle m 0 (opened n row).items)) all starts,
      )
  fills (suc k) w e =
      let (b, filled, size, path) = fills k (suc w) (omega (arith, e)) in
      let (b', run, size', filled') = insert_item-inside b k filled (omega (arith, size, e)) in
      (b', subst (Filled b') (omega arith) filled', size' ∙ size, round (suc w) k b b' run path)

  -- For a buffer of any length but 0 the steps of prodcon_sem.cpp lead to a state in which the
  -- next step of the producer writes behind the end of the buffer.
  pub overrun : 0 < n → (s : Shop) × Reachable n row s × Step s fault
  unfolding produce
  overrun some_place =
      let (b, filled, size, path) = fills (n - 1) 0 (omega (arith, some_place)) in
      let s = claims 0 (n - 1) b in
      (
        s,
        enters 0 (n - 1) b path,
        produces (
            ap (λ x. some (x >>= stores s))
              (insert_item-outside b (n - 1) filled (omega (arith, size)))),
      )
