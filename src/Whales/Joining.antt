-- ===== src/Whales/Joining.antt =====
-- A new whale at the end of one of the two queues of Asmt_5/whales/whales.c.
use cs.Prelude.{
  ℕ, ◌+◌, ◌≤◌, ◌<◌, ◌≡◌, ◌≢◌, refl, sym, ap, ◌∙◌, none, some, List, [], ◌∷◌, ◌++◌, arith,
}
use cs.Exec.{done}
use cs.Counting.{count, count-append}
use cs.Nodes.{Node}
use cs.Nodes.Retie.{Here}
use cs.Whales.{null, Whale, Whales, enqueue}
use cs.Whales.Queue.{
  IsQueue, IsQueue-agree, ids, ids-agree, id_in, queued, queued-id, queued-outside, enqueue-queued,
  queued-IsQueue,
}
use cs.Whales.Taking.{with_whale, with_whale-IsQueue}

ids-append : (h : Whales) (xs ys : List ℕ) → ids h (xs ++ ys) ≡ ids h xs ++ ids h ys
ids-append h [] ys = refl
ids-append h (x ∷ xs) ys = ap (◌∷◌ (id_in (h x))) (ids-append h xs ys)

module _ (h : Whales) (q r : ℕ) (ts us : List ℕ) (temp : ℕ) (junk : Node Whale) (id : ℕ) where
  abbrev pub fresh : Whales
  fresh = with_whale h temp junk id

  abbrev new_whale : Node Whale
  new_whale = record { next = junk.next; datum = record { id = id; tail = junk.datum.tail } }

  fresh-temp : fresh temp ≡ some new_whale
  fresh-temp = ground arith

  abbrev pub joined : Whales
  joined = queued fresh q ts temp

  -- What the queue and the other one are afterwards.
  pub record Joined : Type 0 where
    pub run : enqueue q temp fresh ≡ done joined
    pub queue : IsQueue joined q (ts ++ (temp ∷ []))
    pub other : IsQueue joined r us
    pub apart : (a : ℕ) → count a (q ∷ (ts ++ (temp ∷ []))) + count a (r ∷ us) ≤ 1
    pub queue_ids : ids joined (q ∷ (ts ++ (temp ∷ []))) ≡ ids h (q ∷ ts) ++ (id ∷ [])
    pub other_ids : ids joined (r ∷ us) ≡ ids h (r ∷ us)

  pub enqueue-Joined :
      IsQueue h q ts
      → IsQueue h r us
      → ((a : ℕ) → count a (q ∷ ts) + count a (r ∷ us) ≤ 1)
      → temp ≢ null
      → h temp ≡ none
      → Joined
  enqueue-Joined queue other apart real free =
      let (out, queue') = with_whale-IsQueue h temp junk id q ts free queue in
      let (out', other') = with_whale-IsQueue h temp junk id r us free other in
      let own : Here fresh temp = (new_whale, fresh-temp) in
      let ids_kept : (xs : List ℕ) → count temp xs ≡ 0 → ids joined xs ≡ ids h xs = λ xs clear.
        ids-agree h joined xs (λ a i.
          queued-id fresh q ts temp a ∙ ground (arith, i, clear, other_than a temp xs i clear)) in
      record {
        run = enqueue-queued fresh q ts temp queue' own;
        queue = queued-IsQueue fresh q ts temp queue' own out real;
        other =
            IsQueue-agree fresh joined r us
              (λ a i.
                queued-outside fresh q ts temp a (λ e. other_than a temp (r ∷ us) i out' (sym e))
                  (omega (arith, apart a, i)))
              other';
        apart = λ a. ground (arith, sym (count-append a (q ∷ ts) (temp ∷ [])), apart a, out, out');
        queue_ids =
            ids-append joined (q ∷ ts) (temp ∷ [])
            ∙ ap (λ xs. xs ++ ids joined (temp ∷ [])) (ids_kept (q ∷ ts) out)
            ∙ ap (λ i. ids h (q ∷ ts) ++ (i ∷ []))
                (queued-id fresh q ts temp temp ∙ ap id_in fresh-temp);
        other_ids = ids_kept (r ∷ us) out';
      }
    where
      other_than : (a t : ℕ) (xs : List ℕ) → 0 < count a xs → count t xs ≡ 0 → t ≢ a
      other_than a t xs i clear e = absurd (omega (arith, i, clear, ap (λ b. count b xs) e))
