-- ===== src/Nodes/Removal.antt =====
-- Taking a node out of a circle, as `uthread_exit` of Asmt_4/uthread.c does.
use cs.Prelude.{ℕ, ◌+◌, ◌≡◌, refl, sym, ap, subst, none, some, List, [], ◌∷◌, ◌++◌, arith}
use cs.Counting.{count, count-append, count-one, Distinct}
use cs.Nodes.{Nodes, update, relink, next_in}
use cs.Nodes.Chains.{Chain, Chain-append, Chain-split, Chain-update, Chain-relink_last}
use cs.Nodes.Retie.{last, count-last}
use cs.Nodes.Circle.{last-append}

-- The last pointer of a buffer is that of its second part, unless that is empty.
pub last-append_cons :
    (t : ℕ) (ws : List ℕ) (c : ℕ) (ys : List ℕ) → last t (ws ++ (c ∷ ys)) ≡ last c ys
last-append_cons t [] c ys = refl
last-append_cons t (w ∷ ws) c ys = last-append_cons w ws c ys

pub count-before_last :
    (t : ℕ) (ts xs : List ℕ)
    → Distinct (t ∷ ts)
    → t ∷ ts ≡ xs ++ (last t ts ∷ [])
    → count (last t ts) xs ≡ 0
count-before_last t ts xs d e = omega (
  arith,
  d (last t ts),
  count-append (last t ts) xs (last t ts ∷ []),
  ap (count (last t ts)) e,
  count-one (last t ts),
)

module _ {D : Type 0} where
  -- The end of a chain may be moved.
  pub Chain-move_end :
      (h : Nodes D) (p q r t : ℕ) (ts : List ℕ)
      → Distinct (t ∷ ts)
      → Chain h p (t ∷ ts) q
      → Chain (relink h (last t ts) r) p (t ∷ ts) r
  Chain-move_end h p q r t ts d path =
      let (xs, e) = last-append t ts in
      let out = count-before_last t ts xs d e in
      subst (λ zs. Chain (relink h (last t ts) r) p zs r) (sym e)
        (Chain-relink_last h p q r (last t ts) xs out (subst (λ zs. Chain h p zs q) e path))

  -- The node before `c` is led past it, and `c` is freed.
  pub Chain-unlink :
      (h : Nodes D) (t c n q : ℕ) (ws ys : List ℕ)
      → Distinct (t ∷ (ws ++ (c ∷ ys)))
      → Chain h t (t ∷ (ws ++ (c ∷ ys))) q
      → next_in (h c) ≡ some n
      → Chain (update (relink h (last t ws) n) c none) t (t ∷ (ws ++ ys)) q
  Chain-unlink h t c n q ws ys d path at =
      let counts : (a : ℕ) → count a (t ∷ (ws ++ (c ∷ ys))) ≡ count a (t ∷ ws) + count a (c ∷ ys) =
        λ a. sym (count-append a (t ∷ ws) (c ∷ ys)) in
      let (m, front, back) = Chain-split h t q (t ∷ ws) (c ∷ ys) path in
      let e : back.1 ≡ n = ground (arith, back.2, at) in
      let k = relink h (last t ws) n in
      let front' : Chain k t (t ∷ ws) n =
        Chain-move_end h t m n t ws (λ a. omega (arith, d a, counts a)) front in
      let past : count (last t ws) ys ≡ 0 =
        omega (arith, d (last t ws), counts (last t ws), count-last t ws) in
      let back' : Chain k n ys q =
        Chain-update h n q (last t ws) _ ys past (subst (λ a. Chain h a ys q) e back.3) in
      let out : count c (t ∷ (ws ++ ys)) ≡ 0 =
        omega (arith, d c, counts c, count-append c (t ∷ ws) ys, count-one c) in
      Chain-update k t q c none (t ∷ (ws ++ ys)) out (Chain-append k t n q (t ∷ ws) ys front' back')
