-- ===== src/Whales/Starting.antt =====
-- `whaleInit` of Asmt_5/whales/whales.c: the two queues at the start, next to two empty lists.
use cs.Prelude.{ℕ, ◌≡◌, ◌≢◌, refl, ap, false, some, [], ◌∷◌, arith, ◌==◌}
use cs.Exec.{done}
use cs.Nodes.{next_in}
use cs.Whales.{null, Whales, Sea, started, whale_init}
use cs.Whales.Queue.{IsQueue, tail_in}
use cs.Whales.Pods.{pod_of, view, Holds}

-- A queue with nothing behind its head.
alone :
    (h : Whales) (q : ℕ)
    → h q ≡ some (record { next = null; datum = record { id = 0; tail = q } })
    → q ≢ null
    → IsQueue h q []
alone h q at real = record {
  chain = (refl, null, ap next_in at, refl);
  distinct = λ a. ground arith;
  real = ground (arith, real);
  end = ap tail_in at;
}

pub started-Holds :
    (m f : ℕ) (h : Whales) → m ≢ null → f ≢ null → m ≢ f → Holds (started m f h) [] []
started-Holds m f h male female apart = record {
  males = alone (started m f h).whales m (ground (arith, apart)) male;
  females = alone (started m f h).whales f (ground arith) female;
  apart = λ a. ground (arith, apart);
  male_count = refl;
  female_count = refl;
}

-- The two heads that `whaleInit` makes.
pub whale_init-Holds :
    (m f : ℕ) (h : Whales)
    → m ≢ null
    → f ≢ null
    → m ≢ f
    → (s : Sea) × (whale_init m f h ≡ done s)
      × Holds s [] []
      × (view s [] [] ≡ pod_of (0 ∷ []) (0 ∷ []) [])
unfolding whale_init
whale_init-Holds m f h male female apart =
    let e : (m == null) ≡ false = ground (arith, male) in
    let e' : (f == null) ≡ false = ground (arith, female) in
    (
      started m f h,
      rw (whale_init, e, e') refl,
      started-Holds m f h male female apart,
      ground (arith, apart),
    )
