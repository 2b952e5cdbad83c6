-- ===== src/LinkedList/Outside.antt =====
-- The operations of Asmt_3/list_t.c make no items but the new one.
use cs.Prelude.{
  ℕ, ◌≡◌, ◌≢◌, Bool-cases, inl, inr, Bool, Option, none, some, List, [], ◌∷◌, arith, ◌==◌, ltb,
  true, false, ℤ, negsuc, if◌then◌else◌,
}
use cs.Exec.{Exec, done, Gives, gives-done, gives-fault, gives-exit, gives-bind}
use cs.Nodes.{update, load, relink, set_next}
use cs.Nodes.Retie.{last}
use cs.LinkedList.{
  Items, ListT, null, put_prev, set_prev, list_item_init, list_insert_tail, list_insert_sorted,
  list_remove_head, retie_list, tie_many, tie_items, copy_items, before_last,
}
use cs.Qsort.{Qsort}

module _ (b : ℕ) where
  -- There is no item at the address.
  abbrev Absent : Items → Type 0
  Absent k = k b ≡ none

  abbrev AbsentFirst {ℓ} : {A : Type ℓ} → Items × A → Type 0
  AbsentFirst r = r.0 b ≡ none

  load-Unit : (h : Items) (a : ℕ) → Gives (load h a) (λ n. Unit {0})
  load-Unit h a n run = tt

  set_next-Absent : (h : Items) (a q : ℕ) → Absent h → Gives (set_next h a q) Absent
  unfolding set_next
  set_next-Absent h a q out =
      gives-bind _ Absent (load h a) (λ n. done (relink h a q)) (load-Unit h a)
        λ n t. gives-done Absent (relink h a q) (ground arith)

  set_prev-Absent : (h : Items) (a p : ℕ) → Absent h → Gives (set_prev h a p) Absent
  unfolding set_prev
  set_prev-Absent h a p out =
      gives-bind _ Absent (load h a) (λ n. done (put_prev h a p)) (load-Unit h a)
        λ n t. gives-done Absent (put_prev h a p) (ground arith)

  tie_items-Absent : (ts : List ℕ) (h : Items) → Absent h → Gives (tie_items ts h) Absent
  unfolding tie_items
  tie_items-Absent [] h out = gives-done Absent h out
  tie_items-Absent (t ∷ []) h out = gives-done Absent h out
  tie_items-Absent (t ∷ u ∷ ts) h out =
      gives-bind Absent Absent _ _ (set_next-Absent h t u out) λ h1 out1.
        gives-bind Absent Absent _ _ (set_prev-Absent h1 u t out1)
          λ h2 out2. tie_items-Absent (u ∷ ts) h2 out2

  tie_many-Absent : (t : ℕ) (ts : List ℕ) (h : Items) → Absent h → Gives (tie_many t ts h) Absent
  unfolding tie_many
  tie_many-Absent t [] h out = gives-fault Absent
  tie_many-Absent t (u ∷ ts) h out =
      gives-bind Absent Absent _ _ (set_next-Absent h t u out) λ h1 out1.
        gives-bind Absent Absent _ _ (set_prev-Absent h1 (last u ts) (before_last t u ts) out1)
          λ h2 out2. tie_items-Absent (u ∷ ts) h2 out2

  when_Absent :
      (c : Bool) (r : Exec Items) (h : Items)
      → Gives r Absent
      → Absent h
      → Gives (if c then r else done h) Absent
  when_Absent true r h gives out = gives
  when_Absent false r h gives out = gives-done Absent h out

  retie_list-Absent :
      (ts : List ℕ) (h : Items) (l : ListT) → Absent h → Gives (retie_list ts h l) AbsentFirst
  unfolding retie_list
  retie_list-Absent [] h l out = gives-fault AbsentFirst
  retie_list-Absent (t ∷ ts) h l out =
      gives-bind Absent AbsentFirst _ _ (set_prev-Absent h t null out) λ h1 out1.
        gives-bind Absent AbsentFirst _ _ (set_next-Absent h1 (last t ts) null out1) λ h2 out2.
          gives-bind Absent AbsentFirst _ _
            (when_Absent (l.length == 2) _ h2
              (gives-bind Absent Absent _ _ (set_next-Absent h2 t (last t ts) out2)
                λ k out'. set_prev-Absent k (last t ts) t out')
              out2)
            λ h3 out3.
              gives-bind Absent AbsentFirst _ _
                (when_Absent (ltb 2 l.length) _ h3 (tie_many-Absent t ts h3 out3) out3)
                λ h4 out4. gives-done AbsentFirst (h4, record l { head = t; tail = last t ts }) out4

  pub list_insert_tail-Absent :
      (new v : ℕ) (h : Items) (l : ListT)
      → Absent h
      → new ≢ b
      → Gives (list_insert_tail new v h l) AbsentFirst
  unfolding list_insert_tail
  list_insert_tail-Absent new v h l out other = elim (Bool-cases (new == null)) [
    | inl e ↦ rw e (gives-exit AbsentFirst (negsuc 0))
    | inr e ↦
        let h1 = update h new (some (list_item_init v)) in
        let out1 : Absent h1 = ground (arith, other) in
        rw e (elim (Bool-cases (l.length == 0)) [
          | inl empty ↦ rw empty (gives-done AbsentFirst _ out1)
          | inr more ↦ rw more (
              gives-bind Absent AbsentFirst _ _ (set_next-Absent h1 l.tail new out1) λ h2 out2.
                gives-bind Absent AbsentFirst _ _ (set_prev-Absent h2 new l.tail out2)
                  λ h3 out3. gives-done AbsentFirst _ out3)
        ])
  ]

  pub list_insert_sorted-Absent :
      (qsort : Qsort) (compare : Items → ℕ → ℕ → ℤ) (new v : ℕ) (h : Items) (l : ListT)
      → Absent h
      → new ≢ b
      → Gives (list_insert_sorted qsort compare new v h l) AbsentFirst
  unfolding list_insert_sorted
  list_insert_sorted-Absent qsort compare new v h l out other =
      gives-bind AbsentFirst AbsentFirst _ _ (list_insert_tail-Absent new v h l out other)
        λ (h1, l1) out1.
          gives-bind (λ ts. Unit {0}) AbsentFirst (copy_items l1.length l1.head h1) _ (λ ts run. tt)
            λ items t. retie_list-Absent (qsort.sort (compare h1) items) h1 l1 out1

  abbrev AbsentRest : Items × ListT × Option ℕ → Type 0
  AbsentRest r = r.0 b ≡ none

  pub list_remove_head-Absent :
      (h : Items) (l : ListT) → Absent h → Gives (list_remove_head h l) AbsentRest
  unfolding list_remove_head
  list_remove_head-Absent h l out = elim (Bool-cases (l.head == null)) [
    | inl e ↦ rw e (gives-done AbsentRest (h, l, none) out)
    | inr e ↦ rw e (
        gives-bind _ AbsentRest (load h l.head) _ (load-Unit h l.head)
          λ n t. gives-done AbsentRest _ (ground arith))
  ]
