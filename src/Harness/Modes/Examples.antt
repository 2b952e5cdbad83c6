-- ===== src/Harness/Modes/Examples.antt =====
-- Tests of the modes of Asmt_1/harness.c, and their theorems at small files.
use mathlib.Core.List.{Perm}
use cs.Prelude.{
  ℕ, ◌≡◌, refl, Option, some, List, [], ◌∷◌, ◌++◌, arith, length, replicate, Text, All, ◌/◌,
}
use cs.Exec.{done}
use cs.Qsort.Insertion.{insertion}
use cs.Harness.{is_end}
use cs.Harness.Echo.{IsWord, text}
use cs.Harness.Modes.{
  Store, Grant, no_store, main, tail_word, sort_word, tail_remove_word, running_message, dashes,
}
use cs.Harness.Modes.Owned.{IsFreed}
use cs.Harness.Modes.Filling.{IsSupply}
use cs.Harness.Modes.Tailing.{tail-prints}
use cs.Harness.Modes.Removing.{sets, tail_remove-prints}
use cs.Harness.Modes.Reordered.{InOrder}
use cs.Harness.Modes.Sorting.{sort-prints}

abbrev words : List Text
words = (b'h' ∷ b'i' ∷ []) ∷ (b'a' ∷ []) ∷ []

words-IsWord : All IsWord words
unfolding is_end
words-IsWord = (
  record {
    no_end = (refl, (refl, tt));
    no_null = (refl, (refl, tt));
    some_char = omega arith;
    small = omega arith;
  },
  (
    record {
      no_end = (refl, tt);
      no_null = (refl, tt);
      some_char = omega arith;
      small = omega arith;
    },
    tt,
  ),
)

-- The second buffer holds an `x` behind what will be the word.
abbrev grants : List Grant
grants =
    record { buf = 10; junk = replicate 41 0; item = 20 }
    ∷ record { buf = 11; junk = b'x' ∷ b'x' ∷ replicate 39 0; item = 21 }
    ∷ record { buf = 12; junk = replicate 41 0; item = 22 }
    ∷ []

abbrev printed : List Text
printed = (b'h' ∷ b'i' ∷ []) ∷ (b'a' ∷ b'x' ∷ []) ∷ []

grants-IsSupply : IsSupply no_store grants
unfolding no_store
grants-IsSupply = record {
  bufs_real = refl;
  items_real = refl;
  bufs_distinct = λ b. ground arith;
  items_distinct = λ a. ground arith;
  bufs_free = λ b i. refl;
  items_free = λ a i. refl;
  sizes = (refl, (refl, (refl, tt)));
}

abbrev name : Text
name = b'f' ∷ []

abbrev opening : Text → Option (List ℕ)
opening t = some (text words)

tail-prints_example :
    (s : Store) × (main insertion opening grants [] (name ∷ tail_word ∷ []) ≡ done (printed, s))
    × IsFreed s
tail-prints_example =
    tail-prints insertion opening grants [] name words printed refl words-IsWord (omega arith)
      (omega arith) grants-IsSupply refl

tail_remove-prints_example :
    (s : Store) × (main insertion opening grants [] (name ∷ tail_remove_word ∷ [])
      ≡ done
          (running_message ∷ (printed ++ (sets (length printed / 3) printed ++ (dashes ∷ []))), s))
    × IsFreed s
tail_remove-prints_example =
    tail_remove-prints insertion opening grants [] name words printed refl words-IsWord
      (omega arith) (omega arith) grants-IsSupply refl

sort-prints_example :
    (sorted : List Text) × (s : Store) × (main insertion opening grants [] (name ∷ sort_word ∷ [])
      ≡ done (sorted, s))
    × Perm sorted printed
    × InOrder sorted
    × IsFreed s
sort-prints_example =
    sort-prints insertion opening grants [] name words printed refl words-IsWord (omega arith)
      (omega arith) grants-IsSupply refl
