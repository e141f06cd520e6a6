-- ===== src/Fsm/Tests.antt =====
-- server/internal/core/storage/fsm/fsm.go: runs on small maps, and the theorems at them.
use pro_labs.Common.{
  ℕ, zero, suc, ◌+◌, ◌*◌, ◌≤◌, ◌<◌, ◌≡◌, ◌≢◌, refl, List, [], ◌∷◌, Option, none, some, arith,
}
use pro_labs.Fsm.{
  Fsm, at, max8, new, update, search_pages, request_category, category, save, load, ok, err,
  bad_header, grow_capacity,
}
use pro_labs.Fsm.Tree.{IsTree, AllMax}
use pro_labs.Fsm.Resize.{resize_endless}
use pro_labs.Fsm.Search.{Answers, search_pages-Answers, search_pages-room}
use pro_labs.Fsm.Update.{Updated, update-Updated}
use pro_labs.Fsm.File.{SameMap, load-save}

-- Three pages, with 160, 96 and 64 bytes or more.
abbrev sample : Fsm
sample = record { path = "t.fsm"; nodes = 0 ∷ 5 ∷ 5 ∷ 2 ∷ 5 ∷ 3 ∷ 2 ∷ 0 ∷ []; n_pages = 3 }

sample-AllMax : AllMax sample.nodes 4
unfolding max8
sample-AllMax zero p q = absurd (omega arith)
sample-AllMax (suc zero) p q = refl
sample-AllMax (suc (suc zero)) p q = refl
sample-AllMax (suc (suc (suc zero))) p q = refl
sample-AllMax (suc (suc (suc (suc i)))) p q = absurd (omega arith)

sample-vacant : (p : ℕ) → 3 ≤ p → p < 4 → at sample.nodes (4 + p) ≡ 0
sample-vacant p h k = let e : p ≡ 3 = omega arith in rw e

sample-IsTree : IsTree sample
sample-IsTree = record {
  halves = (refl, omega arith);
  short = omega arith;
  inner = sample-AllMax;
  tracked = omega arith;
  vacant = sample-vacant;
}

search_pages_runs :
    (search_pages sample 128 ≡ some 0)
    × (search_pages sample 161 ≡ none)
    × (search_pages sample 20 ≡ some 0)
unfolding search_pages
search_pages_runs = (refl, refl, refl)

-- A page past the slice makes the map grow.
grown : Option Fsm
grown = update sample 5 8164

grown_run :
    grown
    ≡ some (record {
      path = "t.fsm";
      nodes = 0 ∷ 255 ∷ 5 ∷ 255 ∷ 5 ∷ 2 ∷ 255 ∷ 0 ∷ 5 ∷ 3 ∷ 2 ∷ 0 ∷ 0 ∷ 255 ∷ 0 ∷ 0 ∷ [];
      n_pages = 6;
    })
unfolding grown update max8
grown_run = refl

abbrev saved : List ℕ
saved = 86 ∷ 70 ∷ 83 ∷ 77 ∷ 3 ∷ 0 ∷ 0 ∷ 0 ∷ 5 ∷ 3 ∷ 2 ∷ []

save_run : save sample ≡ some saved
unfolding save
save_run = refl

load_run : (load "t.fsm" saved ≡ ok sample) × (load "t.fsm" (1 ∷ 2 ∷ []) ≡ err bad_header)
unfolding load new max8 pro_labs.Common.Words.le_value
load_run = (refl, refl)

search_pages-Answers_example : Answers sample (request_category 128) (search_pages sample 128)
search_pages-Answers_example = search_pages-Answers sample 128 sample-IsTree (omega arith)

search_pages-room_example : 128 ≤ 170
unfolding search_pages category
search_pages-room_example =
    search_pages-room sample 128 170 0 sample-IsTree (omega arith) (omega arith) refl refl

update-Updated_example : (g : Fsm) × (update sample 5 8164 ≡ some g) × Updated sample 5 8164 g
update-Updated_example = update-Updated sample 5 8164 sample-IsTree (omega arith)

resize_endless_example : grow_capacity 40 1 3000000000 ≡ none
resize_endless_example = resize_endless 40 3000000000 (omega arith)

load-save_example : (g : Fsm) × (load "u.fsm" saved ≡ ok g) × SameMap sample g
load-save_example = load-save sample "u.fsm" saved sample-IsTree (omega arith) save_run
