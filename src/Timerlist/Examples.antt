-- ===== src/Timerlist/Examples.antt =====
-- A timer list of two entries whose keys hash to the same bucket.
use liteflow.Base.{ℕ, ◌≤◌, ◌≡◌, ◌==◌, arith, true, some, [], ◌∷◌, if◌then◌else◌}
use liteflow.Treemap.Shape.{Returns}
use liteflow.Timerlist.{Timerlist, timerlist_push, timerlist_top}
use liteflow.Timerlist.Order.{IsHeap, time_at, timerlist_top-least}
use liteflow.Timerlist.Push.{IsLinked, IsSized, IsFresh, Pushes, timerlist_push-Pushes}

abbrev two_timers : Timerlist ℕ ℕ
two_timers = record {
  bucket_size = 8;
  node_count = 2;
  node_capacity = 32;
  hash = λ i. if i == 1 then (100 ∷ 200 ∷ []) else [];
  heap = λ i. if i == 0 then record { time = 50; node = 100 } else record { time = 70; node = 200 };
  nodes = λ a.
      if a == 100
      then record { heap_id = 0; key = 1; value = 11 }
      else record { heap_id = 1; key = 9; value = 22 };
}

two_timers-IsHeap : IsHeap two_timers
two_timers-IsHeap = record { ordered = λ i z k. ground arith }

two_timers-IsLinked : IsLinked two_timers
two_timers-IsLinked = record { linked = λ i k. ground arith }

two_timers-IsSized : IsSized two_timers
two_timers-IsSized = record { fits = omega arith; some_room = omega arith; small = omega arith }

new_address : IsFresh two_timers (some 300)
new_address = λ i k. ground arith

timerlist_push-Pushes_example :
    Returns
      (timerlist_push (λ k. k) (λ a b. a == b) true (some 300) two_timers 60 17 33)
      (Pushes (some 300) two_timers 60 17 33)
timerlist_push-Pushes_example =
    timerlist_push-Pushes (λ k. k) (λ a b. a == b) true (some 300) two_timers 60 17 33
      two_timers-IsHeap two_timers-IsLinked two_timers-IsSized new_address

timerlist_top-least_example : Returns (timerlist_top two_timers) (λ (time, key, value).
    (time ≤ time_at two_timers 1)
    × (key ≡ (two_timers.nodes (two_timers.heap 0).node).key)
    × (value ≡ (two_timers.nodes (two_timers.heap 0).node).value))
timerlist_top-least_example = timerlist_top-least two_timers 1 two_timers-IsHeap (omega arith)
