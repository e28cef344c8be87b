-- ===== src/Litedt/Sack.antt =====
-- The selective acknowledgements of a connection: push_sack_map of src/litedt.c. The map is its entries
-- in order: the start of a range, with its end and how often it was sent.
use liteflow.Base.{
  ℕ, ◌+◌, ◌%◌, leb, ◌==◌, Bool, not, ◌&&◌, if◌then◌else◌, Option, none, some, List, [], ◌∷◌,
  Ordering,
}
use liteflow.Seq.{less_equal, seq_cmp}
use liteflow.Treemap.Entries.{insert_entry}
use liteflow.Rbuffer.{floor_entry}

abbrev pub SackMap : Type 0
SackMap = List (ℕ × (ℕ × ℕ))

-- "remove expired sack record": the ranges before the window go, and one that reaches into it is cut.
unfoldable pub expire : ℕ → SackMap → SackMap
unfolding less_equal
expire rwin_start [] = []
expire rwin_start ((k, (seq_end, send_times)) ∷ xs) =
    let rest = expire rwin_start xs in
    if less_equal rwin_start k
    then ((k, (seq_end, send_times)) ∷ xs)
    else if not (less_equal seq_end rwin_start)
    then insert_entry seq_cmp rwin_start (seq_end, send_times) xs
    else rest

-- The last range that does not start after `pos`: before treemap_upper_bound, or the last of all.
abbrev pub floor_sack : Option (ℕ × (ℕ × ℕ)) → ℕ → SackMap → Option (ℕ × (ℕ × ℕ))
floor_sack it pos [] = it
floor_sack it pos ((k, v) ∷ xs) = elim (seq_cmp pos k) [
  | Ordering.lt ↦ it
  | _ ↦ floor_sack (some (k, v)) pos xs
]

-- A write through the pointer to the range at `k`.
abbrev pub put_sack : ℕ → ℕ × ℕ → SackMap → SackMap
put_sack k v [] = []
put_sack k v ((j, old) ∷ xs) =
    let rest = put_sack k v xs in if j == k then ((j, v) ∷ xs) else ((j, old) ∷ rest)

-- The last loop: the new end, and the ranges that are left behind it.
unfoldable pub absorb : ℕ → SackMap → ℕ × SackMap
unfolding less_equal
absorb pend [] = (pend, [])
absorb pend ((nstart, (nend, times)) ∷ xs) =
    let more = absorb (if less_equal pend nend then nend else pend) xs in
    if less_equal nstart pend then more else (pend, (nstart, (nend, times)) ∷ xs)

-- The last loop, from the range at `k` on.
unfoldable pub absorb_at : ℕ → SackMap → SackMap
unfolding absorb
absorb_at k [] = []
absorb_at k ((j, (seq_end, times)) ∷ xs) =
    let rest = absorb_at k xs in
    let (pend, left) = absorb seq_end xs in
    if j == k then ((j, (pend, times)) ∷ left) else ((j, (seq_end, times)) ∷ rest)

-- The range [start, seq_end) enters the map. A failed insertion leaves the map as it is.
unfoldable pub add_sack : Bool → ℕ → ℕ → SackMap → SackMap
unfolding absorb_at less_equal
add_sack alloc start seq_end xs =
    let inserted =
      if alloc then absorb_at start (insert_entry seq_cmp start (seq_end, 0) xs) else xs in
    elim (floor_sack none start xs) [
      | none ↦ inserted
      | some (rstart, (rend, times)) ↦
          if less_equal seq_end rend
          then xs
          else if less_equal rstart start && less_equal start rend
          then absorb_at rstart (put_sack rstart (seq_end, 0) xs)
          else inserted
    ]

-- `ranges` is the range map of recv_buf. none is the read through NULL where no range holds `seq`.
unfoldable pub push_sack_map : Bool → ℕ → List (ℕ × ℕ) → ℕ → SackMap → Option SackMap
unfolding expire add_sack less_equal
push_sack_map alloc rwin_start ranges seq sacks =
    if not (less_equal rwin_start seq) then some sacks else elim (floor_entry none seq ranges) [
      | none ↦ none
      | some (start, seq_end) ↦ some (add_sack alloc start seq_end (expire rwin_start sacks))
    ]

-- The loop of litedt_data_ack: the ranges that go into the message, and the map after it. A range is
-- deleted once it was sent twice. The loop stops after a range when `ack_size` ranges were taken.
unfoldable pub take_sacks : ℕ → ℕ → SackMap → List (ℕ × ℕ) × SackMap
take_sacks ack_size cnt [] = ([], [])
take_sacks ack_size cnt ((start, (seq_end, times)) ∷ it) =
    let rest = take_sacks ack_size (cnt + 1) it in
    let stop : Bool = leb ack_size (cnt + 1) in
    let taken = if stop then [] else rest.0 in
    let left = if stop then it else rest.1 in
    let send_times = (times + 1) % 256 in
    (
      (start, seq_end) ∷ taken,
      if leb 2 send_times then left else ((start, (seq_end, send_times)) ∷ left),
    )
