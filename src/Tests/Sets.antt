-- ===== src/Tests/Sets.antt =====
-- Sets of messages at concrete inputs; the messages are numbers.
use tansiv.Base.{ℕ, ◌+◌, ◌<◌, ◌≡◌, ◌≢◌, ◌==◌, refl, true, Bool, none, some, List, ◌∷◌, ◌++◌, arith}
use tansiv.OutputMsgSet.{OutputMsgSet, new, insert, insert_from, fill, drain}
use tansiv.OutputMsgSet.Listing.{pending, IsSettled, new-IsSettled, fill-IsSettled, insert-pending}
use tansiv.OutputMsgSet.Drain.{Drains, drain_lem}
use tansiv.OutputMsgSet.Threads.{
  System, Reach, start, later, call_insert, swap_free, write, publish, call_drain, see,
}
use tansiv.OutputMsgSet.Threads.Invariant.{holds, drains}
use tansiv.OutputMsgSet.Threads.Safety.{write_alone}
use tansiv.OutputMsgSet.Threads.Counting.{tally, in_hand, waiting, inserted-balance}

-- Message 7 is in the second of two slots.
abbrev one_of_two : OutputMsgSet ℕ
one_of_two = fill (new ℕ 2) 1 7

one_of_two-IsSettled : IsSettled one_of_two
one_of_two-IsSettled = fill-IsSettled (new ℕ 2) 1 7 (new-IsSettled 2)

insert-pending_example :
    IsSettled (fill one_of_two 0 8)
    × ((fill one_of_two 0 8).num_slots ≡ 2)
    × ((before after : List ℕ) × (pending one_of_two ≡ before ++ after)
        × (pending (fill one_of_two 0 8) ≡ before ++ 8 ∷ after))
unfolding insert insert_from
insert-pending_example = insert-pending one_of_two 8 one_of_two-IsSettled refl

-- The body adds the messages up.
abbrev add_up : ℕ → ℕ → ℕ × Bool
add_up m total = (m + total, true)

drain_lem_example : Drains add_up (pending one_of_two) 2 3 (drain add_up one_of_two 3)
drain_lem_example = drain_lem add_up one_of_two 3 one_of_two-IsSettled

-- Thread 4 is about to write its slot.
abbrev inserting : (s : System ℕ) × Reach 1 s
inserting =
    (_, later (later start (call_insert 4 9 refl)) (swap_free 4 9 0 refl (omega arith) refl))

write_alone_example :
    (0 < inserting.0.set.num_slots)
    × (inserting.0.set.slots 0 ≡ none)
    × ((u : ℕ) → holds (inserting.0.threads u) ≡ some 0 → u ≡ 4)
    × (drains inserting.0.drainer ≢ some 0)
write_alone_example = write_alone inserting.1 4 9 0 refl

-- The drain has seen the message.
abbrev draining : (s : System ℕ) × Reach 1 s
draining = (
  _,
  later
      (later (later (later inserting.1 (write 4 9 0 refl)) (publish 4 9 0 refl)) (call_drain refl))
      (see 0 refl (omega arith) refl),
)

inserted-balance_example :
    tally (λ m. m == 9) draining.0.inserted
    ≡ tally (λ m. m == 9) draining.0.drained
      + in_hand (λ m. m == 9) draining.0.drainer
      + waiting (λ m. m == 9) draining.0.set
inserted-balance_example = inserted-balance (λ m. m == 9) draining.1
