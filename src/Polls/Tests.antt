-- ===== src/Polls/Tests.antt =====
-- The sockets of an actor (core/src/actor_behavior.cpp) by number.
use mathlib.Core.List.{Perm}
use zaf.Prelude.{ℕ, ◌≡◌, ◌⊎◌, refl, Option, none, some, List, [], ◌∷◌, count}
use zaf.Polls.{call, find_poll, remove_poll, process_recv_poll_reqs, add, remove}
use zaf.Polls.Remove.{PollItem, handles, polls, remove_poll-Perm}

abbrev own : PollItem
own = (1, none)

abbrev three : List PollItem
three = (4, some 40) ∷ (5, some 50) ∷ (6, some 60) ∷ []

remove_poll-Perm_example :
    ((l' : List PollItem) × (of_it : Option ℕ) × (remove_poll 4 (some 9) (polls own three [])
        ≡ some (polls own l' (call (some 9) [])))
      × Perm ((4, of_it) ∷ l') three)
    ⊎ ((remove_poll 4 (some 9) (polls own three []) ≡ none) × (count 4 (handles three) ≡ 0))
remove_poll-Perm_example = remove_poll-Perm 4 (some 9) own three []

one_after_another :
    process_recv_poll_reqs (add 7 70 ∷ remove 5 (some 9) ∷ []) (polls own three [])
    ≡ some (polls own ((4, some 40) ∷ (7, some 70) ∷ (6, some 60) ∷ []) (9 ∷ []))
unfolding process_recv_poll_reqs call find_poll
one_after_another = refl

-- The actor's own socket is not found.
own_stays : remove_poll 1 none (polls own three []) ≡ none
unfolding remove_poll
own_stays = refl
