-- ===== src/Delayed/Owner/Tests.antt =====
-- A message that is moved twice, and one that a move assignment loses (core/src/delayed_message.cpp).
use zaf.Prelude.{◌+◌, ◌≡◌, refl, none, some, [], ◌∷◌, count}
use zaf.Delayed.Owner.{
  Store, pointer, move_assign, destructor, Reach, start, later, constructs, move_assigns, destroys,
  owners, Reach-owned,
}

-- Message 2 is assigned to the object of message 1, and the object is destroyed.
abbrev ended : Store
ended = record {
  objects = pointer none ∷ [];
  made = 1 ∷ 2 ∷ [];
  deleted = 2 ∷ [];
  sent = [];
  leaked = 1 ∷ [];
}

to_ended : Reach ended
unfolding move_assign destructor
to_ended =
    later
      (later (later (later start (constructs (pointer (some 2)))) (constructs (pointer (some 1))))
        (move_assigns (pointer (some 2)) (pointer (some 1)) [] [] refl))
      (destroys (pointer (some 2)) [] (pointer none ∷ []) refl)

Reach-owned_example :
    owners 1 ended.objects + count 1 ended.deleted + count 1 ended.sent + count 1 ended.leaked
    ≡ count 1 ended.made
Reach-owned_example = Reach-owned 1 to_ended
