-- ===== src/Delayed/Owner.antt =====
-- Who owns the message of a `DelayedMessage` (core/src/delayed_message.cpp, core/zaf/delayed_message.hpp, and the flush of
-- core/src/actor_behavior.cpp). A message is a number, its address; the receiver plays no part here.
mod Tests
use zaf.Prelude.{
  ℕ, ◌+◌, ◌≡◌, refl, ap, Option, none, some, List, [], ◌∷◌, ◌++◌, hit, count, count-append, arith,
}
use zaf.Serial.{Bytes}

-- The member `message`: a pointer, null or not, or the bytes for a remote actor.
pub data Held : Type 0 where
  pointer : Option ℕ → Held
  message_bytes : Bytes → Held

-- The objects that live. `made`, `deleted`, `sent` and `leaked` list the messages that a DelayedMessage was
-- constructed with, that were deleted, that the flush has sent, and whose only pointer was overwritten.
pub record Store : Type 0 where
  pub objects : List Held
  pub made : List ℕ
  pub deleted : List ℕ
  pub sent : List ℕ
  pub leaked : List ℕ

abbrev pub pointed : Held → List ℕ
pointed (pointer none) = []
pointed (pointer (some m)) = m ∷ []
pointed (message_bytes b) = []

-- The move constructor: the new object and the old one. Moved bytes are empty.
unfoldable pub move_init : Held → Held × Held
move_init (pointer p) = (pointer p, pointer none)
move_init (message_bytes b) = (message_bytes b, message_bytes [])

-- The move assignment of `m` to another object: both objects.
unfoldable pub move_assign : (m this : Held) → Held × Held
move_assign (pointer p) this = (pointer p, pointer none)
move_assign (message_bytes b) this = (message_bytes b, message_bytes [])

-- The destructor: what it deletes.
unfoldable pub destructor : Held → List ℕ
destructor (pointer none) = []
destructor (pointer (some m)) = m ∷ []
destructor (message_bytes b) = []

-- The visit in `flush_delayed_messages`: the object after it, and the message that is sent.
unfoldable pub flush_one : Held → Held × List ℕ
flush_one (pointer none) = (pointer none, [])
flush_one (pointer (some m)) = (pointer none, m ∷ [])
flush_one (message_bytes b) = (message_bytes [], [])

pub data Step : Store → Store → Type 0 where
  constructs :
      {s : Store} (h : Held)
      → Step s (record s { objects = h ∷ s.objects; made = pointed h ++ s.made })
  move_constructs :
      {s : Store} (h : Held) (front rest : List Held)
      → s.objects ≡ front ++ h ∷ rest
      → Step s (record s { objects = (move_init h).0 ∷ front ++ (move_init h).1 ∷ rest })
  move_assigns :
      {s : Store} (h this : Held) (front rest : List Held)
      → s.objects ≡ this ∷ front ++ h ∷ rest
      → Step s (record s {
        objects = (move_assign h this).0 ∷ front ++ (move_assign h this).1 ∷ rest;
        leaked = pointed this ++ s.leaked;
      })
  -- The objects in another order.
  turns :
      {s : Store} (h : Held) (front rest : List Held)
      → s.objects ≡ front ++ h ∷ rest
      → Step s (record s { objects = h ∷ front ++ rest })
  destroys :
      {s : Store} (h : Held) (front rest : List Held)
      → s.objects ≡ front ++ h ∷ rest
      → Step s (record s { objects = front ++ rest; deleted = destructor h ++ s.deleted })
  flushes :
      {s : Store} (h : Held) (front rest : List Held)
      → s.objects ≡ front ++ h ∷ rest
      → Step s
          (record s { objects = front ++ (flush_one h).0 ∷ rest; sent = (flush_one h).1 ++ s.sent })

abbrev pub nothing : Store
nothing = record { objects = []; made = []; deleted = []; sent = []; leaked = [] }

pub data Reach : Store → Type 0 where
  start : Reach nothing
  later : {s t : Store} → Reach s → Step s t → Reach t

-- How many objects point to a message.
abbrev pub owners : ℕ → List Held → ℕ
owners m [] = 0
owners m (h ∷ hs) = count m (pointed h) + owners m hs

owners-append :
    (m : ℕ) (front rest : List Held) → owners m (front ++ rest) ≡ owners m front + owners m rest
owners-append m [] rest = omega arith
owners-append m (h ∷ front) rest = omega (arith, owners-append m front rest)

-- `h` and what becomes of it.
move_init-owners :
    (m : ℕ) (h : Held)
    → count m (pointed (move_init h).0) + count m (pointed (move_init h).1) ≡ count m (pointed h)
unfolding move_init
move_init-owners m (pointer p) = omega arith
move_init-owners m (message_bytes b) = refl

move_assign-owners :
    (m : ℕ) (h this : Held)
    → count m (pointed (move_assign h this).0) + count m (pointed (move_assign h this).1)
      ≡ count m (pointed h)
unfolding move_assign
move_assign-owners m (pointer p) this = omega arith
move_assign-owners m (message_bytes b) this = refl

destructor-owners : (m : ℕ) (h : Held) → count m (destructor h) ≡ count m (pointed h)
unfolding destructor
destructor-owners m (pointer none) = refl
destructor-owners m (pointer (some k)) = refl
destructor-owners m (message_bytes b) = refl

flush_one-owners :
    (m : ℕ) (h : Held)
    → count m (pointed (flush_one h).0) + count m (flush_one h).1 ≡ count m (pointed h)
unfolding flush_one
flush_one-owners m (pointer none) = refl
flush_one-owners m (pointer (some k)) = omega arith
flush_one-owners m (message_bytes b) = refl

-- In every run: a message that a DelayedMessage was made with is held by one, was deleted or sent, or
-- has leaked; as often as it was made, and so at most once in all if it was made once.
pub Reach-owned :
    {s : Store} (m : ℕ)
    → Reach s
    → owners m s.objects + count m s.deleted + count m s.sent + count m s.leaked ≡ count m s.made
Reach-owned m start = refl
Reach-owned m (later {s = s} r (constructs h)) =
    omega (arith, Reach-owned m r, count-append m (pointed h) s.made)
Reach-owned m (later {s = s} r (move_constructs h front rest e)) = omega (
  arith,
  Reach-owned m r,
  ap (owners m) e,
  owners-append m front (h ∷ rest),
  owners-append m front ((move_init h).1 ∷ rest),
  move_init-owners m h,
)
Reach-owned m (later {s = s} r (move_assigns h this front rest e)) = omega (
  arith,
  Reach-owned m r,
  ap (owners m) e,
  owners-append m front (h ∷ rest),
  owners-append m front ((move_assign h this).1 ∷ rest),
  move_assign-owners m h this,
  count-append m (pointed this) s.leaked,
)
Reach-owned m (later {s = s} r (turns h front rest e)) = omega (
  arith,
  Reach-owned m r,
  ap (owners m) e,
  owners-append m front (h ∷ rest),
  owners-append m front rest,
)
Reach-owned m (later {s = s} r (destroys h front rest e)) = omega (
  arith,
  Reach-owned m r,
  ap (owners m) e,
  owners-append m front (h ∷ rest),
  owners-append m front rest,
  destructor-owners m h,
  count-append m (destructor h) s.deleted,
)
Reach-owned m (later {s = s} r (flushes h front rest e)) = omega (
  arith,
  Reach-owned m r,
  ap (owners m) e,
  owners-append m front (h ∷ rest),
  owners-append m front ((flush_one h).0 ∷ rest),
  flush_one-owners m h,
  count-append m (flush_one h).1 s.sent,
)
