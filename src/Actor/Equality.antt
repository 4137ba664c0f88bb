-- ===== src/Actor/Equality.antt =====
-- `operator==` of core/src/actor.cpp and the hash codes that the `std::hash` of an actor gives.
use mathlib.Core.Bool.{false≢true}
use zaf.Prelude.{ℕ, ◌≡◌, refl, ap, Bool, true, false, ◌&&◌, Option, none, some, ==→eq}
use zaf.Actor.{
  LocalActorHandle, NetSenderInfo, NetSenderRef, Actor, local, remote, local_eq, remote_eq, ref_eq,
  actor_eq, hash_code,
}

&&-both : (a b : Bool) → (a && b) ≡ true → (a ≡ true) × (b ≡ true)
&&-both true true h = (refl, refl)
&&-both true false h = absurd (false≢true h)
&&-both false b h = absurd (false≢true h)

module _ (infos : NetSenderRef → NetSenderInfo) (std_hash : ℕ → ℕ) where
  remote_hash :
      (x y : Option NetSenderRef) (m n : LocalActorHandle)
      → ref_eq x y ≡ true
      → local_eq m n ≡ true
      → hash_code infos std_hash (remote (record { net_sender_info = x; remote_actor = m }))
        ≡ hash_code infos std_hash (remote (record { net_sender_info = y; remote_actor = n }))
  unfolding hash_code ref_eq local_eq
  remote_hash none none m n h e = refl
  remote_hash none (some j) m n h e = absurd (false≢true h)
  remote_hash (some i) none m n h e = absurd (false≢true h)
  remote_hash (some i) (some j) m n h e = rw (==→eq i j h, ==→eq _ _ e)

  -- Actors that are equal have the same hash code, whatever std::hash does with an integer.
  pub hash_code-eq :
      (a b : Actor) → actor_eq a b ≡ true → hash_code infos std_hash a ≡ hash_code infos std_hash b
  unfolding actor_eq hash_code local_eq remote_eq
  hash_code-eq (local a) (local b) h = ap some (==→eq _ _ h)
  hash_code-eq (local a) (remote b) h = absurd (false≢true h)
  hash_code-eq (remote a) (local b) h = absurd (false≢true h)
  hash_code-eq (remote a) (remote b) h =
      let both =
        &&-both (ref_eq a.net_sender_info b.net_sender_info)
          (local_eq a.remote_actor b.remote_actor) h in
      remote_hash a.net_sender_info b.net_sender_info a.remote_actor b.remote_actor both.0 both.1
