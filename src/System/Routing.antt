-- ===== src/System/Routing.antt =====
-- Routing ids (core/src/actor_behavior.cpp) tell sockets apart.
use zaf.Prelude.{
  ℕ, zero, suc, ◌+◌, ◌/◌, ◌%◌, ◌^◌, ◌<◌, ◌≡◌, refl, ap, sym, ◌∙◌, Bool, true, false, [], ◌∷◌, ◌++◌,
  arith, if◌then◌else◌,
}
use native.Mathlib.Nat.{pow-suc}
use mathlib.Core.List.{head-eq_of_cons-eq, tail-eq_of_cons-eq}
use zaf.Serial.{Bytes}
use zaf.System.{initialize_routing_id_buffer, write_digits, set_back, get_routing_id}

-- The digits from the lowest on.
abbrev pub digits : ℕ → ℕ → Bytes
digits zero id = []
digits (suc n) id = (id % 10 + 48) ∷ digits n (id / 10)

-- A buffer of this actor: five characters, the identifier and one more.
abbrev pub buffer_of : Bytes → ℕ → Bytes → Bytes
buffer_of five x identifier = five ++ (identifier ++ x ∷ [])

set_back-snoc : (l : Bytes) (x y : ℕ) → set_back x (l ++ y ∷ []) ≡ l ++ x ∷ []
unfolding set_back
set_back-snoc [] x y = refl
set_back-snoc (b ∷ []) x y = refl
set_back-snoc (b ∷ c ∷ l) x y = ap (λ r. b ∷ r) (set_back-snoc (c ∷ l) x y)

abbrev pub kind : Bool → ℕ
kind send_or_recv = if send_or_recv then 115 else 114

-- Whatever the buffer held, the routing id is the digits, the identifier and the kind.
pub get_routing_id-eq :
    (id : ℕ) (b : Bool) (a₁ a₂ a₃ a₄ a₅ x : ℕ) (identifier : Bytes)
    → get_routing_id id b (a₁ ∷ a₂ ∷ a₃ ∷ a₄ ∷ a₅ ∷ (identifier ++ x ∷ []))
      ≡ digits 5 id ++ (identifier ++ kind b ∷ [])
unfolding get_routing_id write_digits
get_routing_id-eq id b a₁ a₂ a₃ a₄ a₅ x identifier =
    set_back-snoc (digits 5 id ++ identifier) (kind b) x

kind-eq : (b c : Bool) → kind b ≡ kind c → b ≡ c
kind-eq true true h = refl
kind-eq true false h = absurd (omega (arith, h))
kind-eq false true h = absurd (omega (arith, h))
kind-eq false false h = refl

last-eq : (l : Bytes) (b c : Bool) → l ++ kind b ∷ [] ≡ l ++ kind c ∷ [] → b ≡ c
last-eq [] b c h = kind-eq b c (head-eq_of_cons-eq h)
last-eq (x ∷ l) b c h = last-eq l b c (tail-eq_of_cons-eq h)

digits-eq :
    (n i j : ℕ) (l r : Bytes)
    → i < 10 ^ n
    → j < 10 ^ n
    → digits n i ++ l ≡ digits n j ++ r
    → (i ≡ j) × (l ≡ r)
digits-eq zero i j l r h k e = (omega arith, e)
digits-eq (suc n) i j l r h k e =
    let rest =
      digits-eq n (i / 10) (j / 10) l r (omega (arith, pow-suc 10 n)) (omega (arith, pow-suc 10 n))
        (tail-eq_of_cons-eq e) in
    (omega (arith, rest.0, head-eq_of_cons-eq e), rest.1)

-- Two sockets of actors with ids below MaxActorId have the same routing id only if they are of the
-- same actor and of the same kind.
pub get_routing_id-distinct :
    (i j : ℕ) (b c : Bool) (identifier : Bytes)
    → i < 100000
    → j < 100000
    → get_routing_id i b (initialize_routing_id_buffer identifier)
      ≡ get_routing_id j c (initialize_routing_id_buffer identifier)
    → (i ≡ j) × (b ≡ c)
unfolding initialize_routing_id_buffer
get_routing_id-distinct i j b c identifier h k e =
    let parts = digits-eq 5 i j (identifier ++ kind b ∷ []) (identifier ++ kind c ∷ []) h k (
      sym (get_routing_id-eq i b 48 48 48 48 48 32 identifier)
      ∙ e
      ∙ get_routing_id-eq j c 48 48 48 48 48 32 identifier) in
    (parts.0, last-eq identifier b c parts.1)
