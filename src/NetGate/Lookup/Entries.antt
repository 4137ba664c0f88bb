-- ===== src/NetGate/Lookup/Entries.antt =====
-- The entries of a name on both sides of a lookup (core/src/net_gate.cpp).
use zaf.Prelude.{
  ℕ, zero, suc, ◌+◌, ◌≡◌, refl, ap, sym, subst, ◌∙◌, true, false, Option, none, some, List, [], ◌∷◌,
  ◌++◌, map, count, hit, count-append, ◌==◌, ==→eq, eq→==, inl, inr, Bool-cases, map-append, arith,
}
use zaf.NetGate.Lookup.{Gates, assign, replies, request_if_first}

-- 1 if someone waits.
abbrev pub some_waiting : List ℕ → ℕ
some_waiting [] = 0
some_waiting (x ∷ xs) = 1

abbrev pub names : List (ℕ × ℕ) → List ℕ
names l = map (λ x. x.0) l

-- The owner keeps requests for names without an actor only.
abbrev pub kept_for : Option ℕ → ℕ → ℕ
kept_for none n = n
kept_for (some a) n = 0

-- What holds of a name.
pub record AnsweredOnce (g : Gates) (name : ℕ) : Type 0 where
  -- Who asked has been answered or waits, in the order of the asking.
  pub order : g.asked name ≡ g.answered name ++ g.actor_lookup_requesters name
  -- While someone waits there is exactly one request on its way, kept by the owner, or answered by a
  -- reply on its way; otherwise there is none.
  pub one_request :
      count name g.to_owner + g.requesters name + count name (names g.to_asker)
      ≡ some_waiting (g.actor_lookup_requesters name)
  pub kept : g.requesters name ≡ kept_for (g.actor name) (g.requesters name)

pub some_waiting-snoc : (l : List ℕ) (r : ℕ) → some_waiting (l ++ r ∷ []) ≡ 1
some_waiting-snoc [] r = refl
some_waiting-snoc (x ∷ xs) r = refl

pub count-request :
    (name : ℕ) (l : List ℕ)
    → hit name name ≡ 1
    → count name (request_if_first name l) + some_waiting l ≡ 1
count-request name [] h = omega (arith, h)
count-request name (x ∷ xs) h = refl

pub count-request_other :
    (k name : ℕ) (l : List ℕ) → hit k name ≡ 0 → count k (request_if_first name l) ≡ 0
count-request_other k name [] h = omega (arith, h)
count-request_other k name (x ∷ xs) h = refl

pub count-replies :
    (name actor n : ℕ) → hit name name ≡ 1 → count name (names (replies name actor n)) ≡ n
count-replies name actor zero h = refl
count-replies name actor (suc n) h = omega (arith, h, count-replies name actor n h)

pub count-replies_other :
    (k name actor n : ℕ) → hit k name ≡ 0 → count k (names (replies name actor n)) ≡ 0
count-replies_other k name actor zero h = refl
count-replies_other k name actor (suc n) h = omega (arith, h, count-replies_other k name actor n h)

pub count-names :
    (k : ℕ) (xs ys : List (ℕ × ℕ))
    → count k (names (xs ++ ys)) ≡ count k (names xs) + count k (names ys)
count-names k xs ys =
    ap (count k) (map-append (λ (x : ℕ × ℕ). x.0) xs ys) ∙ count-append k (names xs) (names ys)

pub self : (n : ℕ) → (n == n) ≡ true
self n = eq→== n n refl

-- A name for the entry that is assigned to, or another one.
pub by_name :
    (P : ℕ → Type 0) (name : ℕ) → P name → ((k : ℕ) → (k == name) ≡ false → P k) → (k : ℕ) → P k
by_name P name here other k = elim (Bool-cases (k == name)) [
  | inl e ↦ subst P (sym (==→eq k name e)) here
  | inr e ↦ other k e
]

pub assign_self : {A : Type 0} (name : ℕ) (v : A) (f : ℕ → A) → assign name v f name ≡ v
assign_self name v f = rw (self name) refl

pub assign_other :
    {A : Type 0} (name : ℕ) (v : A) (f : ℕ → A) (k : ℕ)
    → (k == name) ≡ false
    → assign name v f k ≡ f k
assign_other name v f k e = rw e refl

pub hit_self : (n : ℕ) → hit n n ≡ 1
hit_self n = rw (self n) refl

pub hit_other : (k name : ℕ) → (k == name) ≡ false → hit k name ≡ 0
hit_other k name e = rw e refl
