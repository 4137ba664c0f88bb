-- ===== src/Swsr/Grow.antt =====
-- The Resize branch of `push` in core/zaf/swsr_delivery_queue.hpp: what the doubled buffer holds.
use native.Mathlib.Nat.{
  mod-lt, mod-eq_of_lt, mod-add-mod, add-mod_right, mod-eq-sub-mod, pow-suc, add-mul-mod_self_right,
  div-add-mod',
}
use zaf.Prelude.{
  ℕ, ◌+◌, ◌-◌, ◌*◌, ◌/◌, ◌%◌, ◌^◌, ◌≤◌, ◌<◌, ◌≡◌, refl, ap, ◌∙◌, sym, List, ◌++◌, some, ◌⊎◌,
  bit_and, arith, length, get_or, set, take, drop, replicate, length-append, length-take,
  length-replicate, take_all, get_or-append_left, get_or-append_right, get_or-take, get_or-drop,
  get_or-replicate, length-set, get_or-set_ne, get_elem?-eq-get_or, dec_lt,
}
use zaf.Swsr.{Queue, u32, size, store_item, grow, top, move_front, resize_items}
use zaf.Swsr.Inv.{IsValid, cap_pos, write-index, read-index, doubled_eq, grow-IsValid}
use zaf.Swsr.Refine.{contents, window-ext, write-place}

-- The position in the doubled ring: the old one, one capacity further on each odd round.
pub mod-double : (r c : ℕ) → 0 < c → r % (c * 2) ≡ r / c % 2 * c + r % c
mod-double r c h =
    ap (λ t. t % (c * 2)) split
    ∙ add-mul-mod_self_right (r / c % 2 * c + r % c) (r / c / 2) (c * 2)
    ∙ mod-eq_of_lt (grind (arith, mod-lt r h, bit))
  where
    bit : (r / c % 2 ≡ 0) ⊎ (r / c % 2 ≡ 1)
    bit = omega arith

    split : r ≡ r / c % 2 * c + r % c + r / c / 2 * (c * 2)
    split =
        let half : r / c ≡ r / c / 2 * 2 + r / c % 2 = omega arith in
        omega (arith, div-add-mod' r c, ap (λ (t : ℕ). t * c) half)

-- The doubled buffer: the first `k` items also stand where the old buffer ended.
abbrev pub grown {ℓ} : {A : Type ℓ} → A → ℕ → ℕ → List A → List A
grown null k c xs = move_front k c (resize_items null (c * 2) xs)

module _ {ℓ} {A : Type ℓ} (null : A) (k c : ℕ) (xs : List A) (hl : length xs ≡ c) (hk : k < c) where
  longer-eq : resize_items null (c * 2) xs ≡ xs ++ replicate (c * 2 - c) null
  longer-eq = rw (take_all (c * 2) xs (omega arith), hl)

  length-longer : length (xs ++ replicate (c * 2 - c) null) ≡ c * 2
  length-longer =
      omega
        (arith, length-append xs (replicate (c * 2 - c) null), length-replicate (c * 2 - c) null)

  pub grown_low : (j : ℕ) → j < c → get_or (grown null k c xs) j null ≡ get_or xs j null
  grown_low j h = rw longer-eq (
      get_or-append_left (take c l) _ j null (omega (arith, length-take c l, length-longer))
      ∙ get_or-take c j l null h
      ∙ get_or-append_left xs _ j null (omega arith))
    where
      l : List A
      l = xs ++ replicate (c * 2 - c) null

  pub grown_moved : (j : ℕ) → j < k → get_or (grown null k c xs) (c + j) null ≡ get_or xs j null
  grown_moved j h = rw longer-eq (
      get_or-append_right (take c l) (take k l ++ drop (c + k) l) (c + j) j null
        (omega (arith, length-take c l, length-longer))
      ∙ get_or-append_left (take k l) _ j null (omega (arith, length-take k l, length-longer))
      ∙ get_or-take k j l null h
      ∙ get_or-append_left xs _ j null (omega arith))
    where
      l : List A
      l = xs ++ replicate (c * 2 - c) null

  pub grown_blank : (j : ℕ) → k ≤ j → get_or (grown null k c xs) (c + j) null ≡ null
  grown_blank j h = rw longer-eq (
      get_or-append_right (take c l) (take k l ++ drop (c + k) l) (c + j) j null
        (omega (arith, length-take c l, length-longer))
      ∙ get_or-append_right (take k l) (drop (c + k) l) j (j - k) null
          (omega (arith, length-take k l, length-longer))
      ∙ get_or-drop (c + k) (j - k) l null
      ∙ get_or-append_right xs (replicate (c * 2 - c) null) (c + k + (j - k)) j null (omega arith)
      ∙ get_or-replicate (c * 2 - c) j null)
    where
      l : List A
      l = xs ++ replicate (c * 2 - c) null

  -- Read from place `k` on, the doubled buffer has what the old ring has.
  pub grown_ring :
      (i : ℕ) → i < c → get_or (grown null k c xs) (k + i) null ≡ get_or xs ((k + i) % c) null
  grown_ring i h = elim (dec_lt (k + i) c) [
    | yes p ↦ rw (mod-eq_of_lt p) (grown_low (k + i) p)
    | no p ↦
        let back : (k + i) % c ≡ k + i - c =
          mod-eq-sub-mod {n = k + i} {m = c} (omega arith)
          ∙ mod-eq_of_lt {n = k + i - c} {m = c} (omega arith) in
        let e : k + i ≡ c + (k + i - c) = omega arith in
        ap (λ j. get_or (grown null k c xs) j null) e
        ∙ grown_moved (k + i - c) (omega arith)
        ∙ rw back
  ]

module _ {ℓ} {A : Type ℓ} (null : A) {q : Queue A} (v : IsValid q) where
  -- Where the queue is full, the writer's place is the reader's.
  full-place : size q ≡ q.cap → bit_and q.write_idx q.bit_mask ≡ q.read_idx % q.cap
  full-place f =
      write-index v ∙ write-place null v ∙ rw (f, v.cap_eq, add-mod_right q.read_idx (2 ^ v.scale))

  pub grow-eq :
      v.scale ≤ 30
      → size q ≡ q.cap
      → ((grow null q).items ≡ grown null (q.read_idx % q.cap) q.cap q.items)
        × ((grow null q).cap ≡ q.cap * 2)
  unfolding grow
  grow-eq h f =
      let d : q.cap * 2 % u32 ≡ q.cap * 2 =
        omega (arith, doubled_eq q.cap v.scale h v.cap_eq, pow-suc 2 v.scale, v.cap_eq) in
      rw (full-place f, d) (refl, refl)

  pub contents-grow :
      v.scale ≤ 30
      → size q ≡ q.cap
      → q.read_idx / q.cap % 2 ≡ 0
      → contents null (grow null q) ≡ contents null q
  unfolding contents
  contents-grow h f e =
      rw ((grow-eq h f).0, (grow-eq h f).1)
        (unfold grow in
          window-ext null (grown null k q.cap q.items) q.items (q.cap * 2) q.cap r r (size q) same)
    where
      r : ℕ
      r = q.read_idx

      k : ℕ
      k = r % q.cap

      pos : 0 < q.cap
      pos = omega (arith, cap_pos v, v.cap_eq)

      place : (i : ℕ) → i < q.cap → (r + i) % (q.cap * 2) ≡ k + i
      place i p =
          sym (mod-add-mod r (q.cap * 2) i)
          ∙ ap (λ t. (t + i) % (q.cap * 2)) (mod-double r q.cap pos ∙ rw e (omega arith))
          ∙ mod-eq_of_lt (omega (arith, mod-lt r pos))

      same :
          (i : ℕ)
          → i < size q
          → get_or (grown null k q.cap q.items) ((r + i) % (q.cap * 2)) null
            ≡ get_or q.items ((r + i) % q.cap) null
      same i p = rw (place i (omega arith)) (
          grown_ring null k q.cap q.items (v.length_eq ∙ sym v.cap_eq) (mod-lt r pos) i
            (omega arith)
          ∙ ap (λ t. get_or q.items t null) (mod-add-mod r q.cap i))

  -- Where the reader has gone round an odd number of times, the oldest item is not found again.
  pub top-store_item-grow :
      (x : A)
      → v.scale ≤ 30
      → size q ≡ q.cap
      → q.read_idx / q.cap % 2 ≡ 1
      → top (store_item x (grow null q)) ≡ some null
  unfolding top store_item
  top-store_item-grow x h f e = rw reader (
      get_elem?-eq-get_or (set g.items i x) (q.cap + k) null
        (omega (arith, length-set g.items i x, vg.length_eq, vg.cap_eq, g_cap, mod-lt r pos))
      ∙ ap some (
          get_or-set_ne g.items i (q.cap + k) x null (omega (arith, writer))
          ∙ rw ((grow-eq h f).0) (
              grown_blank null k q.cap q.items (v.length_eq ∙ sym v.cap_eq) (mod-lt r pos) k
                (omega arith))))
    where
      g : Queue A
      g = grow null q

      vg : IsValid g
      vg = grow-IsValid null v h

      i : ℕ
      i = bit_and g.write_idx g.bit_mask

      r : ℕ
      r = q.read_idx

      k : ℕ
      k = r % q.cap

      g_cap : g.cap ≡ q.cap * 2
      g_cap = (grow-eq h f).1

      pos : 0 < q.cap
      pos = omega (arith, cap_pos v, v.cap_eq)

      ring : 2 ^ vg.scale ≡ q.cap * 2
      ring = sym vg.cap_eq ∙ g_cap

      odd : r % (q.cap * 2) ≡ q.cap + k
      odd = mod-double r q.cap pos ∙ rw e (omega arith)

      reader : bit_and g.read_idx g.bit_mask ≡ q.cap + k
      reader = read-index vg ∙ rw ring (unfold grow in odd)

      writer : i ≡ k
      writer =
          write-index vg
          ∙ write-place null vg
          ∙ rw ring (
              unfold grow size in
              sym (mod-add-mod r (q.cap * 2) (size q))
              ∙ rw (odd, f)
                  (omega (
                    arith,
                    mod-eq-sub-mod {n = q.cap + k + q.cap} {m = q.cap * 2} (omega arith),
                    mod-eq_of_lt {n = q.cap + k + q.cap - q.cap * 2} {m = q.cap * 2}
                        (omega (arith, mod-lt r pos)),
                  )))
