-- ===== src/Swsr/Refine.antt =====
-- What the queue holds, and the bounded FIFO that `push` of core/zaf/swsr_delivery_queue.hpp
-- implements.
use native.Mathlib.Nat.{mod-lt, mod-eq_of_lt, mod-eq-sub-mod, mod-add-mod, add-zero, add_assoc}
use native.Mathlib.Numerals.{add-one}
use zaf.Prelude.{
  ℕ, zero, suc, ◌+◌, ◌-◌, ◌%◌, ◌^◌, ◌≤◌, ◌<◌, ◌≡◌, ◌≢◌, refl, ap, ap₂, ◌∙◌, sym, List, [], ◌∷◌,
  ◌++◌, bit_and, arith, length, get_or, set, get_or-set_self, get_or-set_ne, ◌==◌, if◌then◌else◌,
  dec_lt,
}
use zaf.Prelude.Bits.{mod-mod-two-pow}
use zaf.Swsr.{Queue, FullStrategy, blocking, resizing, giveup, u32, size, store_item}
use zaf.Swsr.Inv.{IsValid, write-index, size-store_item}

-- The specification of `push`: a FIFO of `cap` items.
pub data Outcome {ℓ} (A : Type ℓ) : Type ℓ where
  stored refused retry : List A → Outcome A

unfoldable pub fifo_push {ℓ} : {A : Type ℓ} → ℕ → FullStrategy → A → List A → Outcome A
fifo_push cap blocking x l = if length l == cap then retry l else stored (l ++ x ∷ [])
fifo_push cap giveup x l = if length l == cap then refused l else stored (l ++ x ∷ [])
fifo_push cap resizing x l = stored (l ++ x ∷ [])

-- Fewer than `c` steps round a ring of `c` places do not come back to the start.
add-mod-ne-mod : (c h k : ℕ) → 0 < k → k < c → (h + k) % c ≢ h % c
add-mod-ne-mod c h k hk kc = elim (dec_lt (h % c + k) c) [
  | yes p ↦ omega (arith, sym (mod-add-mod h c k), mod-eq_of_lt p)
  | no p ↦ omega (
    arith,
    sym (mod-add-mod h c k),
    mod-lt h {m = c} (omega arith),
    mod-eq-sub-mod {n = h % c + k} {m = c} (omega arith),
    mod-eq_of_lt {n = h % c + k - c} {m = c} (omega (arith, mod-lt h {m = c} (omega arith))),
  )
]

module _ {ℓ} {A : Type ℓ} (null : A) where
  -- The `n` items from index `h` on, in a buffer of `c` places.
  abbrev pub window : List A → ℕ → ℕ → ℕ → List A
  window buf c h zero = []
  window buf c h (suc n) = get_or buf (h % c) null ∷ window buf c (h + 1) n

  unfoldable pub contents : Queue A → List A
  unfolding size
  contents q = window q.items q.cap q.read_idx (size q)

  pub length-window : (buf : List A) (c h n : ℕ) → length (window buf c h n) ≡ n
  length-window buf c h zero = refl
  length-window buf c h (suc n) = ap suc (length-window buf c (h + 1) n)

  -- A window depends on its places alone.
  pub window-ext :
      (xs ys : List A) (c d h k n : ℕ)
      → ((i : ℕ) → i < n → get_or xs ((h + i) % c) null ≡ get_or ys ((k + i) % d) null)
      → window xs c h n ≡ window ys d k n
  window-ext xs ys c d h k zero e = refl
  window-ext xs ys c d h k (suc n) e = ap₂ ◌∷◌ head (window-ext xs ys c d (h + 1) (k + 1) n rest)
    where
      head : get_or xs (h % c) null ≡ get_or ys (k % d) null
      head = rw (← add-zero h, ← add-zero k) (e 0 (omega arith))

      rest : (i : ℕ) → i < n → get_or xs ((h + 1 + i) % c) null ≡ get_or ys ((k + 1 + i) % d) null
      rest i p = rw (add_assoc h 1 i, add_assoc k 1 i) (e (1 + i) (omega arith))

  pub window-set :
      (buf : List A) (c h n i : ℕ) (x : A)
      → c ≤ length buf
      → n < c
      → i ≡ (h + n) % c
      → window (set buf i x) c h (suc n) ≡ window buf c h n ++ x ∷ []
  window-set buf c h zero i x hb hn e =
      rw (e, add-zero h)
        (ap (λ a. a ∷ []) (get_or-set_self buf (h % c) x null (omega (arith, mod-lt h hn))))
  window-set buf c h (suc n) i x hb hn e =
      ap₂ ◌∷◌
        (get_or-set_ne buf i (h % c) x null (rw e (add-mod-ne-mod c h (suc n) (omega arith) hn)))
        (window-set buf c (h + 1) n i x hb (omega arith) (e ∙ ap (λ t. t % c) (shift)))
    where
      shift : h + suc n ≡ h + 1 + n
      shift = omega arith

  -- Where the next item goes, seen from the oldest.
  pub write-place :
      {q : Queue A} (v : IsValid q)
      → q.write_idx % 2 ^ v.scale ≡ (q.read_idx + size q) % 2 ^ v.scale
  unfolding size
  write-place {q} v =
      let e : q.write_idx ≡ (q.read_idx + size q) % u32 = omega (arith, v.write_lt, v.read_lt) in
      ap (λ t. t % 2 ^ v.scale) e
      ∙ mod-mod-two-pow v.scale 32 (q.read_idx + size q) (omega (arith, v.scale_le))

  pub contents-store_item :
      (x : A) {q : Queue A} (v : IsValid q)
      → size q < q.cap
      → contents (store_item x q) ≡ contents q ++ x ∷ []
  unfolding contents
  contents-store_item x {q} v h =
      rw (size-store_item v x h, add-one)
        (unfold store_item in
          window-set q.items q.cap q.read_idx (size q) (bit_and q.write_idx q.bit_mask) x
            (omega (arith, v.cap_eq, v.length_eq)) h (write-index v ∙ write-place v ∙ rw v.cap_eq))
