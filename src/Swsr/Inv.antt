-- ===== src/Swsr/Inv.antt =====
-- The representation invariant of the queue of core/zaf/swsr_delivery_queue.hpp once `resize` has
-- set it up, and the arithmetic of its two wrapping indices.
use native.Mathlib.Nat.{mod-lt, pow-suc, pow-le-pow_right}
use zaf.Prelude.{
  ℕ, suc, ◌+◌, ◌-◌, ◌*◌, ◌%◌, ◌^◌, ◌≤◌, ◌<◌, ◌≡◌, ap, ◌∙◌, List, ◌++◌, bit_and, arith, length,
  length-set, length-append, length-replicate, length-take, length-drop, take, drop, replicate,
  ◌==◌,
}
use zaf.Prelude.Bits.{two-pow_pos, bit_and-mask}
use zaf.Swsr.{
  Queue, u32, sub32, size, full, empty, is_full_for_writer, store_item, grow, resize_items,
  move_front,
}

-- The capacity is 2 ^ scale, the buffer is as long, and the indices are at most a capacity apart.
pub record IsValid {ℓ} {A : Type ℓ} (q : Queue A) : Type 0 where
  pub scale : ℕ
  pub scale_le : scale ≤ 31
  pub cap_eq : q.cap ≡ 2 ^ scale
  pub mask_eq : q.bit_mask ≡ 2 ^ scale - 1
  pub length_eq : length q.items ≡ 2 ^ scale
  pub write_lt : q.write_idx < u32
  pub read_lt : q.read_idx < u32
  pub size_le : sub32 q.write_idx q.read_idx ≤ 2 ^ scale

pub two-pow-le : (k : ℕ) → k ≤ 31 → 2 ^ k ≤ 2 ^ 31
two-pow-le k h = pow-le-pow_right (omega arith) h

module _ {ℓ} {A : Type ℓ} {q : Queue A} (v : IsValid q) where
  pub cap_pos : 0 < 2 ^ v.scale
  cap_pos = two-pow_pos v.scale

  pub cap_le : 2 ^ v.scale ≤ 2 ^ 31
  cap_le = two-pow-le v.scale v.scale_le

  -- The three tests of the code are tests of the number of items.
  pub size_tests :
      (is_full_for_writer q ≡ (size q == q.cap))
      × (full q ≡ (size q == q.cap))
      × (empty q ≡ (size q == 0))
  unfolding is_full_for_writer full empty size
  size_tests = ground (arith, cap_pos, cap_le, v.cap_eq, v.write_lt, v.read_lt, v.size_le)

  pub write-index : bit_and q.write_idx q.bit_mask ≡ q.write_idx % 2 ^ v.scale
  write-index = rw v.mask_eq (bit_and-mask v.scale q.write_idx)

  pub read-index : bit_and q.read_idx q.bit_mask ≡ q.read_idx % 2 ^ v.scale
  read-index = rw v.mask_eq (bit_and-mask v.scale q.read_idx)

  -- One more item, where there is room.
  pub store_item-IsValid : (x : A) → size q < q.cap → IsValid (store_item x q)
  unfolding store_item size
  store_item-IsValid x h = record {
    scale = v.scale;
    scale_le = v.scale_le;
    cap_eq = v.cap_eq;
    mask_eq = v.mask_eq;
    length_eq = length-set q.items _ x ∙ v.length_eq;
    write_lt = omega arith;
    read_lt = v.read_lt;
    size_le = omega (arith, v.cap_eq, v.size_le, cap_le, v.write_lt, v.read_lt);
  }

  pub size-store_item : (x : A) → size q < q.cap → size (store_item x q) ≡ size q + 1
  unfolding store_item size
  size-store_item x h = omega (arith, v.cap_eq, v.size_le, cap_le, v.write_lt, v.read_lt)

-- The doubled capacity does not wrap.
pub doubled_eq : (c k : ℕ) → k ≤ 30 → c ≡ 2 ^ k → c * 2 % u32 ≡ 2 ^ suc k
doubled_eq c k h e = omega (arith, pow-suc 2 k, two-pow-le (suc k) (omega arith), e)

pub length-resize_items {ℓ} :
    {A : Type ℓ} (null : A) (n : ℕ) (xs : List A)
    → length xs ≤ n
    → length (resize_items null n xs) ≡ n
length-resize_items null n xs h = omega (
  arith,
  length-append (take n xs) (replicate (n - length xs) null),
  length-replicate (n - length xs) null,
  length-take n xs,
)

pub length-move_front {ℓ} :
    {A : Type ℓ} (k at : ℕ) (xs : List A)
    → at + k ≤ length xs
    → length (move_front k at xs) ≡ length xs
length-move_front k at xs h = omega (
  arith,
  length-append (take at xs) (take k xs ++ drop (at + k) xs),
  length-append (take k xs) (drop (at + k) xs),
  length-take at xs,
  length-take k xs,
  length-drop (at + k) xs,
)

-- `grow` keeps the invariant, one scale up.
pub grow-IsValid {ℓ} :
    {A : Type ℓ} (null : A) {q : Queue A} (v : IsValid q) → v.scale ≤ 30 → IsValid (grow null q)
unfolding grow
grow-IsValid null {q} v h =
    let d : q.cap * 2 % u32 ≡ 2 ^ suc v.scale = doubled_eq q.cap v.scale h v.cap_eq in
    let p : 2 ^ suc v.scale ≡ 2 ^ v.scale * 2 = pow-suc 2 v.scale in
    record {
      scale = suc v.scale;
      scale_le = omega arith;
      cap_eq = d;
      mask_eq = omega (arith, d, cap_pos v, two-pow-le (suc v.scale) (omega arith));
      length_eq = omega (
        arith,
        d,
        p,
        v.length_eq,
        v.cap_eq,
        cap_pos v,
        write-index v,
        mod-lt q.write_idx (cap_pos v),
        length-resize_items null (q.cap * 2 % u32) q.items (omega (arith, d, p, v.length_eq)),
        length-move_front (bit_and q.write_idx q.bit_mask) q.cap
            (resize_items null (q.cap * 2 % u32) q.items),
      );
      write_lt = v.write_lt;
      read_lt = v.read_lt;
      size_le = omega (arith, p, v.size_le);
    }

-- The invariant is about the ring alone: its indices, capacity, mask and buffer.
pub same_ring-IsValid {ℓ} :
    {A : Type ℓ} {q : Queue A} (q' : Queue A)
    → IsValid q
    → q'.write_idx ≡ q.write_idx
    → q'.read_idx ≡ q.read_idx
    → q'.cap ≡ q.cap
    → q'.bit_mask ≡ q.bit_mask
    → q'.items ≡ q.items
    → IsValid q'
same_ring-IsValid q' v w r c m i = record {
  scale = v.scale;
  scale_le = v.scale_le;
  cap_eq = c ∙ v.cap_eq;
  mask_eq = m ∙ v.mask_eq;
  length_eq = ap length i ∙ v.length_eq;
  write_lt = rw w v.write_lt;
  read_lt = rw r v.read_lt;
  size_le = rw (w, r) v.size_le;
}
