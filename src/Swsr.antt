-- ===== src/Swsr.antt =====
-- core/zaf/swsr_delivery_queue.hpp: the queue that one sender thread writes and one receiver thread
-- reads. The functions here are the member functions, one thread's call at a time; `Swsr.Protocol`
-- is the interleaving of the two threads over the `may_have_message` flag.
-- `unsigned` is a number that wraps at 2 ^ 32. The three std::atomic fields are plain fields.
-- `null` is the value-initialised item that `std::vector::resize` fills with (nullptr in ZAF, which
-- stores `Message*`); a moved-from pointer keeps its value, so std::move on items copies.
-- The `destructor` callback and the stream output are not part of the state.
pub mod Inv
pub mod Refine
pub mod Grow
pub mod Push
pub mod Reader
pub mod Protocol
mod Tests
use zaf.Prelude.{
  ℕ, zero, suc, ◌+◌, ◌-◌, ◌*◌, ◌%◌, ◌^◌, Bool, true, false, not, ◌&&◌, ◌||◌, Option, none, some,
  List, [], ◌++◌, bit_and, ltb, ◌==◌, if◌then◌else◌, length, get_elem?, set, take, drop, replicate,
}

-- `SWSRDeliveryQueueFullStrategy`; its `default:` case is a value outside the enumeration.
pub data FullStrategy : Type 0 where
  blocking resizing giveup : FullStrategy

-- 2 ^ 32, at which an `unsigned` wraps.
abbrev pub u32 : ℕ
u32 = 2 ^ 32

abbrev pub add32 : ℕ → ℕ → ℕ
add32 a b = (a + b) % u32

abbrev pub sub32 : ℕ → ℕ → ℕ
sub32 a b = (a + u32 - b) % u32

pub record Queue {ℓ} (A : Type ℓ) : Type ℓ where
  pub write_idx : ℕ
  pub read_idx : ℕ
  pub may_have_message : Bool
  pub cap : ℕ
  pub bit_mask : ℕ
  pub items : List A
  pub flag_stop_pop_some : Bool
  pub num_empty_read : ℕ
  pub is_writing_by_sender : Bool
  pub max_messages_read : ℕ
  pub max_empty_read : ℕ

-- What `push` ends in: the item is in, the item is given up, or (strategy Blocking) the writer is
-- still in its waiting loop, which goes on with the same arguments after the next sleep.
pub data Pushed {ℓ} (A : Type ℓ) : Type ℓ where
  pushed : Queue A → Pushed A
  gave_up : Queue A → Pushed A
  waits : Queue A → Pushed A

module _ {ℓ} {A : Type ℓ} where
  -- The default constructor.
  unfoldable pub init : Queue A
  init = record {
    write_idx = 0;
    read_idx = 0;
    may_have_message = false;
    cap = 0;
    bit_mask = 0;
    items = [];
    flag_stop_pop_some = false;
    num_empty_read = 0;
    is_writing_by_sender = true;
    max_messages_read = 100;
    max_empty_read = 100;
  }

  unfoldable pub clear : Queue A → Queue A
  clear q = record q {
    write_idx = 0;
    read_idx = 0;
    may_have_message = false;
    cap = 0;
    bit_mask = 0;
    items = [];
  }

  -- The move constructor: the new queue and what is left in `other`. Only six fields move.
  unfoldable pub move_from : Queue A → Queue A × Queue A
  unfolding init clear
  move_from other = (
    record (init) {
      write_idx = other.write_idx;
      read_idx = other.read_idx;
      may_have_message = other.may_have_message;
      cap = other.cap;
      bit_mask = other.bit_mask;
      items = other.items;
    },
    clear other,
  )

  unfoldable pub inc_write_progress : Queue A → Queue A × Bool
  inc_write_progress q = (record q { may_have_message = true }, not q.may_have_message)

  unfoldable pub inc_read_progress : Queue A → Queue A
  inc_read_progress q = record q { may_have_message = false }

  unfoldable pub can_read : Queue A → Bool
  can_read q = q.may_have_message

  unfoldable pub full : Queue A → Bool
  full q = sub32 q.write_idx q.read_idx == q.cap

  unfoldable pub empty : Queue A → Bool
  empty q = q.write_idx == q.read_idx

  unfoldable pub size : Queue A → ℕ
  size q = sub32 q.write_idx q.read_idx

  unfoldable pub top : Queue A → Option A
  top q = get_elem? q.items (bit_and q.read_idx q.bit_mask)

  unfoldable pub stop_pop_some : Queue A → Queue A
  stop_pop_some q = record q { flag_stop_pop_some = true }

  -- The test of `push`: `w - cap == read_index()`.
  unfoldable pub is_full_for_writer : Queue A → Bool
  is_full_for_writer q = sub32 q.write_idx q.cap == q.read_idx

  -- `items[w & bit_mask] = elem; write_idx.fetch_add(1)`.
  unfoldable pub store_item : A → Queue A → Queue A
  store_item x q = record q {
    items = set q.items (bit_and q.write_idx q.bit_mask) x;
    write_idx = add32 q.write_idx 1;
  }

  -- std::move of the first k items to the place where the old buffer ended.
  abbrev pub move_front : ℕ → ℕ → List A → List A
  move_front k at xs = take at xs ++ (take k xs ++ drop (at + k) xs)

  module _ (null : A) where
    -- `std::vector::resize`.
    abbrev pub resize_items : ℕ → List A → List A
    resize_items n xs = take n xs ++ replicate (n - length xs) null

    -- `resize(scale)`: the capacity becomes 2 ^ scale.
    unfoldable pub resize : ℕ → Queue A → Queue A
    resize scale q =
        let c = 1 * 2 ^ scale % u32 in
        record q { cap = c; items = resize_items c q.items; bit_mask = sub32 c 1 }

    -- The Resize branch of `push`.
    unfoldable pub grow : Queue A → Queue A
    grow q =
        let doubled = q.cap * 2 % u32 in
        record q {
          items = move_front (bit_and q.write_idx q.bit_mask) q.cap (resize_items doubled q.items);
          cap = doubled;
          bit_mask = sub32 doubled 1;
        }

    unfoldable pub push_full : FullStrategy → A → Queue A → Pushed A
    unfolding store_item grow
    push_full blocking x q = waits q
    push_full resizing x q = pushed (store_item x (grow q))
    push_full giveup x q = gave_up q

    unfoldable pub push : FullStrategy → A → Queue A → Pushed A
    unfolding is_full_for_writer store_item push_full
    push s x q = if is_full_for_writer q then push_full s x q else pushed (store_item x q)
