-- ===== src/Polls.antt =====
-- The sockets that an actor listens to besides its own (core/src/actor_behavior.cpp): the two vectors
-- `recv_poll_items` and `recv_poll_callbacks`, and the requests to add and remove that are carried out
-- before the next poll. A socket is named by its handle, a callback by a number.
pub mod Remove
mod Tests
use zaf.Prelude.{
  ℕ, suc, Bool, true, false, Option, none, some, List, [], ◌∷◌, ◌++◌, ◌==◌, if◌then◌else◌, length,
  pop_back, exchange_back,
}
use zaf.Serial.Codec.{◌>>=◌}

-- The actor's own socket is at index 0 and has no callback. `called` lists the callbacks of removals that
-- were called, the latest first.
pub record Polls : Type 0 where
  pub recv_poll_items : List ℕ
  pub recv_poll_callbacks : List (Option ℕ)
  pub called : List ℕ

pub data PollRequest : Type 0 where
  add : (handle callback : ℕ) → PollRequest
  remove : (handle : ℕ) (callback : Option ℕ) → PollRequest

-- `if (callback) callback()`
unfoldable pub call : Option ℕ → List ℕ → List ℕ
call none called = called
call (some callback) called = callback ∷ called

-- The search among the items from index `j` on.
unfoldable pub find_socket : (j handle : ℕ) → List ℕ → Option ℕ
find_socket j handle [] = none
find_socket j handle (x ∷ xs) =
    let later = find_socket (suc j) handle xs in if x == handle then some j else later

-- The search from index 1 on; `none` is the exception "Failed to find socket".
unfoldable pub find_poll : (handle : ℕ) → List ℕ → Option ℕ
unfolding find_socket
find_poll handle [] = none
find_poll handle (own ∷ items) = find_socket 1 handle items

-- Both vectors are changed at the same two places.
unfoldable pub remove_poll : (handle : ℕ) → (callback : Option ℕ) → Polls → Option Polls
unfolding find_poll call
remove_poll handle callback s = do
  j ← find_poll handle s.recv_poll_items
  let is_last = suc j == length s.recv_poll_items in
      some (record {
        recv_poll_items =
            pop_back (if is_last then s.recv_poll_items else exchange_back s.recv_poll_items j);
        recv_poll_callbacks =
            pop_back
              (if is_last then s.recv_poll_callbacks else exchange_back s.recv_poll_callbacks j);
        called = call callback s.called;
      })

unfoldable pub process_request : PollRequest → Polls → Option Polls
unfolding remove_poll
process_request (add handle callback) s = some (record s {
  recv_poll_items = s.recv_poll_items ++ handle ∷ [];
  recv_poll_callbacks = s.recv_poll_callbacks ++ some callback ∷ [];
})
process_request (remove handle callback) s = remove_poll handle callback s

unfoldable pub process_recv_poll_reqs : List PollRequest → Polls → Option Polls
unfolding process_request
process_recv_poll_reqs [] s = some s
process_recv_poll_reqs (r ∷ rs) s = do s' ← process_request r s; process_recv_poll_reqs rs s'
