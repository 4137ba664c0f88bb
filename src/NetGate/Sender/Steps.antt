-- ===== src/NetGate/Sender/Steps.antt =====
-- The runs of a `NetGate::Sender`: what may happen to it, one event after the other.
use zaf.Prelude.{ℕ, suc, ◌+◌, ◌≡◌, Bool, true, none, some, List, [], ◌∷◌, ◌++◌, if◌then◌else◌}
use zaf.Serial.{Bytes}
use zaf.Message.{MessageBytes}
use zaf.NetGate.Sender.{
  Mail, data_conn_req, termination, flush_buffer, forward_message, Sender, new_sender, handle,
  consume_swsr,
}

-- How many terminations there are in a queue, and the messages to forward.
unfoldable pub count_terminations : List Mail → ℕ
count_terminations [] = 0
count_terminations (termination ∷ ms) = suc (count_terminations ms)
count_terminations (data_conn_req host port ∷ ms) = count_terminations ms
count_terminations (flush_buffer ∷ ms) = count_terminations ms
count_terminations (forward_message bytes ∷ ms) = count_terminations ms

unfoldable pub forwarded : Mail → List MessageBytes
forwarded termination = []
forwarded (data_conn_req host port) = []
forwarded flush_buffer = []
forwarded (forward_message bytes) = bytes ∷ []

module _ (url : Bytes → ℕ → Bytes) (connect : Bytes → Bool) where
  -- The messages that `handle_all` takes on.
  unfoldable pub forwarded_all : List Mail → Sender → List MessageBytes
  unfolding forwarded
  forwarded_all [] s = []
  forwarded_all (m ∷ ms) s = forwarded m ++ elim (handle url connect m s) [
    | none ↦ []
    | some s' ↦ if s'.activated then forwarded_all ms s' else []
  ]

module _ (url : Bytes → ℕ → Bytes) (connect : Bytes → Bool) where
  -- A step, with the messages that it takes on for the other machine.
  pub data Step : List MessageBytes → Sender → Sender → Type 0 where
    -- A message of another actor comes to the queue.
    arrive :
        {s : Sender} (m : Mail)
        → count_terminations (m ∷ []) ≡ 0
        → Step [] s (record s { inbox = s.inbox ++ m ∷ [] })
    -- A termination is due.
    terminate :
        {s : Sender} (n : ℕ)
        → s.terminations ≡ suc n
        → Step [] s (record s { terminations = n; inbox = s.inbox ++ termination ∷ [] })
    -- The sender handles the first message of the queue.
    receive :
        {s s' : Sender} (m : Mail) (ms : List Mail)
        → s.activated ≡ true
        → s.inbox ≡ m ∷ ms
        → handle url connect m (record s { inbox = ms }) ≡ some s'
        → Step (forwarded m) s s'
    -- The messages of SWSR queues are consumed; a termination that is due can be among them.
    consume :
        {s s' : Sender} (ms : List Mail) (n : ℕ)
        → s.activated ≡ true
        → s.terminations ≡ n + count_terminations ms
        → consume_swsr url connect ms (record s { terminations = n }) ≡ some s'
        → Step (forwarded_all url connect ms (record s { terminations = n })) s s'

  pub data Reach : List MessageBytes → Sender → Type 0 where
    begin : Reach [] new_sender
    next :
        {accepted ms : List MessageBytes} {s s' : Sender}
        → Reach accepted s
        → Step ms s s'
        → Reach (accepted ++ ms) s'
