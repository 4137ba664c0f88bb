-- ===== src/BehaviorX/Connect/Erased.antt =====
-- A sender that ends may take the last queue away from under a notification
-- (core/src/actor_behavior_x.cpp).
use zaf.Prelude.{
  ℕ, ◌≡◌, ◌≢◌, refl, ap, sym, subst, ◌∙◌, true, false, Option, none, some, List, [], ◌∷◌, ◌==◌,
  ◌++◌, ◌<◌, Bool, length, drop, if◌then◌else◌, eq→==, ne→==,
}
use zaf.BehaviorX.{member, erase, fill_hole, register_swsr_queue, notify_swsr_queue}
use zaf.BehaviorX.Connect.{
  Notice, registration, notification, Link, Links, unconnected, setup_swsr_connection, push_message,
  send, destruct, link, set_link, drop_first, leave_queue, sends, destroys, registers, notifies,
  reads, finds_empty, reads_last, lowers, leaves, initial, Reach, start, later,
}
use zaf.BehaviorX.Connect.Fields.{
  set-here, register-new, notify-registered, notify-unregistered, drop-[],
}

module _ {M : Type 0} (capacity limit self q : ℕ) (room : 0 < capacity) (other : q ≢ self) where
  -- A reachable state with this link of `q`, these queues of the receiver, this one found empty and this
  -- one to leave, with its last read to come or not.
  record Now (l : Link M) (recv active : List ℕ) (found leaving : Option ℕ) (due : Bool)
      : Type 0 where
    now : Links M
    reached : Reach capacity limit self now
    at_link : link q now ≡ l
    at_recv : now.receiver.swsr_recv_queues ≡ recv
    at_active : now.receiver.active_recv_queues ≡ active
    at_found : now.found_empty ≡ found
    at_leaving : now.leaving ≡ leaving
    at_due : now.last_read_due ≡ due

  begin : Now unconnected (self ∷ []) [] none none false
  begin = record {
    now = initial self;
    reached = start;
    at_link = rw (ne→== q self other) refl;
    at_recv = refl;
    at_active = refl;
    at_found = refl;
    at_leaving = refl;
    at_due = refl;
  }

  module _ {l : Link M} {recv active : List ℕ} {found leaving : Option ℕ} {due : Bool} where
    then_send :
        (m : M)
        → l.is_writing_by_sender ≡ true
        → l.items ≡ []
        → Now l recv active found leaving due
        → Now (send m l) recv active found leaving due
    then_send m alive none_there n = record {
      now = set_link q (send m (link q n.now)) n.now;
      reached = later n.reached (
          sends q m (ap (λ k. k.is_writing_by_sender) n.at_link ∙ alive) (
            subst (λ k. length k < capacity) (sym (ap (λ k. k.items) n.at_link ∙ none_there))
              room));
      at_link = sym (set-here q _ n.now) ∙ ap (send m) n.at_link;
      at_recv = n.at_recv;
      at_active = n.at_active;
      at_found = n.at_found;
      at_leaving = n.at_leaving;
      at_due = n.at_due;
    }

    then_destroy :
        Now l recv active found leaving due → Now (destruct l) recv active found leaving due
    then_destroy n = record {
      now = set_link q (destruct (link q n.now)) n.now;
      reached = later n.reached (destroys q);
      at_link = sym (set-here q _ n.now) ∙ ap destruct n.at_link;
      at_recv = n.at_recv;
      at_active = n.at_active;
      at_found = n.at_found;
      at_leaving = n.at_leaving;
      at_due = n.at_due;
    }

    then_read :
        member q active ≡ true
        → leaving ≡ none
        → Now l recv active found leaving due
        → Now (record l { items = drop_first l.items }) recv active none leaving due
    then_read h e n =
        let l' = record (link q n.now) { items = drop_first (link q n.now).items } in
        record {
          now = set_link q l' (record n.now { found_empty = none });
          reached = later n.reached (reads q (ap (member q) n.at_active ∙ h) (n.at_leaving ∙ e));
          at_link =
              sym (set-here q l' n.now)
              ∙ ap {B = Link M} (λ k. record k { items = drop_first k.items }) n.at_link;
          at_recv = n.at_recv;
          at_active = n.at_active;
          at_found = refl;
          at_leaving = n.at_leaving;
          at_due = n.at_due;
        }

    then_find_empty :
        member q active ≡ true
        → leaving ≡ none
        → l.items ≡ []
        → Now l recv active found leaving due
        → Now l recv active (some q) leaving due
    then_find_empty h e f n = record {
      now = record n.now { found_empty = some q };
      reached = later n.reached (
          finds_empty q (ap (member q) n.at_active ∙ h) (n.at_leaving ∙ e)
            (ap (λ k. k.items) n.at_link ∙ f));
      at_link = n.at_link;
      at_recv = n.at_recv;
      at_active = n.at_active;
      at_found = refl;
      at_leaving = n.at_leaving;
      at_due = n.at_due;
    }

    then_register :
        (rest : List Notice)
        → l.notices ≡ registration ∷ rest
        → member q recv ≡ false
        → Now l recv active found leaving due
        → Now (record l { notices = rest }) (q ∷ recv) active found leaving due
    then_register rest e f n =
        let new : register_swsr_queue q n.now.receiver
            ≡ record n.now.receiver { swsr_recv_queues = q ∷ n.now.receiver.swsr_recv_queues } =
          register-new q n.now.receiver (ap (member q) n.at_recv ∙ f) in
        let l' = record (link q n.now) { notices = rest } in
        record {
          now = set_link q l' (record n.now {
            receiver = record n.now.receiver {
              swsr_recv_queues = q ∷ n.now.receiver.swsr_recv_queues;
            };
          });
          reached =
              subst (λ a. Reach capacity limit self (set_link q l' (record n.now { receiver = a })))
                new (later n.reached (registers q rest (ap (λ k. k.notices) n.at_link ∙ e)));
          at_link =
              sym (set-here q l' n.now)
              ∙ ap {B = Link M} (λ k. record k { notices = rest }) n.at_link;
          at_recv = ap (λ z. q ∷ z) n.at_recv;
          at_active = n.at_active;
          at_found = n.at_found;
          at_leaving = n.at_leaving;
          at_due = n.at_due;
        }

    then_notify :
        (rest : List Notice)
        → l.notices ≡ notification ∷ rest
        → member q recv ≡ true
        → Now l recv active found leaving due
        → Now (record l { notices = rest }) recv (active ++ q ∷ []) found leaving due
    then_notify rest e f n =
        let (a, h, same, same_recv, more) =
          notify-registered q n.now.receiver (ap (member q) n.at_recv ∙ f) in
        let l' = record (link q n.now) { notices = rest } in
        record {
          now = set_link q l' (record n.now { receiver = a });
          reached = later n.reached (notifies q rest a (ap (λ k. k.notices) n.at_link ∙ e) h);
          at_link =
              sym (set-here q l' (record n.now { receiver = a }))
              ∙ ap {B = Link M} (λ k. record k { notices = rest }) n.at_link;
          at_recv = same_recv ∙ n.at_recv;
          at_active = more ∙ ap (λ z. z ++ q ∷ []) n.at_active;
          at_found = n.at_found;
          at_leaving = n.at_leaving;
          at_due = n.at_due;
        }

    then_lower :
        member q active ≡ true
        → leaving ≡ none
        → found ≡ some q
        → Now l recv active found leaving due
        → Now (record l { may_have_message = false }) recv active none (some q) true
    then_lower h e f n =
        let l' = record (link q n.now) { may_have_message = false } in
        record {
          now =
              set_link q l'
                (record n.now { found_empty = none; leaving = some q; last_read_due = true });
          reached =
              later n.reached
                (lowers q (ap (member q) n.at_active ∙ h) (n.at_leaving ∙ e) (n.at_found ∙ f));
          at_link =
              sym (set-here q l' n.now)
              ∙ ap {B = Link M} (λ k. record k { may_have_message = false }) n.at_link;
          at_recv = n.at_recv;
          at_active = n.at_active;
          at_found = refl;
          at_leaving = refl;
          at_due = refl;
        }

    then_read_last :
        leaving ≡ some q
        → due ≡ true
        → Now l recv active found leaving due
        → Now (record l { items = drop limit l.items }) recv active found leaving false
    then_read_last e f n =
        let l' = record (link q n.now) { items = drop limit (link q n.now).items } in
        record {
          now = set_link q l' (record n.now { last_read_due = false });
          reached = later n.reached (reads_last q (n.at_leaving ∙ e) (n.at_due ∙ f));
          at_link =
              sym (set-here q l' n.now)
              ∙ ap {B = Link M} (λ k. record k { items = drop limit k.items }) n.at_link;
          at_recv = n.at_recv;
          at_active = n.at_active;
          at_found = n.at_found;
          at_leaving = n.at_leaving;
          at_due = refl;
        }

    then_leave :
        (done rest : List ℕ)
        → active ≡ done ++ q ∷ rest
        → leaving ≡ some q
        → l.is_writing_by_sender ≡ false
        → due ≡ false
        → Now l recv active found leaving due
        → Now l (erase q recv) (done ++ fill_hole rest) none none false
    unfolding leave_queue
    then_leave done rest e f dead last n = record {
      now = leave_queue q done rest n.now;
      reached =
          later n.reached
            (leaves q done rest (n.at_active ∙ e) (n.at_leaving ∙ f) (n.at_due ∙ last));
      at_link = n.at_link;
      at_recv =
          ap
            (λ b.
              if b
              then n.now.receiver.swsr_recv_queues
              else erase q n.now.receiver.swsr_recv_queues)
            (ap (λ k. k.is_writing_by_sender) n.at_link ∙ dead)
          ∙ ap (erase q) n.at_recv;
      at_active = refl;
      at_found = refl;
      at_leaving = refl;
      at_due = refl;
    }

  -- If a queue has room for a message, a sender other than the receiver may send one, have it read, send
  -- another between the last read of the receiver from its queue and the test of `is_writing_by_sender`, and end: the
  -- receiver then drops the queue with the message in it, and `notify_swsr_queue` throws on the
  -- notification.
  pub notify-erased :
      (m : M)
      → (s : Links M) × Reach capacity limit self s
        × ((link q s).notices ≡ notification ∷ [])
        × ((link q s).items ≡ m ∷ [])
        × (notify_swsr_queue q s.receiver ≡ none)
  unfolding member erase fill_hole send setup_swsr_connection push_message destruct
  notify-erased m =
      let same : (q == q) ≡ true = eq→== q q refl in
      let differ : (q == self) ≡ false = ne→== q self other in
      let one =
        then_notify [] refl (rw same refl)
          (then_register (notification ∷ []) refl (rw differ refl) (then_send m refl refl begin)) in
      let two =
        then_lower (rw same refl) refl refl
          (then_find_empty (rw same refl) refl refl (then_read (rw same refl) refl one)) in
      let three = then_destroy (then_send m refl (drop-[] limit) (then_read_last refl refl two)) in
      let four = then_leave [] [] refl refl refl refl three in
      let gone : member q (erase q (q ∷ self ∷ [])) ≡ false = rw (same, differ) refl in
      (
        four.now,
        four.reached,
        ap (λ k. k.notices) four.at_link,
        ap (λ k. k.items) four.at_link ∙ ap (λ z. z ++ m ∷ []) (drop-[] limit),
        notify-unregistered q four.now.receiver (ap (member q) four.at_recv ∙ gone),
      )
