-- ===== src/Sender/Tests.antt =====
-- Runs of the portable senders, and their theorems at concrete inputs.
use blocky_cloud.Prelude.{
  ℕ, ◌≤◌, List, [], ◌∷◌, Option, none, some, ◌≡◌, refl, arith, length, All, get_elem?, true,
}
use blocky_cloud.Text.{codes}
use blocky_cloud.Smtp.Message.{DriverMessage}
use blocky_cloud.Batcher.Options.{Options, new_options_with_defaults}
use blocky_cloud.Batcher.State.{
  handled, fill, next_batch, new, start, enqueue, add_no_wait, report, continue_with, take_next,
  leave, too_large, returns, locks, exits, shuts_down, Thread, add,
}
use blocky_cloud.Batcher.State as Batcher_State
use blocky_cloud.Sender.Message.{EmailMessage, driver_message, message_size, driver_attachment}
use blocky_cloud.Sender.State.{
  answered, closed_with, send_waits, shutdown_waits, flushing, returned, Sender, Event, send,
  shutdown, acquires, receives, works, answer_of, new_state, new_sender, call_send, lock_shutdown,
  take_answer, deliver_answer, give_up, finish_shutdown, work, lock_send, lock_call, acquire, step,
  run,
}
use blocky_cloud.Sender.Batches.{HasOne, sent, run-HasOne}
use blocky_cloud.Sender.Starved.{run_starved}
use blocky_cloud.Sender.Kept.{second_shutdown}

abbrev letter : EmailMessage
letter = record {
  message_id = [];
  from = codes "a@x";
  to = codes "b@x" ∷ [];
  cc = [];
  bcc = [];
  html_body = codes "hello";
  text_body = [];
  subject = codes "s";
  attachments = [];
  reply_to = [];
  date = 0;
}

-- Errors are numbers here.
abbrev Events : Type 0
Events = List (Event EmailMessage DriverMessage ℕ)

abbrev state_after : Option Options → Events → Sender EmailMessage DriverMessage ℕ
state_after opts es = run driver_message (new_sender opts) es

-- Two calls of Send: the second waits until the first has its answer.
abbrev two_sends : Events
two_sends =
    send letter none
    ∷ send letter none
    ∷ acquires 0
    ∷ acquires 1
    ∷ works (returns 0 (some 7))
    ∷ receives
    ∷ []

runs : Option Options → Events → Sender EmailMessage DriverMessage ℕ
unfolding new_options_with_defaults fill next_batch new start enqueue add_no_wait report
    continue_with take_next leave too_large Batcher_State.step Batcher_State.run driver_message
    driver_attachment message_size answer_of new_sender call_send lock_shutdown take_answer
    deliver_answer give_up finish_shutdown work lock_send lock_call acquire step run
runs = state_after

two_sends_calls :
    (runs none two_sends).calls ≡ returned (answered (handled (some 7))) ∷ send_waits letter ∷ []
unfolding runs
two_sends_calls = refl

abbrev pairs : Options
pairs = record { max_handlers = 1; min_batch_size = 2; max_batch_size = 2; max_batch_byte_size = 0 }

run-HasOne_example :
    (length (sent driver_message (some pairs) (some message_size) two_sends).batcher.pending ≤ 1)
    × All HasOne (sent driver_message (some pairs) (some message_size) two_sends).batcher.threads
run-HasOne_example =
    run-HasOne driver_message (some pairs) (some message_size) two_sends
      (tt, (tt, (tt, (tt, (tt, (tt, tt))))))

run_starved_example :
    (sent driver_message (some pairs) (some message_size) two_sends).batcher.threads ≡ []
unfolding new_options_with_defaults
run_starved_example =
    run_starved driver_message (some pairs) (some message_size) two_sends
      (tt, (tt, (tt, (tt, (tt, (tt, tt)))))) (omega arith)

-- Shutdown was called and has given the mutex back; it is called again.
abbrev shut_twice : Sender EmailMessage DriverMessage ℕ
shut_twice = record (new_state none none) {
  closed = true;
  calls = flushing ∷ shutdown_waits ∷ send_waits letter ∷ [];
}

shut_twice_reached :
    runs none (shutdown ∷ shutdown ∷ send letter none ∷ acquires 0 ∷ [])
    ≡ record shut_twice { batcher = new none (some message_size) }
unfolding runs
shut_twice_reached = refl

waits_still :
    get_elem? (run driver_message (step driver_message shut_twice (acquires 1)) []).calls 2
    ≡ some (send_waits letter)
unfolding new lock_shutdown lock_call acquire step run
waits_still = refl

second_shutdown_example :
    (get_elem? (step driver_message shut_twice (acquires 1)).calls 1
      ≡ some (returned (closed_with none)))
    × (get_elem?
          (run driver_message
            (run driver_message (step driver_message shut_twice (acquires 1)) [])
            (acquires 2 ∷ [])).calls
          2
        ≡ some (send_waits letter))
second_shutdown_example =
    second_shutdown driver_message shut_twice 1 [] (acquires 2 ∷ []) 2 (send_waits letter) refl refl
      refl tt waits_still
