-- ===== src/Sender/State.antt =====
-- `Sender` of email/message_sender.go and `TemplatedSender` of email/templated_sender.go, which differ in
-- their messages only: `convert` is what `Send` makes of a message, `A` the driver's messages.
-- What happens under the mutex `mu` without a wait is one step. Between the steps the calls and the
-- goroutines of the batcher interleave as they like, so a run is any list of events.
use blocky_cloud.Prelude.{
  ℕ, Bool, true, false, ◌&&◌, ◌||◌, List, [], ◌∷◌, ◌++◌, Option, none, some, ◌==◌, if◌then◌else◌,
  get_elem?, set,
}
use blocky_cloud.Smtp.Message.{DriverMessage}
use blocky_cloud.Template.Execute.{TemplatedMessage}
use blocky_cloud.Batcher.Options.{Options}
use blocky_cloud.Batcher.State.{Thread, Reply, Batcher, add, shuts_down}
use blocky_cloud.Batcher.State as Batcher_State
use blocky_cloud.Sender.Message.{message_size}

-- What a call returns: the error of an ended context, `p.err`, the answer of the batcher, or the error
-- of the driver's `Close`, each `none` for nil.
pub data Result (E : Type 0) : Type 0 where
  context_ended : E → Result E
  refused : E → Result E
  answered : Reply E → Result E
  closed_with : Option E → Result E

-- Where a call stands: before `p.mu.Lock()`; in `Send` behind it, where `Add` waits; in `Shutdown`
-- behind it, where the batcher is flushed; returned.
pub data Call (M E : Type 0) : Type 0 where
  send_waits : M → Call M E
  adding : Call M E
  shutdown_waits : Call M E
  flushing : Call M E
  returned : Result E → Call M E

-- The mutex: free, held by the call of `Send` with this index, whose `Add` waits for this channel, or
-- held by a call that has returned.
pub data Lock : Type 0 where
  free : Lock
  sending : ℕ → ℕ → Lock
  kept : Lock

-- The calls so far, the oldest first.
pub record Sender (M A E : Type 0) : Type 0 where
  pub batcher : Batcher A E
  pub mu : Lock
  pub closed : Bool
  pub err : Option E
  pub calls : List (Call M E)

-- Calls, with the error of a context that has ended before; the lock is given to a call; the call that
-- holds it receives the answer, or its context ends; `Shutdown` ends its wait and `Close` returns; and
-- an event of the batcher.
pub data Event (M A E : Type 0) : Type 0 where
  send : M → Option E → Event M A E
  shutdown : Event M A E
  acquires : ℕ → Event M A E
  receives : Event M A E
  gives_up : E → Event M A E
  finishes : ℕ → Option E → Option E → Event M A E
  works : Batcher_State.Event A E → Event M A E

abbrev pub has_error : {E : Type 0} → Option E → Bool
has_error none = false
has_error (some e) = true

-- The first error, else the second.
abbrev pub first_error : {E : Type 0} → Option E → Option E → Option E
first_error none later = later
first_error (some e) later = some e

abbrev no_goroutine : {A : Type 0} → List (Thread A) → Bool
no_goroutine [] = true
no_goroutine (t ∷ ts) = false

module _ {E : Type 0} where
  -- What channel `t` holds.
  unfoldable pub answer_of : ℕ → List (ℕ × Reply E) → Option (Reply E)
  answer_of t [] = none
  answer_of t ((n, r) ∷ rest) = let later = answer_of t rest in if n == t then some r else later

  -- The batcher's `Shutdown` has begun, and what it waits for has come.
  abbrev pub is_flushed : {A : Type 0} → Batcher A E → Bool
  is_flushed b = b.shutdown && no_goroutine b.threads

-- `newSender` and `newTemplatedSender`.
module _ {M A E : Type 0} where
  abbrev pub new_state : Option Options → Option (A → ℕ) → Sender M A E
  new_state opts size = record {
    batcher = Batcher_State.new opts size;
    mu = free;
    closed = false;
    err = none;
    calls = [];
  }

unfoldable pub new_sender : {M E : Type 0} → Option Options → Sender M DriverMessage E
new_sender opts = new_state opts (some message_size)

unfoldable pub new_templated_sender : {M E : Type 0} → Option Options → Sender M TemplatedMessage E
new_templated_sender opts = new_state opts none

module _ {M A E : Type 0} where
  abbrev pub set_call : Sender M A E → ℕ → Call M E → Sender M A E
  set_call s i c = record s { calls = set s.calls i c }

  abbrev pub call : Sender M A E → Call M E → Sender M A E
  call s c = record s { calls = s.calls ++ c ∷ [] }

  -- The start of `Send`, which asks the context first.
  unfoldable pub call_send : Sender M A E → M → Option E → Sender M A E
  call_send s m none = call s (send_waits m)
  call_send s m (some e) = call s (returned (context_ended e))

  -- `Shutdown` behind its lock: where it was called before, it returns with the mutex held.
  unfoldable pub lock_shutdown : Sender M A E → ℕ → Sender M A E
  lock_shutdown s i =
      if s.closed
      then record s { mu = kept; calls = set s.calls i (returned (closed_with none)) }
      else record s { closed = true; calls = set s.calls i flushing }

  -- The select of `Add`: an answer, and the end of the context. Both give the mutex back.
  unfoldable pub take_answer : Sender M A E → ℕ → Option (Reply E) → Sender M A E
  take_answer s i none = s
  take_answer s i (some r) = record s { mu = free; calls = set s.calls i (returned (answered r)) }

  unfoldable pub deliver_answer : Sender M A E → Lock → Sender M A E
  deliver_answer s (sending i t) = take_answer s i (answer_of t s.batcher.replies)
  deliver_answer s free = s
  deliver_answer s kept = s

  unfoldable pub give_up : Sender M A E → E → Lock → Sender M A E
  give_up s e (sending i t) = record s {
    mu = free;
    calls = set s.calls i (returned (context_ended e));
  }
  give_up s e free = s
  give_up s e kept = s

  -- `Shutdown` behind its select, which needs the batcher's end or that of the context: the driver's
  -- `Close`, and its error or else that of the context.
  unfoldable pub finish_shutdown :
      Sender M A E → ℕ → Option E → Option E → Option (Call M E) → Sender M A E
  finish_shutdown s i context close_err (some flushing) =
      if is_flushed s.batcher || has_error context
      then set_call s i (returned (closed_with (first_error close_err context)))
      else s
  finish_shutdown s i context close_err _ = s

  -- The batcher's goroutines; its own `Shutdown` is begun by `Shutdown`, and only `Send` adds items.
  unfoldable pub work : Sender M A E → Batcher_State.Event A E → Sender M A E
  work s (add item) = s
  work s shuts_down =
      if s.closed then record s { batcher = Batcher_State.step s.batcher shuts_down } else s
  work s e = record s { batcher = Batcher_State.step s.batcher e }

module _ {M A E : Type 0} (convert : M → A) where
  -- `Send` behind its lock: `p.err`, or the item is added and its channel waited for.
  unfoldable pub lock_send : Sender M A E → ℕ → M → Option E → Sender M A E
  lock_send s i m (some e) = set_call s i (returned (refused e))
  lock_send s i m none = record s {
    batcher = Batcher_State.add_no_wait s.batcher (convert m);
    mu = sending i s.batcher.next_errc;
    calls = set s.calls i adding;
  }

  unfoldable pub lock_call : Sender M A E → ℕ → Option (Call M E) → Sender M A E
  lock_call s i (some (send_waits m)) = lock_send s i m s.err
  lock_call s i (some shutdown_waits) = lock_shutdown s i
  lock_call s i _ = s

  unfoldable pub acquire : Sender M A E → ℕ → Lock → Sender M A E
  acquire s i free = lock_call s i (get_elem? s.calls i)
  acquire s i (sending j t) = s
  acquire s i kept = s

  -- An event that cannot happen in a state changes nothing.
  unfoldable pub step : Sender M A E → Event M A E → Sender M A E
  step s (send m ended) = call_send s m ended
  step s shutdown = call s shutdown_waits
  step s (acquires i) = acquire s i s.mu
  step s receives = deliver_answer s s.mu
  step s (gives_up e) = give_up s e s.mu
  step s (finishes i context close_err) =
      finish_shutdown s i context close_err (get_elem? s.calls i)
  step s (works e) = work s e

  unfoldable pub run : Sender M A E → List (Event M A E) → Sender M A E
  run s [] = s
  run s (e ∷ es) = run (step s e) es
