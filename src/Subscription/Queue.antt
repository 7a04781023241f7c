-- ===== src/Subscription/Queue.antt =====
-- Every message is handed out once, in the order of its arrival: `Receive` of
-- email/delivery_subscription.go.
use blocky_cloud.Prelude.{
  ℕ, List, [], ◌∷◌, ◌++◌, Option, none, some, map, ◌≡◌, refl, sym, ap, ◌∙◌, arith, append-nil,
  append_assoc,
}
use mathlib.Core.List.{map-append}
use blocky_cloud.Errors.Chain.{Error}
use blocky_cloud.Subscription.Float.{Float}
use blocky_cloud.Subscription.Event.{DriverEvent, convert}
use blocky_cloud.Subscription.State.{
  Subscription, Failure, Fetched, messages, failed, start_fetch, take_head, unless_failed,
  close_unless, receive, outcome, finish_fetch, shutdown, shut_down, fetch_failed, Event, receives,
  fetches, shuts_down, step, given, run, brought, arrivals,
}

module _ {F : Type 0} (fl : Float F) (error_code : Error → ℕ) where
  pub start_fetch-queue : (now : ℕ) (s : Subscription F) → (start_fetch fl now s).queue ≡ s.queue
  unfolding start_fetch
  start_fetch-queue now s = ground arith

  take_head-queue :
      (s : Subscription F) (q : List DriverEvent)
      → s.queue ≡ q
      → map convert q
        ≡ given fl error_code (some (take_head fl s q).0) ++ map convert (take_head fl s q).1.queue
  unfolding take_head
  take_head-queue s [] e = ap (map convert) (sym e)
  take_head-queue s (m ∷ q) e = refl

  unless_failed-queue :
      (f : Option Failure) (ctx : Option Error) (now : ℕ) (s : Subscription F)
      → let r = unless_failed fl f ctx now s in
        map convert s.queue ≡ given fl error_code (some r.0) ++ map convert r.1.queue
  unless_failed-queue (some f) ctx now s = refl
  unless_failed-queue none (some e) now s = refl
  unless_failed-queue none none now s =
      let s' = start_fetch fl now s in
      ap (map convert) (sym (start_fetch-queue now s)) ∙ take_head-queue s' s'.queue refl

  close_unless-queue :
      (f : Option Failure) (s : Subscription F) → (close_unless fl f s).queue ≡ s.queue
  close_unless-queue none s = refl
  close_unless-queue (some shut_down) s = refl
  close_unless-queue (some (fetch_failed e)) s = refl

  finish_fetch-queue :
      (s : Subscription F) (o : Option Fetched)
      → (finish_fetch fl s o).queue ≡ s.queue ++ brought fl error_code o
  unfolding finish_fetch
  finish_fetch-queue s none = sym (append-nil s.queue)
  finish_fetch-queue s (some (messages ms)) = refl
  finish_fetch-queue s (some (failed e)) = sym (append-nil s.queue)

  -- In every run the events that `Receive` hands out, followed by those that wait in the queue, are
  -- those that waited at the start, followed by all that the fetches have brought.
  pub run-arrivals :
      (s : Subscription F) (es : List Event)
      → let r = run fl error_code s es in
        r.0 ++ map convert r.1.queue ≡ map convert (s.queue ++ arrivals fl error_code s es)
  unfolding run arrivals step receive shutdown
  run-arrivals s [] = ap (map convert) (sym (append-nil s.queue))
  run-arrivals s (receives ctx now ∷ es) =
      let f = s.failure in
      let r = unless_failed fl f ctx now s in
      let g = given fl error_code (some r.0) in
      let rest = arrivals fl error_code r.1 es in
      let ih = run-arrivals r.1 es in
      let q = unless_failed-queue f ctx now s in
      append_assoc g _ _
      ∙ ap (λ l. g ++ l) (ih ∙ map-append convert r.1.queue rest)
      ∙ sym (append_assoc g _ _)
      ∙ ap (λ l. l ++ map convert rest) (sym q)
      ∙ sym (map-append convert s.queue rest)
  run-arrivals s (fetches answers ∷ es) =
      let o = outcome fl error_code s answers in
      run-arrivals (finish_fetch fl s o) es
      ∙ ap (map convert) (
          ap (λ l. l ++ arrivals fl error_code (finish_fetch fl s o) es) (finish_fetch-queue s o)
          ∙ append_assoc s.queue (brought fl error_code o) _)
  run-arrivals s (shuts_down ∷ es) =
      let s' = close_unless fl s.failure s in
      run-arrivals s' es
      ∙ ap (λ l. map convert (l ++ arrivals fl error_code s' es)) (close_unless-queue s.failure s)
