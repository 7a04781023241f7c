-- ===== src/Sender/Kept.antt =====
-- A second call of `Shutdown` of a portable sender keeps the mutex: email/message_sender.go.
use blocky_cloud.Prelude.{
  ℕ, zero, suc, true, ◌||◌, List, [], ◌∷◌, ◌++◌, Option, none, some, get_elem?, set, if_cases,
  if◌then◌else◌, ◌≡◌, ◌≢◌, refl, sym, ap, ◌∙◌, arith,
}
use blocky_cloud.Batcher.State.{Batcher, add, returns, locks, exits, shuts_down}
use blocky_cloud.Batcher.State as Batcher_State
use blocky_cloud.Sender.State.{
  closed_with, Call, send_waits, adding, shutdown_waits, flushing, returned, free, kept, Sender,
  Event, send, shutdown, acquires, receives, gives_up, finishes, works, call_send, lock_shutdown,
  deliver_answer, give_up, finish_shutdown, work, lock_call, acquire, step, run, is_flushed,
  has_error, first_error, set_call,
}
use mathlib.Core.Path.{subst}

module _ {ℓ} {A : Type ℓ} where
  get_elem?-append :
      (xs ys : List A) (j : ℕ) {x : A} → get_elem? xs j ≡ some x → get_elem? (xs ++ ys) j ≡ some x
  get_elem?-append [] ys j h = cc
  get_elem?-append (y ∷ xs) ys zero h = h
  get_elem?-append (y ∷ xs) ys (suc j) h = get_elem?-append xs ys j h

  -- A write elsewhere, since another entry stands there.
  get_elem?-set :
      (xs : List A) (i j : ℕ) {x y : A} (v : A)
      → get_elem? xs j ≡ some x
      → get_elem? xs i ≡ some y
      → x ≢ y
      → get_elem? (set xs i v) j ≡ some x
  get_elem?-set [] i j v h g n = cc
  get_elem?-set (z ∷ xs) zero zero {x} {y} v h g n = let same : x ≡ y = cc in absurd (n same)
  get_elem?-set (z ∷ xs) zero (suc j) v h g n = h
  get_elem?-set (z ∷ xs) (suc i) zero v h g n = h
  get_elem?-set (z ∷ xs) (suc i) (suc j) v h g n = get_elem?-set xs i j v h g n

  get_elem?-set_self :
      (xs : List A) (i : ℕ) {x : A} (v : A)
      → get_elem? xs i ≡ some x
      → get_elem? (set xs i v) i ≡ some v
  get_elem?-set_self [] i v h = cc
  get_elem?-set_self (z ∷ xs) zero v h = refl
  get_elem?-set_self (z ∷ xs) (suc i) v h = get_elem?-set_self xs i v h

module _ {M E : Type 0} where
  -- A call that stands before the mutex.
  abbrev pub WantsLock : Call M E → Type 0
  WantsLock (send_waits m) = Unit
  WantsLock shutdown_waits = Unit
  WantsLock _ = ⊥

  wants-ne-flushing : (c : Call M E) → WantsLock c → c ≢ flushing
  wants-ne-flushing (send_waits m) w h = cc
  wants-ne-flushing shutdown_waits w h = cc
  wants-ne-flushing adding w h = w
  wants-ne-flushing flushing w h = w
  wants-ne-flushing (returned r) w h = w

module _ {M A E : Type 0} where
  -- Call `j` waits for the mutex, which is kept.
  pub record IsBlocked (j : ℕ) (c : Call M E) (s : Sender M A E) : Type 0 where
    pub held : s.mu ≡ kept
    pub waits : get_elem? s.calls j ≡ some c

  call-IsBlocked :
      (s : Sender M A E) (j : ℕ) (c d : Call M E) (t : Sender M A E)
      → t.mu ≡ s.mu
      → t.calls ≡ s.calls ++ d ∷ []
      → IsBlocked j c s
      → IsBlocked j c t
  call-IsBlocked s j c d t m e b = record {
    held = m ∙ b.held;
    waits = ap (λ l. get_elem? l j) e ∙ get_elem?-append s.calls (d ∷ []) j b.waits;
  }

  finish-IsBlocked :
      (s : Sender M A E) (i : ℕ) (context close_err : Option E) (o : Option (Call M E)) (j : ℕ)
      (c : Call M E)
      → get_elem? s.calls i ≡ o
      → WantsLock c
      → IsBlocked j c s
      → IsBlocked j c (finish_shutdown s i context close_err o)
  unfolding finish_shutdown
  finish-IsBlocked s i context close_err (some flushing) j c e w b =
      let r : Call M E = returned (closed_with (first_error close_err context)) in
      if_cases (IsBlocked j c) (is_flushed s.batcher || has_error context) (set_call s i r) s
        (λ _. record {
          held = b.held;
          waits = get_elem?-set s.calls i j r b.waits e (wants-ne-flushing c w);
        })
        (λ _. b)
  finish-IsBlocked s i context close_err none j c e w b = b
  finish-IsBlocked s i context close_err (some (send_waits m)) j c e w b = b
  finish-IsBlocked s i context close_err (some shutdown_waits) j c e w b = b
  finish-IsBlocked s i context close_err (some adding) j c e w b = b
  finish-IsBlocked s i context close_err (some (returned r)) j c e w b = b

  work-IsBlocked :
      (s : Sender M A E) (e : Batcher_State.Event A E) (j : ℕ) (c : Call M E)
      → IsBlocked j c s
      → IsBlocked j c (work s e)
  unfolding work
  work-IsBlocked s (add item) j c b = b
  work-IsBlocked s shuts_down j c b =
      if_cases (IsBlocked j c) s.closed _ _ (λ _. record { held = b.held; waits = b.waits })
        (λ _. b)
  work-IsBlocked s (returns i err) j c b = record { held = b.held; waits = b.waits }
  work-IsBlocked s (locks i) j c b = record { held = b.held; waits = b.waits }
  work-IsBlocked s (exits i) j c b = record { held = b.held; waits = b.waits }

  module _ (convert : M → A) where
    step-IsBlocked :
        (s : Sender M A E) (e : Event M A E) (j : ℕ) (c : Call M E)
        → WantsLock c
        → IsBlocked j c s
        → IsBlocked j c (step convert s e)
    unfolding step call_send acquire deliver_answer give_up
    step-IsBlocked s (send m none) j c w b = call-IsBlocked s j c (send_waits m) _ refl refl b
    step-IsBlocked s (send m (some e)) j c w b = call-IsBlocked s j c _ _ refl refl b
    step-IsBlocked s shutdown j c w b = call-IsBlocked s j c shutdown_waits _ refl refl b
    step-IsBlocked s (acquires i) j c w b =
        subst (λ l. IsBlocked j c (acquire convert s i l)) (sym b.held) b
    step-IsBlocked s receives j c w b =
        subst (λ l. IsBlocked j c (deliver_answer s l)) (sym b.held) b
    step-IsBlocked s (gives_up e) j c w b =
        subst (λ l. IsBlocked j c (give_up s e l)) (sym b.held) b
    step-IsBlocked s (finishes i context close_err) j c w b =
        finish-IsBlocked s i context close_err (get_elem? s.calls i) j c refl w b
    step-IsBlocked s (works e) j c w b = work-IsBlocked s e j c b

    run-IsBlocked :
        (s : Sender M A E) (es : List (Event M A E)) (j : ℕ) (c : Call M E)
        → WantsLock c
        → IsBlocked j c s
        → IsBlocked j c (run convert s es)
    unfolding run
    run-IsBlocked s [] j c w b = b
    run-IsBlocked s (e ∷ es) j c w b =
        run-IsBlocked (step convert s e) es j c w (step-IsBlocked s e j c w b)

    step-kept : (s : Sender M A E) (e : Event M A E) → s.mu ≡ kept → (step convert s e).mu ≡ kept
    unfolding step call_send acquire deliver_answer give_up finish_shutdown work
    step-kept s (send m ended) h = ground arith
    step-kept s shutdown h = h
    step-kept s (acquires i) h = subst (λ l. (acquire convert s i l).mu ≡ kept) (sym h) h
    step-kept s receives h = subst (λ l. (deliver_answer s l).mu ≡ kept) (sym h) h
    step-kept s (gives_up e) h = subst (λ l. (give_up s e l).mu ≡ kept) (sym h) h
    step-kept s (finishes i context close_err) h = ground arith
    step-kept s (works (add item)) h = h
    step-kept s (works shuts_down) h = ground arith
    step-kept s (works (returns i err)) h = h
    step-kept s (works (locks i)) h = h
    step-kept s (works (exits i)) h = h

    run-kept :
        (s : Sender M A E) (es : List (Event M A E)) → s.mu ≡ kept → (run convert s es).mu ≡ kept
    unfolding run
    run-kept s [] h = h
    run-kept s (e ∷ es) h = run-kept (step convert s e) es (step-kept s e h)

    second_step :
        (s : Sender M A E) (i : ℕ)
        → s.mu ≡ free
        → s.closed ≡ true
        → get_elem? s.calls i ≡ some shutdown_waits
        → step convert s (acquires i)
          ≡ record s { mu = kept; calls = set s.calls i (returned (closed_with none)) }
    unfolding step acquire lock_call lock_shutdown
    second_step s i e d h =
        ap (acquire convert s i) e
        ∙ ap (lock_call convert s i) h
        ∙ ap
            (λ b.
              if b
              then record s { mu = kept; calls = set s.calls i (returned (closed_with none)) }
              else record s { closed = true; calls = set s.calls i flushing })
            d

    -- After Shutdown was called, a second call of it returns nil and keeps the mutex: whatever happens then
    -- and later, every call of Send or Shutdown that stands before the mutex at some time, made before or
    -- after, stands there for ever.
    pub second_shutdown :
        (s : Sender M A E) (i : ℕ) (es later : List (Event M A E)) (j : ℕ) (c : Call M E)
        → s.mu ≡ free
        → s.closed ≡ true
        → get_elem? s.calls i ≡ some shutdown_waits
        → WantsLock c
        → get_elem? (run convert (step convert s (acquires i)) es).calls j ≡ some c
        → (get_elem? (step convert s (acquires i)).calls i ≡ some (returned (closed_with none)))
          × (get_elem? (run convert (run convert (step convert s (acquires i)) es) later).calls j
              ≡ some c)
    second_shutdown s i es later j c e d h w b =
        let q = second_step s i e d h in
        let k = ap (λ (t : Sender M A E). t.mu) q in
        (
          ap (λ (t : Sender M A E). get_elem? t.calls i) q ∙ get_elem?-set_self s.calls i _ h,
          (run-IsBlocked (run convert (step convert s (acquires i)) es) later j c w
              (record { held = run-kept (step convert s (acquires i)) es k; waits = b })).waits,
        )
