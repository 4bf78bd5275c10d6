-- ===== src/Mailbox/Laws.antt =====
-- The queues with their eventfds: a handler takes every request, and no schedule of posts and handlers
-- loses, repeats or reorders one.
use gateway_socket.Base.{
  ℕ, zero, suc, ◌≡◌, refl, ap, ◌∙◌, sym, Option, none, some, List, [], ◌∷◌, ◌++◌, append_assoc,
  append-nil, length, length-append, arith,
}
use gateway_socket.Mailbox.{Mailbox, empty, post, serve_loop, handle}

-- The eventfd counts the requests in the queue.
abbrev pub IsCounted {ℓ} : {A : Type ℓ} → Mailbox A → Type 0
IsCounted m = m.count ≡ length m.queue

pub post-IsCounted {ℓ} : {A : Type ℓ} (x : A) (m : Mailbox A) → IsCounted m → IsCounted (post x m)
unfolding post
post-IsCounted x m c = omega (arith, length-append m.queue (x ∷ []))

-- A mailbox whose eventfd is 0 is empty.
pub nothing_waits {ℓ} : {A : Type ℓ} (m : Mailbox A) → IsCounted m → m.count ≡ 0 → m.queue ≡ []
nothing_waits {A = A} m c e = go m.queue (sym c ∙ e)
  where
    go : (xs : List A) → length xs ≡ 0 → xs ≡ []
    go [] h = refl
    go (x ∷ xs) h = absurd (omega (arith, h))

queue-post {ℓ} :
    {A : Type ℓ} (m : Mailbox A) (x : A) (xs : List A) → (post x m).queue ++ xs ≡ m.queue ++ x ∷ xs
unfolding post
queue-post m x xs = append_assoc m.queue (x ∷ []) xs

module _ {ℓ κ} {A : Type ℓ} {S : Type κ} (body : A → S → S) where
  -- The requests of a list, served in its order.
  abbrev pub serve_all : List A → S → S
  serve_all [] s = s
  serve_all (x ∷ xs) s = serve_all xs (body x s)

  pub serve_all-append :
      (xs ys : List A) (s : S) → serve_all (xs ++ ys) s ≡ serve_all ys (serve_all xs s)
  serve_all-append [] ys s = refl
  serve_all-append (x ∷ xs) ys s = serve_all-append xs ys (body x s)

  serve_loop-all :
      (v : ℕ) (queue : List A) (s : S)
      → v ≡ length queue
      → serve_loop body v queue s ≡ some ([], serve_all queue s)
  unfolding serve_loop
  serve_loop-all zero [] s e = refl
  serve_loop-all zero (x ∷ queue) s e = absurd (omega arith)
  serve_loop-all (suc v) [] s e = absurd (omega arith)
  serve_loop-all (suc v) (x ∷ queue) s e = serve_loop-all v queue (body x s) (omega arith)

  -- A handler never meets an empty queue; it serves all that was posted, oldest first, and leaves the
  -- mailbox empty.
  pub handle-serve_all :
      (m : Mailbox A) (s : S) → IsCounted m → handle body m s ≡ some (empty, serve_all m.queue s)
  unfolding handle
  handle-serve_all m s c = rw (serve_loop-all m.count m.queue s c, handle) refl

  -- A schedule: other threads post, and the event loop runs the handler.
  pub data Event : Type ℓ where
    posts : A → Event
    handles : Event

  unfoldable pub step : Event → Mailbox A × S → Option (Mailbox A × S)
  step (posts x) (m, s) = some (post x m, s)
  step handles (m, s) = handle body m s

  unfoldable pub run : List Event → Mailbox A × S → Option (Mailbox A × S)
  run [] c = some c
  run (e ∷ es) c = elim (step e c) [ none ↦ none | some c' ↦ run es c' ]

  -- What the other threads posted, in order.
  abbrev pub posted : List Event → List A
  posted [] = []
  posted (posts x ∷ es) = x ∷ posted es
  posted (handles ∷ es) = posted es

  -- From a mailbox whose eventfd counts its queue, any schedule of posts and handlers runs
  -- without a fault, to one that does; what was served and then what still waits make up what was
  -- waiting and what was posted, in that order.
  pub run-serve_all :
      (es : List Event) (m : Mailbox A) (s : S)
      → IsCounted m
      → (m' : Mailbox A) × (s' : S) × (run es (m, s) ≡ some (m', s'))
        × IsCounted m'
        × (serve_all m'.queue s' ≡ serve_all (m.queue ++ posted es) s)
  unfolding run step
  run-serve_all [] m s c = (m, s, refl, c, ap (λ q. serve_all q s) (sym (append-nil m.queue)))
  run-serve_all (posts x ∷ es) m s c =
      let (m', s', r, c', e) = run-serve_all es (post x m) s (post-IsCounted x m c) in
      (m', s', r, c', e ∙ ap (λ q. serve_all q s) (queue-post m x (posted es)))
  run-serve_all (handles ∷ es) m s c =
      let (m', s', r, c', e) = run-serve_all es empty (serve_all m.queue s) refl in
      (
        m',
        s',
        rw (handle-serve_all m s c, run) r,
        c',
        e ∙ sym (serve_all-append m.queue (posted es) s),
      )
