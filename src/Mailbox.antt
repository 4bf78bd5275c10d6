-- ===== src/Mailbox.antt =====
-- How the threads talk (gateway-socket/gateway.cpp, database.cpp): a queue under a lock, and an eventfd
-- that counts the requests put into it. A lock makes each function that holds it one step.
pub mod Laws
use gateway_socket.Base.{ℕ, zero, suc, ◌+◌, Option, none, some, List, [], ◌∷◌, ◌++◌}

-- The front of the queue is the head of the list.
pub record Mailbox {ℓ} (A : Type ℓ) : Type ℓ where
  pub queue : List A
  pub count : ℕ

module _ {ℓ} {A : Type ℓ} where
  abbrev pub empty : Mailbox A
  empty = record { queue = []; count = 0 }

  -- `queue.push(x); eventfd_write(fd, 1);`
  unfoldable pub post : A → Mailbox A → Mailbox A
  post x m = record { queue = m.queue ++ x ∷ []; count = m.count + 1 }

module _ {ℓ κ} {A : Type ℓ} {S : Type κ} (body : A → S → S) where
  -- `for(count = 0; count < v; count++) { x = queue.front(); queue.pop(); body(x); }`.
  -- `none`: `front` of an empty queue.
  unfoldable pub serve_loop : ℕ → List A → S → Option (List A × S)
  serve_loop zero queue s = some (queue, s)
  serve_loop (suc v) [] s = none
  serve_loop (suc v) (x ∷ queue) s = serve_loop v queue (body x s)

  -- A handler: `eventfd_read` gives the count and sets it to 0, and the loop follows.
  unfoldable pub handle : Mailbox A → S → Option (Mailbox A × S)
  handle m s = elim (serve_loop m.count m.queue s) [
    | none ↦ none
    | some (queue, s') ↦ some (record { queue = queue; count = 0 }, s')
  ]
