-- ===== src/Gateway/Loop/Sound.antt =====
-- The server's state: the eventfds count the queues and the buffers are whole, before and after every
-- handler and every request.
use gateway_socket.Base.{◌≤◌, ◌≡◌, refl, ◌⊎◌, inl, inr, true, some, ◌++◌, map, arith}
use gateway_socket.Gateway.Tables.{send_inside}
use gateway_socket.Mailbox.{empty}
use gateway_socket.Mailbox.Laws.{IsCounted, post-IsCounted}
use gateway_socket.Gateway.Buffer.{IsBuffer}
use gateway_socket.Gateway.Handlers.{
  request_add_static_ip, request_del_static_ip, add_user_info, del_user_info, request_send_packet,
}
use gateway_socket.Gateway.Handlers.Laws.{
  add_static_ip-latest, del_static_ip-without, frames, send_packet-frames,
}
use gateway_socket.Gateway.Handlers.Users.{add_user-latest, del_user-without}
use gateway_socket.Gateway.Loop.{
  Server, Request, static_ip_added, static_ip_deleted, user_added, user_deleted, packet_given,
  terminated, request, Event, add_static_event, del_static_event, add_user_event, del_user_event,
  send_packet_event, term_event, count_of, handle_event, with_gateway, with_frames,
}

pub record IsSound (s : Server) : Type 0 where
  pub added : IsCounted s.gateway.static_ip_add_request
  pub deleted : IsCounted s.gateway.static_ip_del_request
  pub users_added : IsCounted s.gateway.user_add_request
  pub users_deleted : IsCounted s.gateway.user_del_request
  pub packets : IsCounted s.gateway.send_packet_request
  pub in_buffer : IsBuffer s.in_packet
  pub out_buffer : IsBuffer s.out_packet

all-IsSound :
    (s : Server)
    → IsCounted s.gateway.static_ip_add_request
    → IsCounted s.gateway.static_ip_del_request
    → IsCounted s.gateway.user_add_request
    → IsCounted s.gateway.user_del_request
    → IsCounted s.gateway.send_packet_request
    → IsBuffer s.in_packet
    → IsBuffer s.out_packet
    → IsSound s
all-IsSound s a b c d e i o = record {
  added = a;
  deleted = b;
  users_added = c;
  users_deleted = d;
  packets = e;
  in_buffer = i;
  out_buffer = o;
}

pub request-IsSound : (r : Request) (s : Server) → IsSound s → IsSound (request r s)
unfolding request request_add_static_ip request_del_static_ip add_user_info del_user_info
    request_send_packet
request-IsSound (static_ip_added ip mac) s v =
    all-IsSound _ (post-IsCounted (ip, mac) s.gateway.static_ip_add_request v.added) v.deleted
      v.users_added v.users_deleted v.packets v.in_buffer v.out_buffer
request-IsSound (static_ip_deleted ip) s v =
    all-IsSound _ v.added (post-IsCounted ip s.gateway.static_ip_del_request v.deleted)
      v.users_added v.users_deleted v.packets v.in_buffer v.out_buffer
request-IsSound (user_added info) s v =
    all-IsSound _ v.added v.deleted (post-IsCounted info s.gateway.user_add_request v.users_added)
      v.users_deleted v.packets v.in_buffer v.out_buffer
request-IsSound (user_deleted ip) s v =
    all-IsSound _ v.added v.deleted v.users_added
      (post-IsCounted ip s.gateway.user_del_request v.users_deleted) v.packets v.in_buffer
      v.out_buffer
request-IsSound (packet_given p) s v =
    all-IsSound _ v.added v.deleted v.users_added v.users_deleted
      (post-IsCounted p s.gateway.send_packet_request v.packets) v.in_buffer v.out_buffer
request-IsSound terminated s v =
    all-IsSound _ v.added v.deleted v.users_added v.users_deleted v.packets v.in_buffer v.out_buffer

-- A handler serves its own event, and raises no other.
pub record IsHandled (e : Event) (s t : Server) : Type 0 where
  pub sound : IsSound t
  pub served : count_of e t ≡ 0
  pub others : (f : Event) → count_of f t ≤ count_of f s
  pub exits : s.got_exit ≡ true → t.got_exit ≡ true
  pub stops : (t.got_exit ≡ true) ⊎ (count_of term_event t ≡ count_of term_event s)

fewer :
    (s t : Server)
    → count_of add_static_event t ≤ count_of add_static_event s
    → count_of del_static_event t ≤ count_of del_static_event s
    → count_of add_user_event t ≤ count_of add_user_event s
    → count_of del_user_event t ≤ count_of del_user_event s
    → count_of send_packet_event t ≤ count_of send_packet_event s
    → count_of term_event t ≤ count_of term_event s
    → (f : Event) → count_of f t ≤ count_of f s
fewer s t a b c d e g add_static_event = a
fewer s t a b c d e g del_static_event = b
fewer s t a b c d e g add_user_event = c
fewer s t a b c d e g del_user_event = d
fewer s t a b c d e g send_packet_event = e
fewer s t a b c d e g term_event = g

pub handle_event-IsHandled :
    (e : Event) (s : Server)
    → IsSound s
    → (t : Server) × (handle_event e s ≡ some t) × IsHandled e s t
unfolding handle_event
handle_event-IsHandled add_static_event s v =
    let (t, e, u, m) = add_static_ip-latest s.gateway v.added in
    (
      record s { gateway = record s.gateway { tables = t; static_ip_add_request = empty } },
      rw (with_gateway, e) refl,
      record {
        sound =
            all-IsSound _ refl v.deleted v.users_added v.users_deleted v.packets v.in_buffer
              v.out_buffer;
        served = refl;
        others =
            fewer s _ (omega arith) (omega arith) (omega arith) (omega arith) (omega arith)
              (omega arith);
        exits = λ h. h;
        stops = inr refl;
      },
    )
handle_event-IsHandled del_static_event s v =
    let (t, e, u, m) = del_static_ip-without s.gateway v.deleted in
    (
      record s { gateway = record s.gateway { tables = t; static_ip_del_request = empty } },
      rw (with_gateway, e) refl,
      record {
        sound =
            all-IsSound _ v.added refl v.users_added v.users_deleted v.packets v.in_buffer
              v.out_buffer;
        served = refl;
        others =
            fewer s _ (omega arith) (omega arith) (omega arith) (omega arith) (omega arith)
              (omega arith);
        exits = λ h. h;
        stops = inr refl;
      },
    )
handle_event-IsHandled add_user_event s v =
    let (t, e, u, m) = add_user-latest s.gateway v.users_added in
    (
      record s { gateway = record s.gateway { tables = t; user_add_request = empty } },
      rw (with_gateway, e) refl,
      record {
        sound =
            all-IsSound _ v.added v.deleted refl v.users_deleted v.packets v.in_buffer v.out_buffer;
        served = refl;
        others =
            fewer s _ (omega arith) (omega arith) (omega arith) (omega arith) (omega arith)
              (omega arith);
        exits = λ h. h;
        stops = inr refl;
      },
    )
handle_event-IsHandled del_user_event s v =
    let (t, e, u, m) = del_user-without s.gateway v.users_deleted in
    (
      record s { gateway = record s.gateway { tables = t; user_del_request = empty } },
      rw (with_gateway, e) refl,
      record {
        sound =
            all-IsSound _ v.added v.deleted v.users_added refl v.packets v.in_buffer v.out_buffer;
        served = refl;
        others =
            fewer s _ (omega arith) (omega arith) (omega arith) (omega arith) (omega arith)
              (omega arith);
        exits = λ h. h;
        stops = inr refl;
      },
    )
handle_event-IsHandled send_packet_event s v = (
  record s {
    gateway = record s.gateway { send_packet_request = empty };
    effects = s.effects ++ map send_inside (frames s.gateway.send_packet_request.queue);
  },
  rw (with_frames, send_packet-frames s.gateway v.packets) refl,
  record {
    sound =
        all-IsSound _ v.added v.deleted v.users_added v.users_deleted refl v.in_buffer v.out_buffer;
    served = refl;
    others =
        fewer s _ (omega arith) (omega arith) (omega arith) (omega arith) (omega arith)
          (omega arith);
    exits = λ h. h;
    stops = inr refl;
  },
)
handle_event-IsHandled term_event s v = (
  _,
  refl,
  record {
    sound =
        all-IsSound _ v.added v.deleted v.users_added v.users_deleted v.packets v.in_buffer
          v.out_buffer;
    served = refl;
    others =
        fewer s _ (omega arith) (omega arith) (omega arith) (omega arith) (omega arith)
          (omega arith);
    exits = λ h. refl;
    stops = inl refl;
  },
)
