-- ===== src/Gateway/Handlers/Tests.antt =====
-- The handlers of class Gateway: the properties at concrete mailboxes.
use gateway_socket.Base.{ℕ, ◌≡◌, refl, none, some, [], ◌∷◌, find, insert, erase}
use gateway_socket.Mailbox.{empty, handle, serve_loop}
use gateway_socket.Gateway.Tables.{Tables}
use gateway_socket.Gateway.Samples.{
  user_address, user_mac, static_mac, user, tables, out_frame, packet_of,
}
use gateway_socket.Gateway.Handlers.{
  Gateway, initial, put_user, remove_user, add_static_ip, del_static_ip, add_user, del_user,
}
use gateway_socket.Gateway.Handlers.Laws.{latest, without, add_static_ip-latest}
use gateway_socket.Gateway.Handlers.Order.{AnyOrder, handlers-AnyOrder}
use gateway_socket.Gateway.Handlers.Users.{keyed, add_user-latest, del_user-without}

-- Two requests wait in each mailbox.
abbrev busy : Gateway
busy = record initial {
  tables = tables;
  static_ip_add_request = record { queue = (1, user_mac) ∷ (1, static_mac) ∷ []; count = 2 };
  static_ip_del_request = record { queue = user_address ∷ 7 ∷ []; count = 2 };
  user_add_request = record { queue = user ∷ record user { ip = 7 } ∷ []; count = 2 };
  user_del_request = record { queue = user_address ∷ 7 ∷ []; count = 2 };
  send_packet_request = record {
    queue = packet_of (out_frame user_mac) ∷ packet_of (out_frame static_mac) ∷ [];
    count = 2;
  };
}

add_static_ip-latest_example :
    (t' : Tables) × (add_static_ip busy
      ≡ some (record busy { tables = t'; static_ip_add_request = empty }))
    × (t'.user_map ≡ tables.user_map)
    × ((ip : ℕ)
        → find ip t'.static_ip_map
          ≡ latest ip ((1, user_mac) ∷ (1, static_mac) ∷ []) (find ip tables.static_ip_map))
add_static_ip-latest_example = add_static_ip-latest busy refl

add_user-latest_example :
    (t' : Tables) × (add_user busy ≡ some (record busy { tables = t'; user_add_request = empty }))
    × (t'.static_ip_map ≡ tables.static_ip_map)
    × ((ip : ℕ)
        → find ip t'.user_map
          ≡ latest ip (keyed (user ∷ record user { ip = 7 } ∷ [])) (find ip tables.user_map))
add_user-latest_example = add_user-latest busy refl

del_user-without_example :
    (t' : Tables) × (del_user busy ≡ some (record busy { tables = t'; user_del_request = empty }))
    × (t'.static_ip_map ≡ tables.static_ip_map)
    × ((ip : ℕ)
        → find ip t'.user_map ≡ without ip (user_address ∷ 7 ∷ []) (find ip tables.user_map))
del_user-without_example = del_user-without busy refl

handlers-AnyOrder_example :
    AnyOrder add_static_ip add_user busy
    × AnyOrder add_static_ip del_user busy
    × AnyOrder del_static_ip add_user busy
    × AnyOrder del_static_ip del_user busy
handlers-AnyOrder_example = handlers-AnyOrder busy refl refl refl refl

-- A user that is removed and then added again: the request that came first is served last if the event
-- loop comes to it last.
abbrev readded : Gateway
readded = record initial {
  user_add_request = record { queue = user ∷ []; count = 1 };
  user_del_request = record { queue = user_address ∷ []; count = 1 };
}

readded-lost :
    (g h : Gateway) × (add_user readded ≡ some g)
    × (del_user g ≡ some h)
    × (find user_address h.tables.user_map ≡ none)
unfolding add_user del_user handle serve_loop put_user remove_user find insert erase
readded-lost = (_, _, refl, refl, refl)

readded-kept :
    (g h : Gateway) × (del_user readded ≡ some g)
    × (add_user g ≡ some h)
    × (find user_address h.tables.user_map ≡ some user)
unfolding add_user del_user handle serve_loop put_user remove_user find insert erase
readded-kept = (_, _, refl, refl, refl)
