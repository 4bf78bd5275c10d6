-- ===== src/Device/Tests.antt =====
-- class Device: the properties at concrete inputs.
use gateway_socket.Base.{
  ℕ, ◌≡◌, refl, Option, none, some, List, [], ◌∷◌, take, drop, filter, map, splice, arith,
}
use gateway_socket.Device.{
  Call, open_socket, get_flags, set_flags, set_mtu, get_mtu, get_index, bind_device, close_socket,
  Device, Message, read_packet, open_device, if_name_size,
}
use gateway_socket.Device.Reads.{reads, is_incoming, reads-filter}
use gateway_socket.Device.Life.{life, left_open, flags_after, failed_flags, open_device-life}

-- A kernel that gives the socket 5 and the device 3, whose flags were 4163.
kernel : Call → Option ℕ
kernel open_socket = some 5
kernel (get_flags name) = some 4163
kernel (set_flags name flags) = some 0
kernel (set_mtu name mtu) = some 0
kernel (get_mtu name) = some 0
kernel (get_index name) = some 3
kernel (bind_device sock index) = some 0
kernel (close_socket sock) = some 0

abbrev eth1 : List ℕ
eth1 = b'e' ∷ b't' ∷ b'h' ∷ b'1' ∷ []

open_device-life_example :
    (left_open kernel (life (open_device kernel eth1)) [] ≡ [])
    × ((d : Device)
        → (open_device kernel eth1).device ≡ some d
        → flags_after kernel (life (open_device kernel eth1)) 4163 ≡ 4163)
    × ((open_device kernel eth1).device ≡ none
        → flags_after kernel (life (open_device kernel eth1)) 4163
          ≡ failed_flags kernel (take if_name_size eth1) 4163)
unfolding kernel
open_device-life_example = open_device-life kernel eth1 4163 refl (0, refl) (λ e. ground arith)

-- A frame from the wire, one that the host sent, and one of another device.
abbrev arriving : List ℕ → ℕ → ℕ → Message
arriving bytes interface packet_type = record {
  hardware_type = 1;
  address_length = 20;
  interface = interface;
  packet_type = packet_type;
  bytes = bytes;
}

abbrev messages : List Message
messages =
    arriving (1 ∷ 2 ∷ []) 3 4
    ∷ arriving (1 ∷ 2 ∷ 3 ∷ []) 3 0
    ∷ arriving (4 ∷ []) 2 0
    ∷ arriving (5 ∷ 6 ∷ []) 3 3
    ∷ []

reads-filter_example :
    ((reads 3 2 32 (0 ∷ 0 ∷ []) messages).0
      ≡ take 32 (map (λ m. take 2 m.bytes) (filter (is_incoming 3) messages)))
    × (filter (is_incoming 3) (reads 3 2 32 (0 ∷ 0 ∷ []) messages).1
        ≡ drop 32 (filter (is_incoming 3) messages))
reads-filter_example = reads-filter 3 2 32 (0 ∷ 0 ∷ []) messages refl

-- The frame that does not fit is cut off.
frames_read : (reads 3 2 32 (0 ∷ 0 ∷ []) messages).0 ≡ (1 ∷ 2 ∷ []) ∷ (5 ∷ 6 ∷ []) ∷ []
unfolding reads read_packet splice
frames_read = refl
