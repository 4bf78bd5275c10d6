-- ===== src/Device.antt =====
-- class Device (gateway-socket/socket.cpp): a raw socket that is bound to a network device. What the
-- kernel answers is a parameter.
pub mod Reads
pub mod Life
mod Tests
use gateway_socket.Base.{
  ℕ, ◌+◌, ltb, ◌==◌, Bool, true, false, not, if◌then◌else◌, ℤ, pos, negsuc, Option, none, some,
  List, [], ◌∷◌, ◌++◌, length, take, splice, htons,
}
use gateway_socket.Gateway.Tables.{my_mtu}

-- What the constructor and the destructor ask the kernel for.
pub data Call : Type 0 where
  -- socket(PF_PACKET, SOCK_RAW, htons(ETH_P_ALL))
  open_socket : Call
  -- ioctl with SIOCGIFFLAGS, SIOCSIFFLAGS, SIOCSIFMTU, SIOCGIFMTU, SIOCGIFINDEX
  get_flags : List ℕ → Call
  set_flags : List ℕ → ℕ → Call
  set_mtu : List ℕ → ℕ → Call
  get_mtu : List ℕ → Call
  get_index : List ℕ → Call
  -- bind to the device with an index
  bind_device : ℕ → ℕ → Call
  close_socket : ℕ → Call

pub record Device : Type 0 where
  pub sock : ℕ
  pub dev_id : ℕ
  pub prev_flag : ℕ
  pub dev_name : List ℕ

-- IFNAMSIZ, and IFF_UP | IFF_BROADCAST | IFF_NOARP | IFF_NOTRAILERS | IFF_PROMISC
abbrev pub if_name_size : ℕ
if_name_size = 16

abbrev pub raw_flags : ℕ
raw_flags = 1 + 2 + 128 + 32 + 256

-- The calls that were made; the device, or `none` for `exit(1)`.
pub record Opened : Type 0 where
  pub calls : List Call
  pub device : Option Device

-- One call, and what follows if it does not fail; `undo` are the calls before `exit(1)`.
abbrev pub attempt : (Call → Option ℕ) → List Call → Call → (ℕ → Opened) → Opened
attempt kernel undo call next = elim (kernel call) [
  | none ↦ record { calls = call ∷ undo; device = none }
  | some value ↦ let rest = next value in record { calls = call ∷ rest.calls; device = rest.device }
]

-- The constructor from `request.ifr_mtu = MY_MTU` on.
unfoldable pub configure : (Call → Option ℕ) → ℕ → ℕ → List ℕ → Opened
configure kernel sock flags name =
    let undo = close_socket sock ∷ [] in
    attempt kernel undo (set_mtu name my_mtu) λ _. attempt kernel undo (get_mtu name) λ _.
      attempt kernel undo (get_index name) λ index.
        attempt kernel undo (bind_device sock index) λ _. record {
          calls = [];
          device =
              some (record { sock = sock; dev_id = index; prev_flag = flags; dev_name = name });
        }

-- The constructor; `none` from the kernel is a negative result.
unfoldable pub open_device : (Call → Option ℕ) → List ℕ → Opened
unfolding configure
open_device kernel dev_name =
    let name = take if_name_size dev_name in
    attempt kernel [] open_socket λ sock.
      let undo = close_socket sock ∷ [] in
      attempt kernel undo (get_flags name) λ flags.
        attempt kernel undo (set_flags name raw_flags) λ _. configure kernel sock flags name

-- The destructor.
unfoldable pub close_device : Device → List Call
close_device d =
    if ltb 0 d.sock then set_flags d.dev_name d.prev_flag ∷ close_socket d.sock ∷ [] else []

-- A frame that waits in the socket, with the link-level address that `recvfrom` gives with it.
pub record Message : Type 0 where
  pub hardware_type : ℕ
  pub address_length : ℕ
  pub interface : ℕ
  pub packet_type : ℕ
  pub bytes : List ℕ

-- ARPHRD_ETHER, PACKET_OUTGOING, PACKET_OTHERHOST, and sizeof(struct sockaddr_ll)
abbrev pub arphrd_ether : ℕ
arphrd_ether = 1

abbrev pub packet_outgoing : ℕ
packet_outgoing = 4

abbrev pub packet_otherhost : ℕ
packet_otherhost = 3

abbrev pub sockaddr_size : ℕ
sockaddr_size = 20

pub record Read : Type 0 where
  pub read_byte : ℤ
  pub buffer : List ℕ
  pub queue : List Message

-- The loop of readPacket. The kernel takes a message from its queue, and copies what fits; with
-- MSG_TRUNC it returns the message's own length. With no message it returns -1.
unfoldable pub read_packet : ℕ → ℕ → List ℕ → List Message → Read
read_packet dev_id limit buffer [] = record { read_byte = negsuc 0; buffer = buffer; queue = [] }
read_packet dev_id limit buffer (m ∷ queue) =
    let filled = splice 0 (take limit m.bytes) buffer in
    let next = read_packet dev_id limit filled queue in
    if not (m.hardware_type == arphrd_ether)
    then next
    else if ltb sockaddr_size m.address_length
    then next
    else if not (m.interface == dev_id)
    then next
    else if m.packet_type == packet_outgoing
    then next
    else record { read_byte = pos (length m.bytes); buffer = filled; queue = queue }

-- ETH_P_802_3
abbrev pub eth_p_802_3 : ℕ
eth_p_802_3 = 1

-- What writePacket hands to `sendto`: the address, and the first bytes of the buffer.
pub record Outgoing : Type 0 where
  pub protocol : ℕ
  pub interface : ℕ
  pub hardware_type : ℕ
  pub packet_type : ℕ
  pub halen : ℕ
  pub address : List ℕ
  pub bytes : List ℕ

unfoldable pub write_packet : ℕ → List ℕ → ℕ → Outgoing
write_packet dev_id buffer size = record {
  protocol = htons eth_p_802_3;
  interface = dev_id;
  hardware_type = arphrd_ether;
  packet_type = packet_otherhost;
  halen = 6;
  address = take 6 buffer ++ 0 ∷ 0 ∷ [];
  bytes = take size buffer;
}
