-- ===== src/Checksum.antt =====
-- The Internet checksum as one_compl (gateway-socket/gateway.cpp) computes it, and the IPv4 header
-- without options, `struct ip` of <netinet/ip.h>, for which it is used.
pub mod Laws
use gateway_socket.Base.{
  ℕ, ◌+◌, ◌-◌, ◌*◌, ◌/◌, ◌%◌, List, [], ◌∷◌, ◌++◌, u32, u16, htons, ntohs, load16, store16, store32,
}

-- `while(pointer < end) sum += ntohs(*pointer++)`. Of an odd length the last word would reach one
-- byte behind the object, which counts as 0 here: the program sums 12, 20 and 36 bytes.
unfoldable pub sum_words : ℕ → List ℕ → ℕ
unfolding ntohs load16
sum_words sum [] = sum
sum_words sum (a ∷ []) = u32 (sum + ntohs (load16 (a ∷ [])))
sum_words sum (a ∷ b ∷ bytes) = sum_words (u32 (sum + ntohs (load16 (a ∷ b ∷ [])))) bytes

-- Both carries are added in, and the complement of the low 16 bits is taken.
unfoldable pub fold_sum : ℕ → ℕ
fold_sum sum =
    let once = u32 (sum / 65536 + sum % 65536) in
    let twice = u32 (once + once / 65536) in htons (65535 - u16 twice)

unfoldable pub one_compl : List ℕ → ℕ
one_compl bytes = fold_sum (sum_words 0 bytes)

-- struct ip; the words are as they lie in memory.
pub record IpHeader : Type 0 where
  pub ip_hl : ℕ
  pub ip_v : ℕ
  pub ip_tos : ℕ
  pub ip_len : ℕ
  pub ip_id : ℕ
  pub ip_off : ℕ
  pub ip_ttl : ℕ
  pub ip_p : ℕ
  pub ip_sum : ℕ
  pub ip_src : ℕ
  pub ip_dst : ℕ

-- sizeof(struct ip), IP_DF, IPPROTO_ICMP, IPPROTO_UDP.
abbrev pub ip_size : ℕ
ip_size = 20

abbrev pub ip_df : ℕ
ip_df = 0x4000

abbrev pub ipproto_icmp : ℕ
ipproto_icmp = 1

abbrev pub ipproto_udp : ℕ
ipproto_udp = 17

abbrev pub store_ip : IpHeader → List ℕ
store_ip h =
    (h.ip_v * 16 + h.ip_hl)
    ∷ h.ip_tos
    ∷ (store16 h.ip_len
        ++ (store16 h.ip_id
            ++ (store16 h.ip_off
                ++ (h.ip_ttl
                    ∷ h.ip_p
                    ∷ (store16 h.ip_sum ++ (store32 h.ip_src ++ store32 h.ip_dst))))))
