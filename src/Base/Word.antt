-- ===== src/Base/Word.antt =====
-- Fixed-width words and their bytes in memory. The host is little-endian, as the x86 machines that
-- the makefiles build for; the network order is big-endian.
use Prim.Native.Nat.{ℕ, ◌+◌, ◌*◌, ◌/◌, ◌%◌, ◌^◌, ◌<◌}
use mathlib.Core.Path.{◌≡◌, refl}
use mathlib.Core.List.{List, [], ◌∷◌}
use native.Mathlib.Omega.{arith}
use gateway_socket.Base.Lists.{length, get_or}

abbrev pub u16 : ℕ → ℕ
u16 n = n % 2 ^ 16

abbrev pub u32 : ℕ → ℕ
u32 n = n % 2 ^ 32

abbrev pub u64 : ℕ → ℕ
u64 n = n % 2 ^ 64

-- `htons` and `ntohs`: both swap the two bytes.
unfoldable pub htons : ℕ → ℕ
htons x = x % 256 * 256 + x / 256 % 256

unfoldable pub ntohs : ℕ → ℕ
ntohs x = x % 256 * 256 + x / 256 % 256

-- The object representation of a `uint16_t` and of a `uint32_t`, lowest byte first.
unfoldable pub store16 : ℕ → List ℕ
store16 x = x % 256 ∷ x / 256 % 256 ∷ []

unfoldable pub load16 : List ℕ → ℕ
load16 bs = get_or bs 0 0 + 256 * get_or bs 1 0

unfoldable pub store32 : ℕ → List ℕ
store32 x = x % 256 ∷ x / 256 % 256 ∷ x / 65536 % 256 ∷ x / 16777216 % 256 ∷ []

unfoldable pub load32 : List ℕ → ℕ
load32 bs = get_or bs 0 0 + 256 * get_or bs 1 0 + 65536 * get_or bs 2 0 + 16777216 * get_or bs 3 0

pub ntohs-htons : (x : ℕ) → x < 65536 → ntohs (htons x) ≡ x
unfolding ntohs htons
ntohs-htons x h = omega arith

pub htons-lt : (x : ℕ) → htons x < 65536
unfolding htons
htons-lt x = omega arith

pub load16-store16 : (x : ℕ) → x < 65536 → load16 (store16 x) ≡ x
unfolding load16 store16
load16-store16 x h = omega arith

pub load32-store32 : (x : ℕ) → x < 2 ^ 32 → load32 (store32 x) ≡ x
unfolding load32 store32
load32-store32 x h = omega arith

pub length-store16 : (x : ℕ) → length (store16 x) ≡ 2
unfolding store16
length-store16 x = refl

pub length-store32 : (x : ℕ) → length (store32 x) ≡ 4
unfolding store32
length-store32 x = refl

-- A word in network order lies in memory with its high byte first, on any host.
pub store16-htons : (x : ℕ) → store16 (htons x) ≡ x / 256 % 256 ∷ x % 256 ∷ []
unfolding store16 htons
store16-htons x = ground arith
