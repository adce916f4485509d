-- ===== src/Buffer/Order.antt =====
-- Byte order: how a word lies in memory, and the swaps between host and network order. The host is
-- little-endian, as the program's targets are.
use websocket_test.Base.{
  ℕ, zero, suc, ◌+◌, ◌*◌, ◌/◌, ◌%◌, ◌^◌, ◌<◌, ◌≡◌, refl, ap, length, List, [], ◌∷◌, arith,
}
use native.Mathlib.Nat.{pow-suc}

-- `sizeof(type)` of the types that `<<` and `>>` are used at.
pub data Width : Type 0 where
  w8 w16 w32 w64 : Width

abbrev pub size_of : Width → ℕ
size_of w8 = 1
size_of w16 = 2
size_of w32 = 4
size_of w64 = 8

-- The bytes of a word in memory, low byte first, and the word that bytes stand for.
unfoldable pub host_bytes : ℕ → ℕ → List ℕ
host_bytes zero v = []
host_bytes (suc n) v = (v % 256) ∷ host_bytes n (v / 256)

unfoldable pub from_host : List ℕ → ℕ
from_host [] = 0
from_host (b ∷ bytes) = b + 256 * from_host bytes

-- `htons` and `ntohs`.
unfoldable pub htons : ℕ → ℕ
htons v = v % 256 * 256 + v / 256 % 256

-- `htonl` and `ntohl`.
unfoldable pub htonl : ℕ → ℕ
htonl v = v % 256 * 2 ^ 24 + v / 256 % 256 * 2 ^ 16 + v / 2 ^ 16 % 256 * 256 + v / 2 ^ 24 % 256

-- `CVBuffer::htonll` and `ntohll`. The low half of `ret << 32` is zero, so `|=` adds.
unfoldable pub htonll : ℕ → ℕ
unfolding htonl
htonll old = let h = old / 2 ^ 32 in let l = old % 2 ^ 32 in htonl l * 2 ^ 32 + htonl h

-- The swap that `<<` and `>>` choose by `sizeof(type)`.
unfoldable pub to_network : Width → ℕ → ℕ
unfolding htons htonl htonll
to_network w8 v = v
to_network w16 v = htons v
to_network w32 v = htonl v
to_network w64 v = htonll v

htonl-lt : (v : ℕ) → htonl v < 2 ^ 32
unfolding htonl
htonl-lt v = omega arith

htonl-htonl : (v : ℕ) → v < 2 ^ 32 → htonl (htonl v) ≡ v
unfolding htonl
htonl-htonl v h = omega arith

htonll-htonll : (v : ℕ) → v < 2 ^ 64 → htonll (htonll v) ≡ v
unfolding htonll
htonll-htonll v h =
    let l = htonl (v % 2 ^ 32) in
    let h' = htonl (v / 2 ^ 32) in
    let high : (l * 2 ^ 32 + h') / 2 ^ 32 ≡ l = omega (arith, htonl-lt (v / 2 ^ 32)) in
    let low : (l * 2 ^ 32 + h') % 2 ^ 32 ≡ h' = omega (arith, htonl-lt (v / 2 ^ 32)) in
    rw (high, low, htonl-htonl (v % 2 ^ 32) (omega arith), htonl-htonl (v / 2 ^ 32) (omega arith))
      (omega arith)

-- The values of a width.
abbrev pub Fits : Width → ℕ → Type 0
Fits w v = v < 256 ^ size_of w

-- The swap to network order is its own inverse, at each width.
pub to_network-to_network : (w : Width) (v : ℕ) → Fits w v → to_network w (to_network w v) ≡ v
unfolding to_network htons
to_network-to_network w8 v h = refl
to_network-to_network w16 v h = omega arith
to_network-to_network w32 v h = htonl-htonl v h
to_network-to_network w64 v h = htonll-htonll v h

pub to_network-Fits : (w : Width) (v : ℕ) → Fits w v → Fits w (to_network w v)
unfolding to_network htons htonll
to_network-Fits w8 v h = h
to_network-Fits w16 v h = omega arith
to_network-Fits w32 v h = htonl-lt v
to_network-Fits w64 v h = omega (arith, htonl-lt (v % 2 ^ 32), htonl-lt (v / 2 ^ 32))

pub length-host_bytes : (n v : ℕ) → length (host_bytes n v) ≡ n
unfolding host_bytes
length-host_bytes zero v = refl
length-host_bytes (suc n) v = ap suc (length-host_bytes n (v / 256))

pub from_host-host_bytes : (n v : ℕ) → v < 256 ^ n → from_host (host_bytes n v) ≡ v
unfolding from_host host_bytes
from_host-host_bytes zero v h = omega arith
from_host-host_bytes (suc n) v h = omega (arith, from_host-host_bytes n (v / 256) (rest v n h))
  where
    rest : (v n : ℕ) → v < 256 ^ suc n → v / 256 < 256 ^ n
    rest v n h = omega (arith, pow-suc 256 n)

-- The specification: most significant byte first.
abbrev pub big_endian : ℕ → ℕ → List ℕ
big_endian zero v = []
big_endian (suc n) v = (v / 256 ^ n % 256) ∷ big_endian n v

htonll_low : (v : ℕ) → host_bytes 4 (htonll v) ≡ big_endian 4 (v / 2 ^ 32)
unfolding host_bytes htonll
htonll_low v = ground arith

htonll_high : (v : ℕ) → v < 2 ^ 64 → host_bytes 4 (htonll v / 2 ^ 32) ≡ big_endian 4 (v % 2 ^ 32)
unfolding host_bytes htonll
htonll_high v h = ground arith

-- What `<<` writes is the big-endian form of the value.
pub host_bytes-to_network :
    (w : Width) (v : ℕ)
    → Fits w v
    → host_bytes (size_of w) (to_network w v) ≡ big_endian (size_of w) v
unfolding host_bytes to_network
host_bytes-to_network w8 v h = ground arith
host_bytes-to_network w16 v h = ground arith
host_bytes-to_network w32 v h = ground arith
host_bytes-to_network w64 v h = ground (arith, htonll_low v, htonll_high v)
