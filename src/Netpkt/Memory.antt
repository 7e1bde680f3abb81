-- ===== src/Netpkt/Memory.antt =====
-- The memory around a packet: a list of bytes, in which a pointer is an index. Words are
-- little-endian, as on the machines that bklib is built for; an access behind the end is a fault.
use bklib.Base.{
  ℕ, zero, suc, ◌+◌, ◌*◌, ◌/◌, ◌%◌, List, [], ◌∷◌, Run, ok, fault, ◌>>=◌, deref, get_elem?, set,
  length, ltb, if◌then◌else◌,
}

abbrev pub load : List ℕ → ℕ → Run ℕ
load m p = deref (get_elem? m p)

abbrev pub store : List ℕ → ℕ → ℕ → Run (List ℕ)
store m p v = if ltb p (length m) then ok (set m p (v % 256)) else fault

-- A `u16` in memory as the machine reads it.
unfoldable pub load_16 : List ℕ → ℕ → Run ℕ
load_16 m p = load m p >>= λ a. load m (p + 1) >>= λ b. ok (a + 256 * b)

unfoldable pub store_16 : List ℕ → ℕ → ℕ → Run (List ℕ)
store_16 m p v = store m p v >>= λ m'. store m' (p + 1) (v / 256)

-- `ntohs` of it, and `ntohl` of a `u32`.
abbrev pub load_net_16 : List ℕ → ℕ → Run ℕ
load_net_16 m p = load m p >>= λ a. load m (p + 1) >>= λ b. ok (256 * a + b)

abbrev pub load_net_32 : List ℕ → ℕ → Run ℕ
load_net_32 m p = load_net_16 m p >>= λ a. load_net_16 m (p + 2) >>= λ b. ok (65536 * a + b)

abbrev pub store_net_16 : List ℕ → ℕ → ℕ → Run (List ℕ)
store_net_16 m p v = store m p (v / 256) >>= λ m'. store m' (p + 1) v

-- `htons` of a value.
abbrev pub swap_16 : ℕ → ℕ
swap_16 v = v % 256 * 256 + v / 256 % 256

-- The four bytes of a `u32`.
abbrev pub bytes_32 : ℕ → List ℕ
bytes_32 x = x % 256 ∷ (x / 256) % 256 ∷ (x / 65536) % 256 ∷ (x / 16777216) % 256 ∷ []

-- `memset` and `memcpy` inside the memory.
abbrev pub fill : ℕ → List ℕ → ℕ → ℕ → Run (List ℕ)
fill zero m p v = ok m
fill (suc n) m p v = store m p v >>= λ m'. fill n m' (p + 1) v

abbrev pub copy_in : List ℕ → List ℕ → ℕ → Run (List ℕ)
copy_in [] m p = ok m
copy_in (x ∷ xs) m p = store m p x >>= λ m'. copy_in xs m' (p + 1)
