-- ===== src/Types/Bytes.antt =====
-- The bytes that `memcpy` puts into the `extra` field of a result or a response, on a
-- little-endian machine: a label, a status, and `struct SaceServiceInfo::ServiceInfo`.
use service_excutor.Prelude.{
  ℕ, zero, suc, ◌+◌, ◌-◌, ◌*◌, ◌/◌, ◌%◌, ◌^◌, ◌<◌, ◌≡◌, refl, List, [], ◌∷◌, ◌++◌, Text, arith,
  take, length, length-append, if◌then◌else◌, nat_eqb,
}
use service_excutor.Types.Enums.{ServiceState, state_code}

-- `memcpy` of a `k`-byte unsigned number.
unfoldable pub le_bytes : ℕ → ℕ → List ℕ
le_bytes zero n = []
le_bytes (suc k) n = (n % 256) ∷ le_bytes k (n / 256)

-- `memcpy` into a number that was zero.
unfoldable pub of_bytes : List ℕ → ℕ
of_bytes [] = 0
of_bytes (b ∷ bs) = b + 256 * of_bytes bs

-- The characters before the first NUL: `c_str()` as C functions read it.
unfoldable pub c_str : Text → Text
c_str [] = []
c_str (c ∷ s) = if nat_eqb c 0 then [] else c ∷ c_str s

unfoldable pub pad : ℕ → Text → Text
pad zero s = []
pad (suc n) [] = 0 ∷ pad n []
pad (suc n) (c ∷ s) = c ∷ pad n s

-- `strncpy(dst, s.c_str(), n - 1)` into `char dst[n]` that was zeroed.
unfoldable pub strncpy_zeroed : ℕ → Text → List ℕ
unfolding c_str pad
strncpy_zeroed n s = pad n (take (n - 1) (c_str s))

abbrev pub service_name_len : ℕ
service_name_len = 64

abbrev pub cmd_buffer_len : ℕ
cmd_buffer_len = 128

abbrev pub extra_bufer_len : ℕ
extra_bufer_len = 256

-- `struct ServiceInfo`: name, cmd, state, four bytes of padding, label.
unfoldable pub service_info_bytes : Text → Text → ServiceState → ℕ → List ℕ
unfolding strncpy_zeroed state_code le_bytes
service_info_bytes name cmd state label =
    strncpy_zeroed service_name_len name
    ++ (strncpy_zeroed cmd_buffer_len cmd
        ++ (le_bytes 4 (state_code state) ++ (le_bytes 4 0 ++ le_bytes 8 label)))

pub length-le_bytes : (k n : ℕ) → length (le_bytes k n) ≡ k
unfolding le_bytes
length-le_bytes zero n = refl
length-le_bytes (suc k) n = omega (arith, length-le_bytes k (n / 256))

-- What is copied out is what was copied in, if it fits.
pub of_bytes-le_bytes : (k n : ℕ) → n < 256 ^ k → of_bytes (le_bytes k n) ≡ n
unfolding of_bytes le_bytes
of_bytes-le_bytes zero n h = omega arith
of_bytes-le_bytes (suc k) n h = omega (arith, of_bytes-le_bytes k (n / 256) (below_quotient k n h))
  where
    below_quotient : (k n : ℕ) → n < 256 ^ suc k → n / 256 < 256 ^ k
    below_quotient k n h = omega arith

pub length-pad : (n : ℕ) (s : Text) → length (pad n s) ≡ n
unfolding pad
length-pad zero s = refl
length-pad (suc n) [] = omega (arith, length-pad n [])
length-pad (suc n) (c ∷ s) = omega (arith, length-pad n s)

-- The struct has 208 bytes, so it fits the `extra` field of 256.
pub length-service_info_bytes :
    (name cmd : Text) (state : ServiceState) (label : ℕ)
    → length (service_info_bytes name cmd state label) ≡ 208
unfolding service_info_bytes
length-service_info_bytes name cmd state label = omega (
  arith,
  length-append (strncpy_zeroed service_name_len name) (
      strncpy_zeroed cmd_buffer_len cmd
      ++ (le_bytes 4 (state_code state) ++ (le_bytes 4 0 ++ le_bytes 8 label))),
  length-append (strncpy_zeroed cmd_buffer_len cmd)
      (le_bytes 4 (state_code state) ++ (le_bytes 4 0 ++ le_bytes 8 label)),
  length-append (le_bytes 4 (state_code state)) (le_bytes 4 0 ++ le_bytes 8 label),
  length-append (le_bytes 4 0) (le_bytes 8 label),
  length-pad 64 (take 63 (c_str name)),
  length-pad 128 (take 127 (c_str cmd)),
  length-le_bytes 4 (state_code state),
  length-le_bytes 4 0,
  length-le_bytes 8 label,
)
