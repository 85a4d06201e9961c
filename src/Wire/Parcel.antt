-- ===== src/Wire/Parcel.antt =====
-- What the classes use of Binder's `Parcel`: writes one after the other, and reads in their order.
use service_excutor.Prelude.{
  ℕ, zero, suc, ◌*◌, ◌+◌, ◌%◌, ◌/◌, ◌^◌, ◌<◌, ◌≤◌, ◌≡◌, refl, Bool, true, false, List, [], ◌∷◌,
  Text, Option, some, length, if◌then◌else◌, arith, ap, nat_eqb,
}

-- One write. An interface token is four bytes, which say what the writer's thread forbids itself,
-- and the interface's name; a strong binder is its number, or null.
pub data Item : Type 0 where
  uint32 byte uint64 : ℕ → Item
  utf8 : Text → Item
  bytes : List ℕ → Item
  bool : Bool → Item
  utf8_vector : List Text → Item
  file_descriptor : Option ℕ → Item
  interface_token : ℕ → Text → Item
  strong_binder : Option ℕ → Item

-- `holding` is a parcel after those writes, at its start; a read gives its value and the parcel
-- after it.
pub record Parcel (P : Type 0) : Type 0 where
  pub holding : List Item → P
  pub data_size : List Item → ℕ
  pub read_uint32 : P → ℕ × P
  pub read_byte : P → ℕ × P
  pub read_uint64 : P → ℕ × P
  pub read_utf8 : P → Text × P
  pub read_bytes : ℕ → P → List ℕ × P
  pub read_bool : P → Bool × P
  pub read_utf8_vector : P → List Text × P
  pub read_file_descriptor : P → Option ℕ × P

-- A read of the kind that was written gives what was written.
pub record IsParcel {P : Type 0} (y : Parcel P) : Type 0 where
  pub reads_uint32 :
      (n : ℕ) (r : List Item)
      → n < 2 ^ 32
      → y.read_uint32 (y.holding (uint32 n ∷ r)) ≡ (n, y.holding r)
  pub reads_byte :
      (n : ℕ) (r : List Item) → n < 2 ^ 7 → y.read_byte (y.holding (byte n ∷ r)) ≡ (n, y.holding r)
  pub reads_uint64 :
      (n : ℕ) (r : List Item)
      → n < 2 ^ 64
      → y.read_uint64 (y.holding (uint64 n ∷ r)) ≡ (n, y.holding r)
  pub reads_utf8 :
      (s : Text) (r : List Item) → y.read_utf8 (y.holding (utf8 s ∷ r)) ≡ (s, y.holding r)
  pub reads_bytes :
      (b : List ℕ) (r : List Item)
      → y.read_bytes (length b) (y.holding (bytes b ∷ r)) ≡ (b, y.holding r)
  pub reads_bool :
      (b : Bool) (r : List Item) → y.read_bool (y.holding (bool b ∷ r)) ≡ (b, y.holding r)
  pub reads_utf8_vector :
      (ss : List Text) (r : List Item)
      → y.read_utf8_vector (y.holding (utf8_vector ss ∷ r)) ≡ (ss, y.holding r)
  pub reads_file_descriptor :
      (n : ℕ) (r : List Item)
      → y.read_file_descriptor (y.holding (file_descriptor (some n) ∷ r)) ≡ (some n, y.holding r)

-- Four bytes at the start of a parcel.
abbrev pub write_first : ℕ → List Item → List Item
write_first n [] = []
write_first n (interface_token p d ∷ r) = interface_token n d ∷ r
write_first n (i ∷ r) = uint32 n ∷ r

-- The last step of each `writeToParcel`: the size goes over the place that `reserveSpace` left.
unfoldable pub write_size : {P : Type 0} → Parcel P → List Item → List Item
write_size y l = write_first (y.data_size l % 2 ^ 32) l

-- `bitset::to_ulong` and the constructor from a number.
unfoldable pub to_ulong : List Bool → ℕ
to_ulong [] = 0
to_ulong (b ∷ bs) = (if b then 1 else 0) + 2 * to_ulong bs

unfoldable pub bits : ℕ → ℕ → List Bool
bits zero n = []
bits (suc k) n = nat_eqb (n % 2) 1 ∷ bits k (n / 2)

pub to_ulong-bound : (k : ℕ) (bs : List Bool) → length bs ≤ k → to_ulong bs < 2 ^ k
unfolding to_ulong
to_ulong-bound zero [] h = omega arith
to_ulong-bound (suc k) [] h = omega (arith, to_ulong-bound k [] (omega arith))
to_ulong-bound zero (b ∷ bs) h = omega (arith, h)
to_ulong-bound (suc k) (true ∷ bs) h = omega (arith, to_ulong-bound k bs (omega (arith, h)))
to_ulong-bound (suc k) (false ∷ bs) h = omega (arith, to_ulong-bound k bs (omega (arith, h)))

pub bits-to_ulong : (bs : List Bool) → bits (length bs) (to_ulong bs) ≡ bs
unfolding bits to_ulong
bits-to_ulong [] = refl
bits-to_ulong (true ∷ bs) =
    let q : (1 + 2 * to_ulong bs) / 2 ≡ to_ulong bs = omega arith in
    let r : (1 + 2 * to_ulong bs) % 2 ≡ 1 = omega arith in
    rw (q, r) (ap (λ l. true ∷ l) (bits-to_ulong bs))
bits-to_ulong (false ∷ bs) =
    let q : (0 + 2 * to_ulong bs) / 2 ≡ to_ulong bs = omega arith in
    let r : (0 + 2 * to_ulong bs) % 2 ≡ 0 = omega arith in
    rw (q, r) (ap (λ l. false ∷ l) (bits-to_ulong bs))
