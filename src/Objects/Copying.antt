-- ===== src/Objects/Copying.antt =====
-- Copies of commands, results and responses against what the rest of the program reads of them.
use service_excutor.Prelude.{
  ℕ, zero, suc, ◌≤◌, ◌<◌, ◌≡◌, refl, List, [], ◌∷◌, ◌++◌, none, some, length, take, drop, arith,
}
use service_excutor.Types.{
  CommandType, type_normal, type_service, type_event, type_other, extra_bufer_len,
}
use service_excutor.Objects.Commands.{
  CommandObject, memcpy_extra, copied_words, set_fields, copy_object, assign_object, copy_header,
  assign_header, payload_of, view,
}
use service_excutor.Objects.Answers.{
  ResultObject, ResponseObject, copy_header as copy_result_header, copy_result, copy_response,
  view_result, view_response,
}

-- A buffer of 256 bytes of which `n` are in use.
abbrev pub IsBuffer : ℕ → List ℕ → Type 0
IsBuffer n b = (n ≤ extra_bufer_len) × (length b ≡ extra_bufer_len)

take_copied :
    (n : ℕ) (src dst : List ℕ)
    → n ≤ length src
    → n ≤ length dst
    → take n (take n src ++ drop n dst) ≡ take n src
take_copied zero src dst h k = refl
take_copied (suc n) [] dst h k = ground arith
take_copied (suc n) (x ∷ src) [] h k = ground arith
take_copied (suc n) (x ∷ src) (d ∷ dst) h k = ground (arith, take_copied n src dst)

length_copied :
    (n : ℕ) (src dst : List ℕ)
    → n ≤ length src
    → n ≤ length dst
    → length (take n src ++ drop n dst) ≡ length dst
length_copied zero src dst h k = refl
length_copied (suc n) [] dst h k = ground arith
length_copied (suc n) (x ∷ src) [] h k = ground arith
length_copied (suc n) (x ∷ src) (d ∷ dst) h k = ground (arith, length_copied n src dst)

memcpy_lem :
    (n : ℕ) (src dst : List ℕ)
    → IsBuffer n src
    → length dst ≡ extra_bufer_len
    → (e : List ℕ) × (memcpy_extra n src dst ≡ some e)
      × (take n e ≡ take n src)
      × (length e ≡ extra_bufer_len)
unfolding memcpy_extra
memcpy_lem n src dst (h, s) d = (
  take n src ++ drop n dst,
  ground (arith, h),
  take_copied n src dst (omega (arith, h, s)) (omega (arith, h, d)),
  omega (arith, length_copied n src dst (omega (arith, h, s)) (omega (arith, h, d)), d),
)

payload_lem :
    (o g : CommandObject) (t : CommandType)
    → o.header.type ≡ t
    → payload_of t (copied_words o g).0 (copied_words o g).1 ≡ payload_of t o.kind_word o.flags_word
unfolding copied_words payload_of
payload_lem o g type_normal is = rw is refl
payload_lem o g type_service is = rw is refl
payload_lem o g type_event is = rw is refl
payload_lem o g (type_other n) is = refl

fields_lem :
    (o g : CommandObject) (e : List ℕ)
    → take o.extra_len e ≡ take o.extra_len o.extra
    → view (set_fields o (record g { header = o.header }) e) ≡ view o
unfolding view set_fields
fields_lem o g e same =
    simp (same, payload_lem o (record g { header = o.header }) o.header.type refl) refl

-- A command whose extra bytes are a buffer of 256 with a length in it: the copy constructor, over
-- whatever the memory held, and the assignment, over whatever the object was, return, and a reader
-- finds in the copy what is in the original, whose length it has; its extra bytes are again such a
-- buffer.
pub view-copy_object :
    (o g : CommandObject)
    → IsBuffer o.extra_len o.extra
    → length g.extra ≡ extra_bufer_len
    → (p : CommandObject) × (copy_object o g ≡ some p)
      × (assign_object o g ≡ some p)
      × (view p ≡ view o)
      × (p.header.len ≡ o.header.len)
      × IsBuffer p.extra_len p.extra
unfolding copy_object assign_object set_fields copy_header assign_header
view-copy_object o g (h, s) d =
    let (e, made, same, size) = memcpy_lem o.extra_len o.extra g.extra (h, s) d in
    (
      set_fields o (record g { header = o.header }) e,
      simp (made) refl,
      simp (made) refl,
      fields_lem o g e same,
      refl,
      (h, size),
    )

-- The same for a result and a response, with the descriptor of the result.
pub view-copy_result :
    (o : ResultObject) (q : ResponseObject) (old : List ℕ)
    → IsBuffer o.result_extra_len o.result_extra
    → IsBuffer q.extra_len q.extra
    → length old ≡ extra_bufer_len
    → ((p : ResultObject) × (copy_result o old ≡ some p) × (view_result p ≡ view_result o))
      × ((p : ResponseObject) × (copy_response q old ≡ some p)
          × (view_response p ≡ view_response q))
unfolding copy_result copy_response view_result view_response
view-copy_result o q old h k d =
    let (e, made, same, size) = memcpy_lem o.result_extra_len o.result_extra old h d in
    let (f, formed, alike, fits) = memcpy_lem q.extra_len q.extra old k d in
    (
      (
        record o { header = copy_result_header o.header; result_extra = e },
        simp (made) refl,
        simp (same) refl,
      ),
      (
        record q { header = copy_result_header q.header; extra = f },
        simp (formed) refl,
        simp (alike) refl,
      ),
    )

-- A length above 256, as a parcel can bring it: every copy writes past its object.
pub copy_overflows :
    (o g : CommandObject) (r : ResultObject) (q : ResponseObject) (old : List ℕ)
    → extra_bufer_len < o.extra_len
    → extra_bufer_len < r.result_extra_len
    → extra_bufer_len < q.extra_len
    → (copy_object o g ≡ none)
      × (assign_object o g ≡ none)
      × (copy_result r old ≡ none)
      × (copy_response q old ≡ none)
unfolding copy_object assign_object copy_result copy_response memcpy_extra
copy_overflows o g r q old h k l =
    (ground (arith, h), ground (arith, h), ground (arith, k), ground (arith, l))
