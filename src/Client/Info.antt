-- ===== src/Client/Info.antt =====
-- `struct ServiceInfo` from the daemon's `strncpy` and `memcpy` to the client's.
use service_excutor.Prelude.{
  ℕ, zero, suc, ◌+◌, ◌≤◌, ◌<◌, ◌^◌, ◌≡◌, refl, sym, ap, ◌∙◌, List, [], ◌∷◌, ◌++◌, some, Text, take,
  drop, length, arith,
}
use service_excutor.Types.{
  ServiceState, state_code, c_str, pad, le_bytes, of_bytes, of_bytes-le_bytes, length-le_bytes,
  length-pad, strncpy_zeroed, service_info_bytes, length-service_info_bytes, extra_bufer_len,
  service_paused, service_stoped, service_running, service_died, service_died_signal,
  service_died_unknown, service_finished, service_finishing_user, service_finished_user,
  service_unknown,
}
use service_excutor.Client.Calls.{copied_info, state_of}

pub take-all : (n : ℕ) (l : List ℕ) → length l ≤ n → take n l ≡ l
take-all zero [] h = refl
take-all zero (x ∷ l) h = ground arith
take-all (suc n) [] h = refl
take-all (suc n) (x ∷ l) h = ground (arith, take-all n l)

take-append : (n : ℕ) (a b : List ℕ) → length a ≡ n → take n (a ++ b) ≡ a
take-append zero [] b h = refl
take-append zero (x ∷ a) b h = ground arith
take-append (suc n) [] b h = ground arith
take-append (suc n) (x ∷ a) b h = ground (arith, take-append n a b)

drop-append : (n : ℕ) (a b : List ℕ) → length a ≡ n → drop n (a ++ b) ≡ b
drop-append zero [] b h = refl
drop-append zero (x ∷ a) b h = ground arith
drop-append (suc n) [] b h = ground arith
drop-append (suc n) (x ∷ a) b h = ground (arith, drop-append n a b)

-- The terminator that `strncpy` leaves room for ends the text.
c_str-pad :
    (n : ℕ) (s : Text) (r : List ℕ) → c_str (pad (suc n) (take n (c_str s)) ++ r) ≡ take n (c_str s)
unfolding c_str pad
c_str-pad zero s r = refl
c_str-pad (suc n) [] r = refl
c_str-pad (suc n) (c ∷ s) r = ground (arith, c_str-pad n s r)

state_of-state_code : (st : ServiceState) → state_of (state_code st) ≡ some st
unfolding state_of state_code
state_of-state_code service_paused = refl
state_of-state_code service_stoped = refl
state_of-state_code service_running = refl
state_of-state_code service_died = refl
state_of-state_code service_died_signal = refl
state_of-state_code service_died_unknown = refl
state_of-state_code service_finished = refl
state_of-state_code service_finishing_user = refl
state_of-state_code service_finished_user = refl
state_of-state_code service_unknown = refl

state_code_bound : (st : ServiceState) → state_code st < 256 ^ 4
unfolding state_code
state_code_bound st = ground arith

-- The struct as three parts.
tail : ServiceState → ℕ → List ℕ
tail st label = le_bytes 4 (state_code st) ++ (le_bytes 4 0 ++ le_bytes 8 label)

parts_lem :
    (name cmd : Text) (st : ServiceState) (label : ℕ)
    → service_info_bytes name cmd st label
      ≡ pad 64 (take 63 (c_str name)) ++ (pad 128 (take 127 (c_str cmd)) ++ tail st label)
unfolding service_info_bytes strncpy_zeroed tail
parts_lem name cmd st label = refl

drop-drop : (m n k : ℕ) (l : List ℕ) → k ≡ m + n → drop n (drop m l) ≡ drop k l
drop-drop zero n k l e = let same : n ≡ k = omega (arith, e) in ap (λ j. drop j l) same
drop-drop (suc m) n zero l e = absurd (omega (arith, e))
drop-drop (suc m) zero (suc k) [] e = refl
drop-drop (suc m) (suc n) (suc k) [] e = refl
drop-drop (suc m) n (suc k) (x ∷ l) e = drop-drop m n k l (omega (arith, e))

module _ (name cmd : Text) (st : ServiceState) (label : ℕ) where
  abbrev bytes : List ℕ
  bytes = service_info_bytes name cmd st label

  abbrev first : List ℕ
  first = pad 64 (take 63 (c_str name))

  abbrev second : List ℕ
  second = pad 128 (take 127 (c_str cmd))

  name_lem : c_str bytes ≡ take 63 (c_str name)
  name_lem = ap c_str (parts_lem name cmd st label) ∙ c_str-pad 63 name (second ++ tail st label)

  drop_name : drop 64 bytes ≡ second ++ tail st label
  drop_name =
      ap (drop 64) (parts_lem name cmd st label)
      ∙ drop-append 64 first (second ++ tail st label) (length-pad 64 (take 63 (c_str name)))

  cmd_lem : c_str (drop 64 bytes) ≡ take 127 (c_str cmd)
  cmd_lem = ap c_str drop_name ∙ c_str-pad 127 cmd (tail st label)

  drop_texts : drop 192 bytes ≡ tail st label
  drop_texts =
      sym (drop-drop 64 128 192 bytes (omega arith))
      ∙ ap (drop 128) drop_name
      ∙ drop-append 128 second (tail st label) (length-pad 128 (take 127 (c_str cmd)))

  state_lem : state_of (of_bytes (take 4 (drop 192 bytes))) ≡ some st
  unfolding tail
  state_lem =
      ap (λ l. state_of (of_bytes (take 4 l))) drop_texts
      ∙ ap (λ l. state_of (of_bytes l))
          (take-append 4 (le_bytes 4 (state_code st)) (le_bytes 4 0 ++ le_bytes 8 label)
            (length-le_bytes 4 (state_code st)))
      ∙ ap state_of (of_bytes-le_bytes 4 (state_code st) (state_code_bound st))
      ∙ state_of-state_code st

  label_lem : label < 256 ^ 8 → of_bytes (take 8 (drop 200 bytes)) ≡ label
  unfolding tail
  label_lem bound =
      ap (λ l. of_bytes (take 8 l))
        (sym (drop-drop 192 8 200 bytes (omega arith))
          ∙ ap (drop 8) drop_texts
          ∙ sym (drop-drop 4 4 8 (tail st label) (omega arith))
          ∙ ap (drop 4) (
              drop-append 4 (le_bytes 4 (state_code st)) (le_bytes 4 0 ++ le_bytes 8 label)
                (length-le_bytes 4 (state_code st)))
          ∙ drop-append 4 (le_bytes 4 0) (le_bytes 8 label) (length-le_bytes 4 0))
      ∙ ap of_bytes (take-all 8 (le_bytes 8 label) (omega (arith, length-le_bytes 8 label)))
      ∙ of_bytes-le_bytes 8 label bound

-- What a client reads is the name and the command line, up to their first NUL and to 63 and 127
-- characters, the state and the label, if it fits 64 bits.
pub copied_info-service_info_bytes :
    (name cmd : Text) (st : ServiceState) (label : ℕ)
    → label < 256 ^ 8
    → copied_info (take extra_bufer_len (service_info_bytes name cmd st label))
      ≡ some (record {
        name = take 63 (c_str name);
        cmd = take 127 (c_str cmd);
        state = some st;
        label = label;
      })
unfolding copied_info
copied_info-service_info_bytes name cmd st label bound =
    let bytes = service_info_bytes name cmd st label in
    let all : take 256 bytes ≡ bytes =
      take-all 256 bytes (omega (arith, length-service_info_bytes name cmd st label)) in
    ground (
      arith,
      all,
      name_lem name cmd st label,
      cmd_lem name cmd st label,
      state_lem name cmd st label,
      label_lem name cmd st label bound,
      length-service_info_bytes name cmd st label,
    )
