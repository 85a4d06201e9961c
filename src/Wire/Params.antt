-- ===== src/Wire/Params.antt =====
-- `writeToParcel` and `readFromParcel` of `SaceCommandParams` and `SaceEventParams`.
use service_excutor.Prelude.{
  ℕ, ◌<◌, ◌≤◌, ◌^◌, ◌≡◌, refl, List, [], ◌∷◌, ◌++◌, length, arith, append_assoc, sym,
}
use service_excutor.Types.{SaceCommandParams, SaceEventParams, Params, command_params, event_params}
use service_excutor.Wire.Parcel.{
  Item, uint64, utf8, bool, utf8_vector, Parcel, IsParcel, to_ulong, bits, to_ulong-bound,
  bits-to_ulong,
}

unfoldable pub write_command_params : SaceCommandParams → List Item
unfolding to_ulong
write_command_params p =
    utf8 p.uid
    ∷ utf8 p.gid
    ∷ utf8_vector p.supp_gids
    ∷ utf8 p.seclabel
    ∷ uint64 (to_ulong p.capabilities)
    ∷ utf8_vector p.rlimits
    ∷ []

unfoldable pub write_event_params : SaceEventParams → List Item
write_event_params p =
    write_command_params p.base
    ++ (bool p.boot ∷ utf8_vector p.property_key ∷ utf8_vector p.property_value ∷ [])

-- The virtual call.
unfoldable pub write_params : Params → List Item
write_params (command_params p) = write_command_params p
write_params (event_params p) = write_event_params p

module _ {P : Type 0} (y : Parcel P) (cap_count : ℕ) where
  unfoldable pub read_command_params : P → SaceCommandParams × P
  unfolding bits
  read_command_params p =
      let (uid, p1) = y.read_utf8 p in
      let (gid, p2) = y.read_utf8 p1 in
      let (supp_gids, p3) = y.read_utf8_vector p2 in
      let (seclabel, p4) = y.read_utf8 p3 in
      let (caps, p5) = y.read_uint64 p4 in
      let (rlimits, p6) = y.read_utf8_vector p5 in
      (
        record {
          uid = uid;
          gid = gid;
          supp_gids = supp_gids;
          rlimits = rlimits;
          seclabel = seclabel;
          capabilities = bits cap_count caps;
        },
        p6,
      )

  unfoldable pub read_event_params : P → SaceEventParams × P
  read_event_params p =
      let (base, p1) = read_command_params p in
      let (boot, p2) = y.read_bool p1 in
      let (keys, p3) = y.read_utf8_vector p2 in
      let (values, p4) = y.read_utf8_vector p3 in
      (record { base = base; property_key = keys; property_value = values; boot = boot }, p4)

  pub read-write_command_params :
      (p : SaceCommandParams) (r : List Item)
      → IsParcel y
      → length p.capabilities ≡ cap_count
      → cap_count ≤ 64
      → read_command_params (y.holding (write_command_params p ++ r)) ≡ (p, y.holding r)
  unfolding read_command_params write_command_params
  read-write_command_params p r law n bound =
      let small : to_ulong p.capabilities < 2 ^ 64 =
        to_ulong-bound 64 p.capabilities (omega (arith, n, bound)) in
      simp (law.reads_utf8, law.reads_utf8_vector, law.reads_uint64, sym n, bits-to_ulong, small)
        refl

  pub read-write_event_params :
      (p : SaceEventParams) (r : List Item)
      → IsParcel y
      → length p.base.capabilities ≡ cap_count
      → cap_count ≤ 64
      → read_event_params (y.holding (write_event_params p ++ r)) ≡ (p, y.holding r)
  unfolding read_event_params write_event_params
  read-write_event_params p r law n bound =
      let rest : List Item =
        bool p.boot ∷ utf8_vector p.property_key ∷ utf8_vector p.property_value ∷ [] in
      rw (append_assoc (write_command_params p.base) rest r) (
        simp
          (
            read-write_command_params p.base (rest ++ r) law n bound,
            law.reads_bool,
            law.reads_utf8_vector,
          )
          refl)
