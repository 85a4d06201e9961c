-- ===== src/Client/Bounds.antt =====
-- The bytes that the service executor puts into a result, and those that a client copies out.
use service_excutor.Prelude.{
  ℕ, ◌≤◌, ◌≡◌, refl, ap, ◌∙◌, Bool, true, false, List, none, some, length, lookup, arith, nat_key,
  text_key, inl, inr, Option-cases,
}
use service_excutor.Types.{
  SaceCommand, SaceResult, SaceWriter, ServiceFlags, ServiceCommandType, service_cmd_start,
  service_cmd_stop, service_cmd_pause, service_cmd_restart, service_cmd_info, service_cmd_other,
  ResultType, result_type_none, result_type_fd, result_type_extra, result_type_label,
  extra_bufer_len, length-le_bytes, length-service_info_bytes, service_info_bytes, new_result,
}
use service_excutor.Service.State.{ServiceInfo, ServiceExcutor, World}
use service_excutor.Service.Handlers.{
  handle, start, stop, pause, restart, handle_service_info, info_result, label_result,
  failed_result,
}
use service_excutor.Client.Calls.{copied_label, copied_info, sizeof_service_info}
use service_excutor.Client.Info.{take-all}

-- How many bytes the client copies for a result of a type.
unfoldable pub copied_size : ResultType → ℕ
copied_size result_type_none = 0
copied_size result_type_fd = 0
copied_size result_type_extra = sizeof_service_info
copied_size result_type_label = 8

abbrev Fits : SaceResult → Type 0
Fits r = length r.result_extra ≡ copied_size r.result_type

failed-Fits : (c : SaceCommand) → Fits (failed_result c)
unfolding failed_result new_result copied_size
failed-Fits c = refl

label-Fits : (a : ℕ) (c : SaceCommand) → Fits (label_result a c)
unfolding label_result copied_size
label-Fits a c = length-le_bytes 8 a

-- The copy that the client makes for a result of a type is defined.
unfoldable pub is_copied : ResultType → List ℕ → Bool
is_copied result_type_none extra = true
is_copied result_type_fd extra = true
is_copied result_type_extra extra = elim (copied_info extra) [ none ↦ false | some i ↦ true ]
is_copied result_type_label extra = elim (copied_label extra) [ none ↦ false | some l ↦ true ]

copied_lem :
    (t : ResultType) (extra : List ℕ) → length extra ≡ copied_size t → is_copied t extra ≡ true
unfolding is_copied copied_info copied_label copied_size
copied_lem result_type_none extra e = refl
copied_lem result_type_fd extra e = refl
copied_lem result_type_extra extra e = ground (arith, e)
copied_lem result_type_label extra e = ground (arith, e)

module _ (w : World) (c : SaceCommand) (f : ServiceFlags) (wr : SaceWriter)
    (s : ServiceExcutor) where
  start-Fits : (p : ServiceExcutor × SaceResult) → start w c f wr s ≡ some p → Fits p.1
  unfolding start failed_result new_result copied_size
  start-Fits p e = ground (arith, label-Fits w.fresh c)

  stop-Fits : (p : ServiceExcutor × SaceResult) → stop c s ≡ some p → Fits p.1
  unfolding stop failed_result new_result copied_size
  stop-Fits p e = ground arith

  pause-Fits : (p : ServiceExcutor × SaceResult) → pause c s ≡ some p → Fits p.1
  unfolding pause failed_result new_result copied_size
  pause-Fits p e = ground arith

  restart-Fits : (p : ServiceExcutor × SaceResult) → restart c s ≡ some p → Fits p.1
  unfolding restart failed_result new_result copied_size
  restart-Fits p e = ground arith

  info_lem : (i : ServiceInfo) → Fits (info_result i c)
  unfolding info_result copied_size failed_result new_result
  info_lem i =
      let size = length-service_info_bytes i.name i.cmd_line i.state i.label in
      ap length
        (take-all 256 (service_info_bytes i.name i.cmd_line i.state i.label) (omega (arith, size)))
      ∙ size

  info-Fits : (p : ServiceExcutor × SaceResult) → handle_service_info c f wr s ≡ some p → Fits p.1
  unfolding handle_service_info failed_result new_result copied_size
  info-Fits p e = elim (Option-cases (lookup c.name s.names)) [
    | inl gone ↦ ground (arith, gone)
    | inr (a, known) ↦ elim (Option-cases (lookup a s.heap)) [
      | inl gone ↦ ground (arith, known, gone)
      | inr (i, at) ↦ ground (arith, known, at, info_lem i)
    ]
  ]

  handle-Fits :
      (k : ServiceCommandType) (p : ServiceExcutor × SaceResult)
      → handle w k c f wr s ≡ some p
      → Fits p.1
  unfolding handle
  handle-Fits service_cmd_start p e = start-Fits p e
  handle-Fits service_cmd_stop p e = stop-Fits p e
  handle-Fits service_cmd_pause p e = pause-Fits p e
  handle-Fits service_cmd_restart p e = restart-Fits p e
  handle-Fits service_cmd_info p e = info-Fits p e
  handle-Fits (service_cmd_other n) p e = ground (arith, failed-Fits c)

  copied_size_bound : (t : ResultType) → copied_size t ≤ extra_bufer_len
  unfolding copied_size
  copied_size_bound result_type_none = omega arith
  copied_size_bound result_type_fd = omega arith
  copied_size_bound result_type_extra = omega arith
  copied_size_bound result_type_label = omega arith

  -- Every result of the service executor has as many extra bytes as its type says: none, the eight
  -- of a label or the 208 of a `struct ServiceInfo`, which fit the extra field; so neither copy
  -- that a client makes of a result of that type goes past its variable or leaves a part unset.
  pub handle-is_copied :
      (k : ServiceCommandType) (p : ServiceExcutor × SaceResult)
      → handle w k c f wr s ≡ some p
      → (length p.1.result_extra ≡ copied_size p.1.result_type)
        × (length p.1.result_extra ≤ extra_bufer_len)
        × (is_copied p.1.result_type p.1.result_extra ≡ true)
  handle-is_copied k p e =
      let fits = handle-Fits k p e in
      let bound = copied_size_bound p.1.result_type in
      (fits, omega (arith, fits, bound), copied_lem p.1.result_type p.1.result_extra fits)
