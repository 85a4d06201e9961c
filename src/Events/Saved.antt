-- ===== src/Events/Saved.antt =====
-- Events that can be written to the file: every entry of `events` has its object, and the object's
-- command has parameters and lines that fit their buffers.
use service_excutor.Prelude.{
  ℕ, ◌≡◌, refl, List, [], ◌∷◌, ◌++◌, some, Text, Map, lookup, store, lookup-store, nat_key,
  text_key, nat_eqb, Bool-cases, inl, inr, arith, Entries,
}
use service_excutor.Types.{SaceCommand}
use service_excutor.Params.Parsing.{Trigger}
use service_excutor.Events.State.{Event, SaceEvent, World}
use service_excutor.Events.Saving.{service_str, ini_text, write_stream, write_ini_file}

-- The file's lines for the command can be made, whatever its triggers are and the system answers.
abbrev pub Saves : SaceCommand → Type 0
Saves c =
    (y : World) (ts : List Trigger)
    → (t : Text) × (service_str y (record { triggers = ts; cmd = c }) ≡ some t)

abbrev pub Saved : Map ℕ Event → Text → ℕ → Type 0
Saved h name a = (e : Event) × (lookup a h ≡ some e) × Saves e.cmd

-- Every event has its object, which can be written.
abbrev pub AllSaved : SaceEvent → Type 0
AllSaved s = Entries (Saved s.heap) s.events

-- A write of an object that can be saved keeps the property.
pub Saved-store :
    (h : Map ℕ Event) (a : ℕ) (e : Event) (name : Text) (b : ℕ)
    → Saves e.cmd
    → Saved h name b
    → Saved (store a e h) name b
Saved-store h a e name b v (d, l, w) = elim (Bool-cases (nat_eqb a b)) [
  | inl same ↦ (e, ground (arith, lookup-store b a e h), v)
  | inr other ↦ (d, ground (arith, lookup-store b a e h), w)
]

ini_text_lem :
    (y : World) (m : Map Text ℕ) (h : Map ℕ Event)
    → Entries (Saved h) m
    → (t : Text) × (ini_text y m h ≡ some t)
unfolding ini_text
ini_text_lem y [] h a = ([], refl)
ini_text_lem y ((name, a) ∷ m) h ((e, l, v), rest) =
    let (t, f) = v y e.triggers in
    let (u, g) = ini_text_lem y m h rest in ((t ++ 10 ∷ []) ++ u, ground arith)

-- The file changes, and nothing else.
abbrev pub SameButFile : SaceEvent → SaceEvent → Type 0
SameButFile s t = (f : Text) × (t ≡ record s { ini_file = f })

stream_lem :
    (y : World) (s : SaceEvent)
    → AllSaved s
    → (t : SaceEvent) × (write_stream y s ≡ some t) × SameButFile s t
unfolding write_stream
stream_lem y s v =
    let (text, e) = ini_text_lem y s.events s.heap v in
    elim (Bool-cases y.streams) [
      | inl on ↦ (record s { ini_file = text }, ground (arith, e), (text, refl))
      | inr off ↦ (s, ground arith, (s.ini_file, refl))
    ]

-- Saving returns.
pub write_ini_file_lem :
    (y : World) (s : SaceEvent)
    → AllSaved s
    → (t : SaceEvent) × (write_ini_file y s ≡ some t) × SameButFile s t
unfolding write_ini_file
write_ini_file_lem y s v =
    let (t, e, same) = stream_lem y s v in
    elim (Bool-cases y.exists) [
      | inl there ↦ elim (Bool-cases y.opens) [
        | inl on ↦ (t, ground (arith, e), same)
        | inr off ↦ (s, ground arith, (s.ini_file, refl))
      ]
      | inr absent ↦ (t, ground (arith, e), same)
    ]
