-- ===== src/Io/Script.antt =====
-- A byte stream that plays a script: the parameter of the models, instantiated.
use fungi_transport_ci_test.Prelude.{
  ℕ, zero, suc, ◌%◌, ◌≤◌, ◌≡◌, refl, [], ◌∷◌, ◌++◌, length, take, drop, All, List, Option, none,
  some, arith, map, ap, take-append-drop, sym,
}
use fungi_transport_ci_test.Text.{Bytes}
use fungi_transport_ci_test.Errors.{IoError}
use fungi_transport_ci_test.Io.{IsByte, ReadPoll, WriteDone, Reads, Writes, Delivers, ByteStream}

-- What reads meet: a byte, the edge of what has arrived together, a wait, or an error. The end of
-- the script is the end of the stream.
pub data Event : Type 0 where
  byte : ℕ → Event
  cut pause : Event
  fault : IoError → Event

-- What a write meets: nothing special, or an error behind that many bytes.
pub record Script : Type 0 where
  pub inbox : List Event
  pub out : Bytes
  pub faults : List (Option (ℕ × IoError))

abbrev pub bytes_of : List Event → Bytes
bytes_of [] = []
bytes_of (Event.byte b ∷ es) = (b % 256) ∷ bytes_of es
bytes_of (Event.cut ∷ es) = bytes_of es
bytes_of (Event.pause ∷ es) = bytes_of es
bytes_of (Event.fault e ∷ es) = bytes_of es

abbrev pub pauses : List Event → ℕ
pauses [] = 0
pauses (Event.byte b ∷ es) = pauses es
pauses (Event.cut ∷ es) = pauses es
pauses (Event.pause ∷ es) = suc (pauses es)
pauses (Event.fault e ∷ es) = pauses es

-- The next bytes that arrived together, `n` at most, and the rest of the script.
abbrev pub collect : ℕ → List Event → Bytes × List Event
collect zero es = ([], es)
collect (suc n) [] = ([], [])
collect (suc n) (Event.byte b ∷ es) = let (bs, rest) = collect n es in ((b % 256) ∷ bs, rest)
collect (suc n) (Event.cut ∷ es) = ([], es)
collect (suc n) (Event.pause ∷ es) = ([], Event.pause ∷ es)
collect (suc n) (Event.fault e ∷ es) = ([], Event.fault e ∷ es)

collect_lem :
    (n : ℕ) (es : List Event)
    → (bytes_of es ≡ (collect n es).0 ++ bytes_of (collect n es).1)
      × (length (collect n es).0 ≤ n)
      × All IsByte (collect n es).0
      × (pauses (collect n es).1 ≤ pauses es)
collect_lem zero es = (refl, omega arith, tt, omega arith)
collect_lem (suc n) [] = (refl, omega arith, tt, omega arith)
collect_lem (suc n) (Event.byte b ∷ es) =
    let (split, short, bytes, fewer) = collect_lem n es in
    (rw (← split) refl, omega arith, (omega arith, bytes), fewer)
collect_lem (suc n) (Event.cut ∷ es) = (refl, omega arith, tt, omega arith)
collect_lem (suc n) (Event.pause ∷ es) = (refl, omega arith, tt, omega arith)
collect_lem (suc n) (Event.fault e ∷ es) = (refl, omega arith, tt, omega arith)

abbrev pub script_poll : ℕ → List Event → ReadPoll (List Event)
script_poll zero es = ReadPoll.ready [] es
script_poll (suc n) [] = ReadPoll.ready [] []
script_poll (suc n) (Event.byte b ∷ es) =
    let (bs, rest) = collect n es in ReadPoll.ready ((b % 256) ∷ bs) rest
script_poll (suc n) (Event.cut ∷ es) = script_poll (suc n) es
script_poll (suc n) (Event.pause ∷ es) = ReadPoll.pending es
script_poll (suc n) (Event.fault e ∷ es) = ReadPoll.failed e es

abbrev pub at_script : Script → ReadPoll (List Event) → ReadPoll Script
at_script s (ReadPoll.pending es) = ReadPoll.pending (record s { inbox = es })
at_script s (ReadPoll.ready bs es) = ReadPoll.ready bs (record s { inbox = es })
at_script s (ReadPoll.failed e es) = ReadPoll.failed e (record s { inbox = es })

abbrev pub script_write : Bytes → Script → List (Option (ℕ × IoError)) → WriteDone Script
script_write bs s [] = WriteDone.done (record s { out = s.out ++ bs })
script_write bs s (none ∷ fs) = WriteDone.done (record s { out = s.out ++ bs; faults = fs })
script_write bs s (some (n, e) ∷ fs) =
    WriteDone.failed e (record s { out = s.out ++ take n bs; faults = fs })

abbrev pub unread_script : Script → Bytes
unread_script s = bytes_of s.inbox

abbrev pub written_script : Script → Bytes
written_script s = s.out

pub read_script :
    (s : Script) (n : ℕ) (es : List Event)
    → Reads unread_script written_script (bytes_of es) s.out n (at_script s (script_poll n es))
read_script s zero es = (refl, refl, omega arith, tt, λ _ h. elim h [ ])
read_script s (suc n) [] = (refl, refl, omega arith, tt, λ _ _. refl)
read_script s (suc n) (Event.byte b ∷ es) =
    let (split, short, bytes, _) = collect_lem n es in
    (ap (λ bs. (b % 256) ∷ bs) split, refl, omega arith, (omega arith, bytes), λ h _. cc)
read_script s (suc n) (Event.cut ∷ es) = read_script s (suc n) es
read_script s (suc n) (Event.pause ∷ es) = (refl, refl)
read_script s (suc n) (Event.fault x ∷ es) = (refl, refl)

pub write_script :
    (bs : Bytes) (s : Script) (fs : List (Option (ℕ × IoError)))
    → Writes unread_script written_script (bytes_of s.inbox) s.out bs (script_write bs s fs)
write_script bs s [] = (refl, refl)
write_script bs s (none ∷ fs) = (refl, refl)
write_script bs s (some (n, e) ∷ fs) =
    (take n bs, drop n bs, sym (take-append-drop n bs), refl, refl)

abbrev pub script_stream : ByteStream Script
script_stream = record {
  read = λ n s. at_script s (script_poll n s.inbox);
  write_all = λ bs s. script_write bs s s.faults;
  flush = λ s. WriteDone.done s;
  unread = unread_script;
  written = written_script;
  read_law = λ n s. read_script s n s.inbox;
  write_law = λ bs s. write_script bs s s.faults;
  flush_law = λ s. (refl, refl);
}

abbrev pub NoFault : List Event → Type 0
NoFault [] = Unit
NoFault (Event.byte b ∷ es) = NoFault es
NoFault (Event.cut ∷ es) = NoFault es
NoFault (Event.pause ∷ es) = NoFault es
NoFault (Event.fault e ∷ es) = ⊥

-- A script with no faults keeps the connection up.
abbrev pub IsLive : Script → Type 0
IsLive s = NoFault s.inbox

abbrev pub wakes_script : Script → ℕ
wakes_script s = pauses s.inbox

collect-NoFault : (n : ℕ) (es : List Event) → NoFault es → NoFault (collect n es).1
collect-NoFault zero es h = h
collect-NoFault (suc n) [] h = h
collect-NoFault (suc n) (Event.byte b ∷ es) h = collect-NoFault n es h
collect-NoFault (suc n) (Event.cut ∷ es) h = h
collect-NoFault (suc n) (Event.pause ∷ es) h = h
collect-NoFault (suc n) (Event.fault e ∷ es) h = h

pub script_delivers :
    (s : Script) (n : ℕ) (es : List Event)
    → NoFault es
    → Delivers IsLive wakes_script (pauses es) (at_script s (script_poll n es))
script_delivers s zero es h = (h, omega arith)
script_delivers s (suc n) [] h = (h, omega arith)
script_delivers s (suc n) (Event.byte b ∷ es) h = (collect-NoFault n es h, (collect_lem n es).3)
script_delivers s (suc n) (Event.cut ∷ es) h = script_delivers s (suc n) es h
script_delivers s (suc n) (Event.pause ∷ es) h = (h, omega arith)
script_delivers s (suc n) (Event.fault x ∷ es) h = elim h [ ]

-- The script that delivers these bytes at once, with nothing behind them.
abbrev pub script_of : Bytes → List Event
script_of bs = map Event.byte bs

abbrev pub play : List Event → Script
play es = record { inbox = es; out = []; faults = [] }
