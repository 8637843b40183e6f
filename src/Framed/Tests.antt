-- ===== src/Framed/Tests.antt =====
-- Tests of crates/fungi-transport/src/framed.rs on scripted streams, and the theorems at such inputs.
use fungi_transport_ci_test.Prelude.{
  ℕ, ◌≡◌, refl, [], ◌∷◌, ◌++◌, List, true, false, ok, err, arith, some,
}
use fungi_transport_ci_test.Text.{Bytes, codes, show_nat}
use fungi_transport_ci_test.Errors.{RecvError, SendError}
use fungi_transport_ci_test.Io.{ByteStream, Delivers}
use fungi_transport_ci_test.Io.Script.{
  Event, byte, cut, pause, Script, script_stream, script_of, play, IsLive, wakes_script,
  script_delivers,
}
use fungi_transport_ci_test.Framed.Prefix.{frame}
use fungi_transport_ci_test.Framed.Invariant.{
  IsValid, InHeader-IsValid, fresh-InHeader, Decodes, input,
}
use fungi_transport_ci_test.Framed.Decode.{start-Decodes}
use fungi_transport_ci_test.Framed.Cancel.{
  WithinLimit, drive-WithinLimit, drive, recv_cancel_safe, drive-Decodes,
}
use fungi_transport_ci_test.Framed.Live.{recv-Returns, Returns}
use fungi_transport_ci_test.Framed.Pipe.{send_all, recv_all, pipe_delivers}
use fungi_transport_ci_test.Framed.{
  FramedChannel, Poll, fresh, start, resume, send, header_loop, header_read, after_header,
  payload_loop, payload_read, from_be_bytes, to_be_bytes, write_at, resize, in_payload, mid_frame,
  oversized, prefix_sent, payload_sent, flushed,
}

abbrev io : ByteStream Script
io = script_stream

abbrev up :
    (n : ℕ) (s : Script) → IsLive s → Delivers IsLive wakes_script (wakes_script s) (io.read n s)
up n s l = script_delivers s n s.inbox l

-- The frame of "hi", in three pieces with two waits.
abbrev dribble : List Event
dribble =
    byte 0 ∷ byte 0 ∷ cut ∷ byte 0 ∷ byte 2 ∷ pause ∷ byte b'h' ∷ pause ∷ byte b'i' ∷ byte 9 ∷ []

abbrev hi : FramedChannel Script
hi = fresh (play dribble) 16

abbrev behind_hi : FramedChannel Script
behind_hi = record hi { stream = play (byte 9 ∷ []); header = 0 ∷ 0 ∷ 0 ∷ 2 ∷ [] }

hi_waits :
    start io hi
    ≡ Poll.pending (in_payload 2) (record hi {
      stream = play (byte b'h' ∷ pause ∷ byte b'i' ∷ byte 9 ∷ []);
      header = 0 ∷ 0 ∷ 0 ∷ 2 ∷ [];
      header_filled = 4;
      payload = 0 ∷ 0 ∷ [];
    })
unfolding start header_loop header_read after_header payload_loop payload_read from_be_bytes
    write_at resize
hi_waits = refl

hi_comes : drive io (true ∷ false ∷ []) (start io hi) ≡ Poll.ready (ok (codes "hi")) behind_hi
unfolding start resume header_loop header_read after_header payload_loop payload_read from_be_bytes
    write_at resize drive
hi_comes = refl

-- A peer that announces 17 bytes against a limit of 16 poisons the channel.
announces_17 :
    start io (fresh (play (script_of (0 ∷ 0 ∷ 0 ∷ 17 ∷ []))) 16)
    ≡ Poll.ready (err (oversized 17 16)) (record (fresh (play []) 16) {
      header = 0 ∷ 0 ∷ 0 ∷ 17 ∷ [];
      header_filled = 4;
      poisoned = true;
    })
unfolding start header_loop header_read after_header payload_loop payload_read from_be_bytes
    write_at show_nat
announces_17 = refl

-- The end of the stream inside of a frame, and between frames.
ends_mid_frame :
    start io (fresh (play (script_of (0 ∷ 0 ∷ []))) 16)
    ≡ Poll.ready
        (err mid_frame)
        (record (fresh (play []) 16) { header_filled = 2; poisoned = true })
unfolding start header_loop header_read after_header payload_loop payload_read from_be_bytes
    write_at
ends_mid_frame = refl

ends_between_frames :
    start io (fresh (play []) 16) ≡ Poll.ready (err RecvError.closed) (fresh (play []) 16)
unfolding start header_loop header_read
ends_between_frames = refl

sends_hi :
    send io (codes "hi") (fresh (play []) 2)
    ≡ (ok tt, fresh (record { inbox = []; out = 0 ∷ 0 ∷ 0 ∷ 2 ∷ codes "hi"; faults = [] }) 2)
unfolding send prefix_sent payload_sent flushed to_be_bytes
sends_hi = refl

refuses_hi :
    send io (codes "hi") (fresh (play []) 1) ≡ (err (SendError.too_large 1), fresh (play []) 1)
unfolding send
refuses_hi = refl

hi-IsValid : IsValid hi
hi-IsValid = InHeader-IsValid (fresh-InHeader (play dribble) 16 (omega arith))

start-Decodes_example : Decodes io (input io.unread hi) 16 (start io hi)
start-Decodes_example = start-Decodes io hi hi-IsValid refl

drive-WithinLimit_example : WithinLimit io 16 (drive io (true ∷ true ∷ []) (start io hi))
drive-WithinLimit_example = drive-WithinLimit io (true ∷ true ∷ []) hi hi-IsValid refl

drive-Decodes_example :
    Decodes io (input io.unread hi) 16 (drive io (true ∷ true ∷ []) (start io hi))
drive-Decodes_example = drive-Decodes io (true ∷ true ∷ []) hi hi-IsValid refl

recv_cancel_safe_example :
    drive io (true ∷ true ∷ []) (start io hi) ≡ drive io (false ∷ false ∷ []) (start io hi)
recv_cancel_safe_example = recv_cancel_safe io (true ∷ true ∷ []) hi hi-IsValid refl

hi_due : input io.unread hi ≡ frame (codes "hi") ++ 9 ∷ []
unfolding to_be_bytes
hi_due = refl

recv-Returns_example :
    Returns io IsLive wakes_script up
      (codes "hi")
      (9 ∷ [])
      16
      2
      (drive io (true ∷ false ∷ []) (start io hi))
recv-Returns_example =
    recv-Returns io IsLive wakes_script up (true ∷ false ∷ []) (codes "hi") (9 ∷ []) hi tt
      (omega arith) hi-IsValid refl (omega arith) hi_due

-- Two messages, one of them empty, through a pipe that stops in the middle.
abbrev two : List Bytes
two = codes "a" ∷ [] ∷ []

abbrev wire : List Event
wire =
    byte 0 ∷ byte 0 ∷ byte 0 ∷ pause ∷ byte 1 ∷ byte b'a' ∷ byte 0 ∷ byte 0 ∷ byte 0 ∷ byte 0 ∷ []

abbrev sender : FramedChannel Script
sender = fresh (play []) 16

abbrev sent : FramedChannel Script
sent =
    fresh (record { inbox = []; out = 0 ∷ 0 ∷ 0 ∷ 1 ∷ b'a' ∷ 0 ∷ 0 ∷ 0 ∷ 0 ∷ []; faults = [] }) 16

abbrev receiver : FramedChannel Script
receiver = fresh (play wire) 16

sends_two : send_all io two sender ≡ some sent
unfolding send_all send prefix_sent payload_sent flushed to_be_bytes
sends_two = refl

pipe_delivers_example :
    (b' : FramedChannel Script) × (recv_all io ((true ∷ []) ∷ (false ∷ []) ∷ []) receiver
      ≡ some (two, b'))
    × (input io.unread b' ≡ [])
pipe_delivers_example =
    pipe_delivers io io IsLive wakes_script up two ((true ∷ []) ∷ (false ∷ []) ∷ []) sender sent
      receiver sends_two refl refl refl
      (InHeader-IsValid (fresh-InHeader (play wire) 16 (omega arith))) refl tt (omega arith)
