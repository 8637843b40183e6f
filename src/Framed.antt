-- ===== src/Framed.antt =====
-- crates/fungi-transport/src/framed.rs: a channel over a byte stream, with a 4-byte big-endian length
-- in front of each message. The stream is the parameter `io`. A `recv` future is polled: `start` is
-- the first poll of a new future, `resume` a later one, at the read where it waits. To cancel a `recv`
-- is to drop that read's place (`Point`) and to `start` anew on the same channel.
pub mod Prefix
pub mod Buffer
pub mod Send
pub mod Invariant
pub mod Decode
pub mod Cancel
pub mod Lasts
pub mod Live
pub mod Pipe
pub mod Tests
use fungi_transport_ci_test.Prelude.{
  ℕ, zero, suc, ◌+◌, ◌-◌, ◌*◌, ◌/◌, ◌%◌, ◌^◌, [], ◌∷◌, ◌++◌, length, take, drop, replicate, Bool,
  true, false, Option, none, some, Result, ok, err, ltb, ◌==◌, if◌then◌else◌,
}
use fungi_transport_ci_test.Text.{Bytes, Text, codes, show_nat}
use fungi_transport_ci_test.Errors.{
  SendError, RecvError, IoError, IoErrorKind, broken_pipe, connection_reset, connection_aborted,
  unexpected_eof, write_zero, other_kind, box_io, box_text,
}
use fungi_transport_ci_test.Io.{ByteStream, ReadPoll, WriteDone}

abbrev pub default_max_msg_len : ℕ
default_max_msg_len = 1024 * 1024

pub record FramedChannel (S : Type 0) : Type 0 where
  pub stream : S
  pub max_msg_len : ℕ
  pub header : Bytes
  pub header_filled : ℕ
  pub payload : Bytes
  pub payload_filled : ℕ
  pub poisoned : Bool

abbrev pub u32_mod : ℕ
u32_mod = 2 ^ 32

-- `u32::to_be_bytes` and `u32::from_be_bytes`.
unfoldable pub to_be_bytes : ℕ → Bytes
to_be_bytes n = (n / 16777216 % 256) ∷ (n / 65536 % 256) ∷ (n / 256 % 256) ∷ (n % 256) ∷ []

unfoldable pub from_be_bytes : Bytes → ℕ
from_be_bytes (a ∷ b ∷ c ∷ d ∷ []) = ((a * 256 + b) * 256 + c) * 256 + d
from_be_bytes _ = 0

-- What a read into `v[at..]` leaves in `v`.
unfoldable pub write_at : Bytes → ℕ → Bytes → Bytes
write_at v at bs = take at v ++ (bs ++ drop (at + length bs) v)

-- `Vec::resize(n, 0)`.
unfoldable pub resize : Bytes → ℕ → Bytes
resize v n = take n v ++ replicate (n - length v) 0

-- A channel that has read nothing yet.
abbrev pub fresh : {S : Type 0} → S → ℕ → FramedChannel S
fresh stream max = record {
  stream = stream;
  max_msg_len = max;
  header = 0 ∷ 0 ∷ 0 ∷ 0 ∷ [];
  header_filled = 0;
  payload = [];
  payload_filled = 0;
  poisoned = false;
}

-- `FramedChannel::new`; `none` is its panic.
unfoldable pub new : {S : Type 0} → S → ℕ → Option (FramedChannel S)
new stream max = if ltb max u32_mod then some (fresh stream max) else none

abbrev send_kind : IoError → IoErrorKind → SendError
send_kind e broken_pipe = SendError.closed
send_kind e connection_reset = SendError.closed
send_kind e connection_aborted = SendError.closed
send_kind e unexpected_eof = SendError.closed
send_kind e write_zero = SendError.closed
send_kind e (other_kind n) = SendError.transport (box_io e)

unfoldable pub map_send_io : IoError → SendError
map_send_io e = send_kind e e.kind

abbrev pub recv_kind : IoError → IoErrorKind → RecvError
recv_kind e connection_reset = RecvError.closed
recv_kind e connection_aborted = RecvError.closed
recv_kind e _ = RecvError.transport (box_io e)

unfoldable pub map_recv_io : IoError → RecvError
map_recv_io e = recv_kind e e.kind

-- Where a `recv` future waits: at the read of the header, or at that of a payload of this length.
pub data Point : Type 0 where
  in_header : Point
  in_payload : ℕ → Point

-- One poll of a `recv` future. `exhausted` stands for a loop that outlives its fuel: it does not
-- happen (`Decode`).
pub data Poll (S : Type 0) : Type 0 where
  pending : Point → FramedChannel S → Poll S
  ready : Result RecvError Bytes → FramedChannel S → Poll S
  exhausted : Poll S

abbrev pub mid_frame : RecvError
mid_frame = RecvError.transport (box_text (codes "stream ended mid-frame"))

abbrev pub oversized : ℕ → ℕ → RecvError
oversized len max = RecvError.transport (
    box_text (
      codes "peer announced a "
      ++ (show_nat len
          ++ (codes "-byte frame, exceeding the " ++ (show_nat max ++ codes "-byte maximum")))))

abbrev pub fail : {S : Type 0} → RecvError → FramedChannel S → Poll S
fail e c = ready (err e) c

abbrev pub poison : {S : Type 0} → FramedChannel S → FramedChannel S
poison c = record c { poisoned = true }

abbrev pub with_stream : {S : Type 0} → FramedChannel S → S → FramedChannel S
with_stream c s = record c { stream = s }

-- The channel after a read that delivered bytes of the header, or of the payload.
abbrev pub got_header : {S : Type 0} → FramedChannel S → Bytes → S → FramedChannel S
got_header c bs s = record c {
  stream = s;
  header = write_at c.header c.header_filled bs;
  header_filled = c.header_filled + length bs;
}

abbrev pub got_payload : {S : Type 0} → FramedChannel S → Bytes → S → FramedChannel S
got_payload c bs s = record c {
  stream = s;
  payload = write_at c.payload c.payload_filled bs;
  payload_filled = c.payload_filled + length bs;
}

-- The message goes out, and the state is ready for the next frame.
abbrev pub deliver : {S : Type 0} → FramedChannel S → Poll S
deliver c = ready (ok c.payload) (record c { header_filled = 0; payload_filled = 0; payload = [] })

abbrev pub sized : {S : Type 0} → FramedChannel S → ℕ → FramedChannel S
sized c len = if length c.payload == len then c else record c { payload = resize c.payload len }

-- What a loop of `recv_inner` makes of its read; `next` is its next round.
module _ {S : Type 0} (next : FramedChannel S → Poll S) where
  unfoldable pub payload_read : ℕ → FramedChannel S → ReadPoll S → Poll S
  payload_read len c (ReadPoll.pending s) = pending (in_payload len) (with_stream c s)
  payload_read len c (ReadPoll.failed e s) = fail (map_recv_io e) (with_stream c s)
  payload_read len c (ReadPoll.ready [] s) = fail mid_frame (poison (with_stream c s))
  payload_read len c (ReadPoll.ready (b ∷ bs) s) = next (got_payload c (b ∷ bs) s)

  unfoldable pub header_read : FramedChannel S → ReadPoll S → Poll S
  header_read c (ReadPoll.pending s) = pending in_header (with_stream c s)
  header_read c (ReadPoll.failed e s) = fail (map_recv_io e) (with_stream c s)
  header_read c (ReadPoll.ready [] s) =
      if c.header_filled == 0
      then fail RecvError.closed (with_stream c s)
      else fail mid_frame (poison (with_stream c s))
  header_read c (ReadPoll.ready (b ∷ bs) s) = next (got_header c (b ∷ bs) s)

module _ {S : Type 0} (io : ByteStream S) where
  -- The second loop of `recv_inner`, and what is behind it.
  unfoldable pub payload_loop : ℕ → ℕ → FramedChannel S → Poll S
  payload_loop zero len c = exhausted
  payload_loop (suc f) len c =
      if ltb c.payload_filled len
      then payload_read (payload_loop f len) len c
          (io.read (length c.payload - c.payload_filled) c.stream)
      else deliver c

  -- From `let len = …` on: the announced length is checked, and the buffer sized.
  unfoldable pub after_header : FramedChannel S → Poll S
  after_header c =
      let len = from_be_bytes c.header in
      if ltb c.max_msg_len len
      then fail (oversized len c.max_msg_len) (poison c)
      else payload_loop (suc len) len (sized c len)

  -- The first loop of `recv_inner`.
  unfoldable pub header_loop : ℕ → FramedChannel S → Poll S
  header_loop zero c = exhausted
  header_loop (suc f) c =
      if ltb c.header_filled 4
      then header_read (header_loop f) c (io.read (length c.header - c.header_filled) c.stream)
      else after_header c

  -- `recv_inner` from its first line.
  unfoldable pub start : FramedChannel S → Poll S
  start c = if c.poisoned then fail RecvError.closed c else header_loop 5 c

  -- `recv_inner` from the read at which its future waits.
  unfoldable pub resume : Point → FramedChannel S → Poll S
  resume in_header c = header_loop 5 c
  resume (in_payload len) c = payload_loop (suc len) len c

  -- `send_inner` after each of its writes, and from its first line.
  unfoldable pub flushed :
      FramedChannel S → WriteDone S → Result SendError (Unit {0}) × FramedChannel S
  flushed c (WriteDone.done s) = (ok tt, with_stream c s)
  flushed c (WriteDone.failed e s) = (err (map_send_io e), with_stream c s)

  unfoldable pub payload_sent :
      FramedChannel S → WriteDone S → Result SendError (Unit {0}) × FramedChannel S
  unfolding flushed
  payload_sent c (WriteDone.done s) = flushed c (io.flush s)
  payload_sent c (WriteDone.failed e s) = (err (map_send_io e), with_stream c s)

  unfoldable pub prefix_sent :
      Bytes → FramedChannel S → WriteDone S → Result SendError (Unit {0}) × FramedChannel S
  unfolding payload_sent
  prefix_sent msg c (WriteDone.done s) = payload_sent c (io.write_all msg s)
  prefix_sent msg c (WriteDone.failed e s) = (err (map_send_io e), with_stream c s)

  unfoldable pub send : Bytes → FramedChannel S → Result SendError (Unit {0}) × FramedChannel S
  unfolding prefix_sent
  send msg c =
      if ltb c.max_msg_len (length msg)
      then (err (SendError.too_large c.max_msg_len), c)
      else prefix_sent msg c (io.write_all (to_be_bytes (length msg % u32_mod)) c.stream)
