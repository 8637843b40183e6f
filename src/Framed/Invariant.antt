-- ===== src/Framed/Invariant.antt =====
-- What holds of a channel of framed.rs between its reads.
use fungi_transport_ci_test.Prelude.{
  ℕ, ◌≤◌, ◌<◌, ◌≡◌, ◌≢◌, refl, [], ◌++◌, length, take, All, true, false, ok, err, ◌⊎◌, inl, inr,
  arith,
}
use fungi_transport_ci_test.Text.{Bytes}
use fungi_transport_ci_test.Errors.{
  RecvError, IoError, IoErrorKind, broken_pipe, connection_reset, connection_aborted,
  unexpected_eof, write_zero, other_kind, box_io,
}
use fungi_transport_ci_test.Io.{ByteStream, IsByte, ReadPoll}
use fungi_transport_ci_test.Framed.Prefix.{frame}
use fungi_transport_ci_test.Framed.{
  FramedChannel, Point, in_header, in_payload, Poll, u32_mod, from_be_bytes, to_be_bytes,
  map_recv_io, recv_kind, mid_frame, oversized, fresh,
}

-- The header is four bytes, the limit fits the prefix, and the payload is either not begun or sized
-- to the announced length, which is within the limit.
pub record IsValid {S : Type 0} (c : FramedChannel S) : Type 0 where
  pub header_len : length c.header ≡ 4
  pub header_bytes : All IsByte c.header
  pub header_room : c.header_filled ≤ 4
  pub limit : c.max_msg_len < u32_mod
  pub payload_state :
      ((c.payload ≡ []) × (c.payload_filled ≡ 0))
      ⊎ ((c.header_filled ≡ 4)
          × (length c.payload ≡ from_be_bytes c.header)
          × (c.payload_filled ≤ length c.payload)
          × (length c.payload ≤ c.max_msg_len))

-- The channel is in its second loop, at a payload of `len` bytes.
pub record InPayload {S : Type 0} (len : ℕ) (c : FramedChannel S) : Type 0 where
  pub header_len : length c.header ≡ 4
  pub header_bytes : All IsByte c.header
  pub header_done : c.header_filled ≡ 4
  pub limit : c.max_msg_len < u32_mod
  pub announced : from_be_bytes c.header ≡ len
  pub payload_len : length c.payload ≡ len
  pub room : c.payload_filled ≤ len
  pub bounded : len ≤ c.max_msg_len

-- The channel is in its first loop, or about to enter it.
pub record InHeader {S : Type 0} (c : FramedChannel S) : Type 0 where
  pub header_len : length c.header ≡ 4
  pub header_bytes : All IsByte c.header
  pub header_room : c.header_filled ≤ 4
  pub limit : c.max_msg_len < u32_mod
  pub no_payload : c.payload ≡ []
  pub none_filled : c.payload_filled ≡ 0

abbrev pub AtPoint : {S : Type 0} → Point → FramedChannel S → Type 0
AtPoint in_header c = InHeader c × (c.header_filled < 4)
AtPoint (in_payload len) c = InPayload len c × (c.payload_filled < len)

module _ {S : Type 0} (unread : S → Bytes) where
  -- The bytes from the start of the current frame on: those in the buffers, then those to come.
  abbrev pub input : FramedChannel S → Bytes
  input c = take c.header_filled c.header ++ (take c.payload_filled c.payload ++ unread c.stream)

-- How an error of the stream is reported: a connection that is gone is a close.
abbrev pub Reports : IoErrorKind → IoError → RecvError → Type 0
Reports connection_reset x e = e ≡ RecvError.closed
Reports connection_aborted x e = e ≡ RecvError.closed
Reports _ x e = e ≡ RecvError.transport (box_io x)

pub map_recv_io-Reports : (x : IoError) → Reports x.kind x (map_recv_io x)
unfolding map_recv_io
map_recv_io-Reports x = by_kind x.kind
  where
    by_kind : (k : IoErrorKind) → Reports k x (recv_kind x k)
    by_kind broken_pipe = refl
    by_kind connection_reset = refl
    by_kind connection_aborted = refl
    by_kind unexpected_eof = refl
    by_kind write_zero = refl
    by_kind (other_kind n) = refl

-- A frame that ends too soon.
abbrev pub Truncated : Bytes → Type 0
Truncated u =
    (u ≢ [])
    × ((length u < 4)
        ⊎ ((h rest : Bytes) × (u ≡ h ++ rest) × (length h ≡ 4) × (length rest < from_be_bytes h)))

module _ {S : Type 0} (io : ByteStream S) where
  -- The stream of `c` comes out of a read that failed by just this error.
  abbrev pub FailedRead : IoError → FramedChannel S → Type 0
  FailedRead x c = (n : ℕ) × (s : S) × (io.read n s ≡ ReadPoll.failed x c.stream)

  -- Why a `recv` on the input `u` fails, and how it leaves the channel.
  pub data Failure (u : Bytes) (max : ℕ) (e : RecvError) (c : FramedChannel S) : Type 0 where
    broken :
        (x : IoError)
        → FailedRead x c
        → Reports x.kind x e
        → c.poisoned ≡ false
        → input io.unread c ≡ u
        → Failure u max e c
    at_end :
        e ≡ RecvError.closed
        → c.poisoned ≡ false
        → u ≡ []
        → input io.unread c ≡ []
        → Failure u max e c
    cut_short : e ≡ mid_frame → c.poisoned ≡ true → Truncated u → Failure u max e c
    too_long :
        (len : ℕ) (rest : Bytes)
        → e ≡ oversized len max
        → c.poisoned ≡ true
        → u ≡ to_be_bytes len ++ rest
        → max < len
        → len < u32_mod
        → Failure u max e c

  -- What one poll of `recv` does on the input `u`.
  abbrev pub Decodes : Bytes → ℕ → Poll S → Type 0
  Decodes u max (Poll.pending p c) =
      AtPoint p c × (c.max_msg_len ≡ max) × (c.poisoned ≡ false) × (input io.unread c ≡ u)
  Decodes u max (Poll.ready (ok m) c) =
      IsValid c
      × (c.max_msg_len ≡ max)
      × (c.poisoned ≡ false)
      × (length m ≤ max)
      × (u ≡ frame m ++ input io.unread c)
      × (c.header_filled ≡ 0)
  Decodes u max (Poll.ready (err e) c) = IsValid c × (c.max_msg_len ≡ max) × Failure u max e c
  Decodes u max Poll.exhausted = ⊥

pub InHeader-IsValid : {S : Type 0} {c : FramedChannel S} → InHeader c → IsValid c
InHeader-IsValid h = record {
  header_len = h.header_len;
  header_bytes = h.header_bytes;
  header_room = h.header_room;
  limit = h.limit;
  payload_state = inl (h.no_payload, h.none_filled);
}

pub InPayload-IsValid : {S : Type 0} (len : ℕ) {c : FramedChannel S} → InPayload len c → IsValid c
InPayload-IsValid len h = record {
  header_len = h.header_len;
  header_bytes = h.header_bytes;
  header_room = omega arith;
  limit = h.limit;
  payload_state = inr (omega arith, omega arith, omega arith, omega arith);
}

pub fresh-InHeader : {S : Type 0} (s : S) (max : ℕ) → max < u32_mod → InHeader (fresh s max)
fresh-InHeader s max h = ground arith
