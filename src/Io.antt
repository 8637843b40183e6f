-- ===== src/Io.antt =====
-- The byte streams that the code reads and writes through tokio (`AsyncReadExt`, `AsyncWriteExt`):
-- operations that the program does not implement, with what their documentation promises.
-- `unread` and `written` are not operations: they are the bytes that the peer has sent and that are
-- not read yet, and the bytes that have gone out.
pub mod Script
pub mod Socket
pub mod Lines
use fungi_transport_ci_test.Prelude.{ℕ, ◌≤◌, ◌<◌, ◌≡◌, [], ◌++◌, length, All, List}
use fungi_transport_ci_test.Text.{Bytes}
use fungi_transport_ci_test.Errors.{IoError}

abbrev pub IsByte : ℕ → Type 0
IsByte b = b < 256

-- What one poll of `read` on a buffer yields. No bytes means the end of the stream.
pub data ReadPoll (S : Type 0) : Type 0 where
  pending : S → ReadPoll S
  ready : Bytes → S → ReadPoll S
  failed : IoError → S → ReadPoll S

-- How an awaited `write_all` or `flush` ends.
pub data WriteDone (S : Type 0) : Type 0 where
  done : S → WriteDone S
  failed : IoError → S → WriteDone S

-- In these laws `u` and `w` are the bytes unread and written before the call.
module _ {S : Type 0} (unread written : S → Bytes) where
  -- A read into `n` bytes delivers at most `n` of the bytes that are next, in order; with room in
  -- the buffer it delivers none only at the end. A read that is pending or fails takes nothing.
  abbrev pub Reads : Bytes → Bytes → ℕ → ReadPoll S → Type 0
  Reads u w n (ReadPoll.pending s') = (unread s' ≡ u) × (written s' ≡ w)
  Reads u w n (ReadPoll.failed e s') = (unread s' ≡ u) × (written s' ≡ w)
  Reads u w n (ReadPoll.ready bs s') =
      (u ≡ bs ++ unread s')
      × (written s' ≡ w)
      × (length bs ≤ n)
      × All IsByte bs
      × (bs ≡ [] → 0 < n → u ≡ [])

  -- A write that succeeds puts out all its bytes, one that fails a prefix of them.
  abbrev pub Writes : Bytes → Bytes → Bytes → WriteDone S → Type 0
  Writes u w bs (WriteDone.done s') = (written s' ≡ w ++ bs) × (unread s' ≡ u)
  Writes u w bs (WriteDone.failed e s') =
      (sent rest : Bytes) × (bs ≡ sent ++ rest) × (written s' ≡ w ++ sent) × (unread s' ≡ u)

  -- A flush puts out nothing new.
  abbrev pub Flushes : Bytes → Bytes → WriteDone S → Type 0
  Flushes u w (WriteDone.done s') = (written s' ≡ w) × (unread s' ≡ u)
  Flushes u w (WriteDone.failed e s') = (written s' ≡ w) × (unread s' ≡ u)

pub record ByteStream (S : Type 0) : Type 0 where
  pub read : ℕ → S → ReadPoll S
  pub write_all : Bytes → S → WriteDone S
  pub flush : S → WriteDone S
  pub unread : S → Bytes
  pub written : S → Bytes
  pub read_law : (n : ℕ) (s : S) → Reads unread written (unread s) (written s) n (read n s)
  pub write_law :
      (bs : Bytes) (s : S) → Writes unread written (unread s) (written s) bs (write_all bs s)
  pub flush_law : (s : S) → Flushes unread written (unread s) (written s) (flush s)

-- A stream whose peer keeps the connection up (`Live`): reads do not fail, and `wakes` bounds how
-- often one can still be pending.
abbrev pub Delivers : {S : Type 0} → (S → Type 0) → (S → ℕ) → ℕ → ReadPoll S → Type 0
Delivers Live wakes k (ReadPoll.pending s') = Live s' × (wakes s' < k)
Delivers Live wakes k (ReadPoll.ready bs s') = Live s' × (wakes s' ≤ k)
Delivers Live wakes k (ReadPoll.failed e s') = ⊥
