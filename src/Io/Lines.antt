-- ===== src/Io/Lines.antt =====
-- A connection that is read by lines and written in whole strings, as tokio's `BufReader` over a
-- `TcpStream` documents it. A line keeps its end; the end of the stream is the empty line.
use fungi_transport_ci_test.Prelude.{◌≡◌, [], ◌∷◌, ◌++◌, List, Result, ok, err}
use fungi_transport_ci_test.Text.{Bytes, Text}
use fungi_transport_ci_test.Errors.{IoError}

-- In these laws `u` are the lines that are due before the call, and `w` the bytes written.
module _ {S : Type 0} (unread : S → List Text) (written : S → Bytes) where
  -- All the bytes go out, or a prefix of them.
  abbrev pub WritesAll : List Text → Bytes → Bytes → Result IoError (Unit {0}) × S → Type 0
  WritesAll u w bs (ok _, s') = (written s' ≡ w ++ bs) × (unread s' ≡ u)
  WritesAll u w bs (err e, s') =
      (sent rest : Bytes) × (bs ≡ sent ++ rest) × (written s' ≡ w ++ sent) × (unread s' ≡ u)

  -- The next line is read, which is not empty, or nothing is due and the line read is empty.
  abbrev pub ReadsLine : List Text → Bytes → Result IoError Text × S → Type 0
  ReadsLine u w (ok [], s') = (u ≡ []) × (unread s' ≡ []) × (written s' ≡ w)
  ReadsLine u w (ok (c ∷ line), s') = (u ≡ (c ∷ line) ∷ unread s') × (written s' ≡ w)
  ReadsLine u w (err e, s') = (lost : List Text) × (u ≡ lost ++ unread s') × (written s' ≡ w)

pub record LineStream (S : Type 0) : Type 0 where
  pub write_all : Bytes → S → Result IoError (Unit {0}) × S
  pub read_line : S → Result IoError Text × S
  pub unread : S → List Text
  pub written : S → Bytes
  pub write_law :
      (bs : Bytes) (s : S) → WritesAll unread written (unread s) (written s) bs (write_all bs s)
  pub read_law : (s : S) → ReadsLine unread written (unread s) (written s) (read_line s)
