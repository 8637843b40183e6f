-- ===== src/Text/Lines.antt =====
-- `str::lines`, `str::trim`, `str::split_whitespace`, and `str::from_utf8`.
use fungi_transport_ci_test.Prelude.{
  ℕ, zero, suc, ◌+◌, ◌-◌, ◌*◌, ◌≡◌, ◌≢◌, refl, ap, List, [], ◌∷◌, ◌++◌, Bool, false, ◌&&◌, ◌||◌,
  Option, none, some, ltb, leb, ◌==◌, if◌then◌else◌, if-true, if-false, subst, sym, All, arith,
  Bool-cases, inl, inr,
}
use fungi_transport_ci_test.Text.Base.{Text, Bytes}
use fungi_transport_ci_test.Text.Trim.{is_whitespace, trim_end, before_trimmed}

abbrev pub push_front : ℕ → List Text → List Text
push_front c [] = (c ∷ []) ∷ []
push_front c (l ∷ ls) = (c ∷ l) ∷ ls

-- A line ends at `\n` or `\r\n`; the last may end with the text.
unfoldable pub lines : Text → List Text
lines [] = []
lines (c ∷ []) = if c == 10 then [] ∷ [] else (c ∷ []) ∷ []
lines (c ∷ d ∷ s) =
    let rest = lines (d ∷ s) in
    if c == 10 then [] ∷ rest else if (c == 13) && (d == 10) then rest else push_front c rest

unfoldable pub trim_start : Text → Text
trim_start [] = []
trim_start (c ∷ s) = if is_whitespace c then trim_start s else c ∷ s

unfoldable pub trim : Text → Text
unfolding trim_start
trim s = trim_end (trim_start s)

-- The runs of characters that are not white space.
unfoldable pub split_whitespace : Text → List Text
split_whitespace [] = []
split_whitespace (c ∷ []) = if is_whitespace c then [] else (c ∷ []) ∷ []
split_whitespace (c ∷ d ∷ s) =
    let rest = split_whitespace (d ∷ s) in
    if is_whitespace c then rest else if is_whitespace d then (c ∷ []) ∷ rest else push_front c rest

abbrev cons_char : ℕ → Option Text → Option Text
cons_char c none = none
cons_char c (some s) = some (c ∷ s)

-- A scalar value that is not encoded with fewer bytes.
abbrev is_scalar : ℕ → ℕ → Bool
is_scalar least c = leb least c && (ltb c 0xD800 || (ltb 0xDFFF c && ltb c 0x110000))

-- `need` more bytes belong to the character whose first bits are `acc`.
unfoldable pub decode_utf8 : ℕ → ℕ → ℕ → Bytes → Option Text
decode_utf8 zero acc least [] = some []
decode_utf8 (suc need) acc least [] = none
decode_utf8 zero acc least (b ∷ bs) =
    let ascii = cons_char b (decode_utf8 0 0 0 bs) in
    let two = decode_utf8 1 (b - 0xC0) 0x80 bs in
    let three = decode_utf8 2 (b - 0xE0) 0x800 bs in
    let four = decode_utf8 3 (b - 0xF0) 0x10000 bs in
    if ltb b 0x80
    then ascii
    else if ltb b 0xC0
    then none
    else if ltb b 0xE0
    then two
    else if ltb b 0xF0
    then three
    else if ltb b 0xF8
    then four
    else none
decode_utf8 (suc zero) acc least (b ∷ bs) =
    let c = acc * 64 + (b - 0x80) in
    let rest = cons_char c (decode_utf8 0 0 0 bs) in
    if (leb 0x80 b && ltb b 0xC0) && is_scalar least c then rest else none
decode_utf8 (suc (suc need)) acc least (b ∷ bs) =
    let rest = decode_utf8 (suc need) (acc * 64 + (b - 0x80)) least bs in
    if leb 0x80 b && ltb b 0xC0 then rest else none

unfoldable pub from_utf8 : Bytes → Option Text
unfolding decode_utf8
from_utf8 bs = decode_utf8 0 0 0 bs

-- A word: not empty, and with no white space.
abbrev pub IsSolid : ℕ → Type 0
IsSolid c = is_whitespace c ≡ false

abbrev pub IsWord : Text → Type 0
IsWord s = (s ≢ []) × All IsSolid s

solid-ne-lf : (c : ℕ) → IsSolid c → (c == 10) ≡ false
unfolding is_whitespace
solid-ne-lf c h = ground arith

solid-ne-cr : (c : ℕ) → IsSolid c → (c == 13) ≡ false
unfolding is_whitespace
solid-ne-cr c h = ground arith

-- A line with no line break in it.
abbrev pub IsLine : Text → Type 0
IsLine = All (λ c. ((c == 10) ≡ false) × ((c == 13) ≡ false))

pub lines-append : (l rest : Text) → IsLine l → lines (l ++ 10 ∷ rest) ≡ l ∷ lines rest
unfolding lines
lines-append [] [] h = refl
lines-append [] (d ∷ rest) h = refl
lines-append (c ∷ []) rest h = rw (h.0.0, h.0.1) (ap (push_front c) (lines-append [] rest tt))
lines-append (c ∷ d ∷ l) rest h =
    rw (h.0.0, h.0.1) (ap (push_front c) (lines-append (d ∷ l) rest h.1))

pub All-IsSolid-IsLine : (s : Text) → All IsSolid s → IsLine s
All-IsSolid-IsLine [] h = tt
All-IsSolid-IsLine (c ∷ s) h = ((solid-ne-lf c h.0, solid-ne-cr c h.0), All-IsSolid-IsLine s h.1)

pub split_whitespace-word : (s : Text) → IsWord s → split_whitespace s ≡ s ∷ []
unfolding split_whitespace
split_whitespace-word [] h = absurd (h.0 refl)
split_whitespace-word (c ∷ []) h = rw (h.1.0) refl
split_whitespace-word (c ∷ d ∷ s) h =
    rw (h.1.0, h.1.1.0) (ap (push_front c) (split_whitespace-word (d ∷ s) ((λ e. cc), h.1.1)))

pub split_whitespace-append :
    (s rest : Text) → IsWord s → split_whitespace (s ++ 32 ∷ rest) ≡ s ∷ split_whitespace rest
unfolding split_whitespace is_whitespace
split_whitespace-append [] rest h = absurd (h.0 refl)
split_whitespace-append (c ∷ []) [] h = if-false _ _ _ h.1.0
split_whitespace-append (c ∷ []) (d ∷ rest) h = if-false _ _ _ h.1.0
split_whitespace-append (c ∷ d ∷ s) rest h =
    rw (h.1.0, h.1.1.0)
      (ap (push_front c) (split_whitespace-append (d ∷ s) rest ((λ e. cc), h.1.1)))

trim_end-solid : (c : ℕ) (s : Text) → All IsSolid (c ∷ s) → trim_end (c ∷ s) ≡ c ∷ s
unfolding trim_end
trim_end-solid c [] h = if-false _ _ _ h.0
trim_end-solid c (d ∷ s) h = ap (before_trimmed c) (trim_end-solid d s h.1)

-- What stands in front of a text that is trimmed at its end stays.
pub trim_end-append : (s t : Text) → t ≢ [] → trim_end t ≡ t → trim_end (s ++ t) ≡ s ++ t
unfolding trim_end
trim_end-append [] t h e = e
trim_end-append (c ∷ []) [] h e = absurd (h refl)
trim_end-append (c ∷ []) (d ∷ t) h e = ap (before_trimmed c) e
trim_end-append (c ∷ d ∷ s) t h e = ap (before_trimmed c) (trim_end-append (d ∷ s) t h e)

pub trim_end-word : (w : Text) → IsWord w → trim_end w ≡ w
trim_end-word [] h = absurd (h.0 refl)
trim_end-word (c ∷ w) h = trim_end-solid c w h.1

AllWords-push_front :
    (c : ℕ) (ws : List Text) → IsSolid c → All IsWord ws → All IsWord (push_front c ws)
AllWords-push_front c [] h k = (((λ e. cc), (h, tt)), tt)
AllWords-push_front c (w ∷ ws) h k = (((λ e. cc), (h, k.0.1)), k.1)

-- What `split_whitespace` yields are words.
pub split_whitespace-IsWord : (s : Text) → All IsWord (split_whitespace s)
unfolding split_whitespace
split_whitespace-IsWord [] = tt
split_whitespace-IsWord (c ∷ []) = elim (Bool-cases (is_whitespace c)) [
  | inl e ↦ rw e tt
  | inr e ↦ subst (All IsWord) (sym (if-false _ _ _ e)) (((λ x. cc), (e, tt)), tt)
]
split_whitespace-IsWord (c ∷ d ∷ s) =
    let ih = split_whitespace-IsWord (d ∷ s) in
    elim (Bool-cases (is_whitespace c)) [
      | inl e ↦ subst (All IsWord) (sym (if-true _ _ _ e)) ih
      | inr e ↦ subst (All IsWord) (sym (if-false _ _ _ e)) (elim (Bool-cases (is_whitespace d)) [
        | inl k ↦ subst (All IsWord) (sym (if-true _ _ _ k)) (((λ x. cc), (e, tt)), ih)
        | inr k ↦
            subst (All IsWord) (sym (if-false _ _ _ k))
              (AllWords-push_front c (split_whitespace (d ∷ s)) e ih)
      ])
    ]
