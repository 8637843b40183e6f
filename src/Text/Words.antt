-- ===== src/Text/Words.antt =====
-- Words joined by single spaces, and what `trim`, `lines` and `split_whitespace` make of them.
use fungi_transport_ci_test.Prelude.{
  ◌≡◌, ◌≢◌, refl, sym, ap, ◌∙◌, List, [], ◌∷◌, ◌++◌, append-nil, if-false, All, All-append,
}
use fungi_transport_ci_test.Text.Base.{Text}
use fungi_transport_ci_test.Text.Trim.{trim_end}
use fungi_transport_ci_test.Text.Lines.{
  trim, trim_start, split_whitespace, IsWord, IsLine, All-IsSolid-IsLine, split_whitespace-word,
  split_whitespace-append, trim_end-append, trim_end-word,
}

abbrev pub join : List Text → Text
join [] = []
join (w ∷ []) = w
join (w ∷ v ∷ ws) = w ++ 32 ∷ join (v ∷ ws)

pub split_whitespace-join : (ws : List Text) → All IsWord ws → split_whitespace (join ws) ≡ ws
unfolding split_whitespace
split_whitespace-join [] h = refl
split_whitespace-join (w ∷ []) h = split_whitespace-word w h.0
split_whitespace-join (w ∷ v ∷ ws) h =
    split_whitespace-append w (join (v ∷ ws)) h.0 ∙ ap (◌∷◌ w) (split_whitespace-join (v ∷ ws) h.1)

append-ne-nil : (s t : Text) → s ≢ [] → s ++ t ≢ []
append-ne-nil [] t h e = h refl
append-ne-nil (c ∷ s) t h e = cc

join-ne-nil : (w : Text) (ws : List Text) → IsWord w → join (w ∷ ws) ≢ []
join-ne-nil w [] h = h.0
join-ne-nil w (v ∷ ws) h = append-ne-nil w (32 ∷ join (v ∷ ws)) h.0

trim_end-join : (ws : List Text) → All IsWord ws → trim_end (join ws) ≡ join ws
unfolding trim_end
trim_end-join [] h = refl
trim_end-join (w ∷ []) h = trim_end-word w h.0
trim_end-join (w ∷ v ∷ ws) h =
    trim_end-append w (32 ∷ join (v ∷ ws)) (λ e. cc)
      (trim_end-append (32 ∷ []) (join (v ∷ ws)) (join-ne-nil v ws h.1.0)
        (trim_end-join (v ∷ ws) h.1))

trim_start-append : (w t : Text) → IsWord w → trim_start (w ++ t) ≡ w ++ t
unfolding trim_start
trim_start-append [] t h = absurd (h.0 refl)
trim_start-append (c ∷ w) t h = if-false _ _ _ h.1.0

trim_start-join : (ws : List Text) → All IsWord ws → trim_start (join ws) ≡ join ws
unfolding trim_start
trim_start-join [] h = refl
trim_start-join (w ∷ []) h =
    ap trim_start (sym (append-nil w)) ∙ trim_start-append w [] h.0 ∙ append-nil w
trim_start-join (w ∷ v ∷ ws) h = trim_start-append w (32 ∷ join (v ∷ ws)) h.0

pub trim-join : (ws : List Text) → All IsWord ws → trim (join ws) ≡ join ws
unfolding trim
trim-join ws h = ap trim_end (trim_start-join ws h) ∙ trim_end-join ws h

pub join-IsLine : (ws : List Text) → All IsWord ws → IsLine (join ws)
join-IsLine [] h = tt
join-IsLine (w ∷ []) h = All-IsSolid-IsLine w h.0.1
join-IsLine (w ∷ v ∷ ws) h =
    All-append _ w (32 ∷ join (v ∷ ws)) (All-IsSolid-IsLine w h.0.1)
      ((refl, refl), join-IsLine (v ∷ ws) h.1)
