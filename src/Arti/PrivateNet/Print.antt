-- ===== src/Arti/PrivateNet/Print.antt =====
-- Descriptors of private networks as they are written, and `PrivateNet::parse` on them.
use fungi_transport_ci_test.Prelude.{
  ℕ, ◌+◌, ◌≡◌, ◌≢◌, refl, ap, ◌∙◌, List, [], ◌∷◌, ◌++◌, All, ok, ◌>>=◌, true, if-true, append_assoc,
  append-nil,
}
use fungi_transport_ci_test.Text.{
  Text, codes, lines, trim, is_whitespace, text_eq, lines-append, IsLine, IsWord, trim_end,
  before_trimmed, IsSolid,
}
use fungi_transport_ci_test.Text.Words.{join, split_whitespace-join, trim-join, join-IsLine}
use fungi_transport_ci_test.Arti.PrivateNet.{
  Authority, Fallback, PrivateNet, all_hex, push_authority, push_fallback, directive, parse_line,
  parse_lines, not_empty, no_net, parse,
}

-- What a line of a descriptor says.
pub data Entry : Type 0 where
  comment : Text → Entry
  blank : Entry
  authority : Authority → Entry
  fallback : Fallback → Entry

abbrev pub authority_words : Authority → List Text
authority_words a = codes "authority" ∷ a.name ∷ a.v3ident ∷ []

abbrev pub fallback_words : Fallback → List Text
fallback_words f = codes "fallback" ∷ f.rsa ∷ f.ed ∷ f.orport ∷ []

unfoldable pub show_entry : Entry → Text
show_entry (comment t) = b'#' ∷ t
show_entry blank = []
show_entry (authority a) = join (authority_words a)
show_entry (fallback f) = join (fallback_words f)

unfoldable pub show_entries : List Entry → Text
unfolding show_entry
show_entries [] = []
show_entries (e ∷ es) = show_entry e ++ 10 ∷ show_entries es

abbrev pub IsAuthority : Authority → Type 0
IsAuthority a = IsWord a.name × IsWord a.v3ident × (all_hex a.v3ident ≡ true)

abbrev pub IsFallback : Fallback → Type 0
IsFallback f = IsWord f.rsa × IsWord f.ed × IsWord f.orport

abbrev pub IsEntry : Entry → Type 0
IsEntry (comment t) = IsLine t
IsEntry blank = Unit
IsEntry (authority a) = IsAuthority a
IsEntry (fallback f) = IsFallback f

-- The authorities and the fallback caches that entries name, in order.
abbrev pub authorities_of : List Entry → List Authority
authorities_of [] = []
authorities_of (authority a ∷ es) = a ∷ authorities_of es
authorities_of (_ ∷ es) = authorities_of es

abbrev pub fallbacks_of : List Entry → List Fallback
fallbacks_of [] = []
fallbacks_of (fallback f ∷ es) = f ∷ fallbacks_of es
fallbacks_of (_ ∷ es) = fallbacks_of es

-- The network that entries describe.
abbrev pub net_of : List Entry → PrivateNet
net_of es = record { authorities = authorities_of es; fallbacks = fallbacks_of es }

unfoldable pub add_entry : Entry → PrivateNet → PrivateNet
unfolding push_authority push_fallback
add_entry (comment t) net = net
add_entry blank net = net
add_entry (authority a) net = push_authority a.name a.v3ident net
add_entry (fallback f) net = push_fallback f.rsa f.ed f.orport net

-- The parser's steps over entries, from `net` on.
unfoldable pub add_entries : List Entry → PrivateNet → PrivateNet
unfolding add_entry
add_entries [] net = net
add_entries (e ∷ es) net = add_entries es (add_entry e net)

add_entries_lem :
    (es : List Entry) (net : PrivateNet)
    → add_entries es net ≡ record {
      authorities = net.authorities ++ authorities_of es;
      fallbacks = net.fallbacks ++ fallbacks_of es;
    }
unfolding add_entries add_entry push_authority push_fallback
add_entries_lem [] net = rw (append-nil net.authorities, append-nil net.fallbacks) refl
add_entries_lem (comment t ∷ es) net = add_entries_lem es net
add_entries_lem (blank ∷ es) net = add_entries_lem es net
add_entries_lem (authority a ∷ es) net =
    add_entries_lem es (push_authority a.name a.v3ident net)
    ∙ ap (λ xs. record { authorities = xs; fallbacks = net.fallbacks ++ fallbacks_of es })
        (append_assoc net.authorities (a ∷ []) (authorities_of es))
add_entries_lem (fallback f ∷ es) net =
    add_entries_lem es (push_fallback f.rsa f.ed f.orport net)
    ∙ ap (λ xs. record { authorities = net.authorities ++ authorities_of es; fallbacks = xs })
        (append_assoc net.fallbacks (f ∷ []) (fallbacks_of es))

authority_words-IsWord : (a : Authority) → IsAuthority a → All IsWord (authority_words a)
unfolding is_whitespace
authority_words-IsWord a h = (((λ e. cc), literal), (h.0, (h.1, tt)))
  where
    literal : All IsSolid (codes "authority")
    literal = (refl, (refl, (refl, (refl, (refl, (refl, (refl, (refl, (refl, tt)))))))))

fallback_words-IsWord : (f : Fallback) → IsFallback f → All IsWord (fallback_words f)
unfolding is_whitespace
fallback_words-IsWord f h = (((λ e. cc), literal), (h.0, (h.1, (h.2, tt))))
  where
    literal : All IsSolid (codes "fallback")
    literal = (refl, (refl, (refl, (refl, (refl, (refl, (refl, (refl, tt))))))))

show_entry-IsLine : (e : Entry) → IsEntry e → IsLine (show_entry e)
unfolding show_entry
show_entry-IsLine (comment t) h = ((refl, refl), h)
show_entry-IsLine blank h = tt
show_entry-IsLine (authority a) h = join-IsLine (authority_words a) (authority_words-IsWord a h)
show_entry-IsLine (fallback f) h = join-IsLine (fallback_words f) (fallback_words-IsWord f h)

parse_line-hash :
    (n : ℕ) (s : Text) (net : PrivateNet) → parse_line n (before_trimmed b'#' s) net ≡ ok net
unfolding parse_line is_whitespace
parse_line-hash n [] net = refl
parse_line-hash n (c ∷ s) net = refl

parse_line-comment :
    (n : ℕ) (t : Text) (net : PrivateNet) → parse_line n (trim (b'#' ∷ t)) net ≡ ok net
unfolding trim trim_end is_whitespace
parse_line-comment n t net = parse_line-hash n (trim_end t) net

parse_line-blank : (n : ℕ) (net : PrivateNet) → parse_line n (trim []) net ≡ ok net
unfolding trim trim_end parse_line
parse_line-blank n net = refl

parse_line-show_entry :
    (n : ℕ) (e : Entry) (net : PrivateNet)
    → IsEntry e
    → parse_line n (trim (show_entry e)) net ≡ ok (add_entry e net)
unfolding show_entry parse_line directive text_eq add_entry
parse_line-show_entry n (comment t) net h = parse_line-comment n t net
parse_line-show_entry n blank net h = parse_line-blank n net
parse_line-show_entry n (authority a) net h =
    ap (λ t. parse_line n t net) (trim-join (authority_words a) (authority_words-IsWord a h))
    ∙ ap (λ ws. directive n ws net)
        (split_whitespace-join (authority_words a) (authority_words-IsWord a h))
    ∙ if-true _ _ _ h.2
parse_line-show_entry n (fallback f) net h =
    ap (λ t. parse_line n t net) (trim-join (fallback_words f) (fallback_words-IsWord f h))
    ∙ ap (λ ws. directive n ws net)
        (split_whitespace-join (fallback_words f) (fallback_words-IsWord f h))

parse_lines-show_entries :
    (n : ℕ) (es : List Entry) (net : PrivateNet)
    → All IsEntry es
    → parse_lines n (lines (show_entries es)) net ≡ ok (add_entries es net)
unfolding show_entries parse_lines add_entries lines
parse_lines-show_entries n [] net h = refl
parse_lines-show_entries n (e ∷ es) net h =
    ap (λ ls. parse_lines n ls net)
      (lines-append (show_entry e) (show_entries es) (show_entry-IsLine e h.0))
    ∙ ap (λ r. r >>= parse_lines (n + 1) (lines (show_entries es)))
        (parse_line-show_entry n e net h.0)
    ∙ parse_lines-show_entries (n + 1) es (add_entry e net) h.1

not_empty_lem :
    (xs : List Authority) (fs : List Fallback)
    → xs ≢ []
    → fs ≢ []
    → not_empty xs fs ≡ ok (record { authorities = xs; fallbacks = fs })
unfolding not_empty
not_empty_lem [] fs h k = absurd (h refl)
not_empty_lem (x ∷ xs) [] h k = absurd (k refl)
not_empty_lem (x ∷ xs) (f ∷ fs) h k = refl

-- A descriptor of well-formed authority and fallback lines, comments and blank lines in any order is read
-- as the network with just these authorities and fallback caches, each in the order of its lines, if
-- there is one of both.
pub parse-show_entries :
    (es : List Entry)
    → All IsEntry es
    → authorities_of es ≢ []
    → fallbacks_of es ≢ []
    → parse (show_entries es) ≡ ok (net_of es)
unfolding parse
parse-show_entries es h a f =
    ap (λ r. r >>= λ net. not_empty net.authorities net.fallbacks)
      (parse_lines-show_entries 0 es no_net h ∙ ap ok (add_entries_lem es no_net))
    ∙ not_empty_lem (authorities_of es) (fallbacks_of es) a f
